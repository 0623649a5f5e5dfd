-- ===== src/Streams/Accepted.antt =====
-- Events that follow one another on a stream, over a store that takes them.
use premise_protocol.Base.{
  ℕ, ◌≡◌, ◌≢◌, ◌&&◌, Text, ◌⊎◌, inl, inr, refl, sym, subst, ◌∙◌, arith, List, [], ◌∷◌, All, true,
  false, text_eq, Option, none, some,
}
use premise_protocol.Events.{is_snapshot}
use premise_protocol.Bursts.{StreamEvent}
use premise_protocol.Streams.{
  PlainEvent, Host, StreamState, Runtime, ApplyResult, is_applied, is_duplicate, state_of, plain,
  is_tenant_id, valid_event, apply_event, holds_event, seen_event, accept_event, receive_event,
  apply_stream_event,
}
use premise_protocol.Streams.Window.{Window}

-- A store that takes every valid event under a new key; what it takes under one key leaves what it holds
-- under the others.
pub record Takes {T S C F J : Type 0} (host : Host T S C F J) : Type 0 where
  pub appends :
      (s : S) (e : PlainEvent T)
      → (is_tenant_id e.tenant_id && host.is_valid_body e.body) ≡ true
      → host.has_event s (host.idempotency_key e.body) ≡ false
      → (t : S) × (host.append_event s e ≡ some t)
  pub keeps :
      (s t : S) (e : PlainEvent T) (k : Text)
      → host.append_event s e ≡ some t
      → host.idempotency_key e.body ≢ k
      → (host.has_event t k ≡ host.has_event s k) × (host.get_event t k ≡ host.get_event s k)

module _ {T S C F J : Type 0} (host : Host T S C F J) (takes : Takes host) where
  abbrev pub Answer : ApplyResult → StreamEvent T → Type 0
  Answer o e = (o ≡ is_applied e.stream_id e.sequence) ⊎ (o ≡ is_duplicate e.stream_id e.sequence)

  abbrev pub key_of : StreamEvent T → Text
  key_of e = host.idempotency_key e.body

  -- The store does not know the event's key, or holds this very event under it.
  abbrev pub Unclashing : S → StreamEvent T → Type 0
  Unclashing s e =
      (host.has_event s (key_of e) ≡ false)
      ⊎ ((host.has_event s (key_of e) ≡ true)
          × ((f : PlainEvent T) × (host.get_event s (key_of e) ≡ some f)
              × (host.digest_of f ≡ host.digest_of (plain e))))

  -- The event's key is in the store, and other keys are as they were.
  abbrev pub Leaves : Runtime S C F J → StreamEvent T → Runtime S C F J → Type 0
  Leaves r e p =
      (k : Text)
      → key_of e ≢ k
      → (host.has_event p.store k ≡ host.has_event r.store k)
        × (host.get_event p.store k ≡ host.get_event r.store k)

  -- The event is in the runtime's store and in what its stream has seen; the rest of the streams stays.
  abbrev pub Accepts :
      Runtime S C F J → StreamEvent T → StreamState → Runtime S C F J × Option ApplyResult → Type 0
  Accepts r e s out =
      (p : Runtime S C F J) × (o : ApplyResult) × (out ≡ (seen_event host p e s, some o))
      × Answer o e
      × (p.tenant_id ≡ r.tenant_id)
      × Leaves r e p

  accepts :
      (r : Runtime S C F J) (e : StreamEvent T) (s : StreamState)
      → valid_event host e ≡ true
      → text_eq e.tenant_id r.tenant_id ≡ true
      → Unclashing r.store e
      → Accepts r e s (accept_event host r e s)
  unfolding accept_event apply_event valid_event holds_event
  accepts r e s valid same unclashing = elim unclashing [
    | inr (known, (f, there, equal)) ↦
        let answered : apply_event host r (plain e) ≡ some (r, false) = ground (arith, known) in
        let held : holds_event host r (plain e) ≡ true = ground (arith, there, equal) in
        (
          r,
          is_duplicate e.stream_id e.sequence,
          rw (accept_event, answered) (rw (held) refl),
          inr refl,
          refl,
          λ k ne. (refl, refl),
        )
    | inl new ↦
        let (t, appended) = takes.appends r.store (plain e) (ground (arith, valid)) new in
        let p : Runtime S C F J = record r {
          store = t;
          journal = host.audit_event r.journal (plain e);
        } in
        let answered : apply_event host r (plain e) ≡ some (p, true) =
          ground (arith, new, valid, same, appended) in
        (
          p,
          is_applied e.stream_id e.sequence,
          rw (accept_event, answered) refl,
          inl refl,
          refl,
          λ k ne. takes.keeps r.store t (plain e) k appended ne,
        )
  ]

  -- The next event of a stream is accepted.
  pub Accepts-next :
      (r : Runtime S C F J) (e : StreamEvent T) (a : ℕ)
      → valid_event host e ≡ true
      → text_eq e.tenant_id r.tenant_id ≡ true
      → Unclashing r.store e
      → Window a (state_of r.stream_states e.stream_id)
      → e.sequence ≡ (state_of r.stream_states e.stream_id).next_sequence
      → ((state_of r.stream_states e.stream_id).has_snapshot ≡ true) ⊎ (is_snapshot e.kind ≡ true)
      → Accepts r e (state_of r.stream_states e.stream_id) (apply_stream_event host r e)
  unfolding apply_stream_event receive_event
  Accepts-next r e a valid same unclashing w next begins =
      let s = state_of r.stream_states e.stream_id in
      let unseen : s.seen e.sequence ≡ none = w.sees_only e.sequence (inr (omega (arith, next))) in
      let reaches : apply_stream_event host r e ≡ accept_event host r e s =
        ground (arith, valid, same, unseen, next, begins) in
      subst (Accepts r e s) (sym reaches) (accepts r e s valid same unclashing)

  -- Events under different keys, that do not clash with the store.
  abbrev pub Unshared : Text → List (StreamEvent T) → Type 0
  Unshared k es = All (λ e. k ≢ key_of e) es

  abbrev pub Fresh : S → List (StreamEvent T) → Type 0
  Fresh s [] = Unit
  Fresh s (e ∷ es) = Unclashing s e × Unshared (key_of e) es × Fresh s es

  -- The events that follow still do not clash.
  pub Fresh-next :
      (r p : Runtime S C F J) (e : StreamEvent T) (es : List (StreamEvent T))
      → Leaves r e p
      → Unshared (key_of e) es
      → Fresh r.store es
      → Fresh p.store es
  Fresh-next r p e [] leaves unshared fresh = tt
  Fresh-next r p e (f ∷ es) leaves (ne, unshared) (unclashing, others, fresh) =
      let (has, got) = leaves (key_of f) ne in
      (
        elim unclashing [
          | inl new ↦ inl (has ∙ new)
          | inr (known, (g, there, equal)) ↦ inr (has ∙ known, (g, got ∙ there, equal))
        ],
        others,
        Fresh-next r p e es leaves unshared fresh,
      )
