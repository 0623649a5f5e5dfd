-- ===== src/Streams/Repaired.antt =====
-- Numbered events of one stream run through a repair.
use premise_protocol.Base.{
  ℕ, suc, ◌+◌, ◌≡◌, ◌⊎◌, inl, inr, refl, sym, ap, subst, ◌∙◌, arith, true, Text, text_eq, Option,
  some, List, [], ◌∷◌, ◌++◌, length, All,
}
use premise_protocol.Events.{is_snapshot}
use premise_protocol.Bursts.{StreamEvent}
use premise_protocol.Bursts.Snapshots.{numbers, sequences}
use premise_protocol.Streams.{
  Host, StreamState, Runtime, ApplyResult, is_applied, is_duplicate, state_of, see, valid_event,
  seen_event, apply_stream_event,
}
use premise_protocol.Streams.Pages.{repair_each}
use premise_protocol.Streams.Window.{Window, see-Window, see-snapshot, state_of-put}
use premise_protocol.Streams.Numbered.{numbered_tail, Starts}
use premise_protocol.Streams.Accepted.{Fresh, Fresh-next, Takes, Accepts-next}

module _ {S C F J : Type 0} where
  -- The stream has seen just the numbers from one up to another.
  pub record Spans (r : Runtime S C F J) (k : Text) (from next : ℕ) : Type 0 where
    pub window : Window from (state_of r.stream_states k)
    pub is_next : (state_of r.stream_states k).next_sequence ≡ next

  abbrev HasSnapshot : Runtime S C F J → Text → Type 0
  HasSnapshot r k = (state_of r.stream_states k).has_snapshot ≡ true

-- A valid event of a tenant and a stream.
abbrev pub Fits : {T S C F J : Type 0} → Host T S C F J → Text → Text → StreamEvent T → Type 0
Fits host t k e = (valid_event host e ≡ true) × (e.stream_id ≡ k) × (text_eq e.tenant_id t ≡ true)

module _ {T S C F J : Type 0} (host : Host T S C F J) (takes : Takes host) where
  -- The stream after an event that is next.
  Spans-next :
      (p r : Runtime S C F J) (e : StreamEvent T) (from n : ℕ)
      → Spans r e.stream_id from n
      → e.sequence ≡ n
      → HasSnapshot r e.stream_id ⊎ (is_snapshot e.kind ≡ true)
      → Spans (seen_event host p e (state_of r.stream_states e.stream_id)) e.stream_id from (suc n)
        × HasSnapshot (seen_event host p e (state_of r.stream_states e.stream_id)) e.stream_id
  unfolding see
  Spans-next p r e from n spans at begins =
      let s = state_of r.stream_states e.stream_id in
      let f = host.fingerprint e in
      let snap = is_snapshot e.kind in
      let next = see s e.sequence f snap in
      let put_next = state_of-put p.stream_states e.stream_id next in
      (
        record {
          window =
              subst (Window from) (sym put_next)
                (see-Window from e.sequence s f snap spans.window (at ∙ sym spans.is_next) begins);
          is_next = ap (λ (t : StreamState). t.next_sequence) put_next ∙ ap suc at;
        },
        ap (λ (t : StreamState). t.has_snapshot) put_next ∙ see-snapshot e.sequence s f snap begins,
      )

  abbrev Ends : Runtime S C F J → Text → ℕ → ℕ → Runtime S C F J × Option (List ℕ × List ℕ) → Type 0
  Ends r k from next out =
      (q : Runtime S C F J) × (b : List ℕ) × (c : List ℕ) × (out ≡ (q, some (b, c)))
      × (Spans q k from next × (q.tenant_id ≡ r.tenant_id))

  later :
      (r p : Runtime S C F J) (k : Text) (from n m : ℕ)
      {out rest : Runtime S C F J × Option (List ℕ × List ℕ)}
      → p.tenant_id ≡ r.tenant_id
      → out ≡ rest
      → Ends p k from (suc n + m) rest
      → Ends r k from (n + suc m) out
  later r p k from n m same e (q, b, c, runs, (spans, tenant)) = (
    q,
    b,
    c,
    e ∙ runs,
    (record { window = spans.window; is_next = omega (arith, spans.is_next) }, tenant ∙ same),
  )

  repair_each-applied :
      (r q : Runtime S C F J) (e : StreamEvent T) (es : List (StreamEvent T)) (k : Text) (n : ℕ)
      (a d : List ℕ)
      → apply_stream_event host r e ≡ (q, some (is_applied k n))
      → repair_each host r a d (e ∷ es) ≡ repair_each host q (a ++ n ∷ []) d es
  unfolding repair_each
  repair_each-applied r q e es k n a d h =
      rw (repair_each, ap (λ x. x.1) h)
        (ap (λ (x : Runtime S C F J). repair_each host x (a ++ n ∷ []) d es) (ap (λ x. x.0) h))

  repair_each-duplicate :
      (r q : Runtime S C F J) (e : StreamEvent T) (es : List (StreamEvent T)) (k : Text) (n : ℕ)
      (a d : List ℕ)
      → apply_stream_event host r e ≡ (q, some (is_duplicate k n))
      → repair_each host r a d (e ∷ es) ≡ repair_each host q a (d ++ n ∷ []) es
  unfolding repair_each
  repair_each-duplicate r q e es k n a d h =
      rw (repair_each, ap (λ x. x.1) h)
        (ap (λ (x : Runtime S C F J). repair_each host x a (d ++ n ∷ []) es) (ap (λ x. x.0) h))

  -- Numbered events of one stream run through, from a snapshot on or after one.
  pub repair_each-Spans :
      (es : List (StreamEvent T)) (r : Runtime S C F J) (k : Text) (from n : ℕ) (a d : List ℕ)
      → All (Fits host r.tenant_id k) es
      → Fresh host takes r.store es
      → sequences es ≡ numbers n (length es)
      → Spans r k from n
      → HasSnapshot r k ⊎ Starts es
      → Ends r k from (n + length es) (repair_each host r a d es)
  unfolding repair_each
  repair_each-Spans [] r k from n a d fits fresh numbered spans begins = (
    r,
    a,
    d,
    refl,
    (record { window = spans.window; is_next = omega (arith, spans.is_next) }, refl),
  )
  repair_each-Spans (e ∷ es) r k from n a d ((valid, on, tenant), fits)
        (unclashing, unshared, fresh) numbered spans begins =
      let (at, numbers_rest) = numbered_tail n e es numbered in
      let here : Spans r e.stream_id from n =
        subst (λ (j : Text). Spans r j from n) (sym on) spans in
      let starts : HasSnapshot r e.stream_id ⊎ (is_snapshot e.kind ≡ true) = elim begins [
        | inl h ↦ inl (subst (λ (j : Text). HasSnapshot r j) (sym on) h)
        | inr h ↦ inr h
      ] in
      let s = state_of r.stream_states e.stream_id in
      let (p, o, out, answer, same, leaves) =
        Accepts-next host takes r e from valid tenant unclashing here.window (at ∙ sym here.is_next)
          starts in
      let q = seen_event host p e s in
      let (spans_q, snapshot_q) = Spans-next p r e from n here at starts in
      let fits_q : All (Fits host q.tenant_id k) es =
        subst (λ (t : Text). All (Fits host t k) es) (sym same) fits in
      let fresh_q : Fresh host takes q.store es =
        Fresh-next host takes r p e es leaves unshared fresh in
      let goes = λ (b c : List ℕ).
        repair_each-Spans es q k from (suc n) b c fits_q fresh_q numbers_rest
          (subst (λ (j : Text). Spans q j from (suc n)) on spans_q)
          (inl (subst (λ (j : Text). HasSnapshot q j) on snapshot_q)) in
      elim answer [
        | inl is_new ↦
            later r q k from n (length es) same
              (repair_each-applied r q e es e.stream_id e.sequence a d
                (out ∙ ap (λ (x : ApplyResult). (q, some x)) is_new))
              (goes (a ++ e.sequence ∷ []) d)
        | inr again ↦
            later r q k from n (length es) same
              (repair_each-duplicate r q e es e.stream_id e.sequence a d
                (out ∙ ap (λ (x : ApplyResult). (q, some x)) again))
              (goes a (d ++ e.sequence ∷ []))
      ]
