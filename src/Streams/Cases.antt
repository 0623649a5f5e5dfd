-- ===== src/Streams/Cases.antt =====
-- The outcomes of the delivery of an event.
use premise_protocol.Base.{
  ◌≡◌, ◌⊎◌, inl, inr, refl, sym, ap, subst, ◌∙◌, arith, Bool, true, false, not, ◌&&◌, ltb, text_eq,
  Option, none, some, Bool-cases, Option-cases, if◌then◌else◌,
}
use premise_protocol.Entries.{some_inj}
use premise_protocol.Events.{is_snapshot}
use premise_protocol.Bursts.{StreamEvent}
use premise_protocol.Streams.{
  PlainEvent, Host, StreamState, Runtime, RepairReason, gap, reordered, conflict,
  delta_before_snapshot, ApplyResult, is_applied, is_duplicate, state_of, plain, is_tenant_id,
  valid_event, stream_repair_required, apply_event, holds_event, seen_event, accept_event,
  receive_event, apply_stream_event,
}

module _ {T S C F J : Type 0} (host : Host T S C F J) where
  abbrev stored : Runtime S C F J → PlainEvent T → S → Runtime S C F J
  stored r e s = record r { store = s; journal = host.audit_event r.journal e }

  pub apply_event_cases :
      (r : Runtime S C F J) (e : PlainEvent T)
      → (apply_event host r e ≡ none)
        ⊎ ((apply_event host r e ≡ some (r, false))
            ⊎ ((s : S) × (apply_event host r e ≡ some (stored r e s, true))))
  unfolding apply_event
  apply_event_cases r e = elim (Bool-cases (host.has_event r.store (host.idempotency_key e.body))) [
    | inl known ↦ inr (inl (ground (arith, known)))
    | inr new ↦ elim (Bool-cases (is_tenant_id e.tenant_id && host.is_valid_body e.body)) [
      | inr bad ↦ inl (ground (arith, new, bad))
      | inl valid ↦ elim (Bool-cases (text_eq e.tenant_id r.tenant_id)) [
        | inr bad ↦ inl (ground (arith, new, valid, bad))
        | inl same ↦ elim (Option-cases (host.append_event r.store e)) [
          | inl fails ↦ inl (ground (arith, new, valid, same, fails))
          | inr (s, takes) ↦ inr (inr (s, ground (arith, new, valid, same, takes)))
        ]
      ]
    ]
  ]

  -- An event changes nothing of the streams when it is put into the store.
  pub apply_event-streams :
      (r : Runtime S C F J) (e : PlainEvent T) (q : Runtime S C F J) (b : Bool)
      → apply_event host r e ≡ some (q, b)
      → (q.stream_states ≡ r.stream_states) × (q.tenant_id ≡ r.tenant_id)
  apply_event-streams r e q b h = elim (apply_event_cases r e) [
    | inl stops ↦ cc
    | inr (inl known) ↦
        let same : q ≡ r = ap (λ (p : Runtime S C F J × Bool). p.0) (some_inj (sym h ∙ known)) in
        (cc, cc)
    | inr (inr (s, new)) ↦
        let same : q ≡ stored r e s =
          ap (λ (p : Runtime S C F J × Bool). p.0) (some_inj (sym h ∙ new)) in
        (
          ap (λ (x : Runtime S C F J). x.stream_states) same,
          ap (λ (x : Runtime S C F J). x.tenant_id) same,
        )
  ]

  abbrev answer : StreamEvent T → Bool → ApplyResult
  answer e b = if b then is_applied e.stream_id e.sequence else is_duplicate e.stream_id e.sequence

  -- The event is next in its stream and comes into what the stream has seen.
  pub record Seen (r : Runtime S C F J) (e : StreamEvent T) (s : StreamState)
      (o : Runtime S C F J × Option ApplyResult) : Type 0 where
    pub entered : Runtime S C F J
    pub is_new : Bool
    pub unseen : s.seen e.sequence ≡ none
    pub is_next : e.sequence ≡ s.next_sequence
    pub begins : (s.has_snapshot ≡ true) ⊎ (is_snapshot e.kind ≡ true)
    pub enters : apply_event host r (plain e) ≡ some (entered, is_new)
    pub outcome : o ≡ (seen_event host entered e s, some (answer e is_new))

  -- A delivery throws, or is a duplicate that the stream has seen, and changes nothing; or it asks for a repair; or it is seen.
  abbrev pub Received :
      Runtime S C F J → StreamEvent T → StreamState → Runtime S C F J × Option ApplyResult → Type 0
  Received r e s o =
      ((o ≡ (r, none))
        ⊎ ((s.seen e.sequence ≡ some (host.fingerprint e))
            × (o ≡ (r, some (is_duplicate e.stream_id e.sequence)))))
      ⊎ (((why : RepairReason) × (o ≡ stream_repair_required host r e why)) ⊎ Seen r e s o)

  accept_event_cases :
      (r : Runtime S C F J) (e : StreamEvent T) (s : StreamState)
      → s.seen e.sequence ≡ none
      → e.sequence ≡ s.next_sequence
      → (s.has_snapshot ≡ true) ⊎ (is_snapshot e.kind ≡ true)
      → Received r e s (accept_event host r e s)
  unfolding accept_event
  accept_event_cases r e s unseen next begins = elim (apply_event_cases r (plain e)) [
    | inl stops ↦ inl (inl (rw (accept_event, stops) refl))
    | inr (inr (t, new)) ↦ inr (
        inr (record {
          entered = stored r (plain e) t;
          is_new = true;
          unseen = unseen;
          is_next = next;
          begins = begins;
          enters = new;
          outcome = rw (accept_event, new) refl;
        }))
    | inr (inl known) ↦ elim (Bool-cases (holds_event host r (plain e))) [
      | inl held ↦ inr (
          inr (record {
            entered = r;
            is_new = false;
            unseen = unseen;
            is_next = next;
            begins = begins;
            enters = known;
            outcome = rw (accept_event, known) (rw (held) refl);
          }))
      | inr differs ↦ inr (inl (conflict, rw (accept_event, known) (rw (differs) refl)))
    ]
  ]

  pub receive_event_cases :
      (r : Runtime S C F J) (e : StreamEvent T) (s : StreamState)
      → Received r e s (receive_event host r e s)
  unfolding receive_event
  receive_event_cases r e s = elim (Option-cases (s.seen e.sequence)) [
    | inr (prior, known) ↦ elim (Bool-cases (text_eq prior (host.fingerprint e))) [
      | inl same ↦
          inl (inr (ground (arith, known, same), rw (receive_event, known) (rw (same) refl)))
      | inr differs ↦ inr (inl (conflict, rw (receive_event, known) (rw (differs) refl)))
    ]
    | inl unseen ↦ elim (Bool-cases (ltb e.sequence s.next_sequence)) [
      | inl early ↦ inr (inl (reordered, rw (receive_event, unseen) (rw (early) refl)))
      | inr not_early ↦ elim (Bool-cases (ltb s.next_sequence e.sequence)) [
        | inl late ↦ inr (inl (gap, rw (receive_event, unseen) (rw (not_early) (rw (late) refl))))
        | inr not_late ↦ elim (Bool-cases (not s.has_snapshot && not (is_snapshot e.kind))) [
          | inl waits ↦ inr (
              inl (
                delta_before_snapshot,
                rw (receive_event, unseen) (rw (not_early) (rw (not_late) (rw (waits) refl))),
              ))
          | inr begins ↦
              subst (Received r e s)
                (sym
                  (rw (receive_event, unseen) (rw (not_early) (rw (not_late) (rw (begins) refl)))))
                (accept_event_cases r e s unseen (ground (arith, not_early, not_late))
                  (ground (arith, begins)))
        ]
      ]
    ]
  ]

  pub apply_stream_event_cases :
      (r : Runtime S C F J) (e : StreamEvent T)
      → Received r e (state_of r.stream_states e.stream_id) (apply_stream_event host r e)
  unfolding apply_stream_event
  apply_stream_event_cases r e = elim (Bool-cases (valid_event host e)) [
    | inr bad ↦ inl (inl (rw (bad) refl))
    | inl valid ↦ elim (Bool-cases (text_eq e.tenant_id r.tenant_id)) [
      | inr foreign ↦ inl (inl (rw (valid) (rw (foreign) refl)))
      | inl same ↦
          rw (valid) (rw (same) (receive_event_cases r e (state_of r.stream_states e.stream_id)))
    ]
  ]
