-- ===== src/Flights/Effects.antt =====
-- What settling a promise, an abort and an answer change.
use premise_protocol.Base.{
  ℕ, ◌≡◌, ◌≢◌, ◌⊎◌, inl, inr, refl, sym, ap, subst, ◌∙◌, true, false, ◌||◌, Option, Dict,
  Bool-cases,
}
use premise_protocol.Flight.{
  Flight, CurrentVersion, UnknownReason, timeout, aborted, fenced, source_unknown, Outcome, Promise,
  pending, resolved, rejected, Answer, answers, fails, Coordinator, Flight-discrete,
}
use premise_protocol.Flights.{
  is_pending, unknown_outcome, settle, raise_flag, abort_as_unknown, is_current, handle,
}
use premise_protocol.Flights.Invariant.{set_self, set_ne}

module _ {T : Type 0} where
  -- All but promises and flags stays.
  abbrev pub Frame : Coordinator T → Coordinator T → Type 0
  Frame s t =
      (s.flights ≡ t.flights)
      × (s.latest_by_resource ≡ t.latest_by_resource)
      × (s.next_fencing_token ≡ t.next_fencing_token)
      × (s.next_identity ≡ t.next_identity)
      × (s.handled ≡ t.handled)

  -- No outcome of the source: rejected, or unknown under the flight's own token.
  abbrev pub Harmless : ℕ → Promise T → Type 0
  Harmless token p =
      (p ≡ rejected) ⊎ ((r : UnknownReason) × (p ≡ resolved (unknown_outcome token r)))

  -- How the promise of a flight may change: not at all; from pending to something harmless; or from
  -- pending to an outcome of the source that is current.
  abbrev pub Change : Dict CurrentVersion → Flight → Promise T → Promise T → Type 0
  Change latest f p q =
      (q ≡ p)
      ⊎ (p ≡ pending)
        × (Harmless f.fencing_token q
            ⊎ ((o : Outcome T) × (q ≡ resolved o)
                × (is_current (latest f.resource_key) f o ≡ true)))

  pub pending_cases : (p : Promise T) → (p ≡ pending) ⊎ (is_pending p ≡ false)
  pending_cases pending = inl refl
  pending_cases (resolved o) = inr refl
  pending_cases rejected = inr refl

  pub settle-Frame : (f : Flight) (p : Promise T) (s : Coordinator T) → Frame s (settle f p s)
  unfolding settle
  settle-Frame f p s = elim (pending_cases (s.promises f)) [
    | inl e ↦ rw (e, settle) (refl, refl, refl, refl, refl)
    | inr e ↦ rw (e, settle) (refl, refl, refl, refl, refl)
  ]

  settle-other :
      (f g : Flight) (p : Promise T) (s : Coordinator T)
      → f ≢ g
      → (settle f p s).promises g ≡ s.promises g
  unfolding settle
  settle-other f g p s n = elim (pending_cases (s.promises f)) [
    | inl e ↦ rw (e, settle) (set_ne s.promises f g p n)
    | inr e ↦ rw (e, settle) refl
  ]

  settle_self :
      (f : Flight) (p : Promise T) (s : Coordinator T)
      → s.promises f ≡ pending
      → (settle f p s).promises f ≡ p
  unfolding settle
  settle_self f p s e = rw (e, settle) (set_self s.promises f p)

  -- Settling with what a flight may become.
  settle-Change :
      (latest : Dict CurrentVersion) (f g : Flight) (p : Promise T) (s : Coordinator T)
      → Harmless f.fencing_token p
        ⊎ ((o : Outcome T) × (p ≡ resolved o) × (is_current (latest f.resource_key) f o ≡ true))
      → Change latest g (s.promises g) ((settle f p s).promises g)
  unfolding settle
  settle-Change latest f g p s h = elim (Flight-discrete f g) [
    | no n ↦ inl (settle-other f g p s n)
    | yes e ↦
        subst (λ x. Change latest x (s.promises x) ((settle f p s).promises x)) e
          (elim (pending_cases (s.promises f)) [
            | inr settled ↦ inl (rw (settled, settle) refl)
            | inl waits ↦ inr (
              waits,
              subst
                  (λ q.
                    Harmless f.fencing_token q
                    ⊎ ((o : Outcome T) × (q ≡ resolved o)
                        × (is_current (latest f.resource_key) f o ≡ true)))
                  (sym (settle_self f p s waits)) h,
            )
          ])
  ]

  raise_flag-Frame :
      (f : Flight) (r : UnknownReason) (s : Coordinator T)
      → Frame s (raise_flag f r s) × (s.promises ≡ (raise_flag f r s).promises)
  raise_flag-Frame f timeout s = ((refl, refl, refl, refl, refl), refl)
  raise_flag-Frame f aborted s = ((refl, refl, refl, refl, refl), refl)
  raise_flag-Frame f fenced s = ((refl, refl, refl, refl, refl), refl)
  raise_flag-Frame f source_unknown s = ((refl, refl, refl, refl, refl), refl)

  Frame-trans : (s t u : Coordinator T) → Frame s t → Frame t u → Frame s u
  Frame-trans s t u (a, b, c, d, e) (v, w, x, y, z) = (a ∙ v, b ∙ w, c ∙ x, d ∙ y, e ∙ z)

  pub abort-Frame :
      (f : Flight) (r : UnknownReason) (s : Coordinator T) → Frame s (abort_as_unknown f r s)
  unfolding abort_as_unknown
  abort-Frame f r s = elim (pending_cases (s.promises f)) [
    | inr e ↦ rw (e, abort_as_unknown) (refl, refl, refl, refl, refl)
    | inl e ↦
        let this : abort_as_unknown f r s
            ≡ settle f (resolved (unknown_outcome f.fencing_token r)) (raise_flag f r s) =
          rw (e, abort_as_unknown) refl in
        subst (λ t. Frame s t) (sym this)
          (Frame-trans s (raise_flag f r s)
            (settle f (resolved (unknown_outcome f.fencing_token r)) (raise_flag f r s))
            (raise_flag-Frame f r s).0
            (settle-Frame f (resolved (unknown_outcome f.fencing_token r)) (raise_flag f r s)))
  ]

  pub abort-Change :
      (latest : Dict CurrentVersion) (f g : Flight) (r : UnknownReason) (s : Coordinator T)
      → Change latest g (s.promises g) ((abort_as_unknown f r s).promises g)
  unfolding abort_as_unknown
  abort-Change latest f g r s = elim (pending_cases (s.promises f)) [
    | inr e ↦ inl (rw (e, abort_as_unknown) refl)
    | inl e ↦
        let this : abort_as_unknown f r s
            ≡ settle f (resolved (unknown_outcome f.fencing_token r)) (raise_flag f r s) =
          rw (e, abort_as_unknown) refl in
        let kept = ap (λ m. m g) (raise_flag-Frame f r s).1 in
        subst (λ t. Change latest g (s.promises g) (t.promises g)) (sym this)
          (subst
            (λ p. Change latest g p (
              (settle f (resolved (unknown_outcome f.fencing_token r)) (raise_flag f r s)).promises
                g))
            (sym kept)
            (settle-Change latest f g (resolved (unknown_outcome f.fencing_token r))
              (raise_flag f r s) (inl (inr (r, refl)))))
  ]

  -- The handlers settle a promise that is pending, and do nothing else.
  handle_cases :
      (f : Flight) (a : Answer T) (s : Coordinator T)
      → (handle f a s ≡ s) × (is_pending (s.promises f) ≡ false)
        ⊎ ((p : Promise T) × (s.promises f ≡ pending)
            × (handle f a s ≡ settle f p s)
            × (Harmless f.fencing_token p
                ⊎ ((o : Outcome T) × (p ≡ resolved o)
                    × (is_current (s.latest_by_resource f.resource_key) f o ≡ true))))
  unfolding handle
  handle_cases f (answers o) s = elim (pending_cases (s.promises f)) [
    | inr e ↦ inl (rw (e, handle) refl, e)
    | inl e ↦ elim (Bool-cases (is_current (s.latest_by_resource f.resource_key) f o)) [
      | inl c ↦ inr (resolved o, e, rw (e, c, handle) refl, inr (o, refl, c))
      | inr c ↦ inr (
        resolved (unknown_outcome f.fencing_token fenced),
        e,
        rw (e, c, handle) refl,
        inl (inr (fenced, refl)),
      )
    ]
  ]
  handle_cases f (fails b) s = elim (pending_cases (s.promises f)) [
    | inr e ↦ inl (rw (e, handle) refl, e)
    | inl e ↦ elim (Bool-cases (s.timeout_triggered f)) [
      | inl t ↦ inr (
        resolved (unknown_outcome f.fencing_token timeout),
        e,
        rw (e, t, handle) refl,
        inl (inr (timeout, refl)),
      )
      | inr t ↦ elim (Bool-cases (s.abort_triggered f || b)) [
        | inl x ↦ inr (
          resolved (unknown_outcome f.fencing_token aborted),
          e,
          rw (e, t, x, handle) refl,
          inl (inr (aborted, refl)),
        )
        | inr x ↦ inr (rejected, e, rw (e, t, x, handle) refl, inl (inl refl))
      ]
    ]
  ]

  pub handle-Frame : (f : Flight) (a : Answer T) (s : Coordinator T) → Frame s (handle f a s)
  handle-Frame f a s = elim (handle_cases f a s) [
    | inl (e, _) ↦ subst (λ t. Frame s t) (sym e) (refl, refl, refl, refl, refl)
    | inr (p, w, e, _) ↦ subst (λ t. Frame s t) (sym e) (settle-Frame f p s)
  ]

  pub handle-Change :
      (f g : Flight) (a : Answer T) (s : Coordinator T)
      → Change s.latest_by_resource g (s.promises g) ((handle f a s).promises g)
  handle-Change f g a s = elim (handle_cases f a s) [
    | inl (e, _) ↦ inl (ap (λ t. t.promises g) e)
    | inr (p, w, e, h) ↦
        subst (λ t. Change s.latest_by_resource g (s.promises g) (t.promises g)) (sym e)
          (settle-Change s.latest_by_resource f g p s h)
  ]

  not_pending :
      (latest : Option CurrentVersion) (p : Promise T) (f : Flight)
      → Harmless f.fencing_token p
        ⊎ ((o : Outcome T) × (p ≡ resolved o) × (is_current latest f o ≡ true))
      → is_pending p ≡ false
  not_pending latest p f (inl (inl e)) = ap is_pending e
  not_pending latest p f (inl (inr (r, e))) = ap is_pending e
  not_pending latest p f (inr (o, e, c)) = ap is_pending e

  -- After the handlers no promise is pending.
  pub handle-settles :
      (f : Flight) (a : Answer T) (s : Coordinator T)
      → is_pending ((handle f a s).promises f) ≡ false
  handle-settles f a s = elim (handle_cases f a s) [
    | inl (e, settled) ↦ ap (λ t. is_pending (t.promises f)) e ∙ settled
    | inr (p, w, e, h) ↦
        ap (λ t. is_pending (t.promises f)) e
        ∙ ap is_pending (settle_self f p s w)
        ∙ not_pending (s.latest_by_resource f.resource_key) p f h
  ]
