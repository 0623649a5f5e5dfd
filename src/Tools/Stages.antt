-- ===== src/Tools/Stages.antt =====
-- What the call of a side effect, its end and the clean-up do to an action in flight.
use premise_protocol.Base.{◌≡◌, ◌⊎◌, inl, inr, refl, Text, some, ◌∷◌, Option-cases}
use premise_protocol.Entries.{lookup, remove}
use premise_protocol.Tools.{IdempotencyStore, ActionResult, ActionReply, Reply, write, complete}
use premise_protocol.Tools.Answers.{Phase, queued, calling, answered, InFlight, GuardedTool}
use premise_protocol.Tools.Guarded.{perform}
use premise_protocol.Tools.Run.{start, store_unavailable, finish, forget}

phase_cases :
    {R : Type 0} (p : Phase R)
    → (p ≡ queued) ⊎ (p ≡ calling) ⊎ ((r : ActionResult R) × (p ≡ answered r))
phase_cases queued = inl refl
phase_cases calling = inr (inl refl)
phase_cases (answered r) = inr (inr (r, refl))

module _ {A R : Type 0} where
  -- An action in flight at a phase.
  abbrev pub At : Text → GuardedTool A R → InFlight A R → Phase R → Type 0
  At key t f p = (lookup key t.in_flight ≡ some f) × (f.phase ≡ p)

  pub start_cases :
      (key : Text) (t : GuardedTool A R)
      → (start key t ≡ t)
        ⊎ ((f : InFlight A R) × At key t f queued
            × (start key t ≡ record t {
              in_flight = write key (record f { phase = calling }) t.in_flight;
              calls = (key, f.request) ∷ t.calls;
            }))
  unfolding start
  start_cases key t = elim (Option-cases (lookup key t.in_flight)) [
    | inl n ↦ inl (rw (n, start) refl)
    | inr (f, l) ↦ elim (phase_cases f.phase) [
      | inl p ↦ inr (f, (l, p), rw (l, p, start) refl)
      | inr (inl p) ↦ inl (rw (l, p, start) refl)
      | inr (inr (r, p)) ↦ inl (rw (l, p, start) refl)
    ]
  ]

  -- The end of a side effect: the result goes into the store, unless that refuses it.
  abbrev pub Completes :
      Text → InFlight A R → IdempotencyStore R → IdempotencyStore R → ActionResult R → Type 0
  Completes key f s u r = (u ≡ s) ⊎ (complete s key f.fingerprint r ≡ some u)

  pub finish_cases :
      (key : Text) (reply : Reply (ActionReply R)) (t : GuardedTool A R)
      → (finish key reply t ≡ t)
        ⊎ ((f : InFlight A R) × (u : IdempotencyStore R) × (r : ActionResult R) × At key t f calling
            × Completes key f t.store u r
            × (finish key reply t ≡ record t {
              store = u;
              in_flight = write key (record f { phase = answered r }) t.in_flight;
            }))
  unfolding finish
  finish_cases key reply t = elim (Option-cases (lookup key t.in_flight)) [
    | inl n ↦ inl (rw (n, finish) refl)
    | inr (f, l) ↦ elim (phase_cases f.phase) [
      | inl p ↦ inl (rw (l, p, finish) refl)
      | inr (inr (r, p)) ↦ inl (rw (l, p, finish) refl)
      | inr (inl p) ↦
          elim (Option-cases (complete t.store key f.fingerprint (perform f.request reply))) [
            | inl c ↦ inr (
              f,
              t.store,
              store_unavailable f.request,
              (l, p),
              inl refl,
              rw (l, p, c, finish) refl,
            )
            | inr (u, c) ↦
                inr (f, u, perform f.request reply, (l, p), inr c, rw (l, p, c, finish) refl)
          ]
    ]
  ]

  pub forget_cases :
      (key : Text) (t : GuardedTool A R)
      → (forget key t ≡ t) ⊎ (forget key t ≡ record t { in_flight = remove key t.in_flight })
  unfolding forget
  forget_cases key t = elim (Option-cases (lookup key t.in_flight)) [
    | inl n ↦ inl (rw (n, forget) refl)
    | inr (f, l) ↦ elim (phase_cases f.phase) [
      | inl p ↦ inl (rw (l, p, forget) refl)
      | inr (inl p) ↦ inl (rw (l, p, forget) refl)
      | inr (inr (r, p)) ↦ inr (rw (l, p, forget) refl)
    ]
  ]
