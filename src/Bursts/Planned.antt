-- ===== src/Bursts/Planned.antt =====
-- All outcomes of a plan for a burst.
use premise_protocol.Base.{
  ℕ, ◌≡◌, ◌↔◌, ◌⊎◌, inl, inr, refl, sym, ap, subst, ◌∙◌, true, Text, none, List, [], ◌∷◌, ◌++◌,
  length, all, Bool-cases,
}
use premise_protocol.Bursts.{
  StreamEvent, StreamCapability, ordered_events, authoritative_snapshot, delta_events,
  PreservedReason, delta_capability_missing, nothing_to_skip, non_contiguous, capability_missing,
  no_snapshot, coalesced, preserved, has_capability, same_stream, contiguous, plan_at, plan_from,
  plan_stream_burst,
}
use premise_protocol.Bursts.Snapshots.{
  cons_tail, contiguous_lem, latest-Deltas, split_last, same_stream_lem,
}
use premise_protocol.Bursts.Coalesced.{
  MayDrop, plan_at-preserves, plan_at-start, kept_not_dropped, preserved_inj, coalesced_inj, Drops,
  plan_from-at, may_drop,
}

module _ {T : Type 0} where
  abbrev PlanCases : List StreamCapability → StreamEvent T → List (StreamEvent T) → Type 0
  PlanCases capabilities first rest =
      ((r : PreservedReason) × (plan_from capabilities first (first ∷ rest)
          ≡ preserved r (first ∷ rest)))
      ⊎ ((p : List (StreamEvent T)) × (x : StreamEvent T) × (d : List (StreamEvent T)) × (rest
            ≡ p ++ x ∷ d)
          × MayDrop capabilities first p x d)

  -- With a last snapshot that is not the first event, the capability for deltas decides.
  last_cases :
      (capabilities : List StreamCapability) (first : StreamEvent T) (rest : List (StreamEvent T))
      (p : List (StreamEvent T)) (x : StreamEvent T) (d : List (StreamEvent T))
      → rest ≡ p ++ x ∷ d
      → plan_from capabilities first (first ∷ rest)
        ≡ plan_at capabilities first (first ∷ rest) (length (first ∷ p))
      → ((has_capability capabilities delta_events ≡ true) ⊎ (d ≡ [])
          → MayDrop capabilities first p x d)
      → PlanCases capabilities first rest
  last_cases capabilities first rest p x [] e h may = inr (p, x, [], e, may (inr refl))
  last_cases capabilities first rest p x (y ∷ d) e h may =
      elim (Bool-cases (has_capability capabilities delta_events)) [
        | inl can ↦ inr (p, x, y ∷ d, e, may (inl can))
        | inr cannot ↦ inl (
          delta_capability_missing,
          h
              ∙ subst
                  (λ r.
                    plan_at capabilities first (first ∷ r) (length (first ∷ p))
                    ≡ preserved delta_capability_missing (first ∷ r))
                  (sym e) (plan_at-preserves capabilities first p x y d cannot),
        )
      ]

  -- A plan from a first event on keeps all, or drops what it may.
  plan_from_cases :
      (capabilities : List StreamCapability) (first : StreamEvent T) (rest : List (StreamEvent T))
      → PlanCases capabilities first rest
  unfolding plan_from
  plan_from_cases capabilities first rest =
      elim (Bool-cases (all (same_stream first) (first ∷ rest))) [
        | inr a ↦ inl (non_contiguous, rw (a, plan_from) refl)
        | inl a ↦ elim (Bool-cases (contiguous (first ∷ rest))) [
          | inr b ↦ inl (non_contiguous, rw (a, b, plan_from) refl)
          | inl b ↦ elim (Bool-cases (has_capability capabilities ordered_events)) [
            | inr o ↦ inl (capability_missing, rw (a, b, o, plan_from) refl)
            | inl o ↦ elim (Bool-cases (has_capability capabilities authoritative_snapshot)) [
              | inr u ↦ inl (capability_missing, rw (a, b, o, u, plan_from) refl)
              | inl u ↦ elim (split_last (first ∷ rest)) [
                | inl t ↦
                    let latest = latest-Deltas 0 none (first ∷ rest) t in
                    inl (no_snapshot, rw (a, b, o, u, latest, plan_from) refl)
                | inr ([], x, d, e, s, t) ↦ inl (
                  nothing_to_skip,
                  plan_from-at capabilities first [] x d (first ∷ rest) e a b o u s t
                      ∙ plan_at-start capabilities first (first ∷ rest),
                )
                | inr (f ∷ p, x, d, e, s, t) ↦
                    let tail : rest ≡ p ++ x ∷ d = cons_tail e in
                    let here = ap (λ es. first ∷ es) tail in
                    last_cases capabilities first rest p x d tail
                      (plan_from-at capabilities first (first ∷ p) x d (first ∷ rest) here a b o u s
                        t)
                      (λ c. record {
                        one_stream =
                            (same_stream_lem first (first ∷ p ++ x ∷ d)).0
                              (ap (all (same_stream first)) (sym here) ∙ a);
                        numbered =
                            ap (λ ns. first.sequence ∷ ns)
                              ((contiguous_lem first (p ++ x ∷ d)).0
                                (ap contiguous (sym here) ∙ b));
                        is_ordered = o;
                        is_authoritative = u;
                        is_last = s;
                        only_deltas = t;
                        takes_deltas = c;
                      })
              ]
            ]
          ]
        ]
      ]

  -- A plan drops events exactly if the burst is of one stream, numbered without a gap, and has a latest
  -- snapshot after its first event, and the capabilities name ordered events and authoritative snapshots,
  -- and events that are deltas if any come after the snapshot: then it keeps the snapshot and what comes
  -- after it, and names the numbers of the rest. Every other plan keeps the burst as it is.
  pub plan-Drops :
      (capabilities : List StreamCapability) (events : List (StreamEvent T))
      → ((stream tenant : Text) (kept : List (StreamEvent T)) (skipped : List ℕ)
          → (plan_stream_burst capabilities events ≡ coalesced stream tenant kept skipped)
            ↔ Drops capabilities events stream tenant kept skipped)
        × ((r : PreservedReason) (kept : List (StreamEvent T))
            → plan_stream_burst capabilities events ≡ preserved r kept
            → kept ≡ events)
  unfolding plan_stream_burst
  plan-Drops capabilities events = (
    λ stream tenant kept skipped. (
      to events stream tenant kept skipped,
      λ (first, p, x, d, e, k, s, a, b, m).
          ap (plan_stream_burst capabilities) e ∙ may_drop capabilities first p x d m ∙ cc,
    ),
    keeps events,
  )
    where
      to :
          (events : List (StreamEvent T)) (stream tenant : Text) (kept : List (StreamEvent T))
          (skipped : List ℕ)
          → plan_stream_burst capabilities events ≡ coalesced stream tenant kept skipped
          → Drops capabilities events stream tenant kept skipped
      to [] stream tenant kept skipped h = cc
      to (first ∷ rest) stream tenant kept skipped h =
          elim (plan_from_cases capabilities first rest) [
            | inl (r, e) ↦ absurd (kept_not_dropped (sym e ∙ h))
            | inr (p, x, d, e, m) ↦
                let this =
                  ap (λ r. plan_from capabilities first (first ∷ r)) e
                  ∙ may_drop capabilities first p x d m in
                let (a, b, k, s) = coalesced_inj (sym h ∙ this) in
                (first, p, x, d, ap (λ r. first ∷ r) e, k, s, a, b, m)
          ]

      keeps :
          (events : List (StreamEvent T)) (r : PreservedReason) (kept : List (StreamEvent T))
          → plan_stream_burst capabilities events ≡ preserved r kept
          → kept ≡ events
      keeps [] r kept h = cc
      keeps (first ∷ rest) r kept h = elim (plan_from_cases capabilities first rest) [
        | inl (s, e) ↦ preserved_inj (sym h ∙ e)
        | inr (p, x, d, e, m) ↦
            let this =
              ap (λ r. plan_from capabilities first (first ∷ r)) e
              ∙ may_drop capabilities first p x d m in
            absurd (kept_not_dropped (sym h ∙ this))
      ]
