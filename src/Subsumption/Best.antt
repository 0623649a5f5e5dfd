-- ===== src/Subsumption/Best.antt =====
-- What selectSubsumingReceipt answers.
use premise_protocol.Base.{
  ℕ, ◌≡◌, ◌≢◌, inl, inr, refl, sym, ap, subst, ◌∙◌, arith, Text, Option, none, some, List, [], ◌∷◌,
  All,
}
use premise_protocol.Subsumption.{
  Candidate, Requirement, Reason, matches, Host, timestamp, assess, sort, eligible, select,
}
use premise_protocol.Subsumption.Eligible.{assess-Eligible}
use premise_protocol.Subsumption.Chosen.{
  Among, IsOrder, Timed, NotAfter, Sorted, Reason-cases, NotAfter-total, sort-All, All-sort,
  sort-Sorted,
}

timestamp-parses :
    (host : Host) (t : Text) (n : ℕ) → timestamp host t ≡ some n → host.parse_date t ≡ some n
unfolding timestamp
timestamp-parses host t n h = ground (arith, h)

module _ (host : Host) {T : Type 0} where
  -- Among the candidates, and eligible.
  abbrev Good : List (Candidate T) → Requirement → Candidate T → Type 0
  Good cs q c = Among c cs × (assess host c q ≡ matches)

  Good-Timed : (c : Candidate T) (q : Requirement) → assess host c q ≡ matches → Timed host c
  Good-Timed c q h =
      let (w, (now, observed, expires, a, b, d, t), s, i, n) = (assess-Eligible host c q).0 h in
      (
        (observed, timestamp-parses host c.observed_at observed b),
        (expires, timestamp-parses host c.expires_at expires d),
      )

  eligible-yes :
      (c : Candidate T) (cs : List (Candidate T)) (q : Requirement)
      → assess host c q ≡ matches
      → eligible host (c ∷ cs) q ≡ c ∷ eligible host cs q
  unfolding eligible
  eligible-yes c cs q h = rw (h, eligible) refl

  drop_reason :
      (r : Reason) (c : Candidate T) (rest : List (Candidate T))
      → r ≢ matches
      → (elim r [ matches ↦ c ∷ rest | _ ↦ rest ]) ≡ rest
  drop_reason matches c rest n = absurd (n refl)
  drop_reason _ c rest n = refl

  eligible-skips :
      (c : Candidate T) (cs : List (Candidate T)) (q : Requirement)
      → assess host c q ≢ matches
      → eligible host (c ∷ cs) q ≡ eligible host cs q
  unfolding eligible
  eligible-skips c cs q n = drop_reason (assess host c q) c (eligible host cs q) n

  All-map :
      (P Q : Candidate T → Type 0) (cs : List (Candidate T))
      → ((c : Candidate T) → P c → Q c)
      → All P cs
      → All Q cs
  All-map P Q [] f a = tt
  All-map P Q (c ∷ cs) f a = (f c a.0, All-map P Q cs f a.1)

  eligible-Good : (cs : List (Candidate T)) (q : Requirement) → All (Good cs q) (eligible host cs q)
  unfolding eligible
  eligible-Good [] q = tt
  eligible-Good (c ∷ cs) q =
      let rest =
        All-map (Good cs q) (Good (c ∷ cs) q) (eligible host cs q) (λ d (m, h). (inr m, h))
          (eligible-Good cs q) in
      elim (Reason-cases (assess host c q)) [
        | inl h ↦ subst (All (Good (c ∷ cs) q)) (sym (eligible-yes c cs q h)) ((inl refl, h), rest)
        | inr n ↦ subst (All (Good (c ∷ cs) q)) (sym (eligible-skips c cs q n)) rest
      ]

  -- What holds of all that is left holds of every good candidate.
  All-Good :
      (P : Candidate T → Type 0) (cs : List (Candidate T)) (q : Requirement) (d : Candidate T)
      → All P (eligible host cs q)
      → Good cs q d
      → P d
  All-Good P [] q d a (m, h) = absurd m
  All-Good P (c ∷ cs) q d a (m, h) = elim (Reason-cases (assess host c q)) [
    | inl e ↦
        let (p, rest) = subst (All P) (eligible-yes c cs q e) a in
        elim m [ inl this ↦ subst P (sym this) p | inr there ↦ All-Good P cs q d rest (there, h) ]
    | inr n ↦ elim m [
      | inl this ↦ absurd (n (ap (λ x. assess host x q) (sym this) ∙ h))
      | inr there ↦ All-Good P cs q d (subst (All P) (eligible-skips c cs q n) a) (there, h)
    ]
  ]

  Sorted-first :
      (c : Candidate T) (cs : List (Candidate T))
      → NotAfter host c c
      → Sorted host (c ∷ cs)
      → All (NotAfter host c) (c ∷ cs)
  Sorted-first c cs r s = (r, s.0)

  NotAfter-refl : (order : IsOrder host.locale_le) (c : Candidate T) → NotAfter host c c
  NotAfter-refl order c = elim (NotAfter-total host order c c) [ inl h ↦ h | inr h ↦ h ]

  -- The answer is one of the best, by the cases of the sorted list.
  abbrev IsAnswer : List (Candidate T) → Requirement → Option (Candidate T) → Type 0
  IsAnswer cs q none = (d : Candidate T) → Good cs q d → ⊥
  IsAnswer cs q (some c) = Good cs q c × ((d : Candidate T) → Good cs q d → NotAfter host c d)

  first_lem :
      (order : IsOrder host.locale_le) (cs : List (Candidate T)) (q : Requirement)
      (ds : List (Candidate T))
      → ds ≡ sort host (eligible host cs q)
      → IsAnswer cs q (elim ds [ [] ↦ none | c ∷ _ ↦ some c ])
  first_lem order cs q [] e = λ d g.
      All-Good (λ x. ⊥) cs q d
        (All-sort host (λ x. ⊥) (eligible host cs q) (subst (All (λ x. ⊥)) e tt)) g
  first_lem order cs q (c ∷ ds) e =
      let good = eligible-Good cs q in
      let timed =
        All-map (Good cs q) (Timed host) (eligible host cs q) (λ d (m, h). Good-Timed d q h) good in
      let sorted =
        subst (Sorted host) (sym e) (sort-Sorted host order (eligible host cs q) timed) in
      let kept =
        subst (All (Good cs q)) (sym e) (sort-All host (Good cs q) (eligible host cs q) good) in
      (
        kept.0,
        λ d g.
            All-Good (NotAfter host c) cs q d
              (All-sort host (NotAfter host c) (eligible host cs q) (
                subst (All (NotAfter host c)) e (Sorted-first c ds (NotAfter-refl order c) sorted)))
              g,
      )

  -- If the comparison of names is a total order: what is selected is an eligible candidate that comes
  -- after no other eligible one, by newest observation, then latest expiry, then name; and nothing is
  -- selected only if no candidate is eligible.
  pub select-best :
      (order : IsOrder host.locale_le) (cs : List (Candidate T)) (q : Requirement)
      → ((c : Candidate T)
          → select host cs q ≡ some c
          → Among c cs
            × (assess host c q ≡ matches)
            × ((d : Candidate T) → Among d cs → assess host d q ≡ matches → NotAfter host c d))
        × (select host cs q ≡ none → (d : Candidate T) → Among d cs → assess host d q ≢ matches)
  unfolding select
  select-best order cs q =
      let this = first_lem order cs q (sort host (eligible host cs q)) refl in
      (
        (λ c e.
            let ((m, h), best) = subst (IsAnswer cs q) e this in (m, h, λ d n k. best d (n, k))),
        λ e d n k. subst (IsAnswer cs q) e this d (n, k),
      )
