-- ===== src/Guard/Execute/Choose.antt =====
-- The receipts that the loop over the critical premises selects.
use premise_protocol.Base.{
  ◌≡◌, refl, subst, ◌⊎◌, inl, inr, true, arith, Text, some, List, [], ◌∷◌, Bool-cases, Option-cases,
}
use premise_protocol.Guard.{
  fresh, stale, invalid, unknown, revalidate, reject, incomplete_slice, stale_receipt,
  invalid_receipt, invalid_lease, Receipt, Intent, GuardState, GuardDecision, GuardReason,
  find_receipt, Host, receipt_lease_usable,
}
use premise_protocol.Guard.Execute.{Selection, stops, selects, choose, select}

pub Selection-cases :
    (s : Selection)
    → ((d : GuardDecision) × (e : GuardReason) × (s ≡ stops d e))
      ⊎ ((rs : List Receipt) × (s ≡ selects rs))
Selection-cases (stops d e) = inl (d, e, refl)
Selection-cases (selects rs) = inr (rs, refl)

-- The receipts that the loop selects: for each critical premise, in order, the receipt that the host
-- holds for it, which is valid, fresh and usable with the lease of the action.
abbrev pub Chosen : Host → Intent → List Receipt → List Text → List Receipt → Type 0
Chosen host i receipts [] [] = Unit
Chosen host i receipts [] (r ∷ rs) = ⊥
Chosen host i receipts (p ∷ ps) [] = ⊥
Chosen host i receipts (p ∷ ps) (r ∷ rs) =
    ((find_receipt receipts p ≡ some r)
      × (r.valid ≡ true)
      × (r.state ≡ fresh)
      × (receipt_lease_usable host r i ≡ true))
    × Chosen host i receipts ps rs

state_cases : (s : GuardState) → (s ≡ fresh) ⊎ (s ≡ stale) ⊎ (s ≡ invalid) ⊎ (s ≡ unknown)
state_cases fresh = inl refl
state_cases stale = inr (inl refl)
state_cases invalid = inr (inr (inl refl))
state_cases unknown = inr (inr (inr refl))

choose_cases :
    (host : Host) (i : Intent) (receipts : List Receipt) (p : Text)
    → ((x : GuardDecision × GuardReason) × (choose host i receipts p ≡ inl x))
      ⊎ ((r : Receipt) × (choose host i receipts p ≡ inr r)
          × (find_receipt receipts p ≡ some r)
          × (r.valid ≡ true)
          × (r.state ≡ fresh)
          × (receipt_lease_usable host r i ≡ true))
unfolding choose
choose_cases host i receipts p = elim (Option-cases (find_receipt receipts p)) [
  | inl empty ↦ inl ((reject, incomplete_slice), ground (arith, empty))
  | inr (q, is) ↦ elim (Bool-cases q.valid) [
    | inr bad ↦ inl ((reject, invalid_receipt), ground (arith, is, bad))
    | inl valid ↦ elim (state_cases q.state) [
      | inr (inr (inl bad)) ↦ inl ((reject, invalid_receipt), ground (arith, is, valid, bad))
      | inr (inr (inr bad)) ↦ inl ((reject, invalid_receipt), ground (arith, is, valid, bad))
      | inr (inl old) ↦ inl ((revalidate, stale_receipt), ground (arith, is, valid, old))
      | inl new ↦ elim (Bool-cases (receipt_lease_usable host q i)) [
        | inr bad ↦ inl ((reject, invalid_lease), ground (arith, is, valid, new, bad))
        | inl usable ↦ inr (q, (ground (arith, is, valid, new, usable)), is, valid, new, usable)
      ]
    ]
  ]
]

chosen-inr :
    (host : Host) (i : Intent) (receipts : List Receipt) (p : Text) (r : Receipt)
    → find_receipt receipts p ≡ some r
    → r.valid ≡ true
    → r.state ≡ fresh
    → receipt_lease_usable host r i ≡ true
    → choose host i receipts p ≡ inr r
unfolding choose
chosen-inr host i receipts p r f v s l = ground (arith, f, v, s, l)

pub select-Chosen :
    (host : Host) (i : Intent) (receipts : List Receipt) (ps : List Text) (rs : List Receipt)
    → select host i receipts ps ≡ selects rs
    → Chosen host i receipts ps rs
unfolding select
select-Chosen host i receipts [] [] h = tt
select-Chosen host i receipts [] (r ∷ rs) h = cc
select-Chosen host i receipts (p ∷ ps) rs h = elim (choose_cases host i receipts p) [
  | inl (x, c) ↦ cc
  | inr (r, c, f, v, s, l) ↦ elim (Selection-cases (select host i receipts ps)) [
    | inl (d, e, k) ↦ cc
    | inr (qs, k) ↦
        let same : r ∷ qs ≡ rs = cc in
        subst (Chosen host i receipts (p ∷ ps)) same
          ((f, v, s, l), select-Chosen host i receipts ps qs k)
  ]
]

pub Chosen-select :
    (host : Host) (i : Intent) (receipts : List Receipt) (ps : List Text) (rs : List Receipt)
    → Chosen host i receipts ps rs
    → select host i receipts ps ≡ selects rs
unfolding select
Chosen-select host i receipts [] [] c = refl
Chosen-select host i receipts [] (r ∷ rs) c = elim c [ ]
Chosen-select host i receipts (p ∷ ps) [] c = elim c [ ]
Chosen-select host i receipts (p ∷ ps) (r ∷ rs) ((f, v, s, l), c) =
    let this = chosen-inr host i receipts p r f v s l in
    let rest = Chosen-select host i receipts ps rs c in ground (arith, this, rest)
