-- ===== src/Guard/Execute/Observed.antt =====
-- completeObservedReceipts: the fresh receipts that a failed CAS hands back.
use premise_protocol.Base.{
  ◌≡◌, refl, sym, ap, ◌∙◌, subst, inl, inr, Bool, true, false, not, ◌&&◌, arith, Text,
  Text-discrete, Option, none, some, List, [], ◌∷◌, All, Option-cases,
}
use premise_protocol.Guard.{Receipt, contains, premise_ids, find_receipt}
use premise_protocol.Guard.Execute.{
  acceptable, same_artifacts, all_acceptable, in_order, complete_observed_receipts,
}

-- New evidence for one premise: acceptable by itself, and with the artifacts of the receipt before.
abbrev pub IsRenewal : List Receipt → Receipt → Type 0
IsRenewal previous r =
    (acceptable r ≡ true)
    × ((prior : Receipt) × (find_receipt previous r.premise_id ≡ some prior)
        × (same_artifacts r prior ≡ true))

some_inj : {A : Type 0} {x y : A} → some x ≡ some y → x ≡ y
some_inj e = cc

later_wins :
    (q : Receipt) (qs : List Receipt) (p : Text) (later r : Receipt)
    → find_receipt qs p ≡ some later
    → find_receipt (q ∷ qs) p ≡ some r
    → some later ≡ some r
unfolding find_receipt
later_wins q qs p later r k h = cc

only_first :
    (q : Receipt) (qs : List Receipt) (p : Text) (r : Receipt)
    → find_receipt qs p ≡ none
    → find_receipt (q ∷ qs) p ≡ some r
    → (r.premise_id ≡ p) × (q ≡ r)
unfolding find_receipt
only_first q qs p r k h = elim (Text-discrete q.premise_id p) [
  | yes e ↦
      let first : find_receipt (q ∷ qs) p ≡ some q = ground (arith, k, e) in
      let same : q ≡ r = some_inj (sym first ∙ h) in (sym (ap (λ x. x.premise_id) same) ∙ e, same)
  | no ne ↦ let nothing : find_receipt (q ∷ qs) p ≡ none = ground (arith, k, ne) in cc
]

find_receipt_lem :
    (rs : List Receipt) (p : Text) (r : Receipt)
    → find_receipt rs p ≡ some r
    → (r.premise_id ≡ p) × ((P : Receipt → Type 0) → All P rs → P r)
unfolding find_receipt
find_receipt_lem [] p r h = cc
find_receipt_lem (q ∷ qs) p r h = elim (Option-cases (find_receipt qs p)) [
  | inr (later, k) ↦
      let (name, holds) = find_receipt_lem qs p r (k ∙ later_wins q qs p later r k h) in
      (name, λ P a. holds P a.1)
  | inl k ↦ let (name, same) = only_first q qs p r k h in (name, λ P a. subst P same a.0)
]

has_prior :
    (a b d : Bool) (o : Option Receipt) (f : Receipt → Bool)
    → (a && b && elim o [ none ↦ false | some x ↦ f x ] && d) ≡ true
    → (prior : Receipt) × (o ≡ some prior) × (f prior ≡ true)
has_prior a b d none f h = absurd (nothing a b h)
  where
    nothing : (a b : Bool) → (a && b && false && d) ≡ true → ⊥
    nothing true true e = cc
    nothing true false e = cc
    nothing false b e = cc
has_prior a b d (some x) f h = (x, refl, middle a b (f x) h)
  where
    middle : (a b c : Bool) → (a && b && c && d) ≡ true → c ≡ true
    middle a b true e = refl
    middle true true false e = cc
    middle true false false e = cc
    middle false b false e = cc

renewed :
    (previous : List Receipt) (seen : List Text) (r : Receipt) (rs : List Receipt)
    → all_acceptable previous seen (r ∷ rs) ≡ true
    → (prior : Receipt) × (find_receipt previous r.premise_id ≡ some prior)
      × (same_artifacts r prior ≡ true)
unfolding all_acceptable
renewed previous seen r rs h =
    has_prior (acceptable r) (not (contains seen r.premise_id))
      (all_acceptable previous (r.premise_id ∷ seen) rs) (find_receipt previous r.premise_id)
      (same_artifacts r) h

all_acceptable-IsRenewal :
    (previous : List Receipt) (seen : List Text) (rs : List Receipt)
    → all_acceptable previous seen rs ≡ true
    → All (IsRenewal previous) rs
unfolding all_acceptable
all_acceptable-IsRenewal previous seen [] h = tt
all_acceptable-IsRenewal previous seen (r ∷ rs) h =
    let ok : acceptable r ≡ true = ground arith in
    let rest : all_acceptable previous (r.premise_id ∷ seen) rs ≡ true = ground arith in
    (
      (ok, renewed previous seen r rs h),
      all_acceptable-IsRenewal previous (r.premise_id ∷ seen) rs rest,
    )

in_order_lem :
    (receipts : List Receipt) (ps : List Text) (rs : List Receipt)
    → in_order receipts ps ≡ some rs
    → (premise_ids rs ≡ ps) × ((P : Receipt → Type 0) → All P receipts → All P rs)
unfolding in_order
in_order_lem receipts [] [] h = (refl, λ P a. tt)
in_order_lem receipts [] (r ∷ rs) h = cc
in_order_lem receipts (p ∷ ps) rs h = elim (Option-cases (find_receipt receipts p)) [
  | inl k ↦ cc
  | inr (r, k) ↦ elim (Option-cases (in_order receipts ps)) [
    | inl m ↦ cc
    | inr (qs, m) ↦
        let same : r ∷ qs ≡ rs = cc in
        let (name, one) = find_receipt_lem receipts p r k in
        let (names, all) = in_order_lem receipts ps qs m in
        (
          ap premise_ids (sym same) ∙ ground (arith, name, names),
          λ P a. subst (All P) same (one P a, all P a),
        )
  ]
]

-- The observed receipts that the kernel returns after a failed CAS are one for each critical premise,
-- in the order of the premises; each is well formed, valid, fresh and free of revocation, red alerts
-- and blocked migrations, and has the same artifacts as the receipt that the action was tried with.
pub complete-IsRenewal :
    (premises : List Text) (observed : Option (List Receipt)) (previous rs : List Receipt)
    → complete_observed_receipts premises observed previous ≡ some rs
    → (premise_ids rs ≡ premises) × All (IsRenewal previous) rs
unfolding complete_observed_receipts
complete-IsRenewal premises none previous rs h = cc
complete-IsRenewal premises (some receipts) previous rs h =
    let ok : all_acceptable previous [] receipts ≡ true = ground arith in
    let ran : in_order receipts premises ≡ some rs = ground arith in
    let (ids, all) = in_order_lem receipts premises rs ran in
    (ids, all (IsRenewal previous) (all_acceptable-IsRenewal previous [] receipts ok))
