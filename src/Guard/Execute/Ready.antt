-- ===== src/Guard/Execute/Ready.antt =====
-- What executePremiseGuard asks for before it looks at the critical premises.
use premise_protocol.Base.{
  ◌≡◌, ◌≢◌, refl, ◌↔◌, ◌⊎◌, inl, inr, true, false, not, arith, Text, is_empty, none, some, List, [],
  ◌∷◌, any, All, Option-cases, length,
}
use premise_protocol.Policy.{
  Capability, includes, cas, conditional_action, idempotency_key, fenced_lease,
}
use premise_protocol.Guard.{Receipt, Intent, LeaseClaim, contains, duplicates, premise_ids}
use premise_protocol.Guard.Execute.{well_formed, precheck}

abbrev pub Distinct : List Text → Type 0
Distinct [] = Unit
Distinct (x ∷ xs) = All (λ y. x ≢ y) xs × Distinct xs

contains_lem : (xs : List Text) (x : Text) → (contains xs x ≡ false) ↔ All (λ y. x ≢ y) xs
contains_lem [] x = (λ h. tt, λ h. refl)
contains_lem (y ∷ ys) x =
    let (to, from) = contains_lem ys x in (λ h. ground (arith, to), λ h. ground (arith, from h.1))

pub duplicates_lem : (xs : List Text) → (duplicates xs ≡ false) ↔ Distinct xs
unfolding duplicates
duplicates_lem [] = (λ h. tt, λ h. refl)
duplicates_lem (x ∷ xs) =
    let (to, from) = duplicates_lem xs in
    let (new, old) = contains_lem xs x in
    (λ h. ground (arith, to, new), λ h. ground (arith, from h.1, old h.0))

abbrev pub IsFormed : Receipt → Type 0
IsFormed r = (r.premise_id ≢ []) × (r.identity_key ≢ []) × (r.version_token ≢ [])

is_empty_lem : (t : Text) → (is_empty t ≡ false) ↔ (t ≢ [])
is_empty_lem [] = (λ h. cc, λ h. absurd (h refl))
is_empty_lem (c ∷ t) = (λ h e. cc, λ h. refl)

well_formed_lem : (r : Receipt) → (well_formed r ≡ true) ↔ IsFormed r
unfolding well_formed
well_formed_lem r =
    let a = is_empty_lem r.premise_id in
    let b = is_empty_lem r.identity_key in
    let c = is_empty_lem r.version_token in
    (
      (λ h. (a.0 (ground arith), b.0 (ground arith), c.0 (ground arith))),
      λ (x, y, z). ground (arith, a.1 x, b.1 y, c.1 z),
    )

All-IsFormed : (rs : List Receipt) → (any (λ r. not (well_formed r)) rs ≡ false) ↔ All IsFormed rs
All-IsFormed [] = (λ h. tt, λ h. refl)
All-IsFormed (r ∷ rs) =
    let (to, from) = All-IsFormed rs in
    let (a, b) = well_formed_lem r in
    (λ h. (a (ground arith), to (ground arith)), λ (x, y). ground (arith, b x, from y))

-- What the kernel asks for before it looks at the critical premises.
pub record MayCommit (i : Intent) (receipts : List Receipt) (caps : List Capability) : Type 0 where
  pub action : i.action_digest ≢ []
  pub idempotent : i.idempotency ≢ []
  pub premise : i.critical_premises ≢ []
  pub claim : (c : LeaseClaim) → i.lease ≡ some c → (c.lease_id ≢ []) × (c.fencing_token ≢ [])
  pub premises : Distinct i.critical_premises
  pub one_receipt : Distinct (premise_ids receipts)
  pub formed : All IsFormed receipts
  pub required : includes caps i.required_capability ≡ true
  pub keyed : includes caps idempotency_key ≡ true
  pub conditional : (includes caps cas ≡ true) ⊎ (includes caps conditional_action ≡ true)
  pub fenced : (c : LeaseClaim) → i.lease ≡ some c → includes caps fenced_lease ≡ true

nonempty : (xs : List Text) → (length xs ≢ 0) ↔ (xs ≢ [])
nonempty [] = (λ h. absurd (h refl), λ h. absurd (h refl))
nonempty (x ∷ xs) = (λ h e. cc, λ h. ground arith)

pub precheck-MayCommit :
    (i : Intent) (receipts : List Receipt) (caps : List Capability)
    → precheck i receipts caps ≡ none
    → MayCommit i receipts caps
unfolding precheck
precheck-MayCommit i receipts caps h = record {
  action = (is_empty_lem i.action_digest).0 (ground arith);
  idempotent = (is_empty_lem i.idempotency).0 (ground arith);
  premise = (nonempty i.critical_premises).0 (λ e. ground arith);
  claim = λ c e.
      ((is_empty_lem c.lease_id).0 (ground arith), (is_empty_lem c.fencing_token).0 (ground arith));
  premises = (duplicates_lem i.critical_premises).0 (ground arith);
  one_receipt = (duplicates_lem (premise_ids receipts)).0 (ground arith);
  formed = (All-IsFormed receipts).0 (ground arith);
  required = ground arith;
  keyed = ground arith;
  conditional = ground arith;
  fenced = λ c e. ground arith;
}

pub MayCommit-precheck :
    (i : Intent) (receipts : List Receipt) (caps : List Capability)
    → MayCommit i receipts caps
    → precheck i receipts caps ≡ none
unfolding precheck
MayCommit-precheck i receipts caps m =
    let a = (is_empty_lem i.action_digest).1 m.action in
    let b = (is_empty_lem i.idempotency).1 m.idempotent in
    let c = (nonempty i.critical_premises).1 m.premise in
    let d = (duplicates_lem i.critical_premises).1 m.premises in
    let e = (duplicates_lem (premise_ids receipts)).1 m.one_receipt in
    let f = (All-IsFormed receipts).1 m.formed in
    let r = m.required in
    let k = m.keyed in
    let w = m.conditional in
    elim (Option-cases i.lease) [
      | inl empty ↦ ground (arith, a, b, c, d, e, f, empty, r, k, w)
      | inr (claim, is) ↦
          let g = (is_empty_lem claim.lease_id).1 (m.claim claim is).0 in
          let h = (is_empty_lem claim.fencing_token).1 (m.claim claim is).1 in
          let l = m.fenced claim is in ground (arith, a, b, c, d, e, f, is, r, k, w, g, h, l)
    ]
