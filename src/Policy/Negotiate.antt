-- ===== src/Policy/Negotiate.antt =====
-- Negotiation of capabilities.
use mathlib.Core.List.{Perm, perm_middle}
use mathlib.Core.List.Perm
use premise_protocol.Base.{
  ◌≡◌, refl, ◌↔◌, inl, inr, Bool, true, not, arith, List, [], ◌∷◌, ◌++◌, Bool-cases, All,
}
use premise_protocol.Policy.{Capability, includes, keep, negotiate, is_nil}

keep-perm :
    (p : Capability → Bool) (xs : List Capability) → Perm xs (keep p xs ++ keep (λ c. not (p c)) xs)
unfolding keep
keep-perm p [] = Perm.nil
keep-perm p (x ∷ xs) = elim (Bool-cases (p x)) [
  | inl e ↦ rw e (Perm.cons x (keep-perm p xs))
  | inr e ↦ rw e (
      Perm.trans (Perm.cons x (keep-perm p xs))
        (Perm.symm (perm_middle (keep p xs) (keep (λ c. not (p c)) xs))))
]

keep-All : (p : Capability → Bool) (xs : List Capability) → All (λ c. p c ≡ true) (keep p xs)
unfolding keep
keep-All p [] = tt
keep-All p (x ∷ xs) = elim (Bool-cases (p x)) [
  | inl e ↦ rw e (e, keep-All p xs)
  | inr e ↦ rw e (keep-All p xs)
]

nothing_missing :
    (p : Capability → Bool) (xs : List Capability)
    → (is_nil (keep (λ c. not (p c)) xs) ≡ true) ↔ All (λ c. p c ≡ true) xs
unfolding keep
nothing_missing p [] = (λ h. tt, λ h. refl)
nothing_missing p (x ∷ xs) = elim (Bool-cases (p x)) [
  | inl e ↦ rw e (λ h. (refl, (nothing_missing p xs).0 h), λ h. (nothing_missing p xs).1 h.1)
  | inr e ↦ rw e (λ h. cc, λ h. ground arith)
]

-- Negotiation splits the request, with its repetitions, into what is available and what is not, and
-- succeeds exactly if all that was requested is available.
negotiate-partition :
    (requested available : List Capability)
    → let n = negotiate requested available in
      Perm requested (n.supported ++ n.unsupported)
      × All (λ c. includes available c ≡ true) n.supported
      × All (λ c. not (includes available c) ≡ true) n.unsupported
      × ((n.all_supported ≡ true) ↔ All (λ c. includes available c ≡ true) requested)
unfolding negotiate
negotiate-partition requested available =
    let p : Capability → Bool = includes available in
    (
      keep-perm p requested,
      keep-All p requested,
      keep-All (λ c. not (p c)) requested,
      nothing_missing p requested,
    )
