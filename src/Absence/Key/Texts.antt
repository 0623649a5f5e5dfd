-- ===== src/Absence/Key/Texts.antt =====
-- The text behind a key.
use premise_protocol.Base.{
  ◌≡◌, refl, sym, ◌∙◌, inl, inr, arith, true, Text, codes, some, [], ◌∷◌, ◌++◌, Option-cases,
  Bool-cases,
}
use premise_protocol.Entries.{some_inj}
use premise_protocol.Absence.{Host, valid_scope}
use premise_protocol.Absence.Key.{AbsenceScope, scope_text, key_of, negative_premise_key}

pub append-cancel : (p a b : Text) → p ++ a ≡ p ++ b → a ≡ b
append-cancel [] a b h = h
append-cancel (c ∷ p) a b h = append-cancel p a b (ground (arith, h))

module _ (host : Host) where
  pub text-key :
      (scope : AbsenceScope) (key : Text)
      → negative_premise_key host scope ≡ some key
      → (valid_scope scope.identity ≡ true)
        × ((u : Text) × (scope_text scope ≡ some u) × (key ≡ codes "sha256:" ++ host.sha256 u))
  unfolding negative_premise_key key_of
  text-key scope key h = elim (Bool-cases (valid_scope scope.identity)) [
    | inr bad ↦ absurd (ground (arith, h, bad))
    | inl good ↦ elim (Option-cases (scope_text scope)) [
      | inl n ↦ absurd (ground (arith, h, good, n))
      | inr (u, is) ↦
          let made : negative_premise_key host scope ≡ some (codes "sha256:" ++ host.sha256 u) =
            rw (good, is, negative_premise_key, key_of) refl in
          (good, (u, is, some_inj (sym h ∙ made)))
    ]
  ]

  pub same_text-key :
      (a b : AbsenceScope) (key : Text)
      → valid_scope a.identity ≡ true
      → scope_text a ≡ scope_text b
      → negative_premise_key host b ≡ some key
      → negative_premise_key host a ≡ some key
  unfolding negative_premise_key
  same_text-key a b key good same h =
      let (fine, _) = text-key b key h in
      let this : key_of host (scope_text b) ≡ some key = ground (arith, h, fine) in
      rw (good, same, negative_premise_key) this
