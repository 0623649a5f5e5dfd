-- ===== src/Entries/Distinct.antt =====
-- A Map holds each key once.
use premise_protocol.Base.{
  suc, ◌≡◌, ◌≢◌, refl, subst, ap, ◌∙◌, arith, Text, Text-discrete, none, some, [], ◌∷◌, ◌++◌,
  length,
}
use premise_protocol.Entries.{OrderedMap, lookup, remove}

module _ {V : Type 0} where
  abbrev pub Distinct : OrderedMap V → Type 0
  Distinct [] = Unit
  Distinct ((k, v) ∷ es) = (lookup k es ≡ none) × Distinct es

  pub remove-absent : (k : Text) (es : OrderedMap V) → lookup k es ≡ none → remove k es ≡ es
  unfolding lookup remove
  remove-absent k [] h = refl
  remove-absent k ((j, v) ∷ es) h = ground (arith, remove-absent k es)

  pub lookup-remove_ne :
      (k j : Text) (es : OrderedMap V) → k ≢ j → lookup j (remove k es) ≡ lookup j es
  unfolding lookup remove
  lookup-remove_ne k j [] n = refl
  lookup-remove_ne k j ((i, v) ∷ es) n = ground (arith, lookup-remove_ne k j es n)

  pub absent-remove :
      (k j : Text) (es : OrderedMap V) → lookup j es ≡ none → lookup j (remove k es) ≡ none
  unfolding lookup remove
  absent-remove k j [] h = refl
  absent-remove k j ((i, v) ∷ es) h = ground (arith, absent-remove k j es)

  pub Distinct-remove : (k : Text) (es : OrderedMap V) → Distinct es → Distinct (remove k es)
  unfolding remove
  Distinct-remove k [] d = tt
  Distinct-remove k ((j, v) ∷ es) d =
      elim (Text-discrete j k)
        as (λ x. Distinct (elim x [ yes _ ↦ remove k es | no _ ↦ (j, v) ∷ remove k es ])) [
          | yes _ ↦ Distinct-remove k es d.1
          | no _ ↦ (absent-remove k j es d.0, Distinct-remove k es d.1)
        ]

  pub lookup-append_ne :
      (k j : Text) (v : V) (es : OrderedMap V) → k ≢ j → lookup j (es ++ (k, v) ∷ []) ≡ lookup j es
  unfolding lookup
  lookup-append_ne k j v [] n = ground (arith, n)
  lookup-append_ne k j v ((i, w) ∷ es) n = ground (arith, lookup-append_ne k j v es n)

  pub Distinct-append :
      (k : Text) (v : V) (es : OrderedMap V)
      → Distinct es
      → lookup k es ≡ none
      → Distinct (es ++ (k, v) ∷ [])
  unfolding lookup
  Distinct-append k v [] d h = (refl, tt)
  Distinct-append k v ((j, w) ∷ es) d h =
      let ne : k ≢ j = λ e. ground (arith, h, e) in
      let rest : lookup k es ≡ none = ground (arith, h) in
      (lookup-append_ne k j v es ne ∙ d.0, Distinct-append k v es d.1 rest)

  pub length-remove_found :
      (k : Text) (v : V) (es : OrderedMap V)
      → Distinct es
      → lookup k es ≡ some v
      → length es ≡ suc (length (remove k es))
  unfolding lookup remove
  length-remove_found k v [] d h = cc
  length-remove_found k v ((j, w) ∷ es) d h = elim (Text-discrete j k) [
    | yes e ↦
        let gone : lookup k es ≡ none = subst (λ x. lookup x es ≡ none) e d.0 in
        let same : remove k es ≡ es = remove-absent k es gone in ground (arith, e, ap length same)
    | no n ↦ ground (arith, n, h, length-remove_found k v es d.1)
  ]
