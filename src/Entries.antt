-- ===== src/Entries.antt =====
-- A JavaScript Map as the list of its entries in the order of their insertion.
pub mod Distinct
use premise_protocol.Base.{
  ◌≤◌, ◌≡◌, refl, sym, subst, ◌∙◌, arith, Text, Text-discrete, Option, none, some, List, [], ◌∷◌,
  ◌++◌, length, All,
}

abbrev pub OrderedMap : Type 0 → Type 0
OrderedMap V = List (Text × V)

pub some_inj : {A : Type 0} {x y : A} → some x ≡ some y → x ≡ y
some_inj e = cc

module _ {V : Type 0} where
  unfoldable pub lookup : Text → OrderedMap V → Option V
  lookup k [] = none
  lookup k ((j, v) ∷ es) =
      let rest = lookup k es in elim (Text-discrete j k) [ yes _ ↦ some v | no _ ↦ rest ]

  unfoldable pub remove : Text → OrderedMap V → OrderedMap V
  remove k [] = []
  remove k ((j, v) ∷ es) =
      let rest = remove k es in elim (Text-discrete j k) [ yes _ ↦ rest | no _ ↦ (j, v) ∷ rest ]

  pub length-remove : (k : Text) (es : OrderedMap V) → length (remove k es) ≤ length es
  unfolding remove
  length-remove k [] = omega arith
  length-remove k ((j, v) ∷ es) = ground (arith, length-remove k es)

  pub remove-All :
      (P : Text × V → Type 0) (k : Text) (es : OrderedMap V) → All P es → All P (remove k es)
  unfolding remove
  remove-All P k [] a = tt
  remove-All P k ((j, v) ∷ es) a =
      elim (Text-discrete j k)
        as (λ d. All P (elim d [ yes _ ↦ remove k es | no _ ↦ (j, v) ∷ remove k es ])) [
          | yes _ ↦ remove-All P k es a.1
          | no _ ↦ (a.0, remove-All P k es a.1)
        ]

  pub lookup-remove : (k : Text) (es : OrderedMap V) → lookup k (remove k es) ≡ none
  unfolding lookup remove
  lookup-remove k [] = refl
  lookup-remove k ((j, v) ∷ es) = ground (arith, lookup-remove k es)

  pub lookup-last :
      (k : Text) (v : V) (es : OrderedMap V)
      → lookup k es ≡ none
      → lookup k (es ++ (k, v) ∷ []) ≡ some v
  unfolding lookup
  lookup-last k v [] h = ground arith
  lookup-last k v ((j, w) ∷ es) h = ground (arith, lookup-last k v es)

  found :
      {k : Text} {v : V} (j : Text) (w : V) (es : OrderedMap V)
      → j ≡ k
      → lookup k ((j, w) ∷ es) ≡ some v
      → ◌≡◌ {A = Text × V} (j, w) (k, v)
  unfolding lookup
  found {k} {v} j w es e h =
      let first : lookup k ((j, w) ∷ es) ≡ some w = ground (arith, e) in
      let same : w ≡ v = some_inj (sym first ∙ h) in cc

  pub lookup-All :
      (P : Text × V → Type 0) (k : Text) (v : V) (es : OrderedMap V)
      → All P es
      → lookup k es ≡ some v
      → P (k, v)
  unfolding lookup
  lookup-All P k v [] a h = cc
  lookup-All P k v ((j, w) ∷ es) a h = elim (Text-discrete j k) [
    | yes e ↦ subst P (found j w es e h) a.0
    | no ne ↦ lookup-All P k v es a.1 (ground (arith, h, ne))
  ]

  pub absent-tail :
      (k : Text) (e : Text × V) (es : OrderedMap V) → lookup k (e ∷ es) ≡ none → lookup k es ≡ none
  unfolding lookup
  absent-tail k e es h = ground arith
