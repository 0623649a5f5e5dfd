-- ===== src/Base/Maps.antt =====
-- JavaScript's Map, where the order of its keys is not observed: a function of the key.
use mathlib.Core.Path.{◌≡◌, refl}
use mathlib.Core.Logic.{◌≢◌}
use native.Mathlib.Omega.{arith}
use mathlib.Core.Option.{Option, none, some}
use native.Mathlib.Omega.{arith}
use premise_protocol.Base.Texts.{Text, Text-discrete}

abbrev pub Dict : Type 0 → Type 0
Dict V = Text → Option V

module _ {V : Type 0} where
  abbrev pub empty : Dict V
  empty k = none

  abbrev pub put : Dict V → Text → V → Dict V
  put m k v j = elim (Text-discrete k j) [ yes _ ↦ some v | no _ ↦ m j ]

  abbrev pub drop_key : Dict V → Text → Dict V
  drop_key m k j = elim (Text-discrete k j) [ yes _ ↦ none | no _ ↦ m j ]

  pub put_self : (m : Dict V) (k : Text) (v : V) → put m k v k ≡ some v
  put_self m k v =
      elim (Text-discrete k k) as (λ d. elim d [ yes _ ↦ some v | no _ ↦ m k ] ≡ some v) [
        | yes _ ↦ refl
        | no n ↦ absurd (n refl)
      ]

  pub put_ne : (m : Dict V) (k j : Text) (v : V) → k ≢ j → put m k v j ≡ m j
  put_ne m k j v h = ground arith

  pub drop_ne : (m : Dict V) (k j : Text) → k ≢ j → drop_key m k j ≡ m j
  drop_ne m k j h = ground arith
