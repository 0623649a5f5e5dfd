-- ===== src/Subsumption/Sets.antt =====
-- Sets as lists, and frontiers as joined texts.
use premise_protocol.Base.{
  ◌≡◌, ◌≢◌, ◌↔◌, ◌⊎◌, inl, inr, refl, sym, ap, arith, true, Text, Text-discrete, trim, List, [],
  ◌∷◌, ◌++◌, all, All,
}
use premise_protocol.Absence.{is_required}
use premise_protocol.Subsumption.{is_set, has, covers, join}

abbrev pub In : Text → List Text → Type 0
In v [] = ⊥
In v (x ∷ xs) = (v ≡ x) ⊎ In v xs

pub has-In : (xs : List Text) (v : Text) → (has xs v ≡ true) ↔ In v xs
has-In [] v = (λ h. cc, λ h. elim h [ ])
has-In (x ∷ xs) v =
    let (to, from) = has-In xs v in
    (
      λ h. elim (Text-discrete v x) [ yes e ↦ inl e | no n ↦ inr (to (ground (arith, h, n))) ],
      λ h. elim h [ inl e ↦ ground (arith, e) | inr i ↦ ground (arith, from i) ],
    )

pub covers-In : (xs vs : List Text) → (covers xs vs ≡ true) ↔ All (λ v. In v xs) vs
unfolding covers
covers-In xs [] = (λ h. tt, λ h. refl)
covers-In xs (v ∷ vs) =
    let (to, from) = covers-In xs vs in
    let (a, b) = has-In xs v in
    (λ h. (a (ground (arith, h)), to (ground (arith, h))), λ (i, is). ground (arith, b i, from is))

abbrev pub NoNul : Text → Type 0
NoNul t = All (λ c. c ≢ 0) t

no_split : (x y s : Text) → NoNul x → x ≢ y ++ 0 ∷ s
no_split [] [] s n h = cc
no_split [] (d ∷ y) s n h = cc
no_split (c ∷ x) [] s n h = absurd (n.0 (cc))
no_split (c ∷ x) (d ∷ y) s n h = no_split x y s n.1 (cc)

split : (x y r s : Text) → NoNul x → NoNul y → x ++ 0 ∷ r ≡ y ++ 0 ∷ s → (x ≡ y) × (r ≡ s)
split [] [] r s m n h = (refl, cc)
split [] (d ∷ y) r s m n h = absurd (n.0 (cc))
split (c ∷ x) [] r s m n h = absurd (m.0 (cc))
split (c ∷ x) (d ∷ y) r s m n h =
    let tail : x ++ 0 ∷ r ≡ y ++ 0 ∷ s = cc in
    let (a, b) = split x y r s m.1 n.1 tail in let head : c ≡ d = cc in (cc, b)

-- Joined texts without U+0000 tell lists of non-empty texts apart.
pub join-injective :
    (xs ys : List Text)
    → All NoNul xs
    → All NoNul ys
    → All (λ v. v ≢ []) xs
    → All (λ v. v ≢ []) ys
    → join xs ≡ join ys
    → xs ≡ ys
unfolding join
join-injective [] [] m n a b h = refl
join-injective [] (y ∷ []) m n a b h = absurd (b.0 (sym h))
join-injective [] (y ∷ z ∷ ys) m n a b h = absurd (no_split [] y (join (z ∷ ys)) tt h)
join-injective (x ∷ []) [] m n a b h = absurd (a.0 h)
join-injective (x ∷ w ∷ xs) [] m n a b h = absurd (no_split [] x (join (w ∷ xs)) tt (sym h))
join-injective (x ∷ []) (y ∷ []) m n a b h = ap (λ v. v ∷ []) h
join-injective (x ∷ []) (y ∷ z ∷ ys) m n a b h = absurd (no_split x y (join (z ∷ ys)) m.0 h)
join-injective (x ∷ w ∷ xs) (y ∷ []) m n a b h = absurd (no_split y x (join (w ∷ xs)) n.0 (sym h))
join-injective (x ∷ w ∷ xs) (y ∷ z ∷ ys) m n a b h =
    let (e, rest) = split x y (join (w ∷ xs)) (join (z ∷ ys)) m.0 n.0 h in
    let tail = join-injective (w ∷ xs) (z ∷ ys) m.1 n.1 a.1 b.1 rest in cc

required-nonempty : (v : Text) → is_required v ≡ true → v ≢ []
unfolding is_required trim
required-nonempty [] h e = cc
required-nonempty (c ∷ v) h e = cc

all_required-nonempty : (vs : List Text) → all is_required vs ≡ true → All (λ v. v ≢ []) vs
all_required-nonempty [] h = tt
all_required-nonempty (v ∷ vs) h =
    (required-nonempty v (ground (arith, h)), all_required-nonempty vs (ground (arith, h)))

pub set-nonempty : (vs : List Text) → is_set vs ≡ true → All (λ v. v ≢ []) vs
unfolding is_set
set-nonempty [] h = tt
set-nonempty (v ∷ vs) h = all_required-nonempty (v ∷ vs) (ground (arith, h))
