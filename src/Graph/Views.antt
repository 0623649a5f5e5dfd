-- ===== src/Graph/Views.antt =====
-- What the Maps of the graph hold after a change.
use premise_protocol.Base.{
  ◌≡◌, ◌≢◌, ◌↔◌, inl, inr, refl, sym, arith, Text, Text-discrete, Option-cases, none, some, List,
  [], ◌∷◌, ◌++◌,
}
use premise_protocol.Entries.{OrderedMap, lookup}
use premise_protocol.Subsumption.Sets.{In}
use premise_protocol.Graph.{delete_member, members, change, ensure, unlink_each}
use premise_protocol.Graph.Sets.{In-delete}

module _ (k : Text) (f : List Text → List Text) where
  pub members-change :
      (es : OrderedMap (List Text))
      → lookup k es ≢ none
      → members (change k f es) k ≡ f (members es k)
  unfolding members change lookup
  members-change [] h = absurd (h refl)
  members-change ((j, xs) ∷ es) h = ground (arith, h, members-change es)

  -- `get(k)?.`: nothing happens to a key that the Map does not hold.
  pub members-change_empty :
      (es : OrderedMap (List Text)) → f [] ≡ [] → members (change k f es) k ≡ f (members es k)
  unfolding members change lookup
  members-change_empty [] h = sym h
  members-change_empty ((j, xs) ∷ es) h = ground (arith, h, members-change_empty es)

  pub members-change_ne :
      (j : Text) (es : OrderedMap (List Text)) → k ≢ j → members (change k f es) j ≡ members es j
  unfolding members change lookup
  members-change_ne j [] h = refl
  members-change_ne j ((i, xs) ∷ es) h = ground (arith, h, members-change_ne j es)

  pub lookup-change :
      (j : Text) (es : OrderedMap (List Text))
      → (lookup j (change k f es) ≡ none) ↔ (lookup j es ≡ none)
  unfolding change lookup
  lookup-change j [] = (λ h. h, λ h. h)
  lookup-change j ((i, xs) ∷ es) = ground (arith, lookup-change j es)

pub members-append :
    (k j : Text) (es : OrderedMap (List Text)) → members (es ++ (k, []) ∷ []) j ≡ members es j
unfolding members lookup
members-append k j [] = ground arith
members-append k j ((i, xs) ∷ es) = ground (arith, members-append k j es)

pub lookup-append :
    (k j : Text) (es : OrderedMap (List Text))
    → (lookup j (es ++ (k, []) ∷ []) ≡ none) ↔ ((lookup j es ≡ none) × (k ≢ j))
unfolding lookup
lookup-append k j [] = ground arith
lookup-append k j ((i, xs) ∷ es) = ground (arith, lookup-append k j es)

pub members-ensure :
    (k j : Text) (es : OrderedMap (List Text)) → members (ensure k es) j ≡ members es j
unfolding ensure
members-ensure k j es =
    elim (lookup k es)
      as (λ r. members (elim r [ none ↦ es ++ (k, []) ∷ [] | some _ ↦ es ]) j ≡ members es j) [
        | none ↦ members-append k j es
        | some xs ↦ refl
      ]

pub lookup-ensure :
    (k j : Text) (es : OrderedMap (List Text))
    → (lookup j (ensure k es) ≡ none) ↔ ((lookup j es ≡ none) × (k ≢ j))
unfolding ensure
lookup-ensure k j es = elim (Option-cases (lookup k es)) [
  | inl e ↦ rw (ensure, e) (lookup-append k j es)
  | inr (xs, e) ↦ rw (ensure, e) (λ h. (h, λ q. cc), λ h. h.0)
]

In-unlink :
    (n d : Text) (es : OrderedMap (List Text)) (j v : Text)
    → In v (members (change d (delete_member n) es) j)
      ↔ (In v (members es j) × ((v ≡ n) → (j ≡ d) → ⊥))
unfolding delete_member
In-unlink n d es j v = elim (Text-discrete d j) [
  | yes e ↦
      let same : members (change d (delete_member n) es) j ≡ delete_member n (members es j) =
        cc (e, members-change_empty d (delete_member n) es refl) in
      rw (same) (grind (arith, In-delete v n (members es j), e))
  | no ne ↦
      rw (members-change_ne d (delete_member n) j es ne) (λ h. (h, λ q p. ne (sym p)), λ h. h.0)
]

-- Every set of `ds` loses n.
pub In-unlink_each :
    (n : Text) (ds : List Text) (es : OrderedMap (List Text)) (j v : Text)
    → In v (members (unlink_each n ds es) j) ↔ (In v (members es j) × ((v ≡ n) → In j ds → ⊥))
unfolding unlink_each
In-unlink_each n [] es j v = (λ h. (h, λ e i. i), λ h. h.0)
In-unlink_each n (d ∷ ds) es j v =
    ground (arith, In-unlink n d es j v, In-unlink_each n ds (change d (delete_member n) es) j v)
