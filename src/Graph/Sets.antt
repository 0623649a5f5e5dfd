-- ===== src/Graph/Sets.antt =====
-- The members of the Sets, and of their sorted lists.
use premise_protocol.Base.{
  ◌≡◌, ◌≢◌, ◌↔◌, ◌⊎◌, inl, inr, sym, subst, arith, Text, List, [], ◌∷◌, ◌++◌, Bool-cases,
}
use premise_protocol.Subsumption.{has}
use premise_protocol.Subsumption.Sets.{In, has-In}
use premise_protocol.Graph.{add_member, delete_member, unique_from, insert_text, sort_texts}
use mathlib.Core.List.{reverse, reverse_aux}

pub In-append : (v : Text) (xs ys : List Text) → In v (xs ++ ys) ↔ (In v xs ⊎ In v ys)
In-append v [] ys = (λ h. inr h, λ h. elim h [ inl i ↦ absurd i | inr i ↦ i ])
In-append v (x ∷ xs) ys = let ih = In-append v xs ys in ground (arith, ih)

In-reverse_aux : (v : Text) (xs ys : List Text) → In v (reverse_aux xs ys) ↔ (In v xs ⊎ In v ys)
In-reverse_aux v [] ys = (λ h. inr h, λ h. elim h [ inl i ↦ absurd i | inr i ↦ i ])
In-reverse_aux v (x ∷ xs) ys = let ih = In-reverse_aux v xs (x ∷ ys) in ground (arith, ih)

pub In-reverse : (v : Text) (xs : List Text) → In v (reverse xs) ↔ In v xs
In-reverse v xs = ground (arith, In-reverse_aux v xs [])

pub In-add : (v w : Text) (xs : List Text) → In v (add_member w xs) ↔ (In v xs ⊎ (v ≡ w))
unfolding add_member
In-add v w xs = elim (Bool-cases (has xs w)) [
  | inl e ↦
      let i : In w xs = (has-In xs w).0 e in
      rw (e) (λ h. inl h, λ h. elim h [ inl j ↦ j | inr q ↦ subst (λ x. In x xs) (sym q) i ])
  | inr e ↦ rw (e) (ground (arith, In-append v xs (w ∷ [])))
]

pub In-delete : (v w : Text) (xs : List Text) → In v (delete_member w xs) ↔ (In v xs × (v ≢ w))
unfolding delete_member
In-delete v w [] = (λ h. absurd h, λ h. h.0)
In-delete v w (x ∷ xs) = let ih = In-delete v w xs in ground (arith, ih)

pub In-insert : (v w : Text) (xs : List Text) → In v (insert_text w xs) ↔ ((v ≡ w) ⊎ In v xs)
unfolding insert_text
In-insert v w [] = (λ h. h, λ h. h)
In-insert v w (x ∷ xs) = let ih = In-insert v w xs in ground (arith, ih)

pub In-sort : (v : Text) (xs : List Text) → In v (sort_texts xs) ↔ In v xs
unfolding sort_texts
In-sort v [] = (λ h. h, λ h. h)
In-sort v (x ∷ xs) = ground (arith, In-insert v x (sort_texts xs), In-sort v xs)

pub In-unique :
    (v : Text) (seen xs : List Text) → In v (unique_from seen xs) ↔ (In v seen ⊎ In v xs)
unfolding unique_from
In-unique v seen [] = (λ h. inl h, λ h. elim h [ inl i ↦ i | inr i ↦ absurd i ])
In-unique v seen (x ∷ xs) = ground (arith, In-unique v (add_member x seen) xs, In-add v x seen)
