-- ===== src/Graph/Cost.antt =====
-- The edges out of nodes that a search has not visited: what is left of its fuel.
use premise_protocol.Base.{
  ℕ, suc, ◌+◌, ◌≤◌, ◌≡◌, refl, arith, false, Text, List, [], ◌∷◌, length, if◌then◌else◌,
}
use premise_protocol.Entries.{OrderedMap, lookup}
use premise_protocol.Subsumption.{has}
use premise_protocol.Graph.{members, edge_count, insert_text, sort_texts}
use mathlib.Core.List.{reverse, reverse_aux}

pub length-reverse : (xs : List Text) → length (reverse xs) ≡ length xs
length-reverse xs = omega (arith, go xs [])
  where
    go : (xs ys : List Text) → length (reverse_aux xs ys) ≡ length xs + length ys
    go [] ys = omega arith
    go (x ∷ xs) ys = omega (arith, go xs (x ∷ ys))

length-insert_text : (x : Text) (xs : List Text) → length (insert_text x xs) ≡ suc (length xs)
unfolding insert_text
length-insert_text x [] = refl
length-insert_text x (y ∷ ys) = ground (arith, length-insert_text x ys)

pub length-sort_texts : (xs : List Text) → length (sort_texts xs) ≡ length xs
unfolding sort_texts
length-sort_texts [] = refl
length-sort_texts (x ∷ xs) =
    ground (arith, length-insert_text x (sort_texts xs), length-sort_texts xs)

pub cost : List Text → OrderedMap (List Text) → ℕ
cost visited [] = 0
cost visited ((k, xs) ∷ es) =
    let rest = cost visited es in if has visited k then rest else length xs + rest

pub cost-none : (es : OrderedMap (List Text)) → cost [] es ≡ edge_count es
unfolding cost edge_count
cost-none [] = refl
cost-none ((k, xs) ∷ es) = ground (arith, cost-none es)

cost_more :
    (c : Text) (visited : List Text) (es : OrderedMap (List Text))
    → cost (c ∷ visited) es ≤ cost visited es
unfolding cost
cost_more c visited [] = omega arith
cost_more c visited ((k, xs) ∷ es) = ground (arith, cost_more c visited es)

-- A visit pays for the members that it puts on the stack.
pub cost-visit :
    (c : Text) (visited : List Text) (es : OrderedMap (List Text))
    → has visited c ≡ false
    → cost (c ∷ visited) es + length (members es c) ≤ cost visited es
unfolding cost members lookup
cost-visit c visited [] new = omega arith
cost-visit c visited ((k, xs) ∷ es) new =
    ground (arith, cost-visit c visited es new, cost_more c visited es)
