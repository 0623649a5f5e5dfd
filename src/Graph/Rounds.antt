-- ===== src/Graph/Rounds.antt =====
-- The rounds of hasPath's loop, and that the fuel lasts.
use premise_protocol.Base.{
  ℕ, zero, suc, ◌+◌, ◌<◌, ◌≡◌, ◌≢◌, ◌↔◌, ◌⊎◌, inl, inr, refl, sym, subst, arith, Bool, true, false,
  Text, Text-discrete, Option, some, List, [], ◌∷◌, ◌++◌, length, length-append, Bool-cases,
}
use premise_protocol.Subsumption.{has}
use premise_protocol.Subsumption.Sets.{In}
use premise_protocol.Graph.{DependencyGraph, members, dependencies_of, search}
use premise_protocol.Graph.Sets.{In-append, In-reverse, In-sort}
use premise_protocol.Graph.Cost.{length-reverse, length-sort_texts, cost, cost-visit}
use mathlib.Core.List.{reverse}

-- There is an edge from a node to each of its dependencies.
abbrev pub DependsOn : DependencyGraph → Text → Text → Type 0
DependsOn g a b = In b (members g.dependencies a)

module _ (g : DependencyGraph) (target : Text) where
  abbrev pub pushed : Text → List Text → List Text
  pushed c stack = reverse (dependencies_of g c) ++ stack

  pub In-pushed :
      (v c : Text) (stack : List Text) → In v (pushed c stack) ↔ (DependsOn g c v ⊎ In v stack)
  unfolding dependencies_of
  In-pushed v c stack = ground (
    arith,
    In-append v (reverse (dependencies_of g c)) stack,
    In-reverse v (dependencies_of g c),
    In-sort v (members g.dependencies c),
  )

  length-pushed :
      (c : Text) (stack : List Text)
      → length (pushed c stack) ≡ length (members g.dependencies c) + length stack
  unfolding dependencies_of
  length-pushed c stack = omega (
    arith,
    length-append (reverse (dependencies_of g c)) stack,
    length-reverse (dependencies_of g c),
    length-sort_texts (members g.dependencies c),
  )

  -- The round of a node on top of the stack.
  pub search_found :
      (fuel : ℕ) (visited : List Text) (c : Text) (stack : List Text)
      → c ≡ target
      → search g target (suc fuel) visited (c ∷ stack) ≡ some true
  unfolding search
  search_found fuel visited c stack e = ground (arith, e)

  pub search_skip :
      (fuel : ℕ) (visited : List Text) (c : Text) (stack : List Text)
      → c ≢ target
      → has visited c ≡ true
      → search g target (suc fuel) visited (c ∷ stack) ≡ search g target fuel visited stack
  unfolding search
  search_skip fuel visited c stack ne e = ground (arith, ne, e)

  pub search_follow :
      (fuel : ℕ) (visited : List Text) (c : Text) (stack : List Text)
      → c ≢ target
      → has visited c ≡ false
      → search g target (suc fuel) visited (c ∷ stack)
        ≡ search g target fuel (c ∷ visited) (pushed c stack)
  unfolding search
  search_follow fuel visited c stack ne e = ground (arith, ne, e)

  abbrev pub Ends : ℕ → List Text → List Text → Type 0
  Ends fuel visited stack = (b : Bool) × (search g target fuel visited stack ≡ some b)

  pub search-Ends :
      (fuel : ℕ) (visited stack : List Text)
      → length stack + cost visited g.dependencies < fuel
      → Ends fuel visited stack
  unfolding search
  search-Ends zero visited stack h = absurd (omega arith)
  search-Ends (suc fuel) visited [] h = (false, refl)
  search-Ends (suc fuel) visited (c ∷ stack) h = elim (Text-discrete c target) [
    | yes e ↦ (true, search_found fuel visited c stack e)
    | no ne ↦ elim (Bool-cases (has visited c)) [
      | inl old ↦
          subst (λ (r : Option Bool). (b : Bool) × (r ≡ some b))
            (sym (search_skip fuel visited c stack ne old))
            (search-Ends fuel visited stack (omega arith))
      | inr new ↦
          subst (λ (r : Option Bool). (b : Bool) × (r ≡ some b))
            (sym (search_follow fuel visited c stack ne new))
            (search-Ends fuel (c ∷ visited) (pushed c stack)
              (omega (arith, h, length-pushed c stack, cost-visit c visited g.dependencies new)))
    ]
  ]
