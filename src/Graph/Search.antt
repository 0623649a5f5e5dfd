-- ===== src/Graph/Search.antt =====
-- hasPath ends, and answers whether there is a chain of dependencies.
use premise_protocol.Base.{
  ℕ, zero, suc, ◌+◌, ◌≡◌, ◌≢◌, ◌↔◌, ◌⊎◌, inl, inr, refl, sym, subst, ◌∙◌, arith, Bool, true, false,
  Text, Text-discrete, some, List, [], ◌∷◌, Bool-cases,
}
use premise_protocol.Subsumption.{has}
use premise_protocol.Subsumption.Sets.{In, has-In}
use premise_protocol.Graph.{DependencyGraph, search, edge_count, has_path}
use premise_protocol.Graph.Rounds.{
  DependsOn, pushed, In-pushed, search_found, search_skip, search_follow, search-Ends,
}
use premise_protocol.Graph.Reach.{Reaches, here, via}
use premise_protocol.Graph.Cost.{cost-none}

module _ (g : DependencyGraph) (target : Text) where
  -- `true` only if something on the stack reaches the target.
  search-true :
      (fuel : ℕ) (visited stack : List Text)
      → search g target fuel visited stack ≡ some true
      → (s : Text) × In s stack × Reaches (DependsOn g) s target
  unfolding search
  search-true zero visited stack h = cc
  search-true (suc fuel) visited [] h = cc
  search-true (suc fuel) visited (c ∷ stack) h = elim (Text-discrete c target) [
    | yes e ↦ (c, inl refl, subst (λ (x : Text). Reaches (DependsOn g) c x) e here)
    | no ne ↦ elim (Bool-cases (has visited c)) [
      | inl old ↦
          let (s, i, r) =
            search-true fuel visited stack
              (sym (search_skip g target fuel visited c stack ne old) ∙ h) in
          (s, inr i, r)
      | inr new ↦
          let (s, i, r) =
            search-true fuel (c ∷ visited) (pushed g target c stack)
              (sym (search_follow g target fuel visited c stack ne new) ∙ h) in
          elim ((In-pushed g target s c stack).0 i) [
            | inl e ↦ (c, inl refl, via e r)
            | inr j ↦ (s, inr j, r)
          ]
    ]
  ]

  -- What the search keeps: the target is not visited, and dependencies of a visited node are visited
  -- or wait on the stack.
  pub record Searching (visited stack : List Text) : Type 0 where
    pub unseen : In target visited → ⊥
    pub closed : (v d : Text) → In v visited → DependsOn g v d → In d visited ⊎ In d stack

  Searching-skip :
      (visited stack : List Text) (c : Text)
      → has visited c ≡ true
      → Searching visited (c ∷ stack)
      → Searching visited stack
  Searching-skip visited stack c old s = record {
    unseen = s.unseen;
    closed = λ v d i e. elim (s.closed v d i e) [
      | inl j ↦ inl j
      | inr (inl q) ↦ inl (subst (λ (x : Text). In x visited) (sym q) ((has-In visited c).0 old))
      | inr (inr j) ↦ inr j
    ];
  }

  Searching-follow :
      (visited stack : List Text) (c : Text)
      → c ≢ target
      → Searching visited (c ∷ stack)
      → Searching (c ∷ visited) (pushed g target c stack)
  Searching-follow visited stack c ne s = record {
    unseen = λ i. elim i [ inl q ↦ ne (sym q) | inr j ↦ s.unseen j ];
    closed = λ v d i e. elim i [
      | inl q ↦
          inr ((In-pushed g target d c stack).1 (inl (subst (λ (x : Text). DependsOn g x d) q e)))
      | inr j ↦ elim (s.closed v d j e) [
        | inl k ↦ inl (inr k)
        | inr (inl q) ↦ inl (inl q)
        | inr (inr k) ↦ inr ((In-pushed g target d c stack).1 (inr k))
      ]
    ];
  }

  Searching-end :
      (visited : List Text) (v w : Text)
      → Searching visited []
      → In v visited
      → w ≡ target
      → Reaches (DependsOn g) v w
      → ⊥
  Searching-end visited v w s i q here = s.unseen (subst (λ (x : Text). In x visited) q i)
  Searching-end visited v w s i q (via {a} {b} e r) = elim (s.closed v b i e) [
    | inl j ↦ Searching-end visited b w s j q r
    | inr none_left ↦ absurd none_left
  ]

  -- `false` only if nothing that is visited or on the stack reaches the target.
  search-false :
      (fuel : ℕ) (visited stack : List Text)
      → Searching visited stack
      → search g target fuel visited stack ≡ some false
      → (s : Text) → In s visited ⊎ In s stack
      → Reaches (DependsOn g) s target
      → ⊥
  unfolding search
  search-false zero visited stack s h v i r = cc
  search-false (suc fuel) visited [] s h v i r = elim i [
    | inl j ↦ Searching-end visited v target s j refl r
    | inr none_left ↦ none_left
  ]
  search-false (suc fuel) visited (c ∷ stack) s h v i r = elim (Text-discrete c target) [
    | yes e ↦ absurd (cc (search_found g target fuel visited c stack e, h))
    | no ne ↦ elim (Bool-cases (has visited c)) [
      | inl old ↦
          search-false fuel visited stack (Searching-skip visited stack c old s)
            (sym (search_skip g target fuel visited c stack ne old) ∙ h) v
            (ground (arith, i, (has-In visited c).0 old)) r
      | inr new ↦
          search-false fuel (c ∷ visited) (pushed g target c stack)
            (Searching-follow visited stack c ne s)
            (sym (search_follow g target fuel visited c stack ne new) ∙ h) v
            (elim i [
              | inl j ↦ inl (inr j)
              | inr (inl q) ↦ inl (inl q)
              | inr (inr k) ↦ inr ((In-pushed g target v c stack).1 (inr k))
            ])
            r
    ]
  ]

-- hasPath returns, and it answers `true` exactly if there is a chain of dependencies from the start
-- to the target, the empty one included.
pub has_path-Reaches :
    (g : DependencyGraph) (start target : Text)
    → (b : Bool) × (has_path g start target ≡ some b)
      × ((b ≡ true) ↔ Reaches (DependsOn g) start target)
unfolding has_path
has_path-Reaches g start target =
    let (b, ends) =
      search-Ends g target (2 + edge_count g.dependencies) [] (start ∷ [])
        (omega (arith, cost-none g.dependencies)) in
    (b, ends, answer b ends)
  where
    nothing_visited : Searching g target [] (start ∷ [])
    nothing_visited = record { unseen = λ i. i; closed = λ v d i e. absurd i }

    answer :
        (b : Bool)
        → search g target (2 + edge_count g.dependencies) [] (start ∷ []) ≡ some b
        → (b ≡ true) ↔ Reaches (DependsOn g) start target
    answer true e =
        let (s, i, r) = search-true g target (2 + edge_count g.dependencies) [] (start ∷ []) e in
        (
          λ _. elim i [
            | inl q ↦ subst (λ (x : Text). Reaches (DependsOn g) x target) q r
            | inr none_left ↦ absurd none_left
          ],
          λ _. refl,
        )
    answer false e = (
      λ h. cc,
      λ r. absurd (
          search-false g target (2 + edge_count g.dependencies) [] (start ∷ []) nothing_visited e
            start (inr (inl refl)) r),
    )
