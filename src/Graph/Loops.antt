-- ===== src/Graph/Loops.antt =====
-- The loops of setDependencies.
use premise_protocol.Base.{
  ◌≡◌, ◌↔◌, ◌⊎◌, inl, inr, refl, sym, subst, arith, Bool, true, false, Text, is_empty, none, some,
  List, [], ◌∷◌, Bool-cases,
}
use premise_protocol.Subsumption.Sets.{In}
use premise_protocol.Graph.{
  DependencyGraph, GraphError, dependency_empty, dependency_cycle, returns, enter, add_node,
  check_each, link, link_each,
}
use premise_protocol.Graph.Reach.{Reaches}
use premise_protocol.Graph.Rounds.{DependsOn}
use premise_protocol.Graph.Edges.{
  Known, Mirrored, DependsOn-enter, Known-enter, enter-Known, enter-Mirrored, DependsOn-link,
  Known-link, link-Mirrored,
}
use premise_protocol.Graph.Sound.{WasKnown, closes_cycle-Reaches}

-- A dependency that may be set: it has a name, and it does not reach the node.
abbrev pub Free : DependencyGraph → Text → Text → Type 0
Free g n d = (is_empty d ≡ false) × (Reaches (DependsOn g) d n → ⊥)

abbrev pub Fails : DependencyGraph → Text → Text → GraphError → Type 0
Fails g n d e =
    ((is_empty d ≡ true) × (e ≡ dependency_empty))
    ⊎ (Reaches (DependsOn g) d n × (e ≡ dependency_cycle n d))

-- The checks return; they name a dependency that fails, or every dependency is free.
pub check_each_cases :
    (g : DependencyGraph) (known : Bool) (n : Text)
    → WasKnown g n known
    → (ds : List Text)
    → ((e : GraphError) × (check_each g known n ds ≡ some (some e))
        × ((d : Text) × (In d ds × Fails g n d e)))
      ⊎ ((check_each g known n ds ≡ some none) × ((d : Text) → In d ds → Free g n d))
unfolding check_each
check_each_cases g known n w [] = inr (refl, λ d i. absurd i)
check_each_cases g known n w (d ∷ ds) = elim (Bool-cases (is_empty d)) [
  | inl e ↦ inl (dependency_empty, ground (arith, e), (d, (inl refl, inl (e, refl))))
  | inr named ↦
      let (b, ends, reaches) = closes_cycle-Reaches g known n d w in
      elim (Bool-cases b) [
        | inl t ↦ inl (
          dependency_cycle n d,
          ground (arith, named, ends, t),
          (d, (inl refl, inr (reaches.0 t, refl))),
        )
        | inr f ↦ elim (check_each_cases g known n w ds) [
          | inl (e, fails, (c, (i, why))) ↦
              inl (e, ground (arith, named, ends, f, fails), (c, (inr i, why)))
          | inr (passes, free) ↦ inr (
            ground (arith, named, ends, f, passes),
            λ c i. elim i [
              | inl q ↦ subst (λ (x : Text). Free g n x) (sym q) (named, λ r. cc (reaches.1 r, f))
              | inr j ↦ free c j
            ],
          )
        ]
      ]
]

pub add_node_named :
    (g : DependencyGraph) (n : Text) → is_empty n ≡ false → add_node g n ≡ returns (enter g n)
unfolding add_node
add_node_named g n e = ground (arith, e)

abbrev pub Linked : DependencyGraph → Text → List Text → DependencyGraph → Type 0
Linked g n ds h = (a b : Text) → DependsOn h a b ↔ (DependsOn g a b ⊎ ((a ≡ n) × In b ds))

pub link_each_lem :
    (g : DependencyGraph) (n : Text) (ds : List Text)
    → Mirrored g
    → Known g n
    → ((d : Text) → In d ds → is_empty d ≡ false)
    → (h : DependencyGraph) × (link_each g n ds ≡ some (returns h)) × Mirrored h × Linked g n ds h
unfolding link_each
link_each_lem g n [] m known named =
    (g, refl, m, λ a b. (λ h. inl h, λ h. elim h [ inl e ↦ e | inr (p, i) ↦ absurd i ]))
link_each_lem g n (d ∷ ds) m known named =
    let e = enter g d in
    let known_n : Known e n = enter-Known g d n known in
    let (h, ends, mirrored, linked) =
      link_each_lem (link e n d) n ds
        (link-Mirrored e n d known_n (Known-enter g d) (enter-Mirrored g d m))
        (Known-link e n d n known_n) (λ c i. named c (inr i)) in
    (
      h,
      rw (add_node_named g d (named d (inl refl))) ends,
      mirrored,
      λ a b. ground (arith, linked a b, DependsOn-link e n d known_n a b, DependsOn-enter g d a b),
    )
