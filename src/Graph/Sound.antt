-- ===== src/Graph/Sound.antt =====
-- A sound graph, and when addDependency throws DependencyCycleError.
use premise_protocol.Base.{
  ◌≡◌, ◌↔◌, ◌⊎◌, inl, inr, refl, sym, subst, arith, Bool, true, false, Text, Text-discrete, some,
  Bool-cases, Option-cases,
}
use premise_protocol.Entries.{lookup}
use premise_protocol.Graph.{
  DependencyGraph, new_graph, members, has_node, enter, closes_cycle, link,
}
use premise_protocol.Graph.Reach.{
  Reaches, here, Acyclic, Acyclic-extend, Reaches-map, Reaches-source,
}
use premise_protocol.Graph.Rounds.{DependsOn}
use premise_protocol.Graph.Search.{has_path-Reaches}
use premise_protocol.Graph.Edges.{
  Known, Mirrored, Mirrored-new_graph, DependsOn-enter, enter-Mirrored, DependsOn-link,
  link-Mirrored,
}

pub record Sound (g : DependencyGraph) : Type 0 where
  pub mirrored : Mirrored g
  pub acyclic : Acyclic (DependsOn g)

pub Sound-new_graph : Sound new_graph
unfolding members lookup
Sound-new_graph = record { mirrored = Mirrored-new_graph; acyclic = λ a b e r. absurd e }

pub enter-Sound : (g : DependencyGraph) (n : Text) → Sound g → Sound (enter g n)
enter-Sound g n s = record {
  mirrored = enter-Mirrored g n s.mirrored;
  acyclic = λ a b e r.
      s.acyclic a b ((DependsOn-enter g n a b).0 e)
        (Reaches-map (λ x y. (DependsOn-enter g n x y).0) r);
}

-- Whether a node was known before it was entered.
abbrev pub WasKnown : DependencyGraph → Text → Bool → Type 0
WasKnown g n known = (known ≡ true) ⊎ ((x : Text) → DependsOn g x n → ⊥)

pub has_node-WasKnown : (g : DependencyGraph) (n : Text) → Mirrored g → WasKnown g n (has_node g n)
unfolding has_node
has_node-WasKnown g n m = elim (Option-cases (lookup n g.dependencies)) [
  | inl e ↦ inr (λ x i. m.entered x n i e)
  | inr (xs, e) ↦ inl (ground (arith, e))
]

pub enter-WasKnown :
    (g : DependencyGraph) (m n : Text) (known : Bool)
    → WasKnown g n known
    → WasKnown (enter g m) n known
enter-WasKnown g m n known w = elim w [
  | inl e ↦ inl e
  | inr h ↦ inr (λ x i. h x ((DependsOn-enter g m x n).0 i))
]

-- The test returns; a node that was not known cannot be reached.
pub closes_cycle-Reaches :
    (g : DependencyGraph) (known : Bool) (n d : Text)
    → WasKnown g n known
    → (b : Bool) × (closes_cycle g known n d ≡ some b) × ((b ≡ true) ↔ Reaches (DependsOn g) d n)
unfolding closes_cycle
closes_cycle-Reaches g known n d w = elim (Text-discrete n d) [
  | yes e ↦ (
    true,
    ground (arith, e),
    (λ h. subst (λ (x : Text). Reaches (DependsOn g) d x) (sym e) here, λ r. refl),
  )
  | no ne ↦ elim (Bool-cases known) [
    | inl k ↦
        let (b, ends, reaches) = has_path-Reaches g d n in (b, ground (arith, ne, k, ends), reaches)
    | inr k ↦ (
      false,
      ground (arith, ne, k),
      (
        λ h. cc,
        λ r. elim w [ inl e ↦ cc | inr none_in ↦ absurd (ne (sym (Reaches-source none_in r))) ],
      ),
    )
  ]
]

pub link-Sound :
    (g : DependencyGraph) (n d : Text)
    → Known g n
    → Known g d
    → (Reaches (DependsOn g) d n → ⊥)
    → Sound g
    → Sound (link g n d)
link-Sound g n d known_n known_d free s = record {
  mirrored = link-Mirrored g n d known_n known_d s.mirrored;
  acyclic =
      Acyclic-extend n (λ x. x ≡ d) (λ a b. (DependsOn-link g n d known_n a b).0) s.acyclic
        (λ x e r. free (subst (λ (y : Text). Reaches (DependsOn g) y n) e r));
}
