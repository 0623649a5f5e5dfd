-- ===== src/Graph/Edges.antt =====
-- The edges of the graph after each change, and that both Maps tell of the same edges.
use premise_protocol.Base.{
  ◌≡◌, ◌≢◌, ◌↔◌, ◌⊎◌, inl, inr, refl, sym, subst, arith, Text, Text-discrete, none, List, [], ◌∷◌,
}
use premise_protocol.Entries.{OrderedMap, lookup}
use premise_protocol.Subsumption.Sets.{In}
use premise_protocol.Graph.{
  DependencyGraph, new_graph, add_member, delete_member, members, change, enter, link, unlink_each,
  unlink_all,
}
use premise_protocol.Graph.Sets.{In-add}
use premise_protocol.Graph.Views.{
  members-change, members-change_ne, members-change_empty, lookup-change, members-ensure,
  lookup-ensure, In-unlink_each,
}
use premise_protocol.Graph.Rounds.{DependsOn}

abbrev pub Known : DependencyGraph → Text → Type 0
Known g n = lookup n g.dependencies ≢ none

-- Dependencies are nodes, and the Map of the dependents is the other direction of the same edges.
pub record Mirrored (g : DependencyGraph) : Type 0 where
  pub entered : (a b : Text) → DependsOn g a b → Known g b
  pub same_nodes : (k : Text) → (lookup k g.dependencies ≡ none) ↔ (lookup k g.dependents ≡ none)
  pub both_ways : (a b : Text) → DependsOn g a b ↔ In a (members g.dependents b)

pub Mirrored-new_graph : Mirrored new_graph
unfolding members lookup
Mirrored-new_graph = record {
  entered = λ a b e. absurd e;
  same_nodes = λ k. (λ h. h, λ h. h);
  both_ways = λ a b. (λ h. h, λ h. h);
}

module _ (g : DependencyGraph) (n : Text) where
  pub DependsOn-enter : (a b : Text) → DependsOn (enter g n) a b ↔ DependsOn g a b
  unfolding enter
  DependsOn-enter a b = rw (members-ensure n a g.dependencies) (λ h. h, λ h. h)

  pub Known-enter : Known (enter g n) n
  unfolding enter
  Known-enter h = ((lookup-ensure n n g.dependencies).0 h).1 refl

  pub enter-Known : (k : Text) → Known g k → Known (enter g n) k
  unfolding enter
  enter-Known k known h = known ((lookup-ensure n k g.dependencies).0 h).0

  pub enter-Mirrored : Mirrored g → Mirrored (enter g n)
  unfolding enter
  enter-Mirrored m = record {
    entered = λ a b e. enter-Known b (m.entered a b ((DependsOn-enter a b).0 e));
    same_nodes = λ k.
        ground
          (arith, lookup-ensure n k g.dependencies, lookup-ensure n k g.dependents, m.same_nodes k);
    both_ways = λ a b. ground (
      arith,
      m.both_ways a b,
      members-ensure n a g.dependencies,
      members-ensure n b g.dependents,
    );
  }

In-change_add :
    (k v : Text) (es : OrderedMap (List Text)) (j w : Text)
    → lookup k es ≢ none
    → In w (members (change k (add_member v) es) j) ↔ (In w (members es j) ⊎ ((j ≡ k) × (w ≡ v)))
In-change_add k v es j w known = elim (Text-discrete k j) [
  | yes e ↦
      let same : members (change k (add_member v) es) j ≡ add_member v (members es j) =
        cc (e, members-change k (add_member v) es known) in
      rw (same) (grind (arith, In-add w v (members es j), e))
  | no ne ↦
      rw (members-change_ne k (add_member v) j es ne)
        (λ h. inl h, λ h. elim h [ inl i ↦ i | inr (p, q) ↦ absurd (ne (sym p)) ])
]

module _ (g : DependencyGraph) (n d : Text) where
  pub DependsOn-link :
      Known g n
      → (a b : Text) → DependsOn (link g n d) a b ↔ (DependsOn g a b ⊎ ((a ≡ n) × (b ≡ d)))
  unfolding link
  DependsOn-link known a b = In-change_add n d g.dependencies a b known

  pub Known-link : (k : Text) → Known g k → Known (link g n d) k
  unfolding link
  Known-link k known h = known ((lookup-change n (add_member d) k g.dependencies).0 h)

  pub link-Mirrored : Known g n → Known g d → Mirrored g → Mirrored (link g n d)
  unfolding link
  link-Mirrored known_n known_d m = record {
    entered = λ a b e. elim ((DependsOn-link known_n a b).0 e) [
      | inl old ↦ Known-link b (m.entered a b old)
      | inr (p, q) ↦ Known-link b (subst (λ (x : Text). Known g x) (sym q) known_d)
    ];
    same_nodes = λ k. ground (
      arith,
      m.same_nodes k,
      lookup-change n (add_member d) k g.dependencies,
      lookup-change d (add_member n) k g.dependents,
    );
    both_ways = λ a b. ground (
      arith,
      m.both_ways a b,
      DependsOn-link known_n a b,
      In-change_add d n g.dependents b a (λ h. known_d ((m.same_nodes d).1 h)),
    );
  }

module _ (g : DependencyGraph) (n : Text) where
  abbrev emptied : List Text → List Text
  emptied xs = []

  pub DependsOn-unlink_all :
      (a b : Text) → DependsOn (unlink_all g n) a b ↔ (DependsOn g a b × (a ≢ n))
  unfolding unlink_all
  DependsOn-unlink_all a b = elim (Text-discrete n a) [
    | yes e ↦
        let same : members (change n emptied g.dependencies) a ≡ [] =
          cc (e, members-change_empty n emptied g.dependencies refl) in
        rw (same) (λ h. absurd h, λ h. h.1 (sym e))
    | no ne ↦
        rw (members-change_ne n emptied a g.dependencies ne) (λ h. (h, λ p. ne (sym p)), λ h. h.0)
  ]

  pub Known-unlink_all : (k : Text) → Known g k → Known (unlink_all g n) k
  unfolding unlink_all
  Known-unlink_all k known h = known ((lookup-change n emptied k g.dependencies).0 h)

  lookup-unlink_each :
      (ds : List Text) (es : OrderedMap (List Text)) (k : Text)
      → (lookup k (unlink_each n ds es) ≡ none) ↔ (lookup k es ≡ none)
  unfolding unlink_each
  lookup-unlink_each [] es k = (λ h. h, λ h. h)
  lookup-unlink_each (d ∷ ds) es k = ground (
    arith,
    lookup-change d (delete_member n) k es,
    lookup-unlink_each ds (change d (delete_member n) es) k,
  )

  pub unlink_all-Mirrored : Mirrored g → Mirrored (unlink_all g n)
  unfolding unlink_all
  unlink_all-Mirrored m = record {
    entered = λ a b e. Known-unlink_all b (m.entered a b ((DependsOn-unlink_all a b).0 e).0);
    same_nodes = λ k. ground (
      arith,
      m.same_nodes k,
      lookup-change n emptied k g.dependencies,
      lookup-unlink_each (members g.dependencies n) g.dependents k,
    );
    both_ways = λ a b.
        let in_set = In-unlink_each n (members g.dependencies n) g.dependents b a in
        let edge = DependsOn-unlink_all a b in
        let both = m.both_ways a b in
        (
          λ h. in_set.1 (both.0 (edge.0 h).0, λ p i. (edge.0 h).1 p),
          λ h.
              let old = both.1 (in_set.0 h).0 in
              edge.1 (old, λ p. (in_set.0 h).1 p (subst (λ (x : Text). DependsOn g x b) p old)),
        );
  }
