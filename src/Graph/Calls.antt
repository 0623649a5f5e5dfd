-- ===== src/Graph/Calls.antt =====
-- What addDependency and setDependencies do to a sound graph.
use premise_protocol.Base.{
  ◌≡◌, ◌≢◌, ◌↔◌, ◌⊎◌, inl, inr, sym, subst, arith, Bool, false, Text, Text-discrete, is_empty,
  if◌then◌else◌, some, List, [], ◌∷◌, Bool-cases,
}
use premise_protocol.Subsumption.{has}
use premise_protocol.Subsumption.Sets.{In, has-In}
use premise_protocol.Graph.{
  DependencyGraph, GraphError, dependency_cycle, returns, throws, has_node, enter, members,
  closes_cycle, link, unlink_all, link_each, sort_texts, unique_from, add_dependency,
  set_dependencies,
}
use premise_protocol.Graph.Sets.{In-sort, In-unique}
use premise_protocol.Graph.Reach.{Reaches, Reaches-map, Acyclic-extend}
use premise_protocol.Graph.Rounds.{DependsOn}
use premise_protocol.Graph.Edges.{
  DependsOn-enter, Known-enter, enter-Known, DependsOn-link, DependsOn-unlink_all, Known-unlink_all,
  unlink_all-Mirrored,
}
use premise_protocol.Graph.Sound.{
  Sound, enter-Sound, has_node-WasKnown, enter-WasKnown, closes_cycle-Reaches, link-Sound,
}
use premise_protocol.Graph.Loops.{
  Free, Fails, Linked, add_node_named, check_each_cases, link_each_lem,
}

module _ (g : DependencyGraph) (n : Text) where
  Reaches-enter : (a b : Text) → Reaches (DependsOn (enter g n)) a b ↔ Reaches (DependsOn g) a b
  Reaches-enter a b = (
    Reaches-map (λ x y. (DependsOn-enter g n x y).0),
    Reaches-map (λ x y. (DependsOn-enter g n x y).1),
  )

-- addDependency
module _ (g : DependencyGraph) (n d : Text) where
  abbrev both : DependencyGraph
  both = enter (enter g n) d

  same : (a b : Text) → DependsOn both a b ↔ DependsOn g a b
  same a b = ground (arith, DependsOn-enter (enter g n) d a b, DependsOn-enter g n a b)

  Reaches-both : (a b : Text) → Reaches (DependsOn both) a b ↔ Reaches (DependsOn g) a b
  Reaches-both a b = ground (arith, Reaches-enter (enter g n) d a b, Reaches-enter g n a b)

  abbrev pub Added : DependencyGraph → Type 0
  Added h = (add_dependency g n d ≡ some (returns h)) × Sound h × Linked g n (d ∷ []) h

  -- The end of addDependency, where the test has passed.
  abbrev linked : DependencyGraph → DependencyGraph
  linked e = if has (members e.dependencies n) d then e else link e n d

  linked-Linked :
      Sound both
      → (Reaches (DependsOn both) d n → ⊥)
      → Sound (linked both) × Linked g n (d ∷ []) (linked both)
  linked-Linked s free =
      let known_n = enter-Known (enter g n) d n (Known-enter g n) in
      let known_d = Known-enter (enter g n) d in
      elim (Bool-cases (has (members both.dependencies n) d)) [
        | inl e ↦
            let there : DependsOn both n d = (has-In (members both.dependencies n) d).0 e in
            rw (e) (
              s,
              λ a b. (
                λ i. inl ((same a b).0 i),
                λ h. elim h [
                  | inl i ↦ (same a b).1 i
                  | inr (p, inl q) ↦
                      subst (λ (x : Text). DependsOn both x b) (sym p)
                        (subst (λ (y : Text). DependsOn both n y) (sym q) there)
                  | inr (p, inr i) ↦ absurd i
                ],
              ),
            )
        | inr e ↦ rw (e) (
          link-Sound both n d known_n known_d free s,
          λ a b. ground (arith, DependsOn-link both n d known_n a b, same a b),
        )
      ]

  add_dependency_named :
      (b : Bool)
      → is_empty n ≡ false
      → is_empty d ≡ false
      → closes_cycle both (has_node g n) n d ≡ some b
      → add_dependency g n d
        ≡ some (if b then throws (dependency_cycle n d) both else returns (linked both))
  unfolding add_dependency
  add_dependency_named b named_n named_d c =
      rw (add_node_named g n named_n)
        (rw (add_node_named (enter g n) d named_d) (ground (arith, c)))

  -- Of a graph that is sound, for names that are not empty: addDependency returns; it throws
  -- DependencyCycleError, with no edge changed, exactly if the dependency reaches the node, and else
  -- leaves a sound graph with this one edge more.
  pub add_dependency-Linked :
      Sound g
      → is_empty n ≡ false
      → is_empty d ≡ false
      → (Reaches (DependsOn g) d n
          × (add_dependency g n d ≡ some (throws (dependency_cycle n d) both)))
        ⊎ ((Reaches (DependsOn g) d n → ⊥) × ((h : DependencyGraph) × Added h))
  add_dependency-Linked s named_n named_d =
      let sound = enter-Sound (enter g n) d (enter-Sound g n s) in
      let known =
        enter-WasKnown (enter g n) d n (has_node g n)
          (enter-WasKnown g n n (has_node g n) (has_node-WasKnown g n s.mirrored)) in
      let (b, ends, reaches) = closes_cycle-Reaches both (has_node g n) n d known in
      let runs = add_dependency_named b named_n named_d ends in
      elim (Bool-cases b) [
        | inl t ↦ inl ((Reaches-both d n).0 (reaches.0 t), cc)
        | inr f ↦
            let free : Reaches (DependsOn both) d n → ⊥ = λ r. cc (reaches.1 r, f) in
            let (h, edges) = linked-Linked sound free in
            inr (λ r. free ((Reaches-both d n).1 r), (linked both, (cc, h, edges)))
      ]

-- setDependencies
module _ (g : DependencyGraph) (n : Text) (ds : List Text) where
  abbrev next : List Text
  next = sort_texts (unique_from [] ds)

  In-next : (v : Text) → In v next ↔ In v ds
  In-next v = ground (arith, In-sort v (unique_from [] ds), In-unique v [] ds)

  abbrev pub Replaced : DependencyGraph → Type 0
  Replaced h = (a b : Text) → DependsOn h a b ↔ (((a ≡ n) × In b ds) ⊎ ((a ≢ n) × DependsOn g a b))

  -- The loops that put the new edges in the place of the old.
  replaces :
      Sound (enter g n)
      → ((d : Text) → In d next → Free (enter g n) n d)
      → (h : DependencyGraph) × (link_each (unlink_all (enter g n) n) n next ≡ some (returns h))
        × Sound h
        × Replaced h
  replaces s free =
      let e = enter g n in
      let u = unlink_all e n in
      let (h, ends, mirrored, linked) =
        link_each_lem u n next (unlink_all-Mirrored e n s.mirrored)
          (Known-unlink_all e n n (Known-enter g n)) (λ d i. (free d i).0) in
      (
        h,
        ends,
        record {
          mirrored = mirrored;
          acyclic =
              Acyclic-extend n (λ x. In x next)
                (λ a b f. ground (arith, linked a b, f, DependsOn-unlink_all e n a b)) s.acyclic
                (λ x i. (free x i).1);
        },
        λ a b. ground (
          arith,
          linked a b,
          DependsOn-unlink_all e n a b,
          DependsOn-enter g n a b,
          In-next b,
          Text-discrete a n,
        ),
      )

  -- Of a graph that is sound, for a name that is not empty: setDependencies returns. It throws, with
  -- no edge changed, where one of the dependencies is empty or reaches the node, and the error names
  -- the reason; else it leaves a sound graph in which the node has just these dependencies and every
  -- other node has its own.
  pub set_dependencies-Replaced :
      Sound g
      → is_empty n ≡ false
      → ((e : GraphError) × (set_dependencies g n ds ≡ some (throws e (enter g n)))
          × ((d : Text) × (In d ds × Fails g n d e)))
        ⊎ (((d : Text) → In d ds → Free g n d)
            × ((h : DependencyGraph) × (set_dependencies g n ds ≡ some (returns h))
                × Sound h
                × Replaced h))
  unfolding set_dependencies
  set_dependencies-Replaced s named =
      let e = enter g n in
      let sound = enter-Sound g n s in
      let known = enter-WasKnown g n n (has_node g n) (has_node-WasKnown g n s.mirrored) in
      let begins = add_node_named g n named in
      elim (check_each_cases e (has_node g n) n known next) [
        | inl (err, stops, (d, (i, why))) ↦ inl (
          err,
          rw (begins) (ground (arith, stops)),
          (
            d,
            (
              (In-next d).0 i,
              elim why [ inl w ↦ inl w | inr (r, q) ↦ inr ((Reaches-enter g n d n).0 r, q) ],
            ),
          ),
        )
        | inr (passes, free) ↦
            let (h, ends, sound_h, edges) = replaces sound free in
            inr (
              λ d i.
                  let f = free d ((In-next d).1 i) in (f.0, λ r. f.1 ((Reaches-enter g n d n).1 r)),
              (h, rw (begins) (ground (arith, passes, ends)), sound_h, edges),
            )
      ]
