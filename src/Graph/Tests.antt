-- ===== src/Graph/Tests.antt =====
-- The theorems on the dependency graph at a concrete graph.
use premise_protocol.Base.{
  ◌≡◌, ◌⊎◌, refl, sym, subst, ◌∙◌, ◌↔◌, Bool, true, ℕ_discrete, Text-discrete, Text, codes, some,
  List, [], ◌∷◌,
}
use premise_protocol.Entries.{some_inj, lookup}
use premise_protocol.Subsumption.Sets.{In}
use premise_protocol.Graph.Loops.{Free, Fails}
use premise_protocol.Graph.{
  DependencyGraph, GraphError, returns, new_graph, throws, dependency_cycle, enter, Call,
  adds_dependency, sets_dependencies, has_path, dependencies_of, perform_call, add_node, check_each,
  unique_from, add_member, closes_cycle, has_node, link_each, left_behind, change, delete_member,
  ensure, link, unlink_all, unlink_each, search, edge_count, sort_texts, members, insert_text,
  text_le, add_dependency, set_dependencies, run_calls,
}
use premise_protocol.Graph.Reach.{Reaches}
use premise_protocol.Graph.Rounds.{DependsOn}
use premise_protocol.Graph.Search.{has_path-Reaches}
use premise_protocol.Graph.Sound.{Sound}
use premise_protocol.Graph.Calls.{Added, Replaced, add_dependency-Linked, set_dependencies-Replaced}
use premise_protocol.Graph.Runs.{run_calls-Sound}

abbrev a : Text
a = codes "a"

abbrev b : Text
b = codes "b"

abbrev c : Text
c = codes "c"

-- a depends on c and b, b depends on c; the last call would close a cycle.
abbrev history : List Call
history = sets_dependencies a (c ∷ b ∷ c ∷ []) ∷ adds_dependency b c ∷ adds_dependency c a ∷ []

abbrev built : DependencyGraph
built = record {
  dependencies = (a, b ∷ c ∷ []) ∷ (b, c ∷ []) ∷ (c, []) ∷ [];
  dependents = (a, []) ∷ (b, a ∷ []) ∷ (c, a ∷ b ∷ []) ∷ [];
}

history_runs : run_calls new_graph history ≡ some built
unfolding run_calls perform_call set_dependencies add_node check_each unique_from add_member
    closes_cycle has_node link_each add_dependency left_behind ℕ_discrete change delete_member
    ensure enter link unlink_all unlink_each has_path search edge_count Text-discrete
    dependencies_of sort_texts members lookup insert_text text_le
history_runs = refl

path_runs : has_path built a c ≡ some true
unfolding has_path search edge_count Text-discrete dependencies_of sort_texts members lookup
    insert_text text_le
path_runs = refl

built-Sound : Sound built
built-Sound =
    let (g, runs, sound) = run_calls-Sound history in
    subst Sound (some_inj (sym runs ∙ history_runs)) sound

has_path-Reaches_example :
    (r : Bool) × (has_path built a c ≡ some r) × ((r ≡ true) ↔ Reaches (DependsOn built) a c)
has_path-Reaches_example = has_path-Reaches built a c

run_calls-Sound_example : (g : DependencyGraph) × (run_calls new_graph history ≡ some g) × Sound g
run_calls-Sound_example = run_calls-Sound history

-- From c to a the call throws.
add_dependency-Linked_example :
    (Reaches (DependsOn built) a c
      × (add_dependency built c a ≡ some (throws (dependency_cycle c a) (enter (enter built c) a))))
    ⊎ ((Reaches (DependsOn built) a c → ⊥) × ((h : DependencyGraph) × Added built c a h))
add_dependency-Linked_example = add_dependency-Linked built c a built-Sound refl refl

set_dependencies-Replaced_example :
    ((e : GraphError) × (set_dependencies built a (c ∷ []) ≡ some (throws e (enter built a)))
      × ((d : Text) × (In d (c ∷ []) × Fails built a d e)))
    ⊎ (((d : Text) → In d (c ∷ []) → Free built a d)
        × ((h : DependencyGraph) × (set_dependencies built a (c ∷ []) ≡ some (returns h))
            × Sound h
            × Replaced built a (c ∷ []) h))
set_dependencies-Replaced_example = set_dependencies-Replaced built a (c ∷ []) built-Sound refl
