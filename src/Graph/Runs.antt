-- ===== src/Graph/Runs.antt =====
-- Every sequence of calls keeps the graph sound.
use premise_protocol.Base.{
  ◌≡◌, inl, inr, refl, arith, true, Text, is_empty, some, List, [], ◌∷◌, Bool-cases,
}
use premise_protocol.Graph.{
  DependencyGraph, new_graph, node_empty, Outcome, returns, throws, enter, add_node, add_dependency,
  set_dependencies, Call, adds_node, adds_dependency, sets_dependencies, perform_call, left_behind,
  run_calls,
}
use premise_protocol.Graph.Sound.{Sound, Sound-new_graph, enter-Sound}
use premise_protocol.Graph.Loops.{add_node_named}
use premise_protocol.Graph.Calls.{add_dependency-Linked, set_dependencies-Replaced}

-- The call returns or throws, and leaves a sound graph.
abbrev Settles : DependencyGraph → Call → Type 0
Settles g c = (o : Outcome) × (perform_call g c ≡ some o) × Sound (left_behind o)

add_node_empty :
    (g : DependencyGraph) (n : Text) → is_empty n ≡ true → add_node g n ≡ throws node_empty g
unfolding add_node
add_node_empty g n e = ground (arith, e)

adds_node-Settles : (g : DependencyGraph) (n : Text) → Sound g → Settles g (adds_node n)
unfolding perform_call left_behind
adds_node-Settles g n s = elim (Bool-cases (is_empty n)) [
  | inl e ↦ (throws node_empty g, rw (add_node_empty g n e) refl, s)
  | inr e ↦ (returns (enter g n), rw (add_node_named g n e) refl, enter-Sound g n s)
]

adds_dependency-Settles :
    (g : DependencyGraph) (n d : Text) → Sound g → Settles g (adds_dependency n d)
unfolding perform_call left_behind add_dependency
adds_dependency-Settles g n d s = elim (Bool-cases (is_empty n)) [
  | inl e ↦ (throws node_empty g, rw (add_node_empty g n e) refl, s)
  | inr named_n ↦ elim (Bool-cases (is_empty d)) [
    | inl e ↦ (
      throws node_empty (enter g n),
      rw (add_node_named g n named_n) (rw (add_node_empty (enter g n) d e) refl),
      enter-Sound g n s,
    )
    | inr named_d ↦ elim (add_dependency-Linked g n d s named_n named_d) [
      | inl (r, stops) ↦
          (throws _ (enter (enter g n) d), stops, enter-Sound (enter g n) d (enter-Sound g n s))
      | inr (free, (h, (runs, sound, edges))) ↦ (returns h, runs, sound)
    ]
  ]
]

sets_dependencies-Settles :
    (g : DependencyGraph) (n : Text) (ds : List Text) → Sound g → Settles g (sets_dependencies n ds)
unfolding perform_call left_behind set_dependencies
sets_dependencies-Settles g n ds s = elim (Bool-cases (is_empty n)) [
  | inl e ↦ (throws node_empty g, rw (add_node_empty g n e) refl, s)
  | inr named ↦ elim (set_dependencies-Replaced g n ds s named) [
    | inl (e, stops, why) ↦ (throws e (enter g n), stops, enter-Sound g n s)
    | inr (free, (h, runs, sound, edges)) ↦ (returns h, runs, sound)
  ]
]

perform_call-Settles : (g : DependencyGraph) (c : Call) → Sound g → Settles g c
perform_call-Settles g (adds_node n) s = adds_node-Settles g n s
perform_call-Settles g (adds_dependency n d) s = adds_dependency-Settles g n d s
perform_call-Settles g (sets_dependencies n ds) s = sets_dependencies-Settles g n ds s

-- Every sequence of calls on a sound graph runs to its end and leaves a sound graph.
calls-Sound :
    (g : DependencyGraph) (cs : List Call)
    → Sound g
    → (h : DependencyGraph) × (run_calls g cs ≡ some h) × Sound h
unfolding run_calls
calls-Sound g [] s = (g, refl, s)
calls-Sound g (c ∷ cs) s =
    let (o, settles, sound) = perform_call-Settles g c s in
    let (h, runs, end) = calls-Sound (left_behind o) cs sound in
    (h, rw (run_calls, settles) runs, end)

-- Whatever is called on a new graph, whether calls throw or not: every call ends, and in the graph
-- that they leave no chain of dependencies leads back to its start, every dependency is a node, and
-- the dependents are the dependencies read the other way round.
pub run_calls-Sound :
    (cs : List Call) → (g : DependencyGraph) × (run_calls new_graph cs ≡ some g) × Sound g
run_calls-Sound cs = calls-Sound new_graph cs Sound-new_graph
