-- ===== src/Graph.antt =====
-- The dependency graph of the reference implementation, class DependencyGraph of
-- packages/reference-ts/src/graph/index.ts. A Set is the list of its members in the order of their
-- insertion. A call gives the graph that it leaves behind, also where it throws.
pub mod Sets
pub mod Reach
pub mod Cost
pub mod Rounds
pub mod Search
pub mod Views
pub mod Edges
pub mod Sound
pub mod Loops
pub mod Calls
pub mod Runs
mod Tests
use premise_protocol.Base.{
  ℕ, zero, suc, ◌+◌, Bool, true, false, ◌&&◌, ◌||◌, Text, Text-discrete, text_eq, ltb, ◌==◌,
  is_empty, Option, none, some, List, [], ◌∷◌, ◌++◌, length, if◌then◌else◌,
}
use premise_protocol.Entries.{OrderedMap, lookup}
use premise_protocol.Subsumption.{has}
use mathlib.Core.List.{reverse}

-- Set.prototype.add and delete, and `new Set(...)`.
pub add_member : Text → List Text → List Text
add_member v xs = if has xs v then xs else xs ++ v ∷ []

pub delete_member : Text → List Text → List Text
delete_member v [] = []
delete_member v (x ∷ xs) =
    let rest = delete_member v xs in elim (Text-discrete v x) [ yes _ ↦ rest | no _ ↦ x ∷ rest ]

pub unique_from : List Text → List Text → List Text
unique_from seen [] = seen
unique_from seen (x ∷ xs) = unique_from (add_member x seen) xs

-- Array.prototype.sort on strings, by their code units.
unfoldable pub text_le : Text → Text → Bool
text_le [] t = true
text_le (c ∷ s) [] = false
text_le (c ∷ s) (d ∷ t) = let rest = text_le s t in ltb c d || (c == d && rest)

pub insert_text : Text → List Text → List Text
insert_text v [] = v ∷ []
insert_text v (x ∷ xs) = let rest = insert_text v xs in if text_le v x then v ∷ x ∷ xs else x ∷ rest

pub sort_texts : List Text → List Text
sort_texts [] = []
sort_texts (x ∷ xs) = insert_text x (sort_texts xs)

pub record DependencyGraph : Type 0 where
  pub dependencies : OrderedMap (List Text)
  pub dependents : OrderedMap (List Text)

abbrev pub new_graph : DependencyGraph
new_graph = record { dependencies = []; dependents = [] }

pub data GraphError : Type 0 where
  node_empty : GraphError
  dependency_empty : GraphError
  dependency_cycle : Text → Text → GraphError

pub data Outcome : Type 0 where
  returns : DependencyGraph → Outcome
  throws : GraphError → DependencyGraph → Outcome

-- What a Map of Sets holds under a key, `get(key) ?? []`.
pub members : OrderedMap (List Text) → Text → List Text
members es k = elim (lookup k es) [ none ↦ [] | some xs ↦ xs ]

-- A change of the Set that the Map holds under a key.
pub change : Text → (List Text → List Text) → OrderedMap (List Text) → OrderedMap (List Text)
change k f [] = []
change k f ((j, xs) ∷ es) =
    let rest = change k f es in
    elim (Text-discrete j k) [ yes _ ↦ (j, f xs) ∷ es | no _ ↦ (j, xs) ∷ rest ]

pub ensure : Text → OrderedMap (List Text) → OrderedMap (List Text)
ensure k es = elim (lookup k es) [ none ↦ es ++ (k, []) ∷ [] | some _ ↦ es ]

pub has_node : DependencyGraph → Text → Bool
has_node g n = elim (lookup n g.dependencies) [ none ↦ false | some _ ↦ true ]

-- addNode for a name that is not empty.
pub enter : DependencyGraph → Text → DependencyGraph
enter g n = record { dependencies = ensure n g.dependencies; dependents = ensure n g.dependents }

pub add_node : DependencyGraph → Text → Outcome
add_node g n = if is_empty n then throws node_empty g else returns (enter g n)

pub dependencies_of : DependencyGraph → Text → List Text
dependencies_of g n = sort_texts (members g.dependencies n)

-- The loop of hasPath. The top of the stack is the head of the list; without fuel the answer is `none`.
pub search : DependencyGraph → Text → ℕ → List Text → List Text → Option Bool
search g target zero visited stack = none
search g target (suc fuel) visited [] = some false
search g target (suc fuel) visited (current ∷ stack) =
    let skip = search g target fuel visited stack in
    let follow =
      search g target fuel (current ∷ visited) (reverse (dependencies_of g current) ++ stack) in
    if text_eq current target then some true else if has visited current then skip else follow

pub edge_count : OrderedMap (List Text) → ℕ
edge_count [] = 0
edge_count ((k, xs) ∷ es) = length xs + edge_count es

-- hasPath: as fuel, one round for the start, one for each edge, and one for the end.
pub has_path : DependencyGraph → Text → Text → Option Bool
has_path g start target = search g target (2 + edge_count g.dependencies) [] (start ∷ [])

-- The test before DependencyCycleError.
pub closes_cycle : DependencyGraph → Bool → Text → Text → Option Bool
closes_cycle g node_was_known n d =
    if text_eq n d then some true else if node_was_known then has_path g d n else some false

-- `deps.add` and `dependents.get(d)!.add`, where both nodes are in the graph.
pub link : DependencyGraph → Text → Text → DependencyGraph
link g n d = record {
  dependencies = change n (add_member d) g.dependencies;
  dependents = change d (add_member n) g.dependents;
}

-- A call that throws ends the one that made it.
abbrev pub and_then : Outcome → (DependencyGraph → Option Outcome) → Option Outcome
and_then (returns g) k = k g
and_then (throws e g) k = some (throws e g)

pub add_dependency : DependencyGraph → Text → Text → Option Outcome
add_dependency g₀ n d =
    let node_was_known = has_node g₀ n in
    and_then (add_node g₀ n) (λ g₁. and_then (add_node g₁ d) (λ g.
      elim (closes_cycle g node_was_known n d) [
        | none ↦ none
        | some true ↦ some (throws (dependency_cycle n d) g)
        | some false ↦ some (returns (if has (members g.dependencies n) d then g else link g n d))
      ]))

-- The first loop of setDependencies: `some none` where every dependency passes.
pub check_each : DependencyGraph → Bool → Text → List Text → Option (Option GraphError)
check_each g node_was_known n [] = some none
check_each g node_was_known n (d ∷ ds) =
    let rest = check_each g node_was_known n ds in
    if is_empty d then some (some dependency_empty) else elim (closes_cycle g node_was_known n d) [
      | none ↦ none
      | some true ↦ some (some (dependency_cycle n d))
      | some false ↦ rest
    ]

-- The loop that takes the node out of the dependents of its old dependencies.
pub unlink_each : Text → List Text → OrderedMap (List Text) → OrderedMap (List Text)
unlink_each n [] es = es
unlink_each n (d ∷ ds) es = unlink_each n ds (change d (delete_member n) es)

pub unlink_all : DependencyGraph → Text → DependencyGraph
unlink_all g n = record {
  dependencies = change n (λ xs. []) g.dependencies;
  dependents = unlink_each n (members g.dependencies n) g.dependents;
}

-- The last loop.
pub link_each : DependencyGraph → Text → List Text → Option Outcome
link_each g n [] = some (returns g)
link_each g n (d ∷ ds) = and_then (add_node g d) (λ h. link_each (link h n d) n ds)

pub set_dependencies : DependencyGraph → Text → List Text → Option Outcome
set_dependencies g₀ n ds =
    let node_was_known = has_node g₀ n in
    let next = sort_texts (unique_from [] ds) in
    and_then (add_node g₀ n) (λ g. elim (check_each g node_was_known n next) [
      | none ↦ none
      | some (some e) ↦ some (throws e g)
      | some none ↦ link_each (unlink_all g n) n next
    ])

-- The public methods that change the graph. One that throws leaves the graph as it then is.
pub data Call : Type 0 where
  adds_node : Text → Call
  adds_dependency : Text → Text → Call
  sets_dependencies : Text → List Text → Call

pub perform_call : DependencyGraph → Call → Option Outcome
perform_call g (adds_node n) = some (add_node g n)
perform_call g (adds_dependency n d) = add_dependency g n d
perform_call g (sets_dependencies n ds) = set_dependencies g n ds

pub left_behind : Outcome → DependencyGraph
left_behind (returns g) = g
left_behind (throws e g) = g

pub run_calls : DependencyGraph → List Call → Option DependencyGraph
run_calls g [] = some g
run_calls g (c ∷ cs) = elim (perform_call g c) [
  | none ↦ none
  | some o ↦ run_calls (left_behind o) cs
]
