-- ===== src/Graph/Snapshot.antt =====
-- src/core/graph/validation.ts: the search for cycles in the dependencies of a snapshot, and the
-- successor indexes of a snapshot.
pub mod Cycles
pub mod Fuel
use vcode.Base.{
  ℕ, zero, suc, String, Bool, true, false, List, [], ◌∷◌, ◌++◌, includes, add_to_set, string_eq,
  if◌then◌else◌, length,
}
use vcode.Base.Dict.{Dict, values, keys}
use vcode.Base.Results.{Result, ok, err, ◌>>=◌}
use vcode.Types.Domain.{Feature, Task}
use vcode.Graph.Search.{Successors, nexts}
use vcode.Graph.Store.{Graph, link}
use vcode.Graph.Creation.{link_all}

-- Why a search stops: the cycle that the code throws for, or a call without fuel.
pub data SearchStop : Type 0 where
  cycle : String → SearchStop
  out_of_fuel : SearchStop

abbrev pub SearchResult : Type 0
SearchResult = Result SearchStop (List String)

-- The loop over the neighbours.
unfoldable pub search_over :
    (String → List String → SearchResult) → List String → List String → SearchResult
search_over visit [] visited = ok visited
search_over visit (n ∷ ns) visited = visit n visited >>= search_over visit ns

-- `dfs`: the set `inStack`, which a call leaves as it found it, is handed down.
unfoldable pub dfs : ℕ → Successors → List String → String → List String → SearchResult
dfs zero adjacency in_stack id visited = err out_of_fuel
dfs (suc fuel) adjacency in_stack id visited = elim (includes id in_stack) [
  | true ↦ err (cycle id)
  | false ↦ elim (includes id visited) [
    | true ↦ ok visited
    | false ↦
        search_over (dfs fuel adjacency (add_to_set id in_stack)) (nexts id adjacency)
          (add_to_set id visited)
  ]
]

-- The dependencies of each id, as a set.
unfoldable pub add_edges : String → List String → Successors → Successors
add_edges id [] adjacency = adjacency
add_edges id (dep ∷ deps) adjacency = add_edges id deps (link id dep adjacency)

unfoldable pub feature_adjacency : List Feature → Successors → Successors
feature_adjacency [] adjacency = adjacency
feature_adjacency (f ∷ fs) adjacency = feature_adjacency fs (add_edges f.id f.depends_on adjacency)

-- The loop over the keys.
abbrev pub find_cycle : Successors → List String → SearchResult
find_cycle adjacency ids = search_over (dfs (suc (length ids)) adjacency []) ids []

abbrev pub validate_no_feature_cycles : Graph → SearchResult
validate_no_feature_cycles graph =
    find_cycle (feature_adjacency (values graph.features) []) (keys graph.features)

-- The two loops of `rebuildAdjacencyIndexes`.
unfoldable pub rebuild_features : List Feature → Successors → Successors
rebuild_features [] s = s
rebuild_features (f ∷ fs) s = rebuild_features fs (link_all f.id f.depends_on s)

unfoldable pub rebuild_tasks : List Task → Successors → Successors
rebuild_tasks [] s = s
rebuild_tasks (t ∷ ts) s = rebuild_tasks ts (link_all t.id t.depends_on s)

abbrev pub rebuild_adjacency_indexes : Graph → Graph
rebuild_adjacency_indexes graph = record graph {
  feature_successors = rebuild_features (values graph.features) [];
  task_successors = rebuild_tasks (values graph.tasks) [];
}
