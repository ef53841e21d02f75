-- ===== src/Scheduling/Metrics.antt =====
-- src/core/scheduling/index.ts: `computeGraphMetrics`, two passes that remember what they computed. A
-- recursive call takes one unit of fuel.
pub mod Longest
pub mod Values
use vcode.Base.{
  ℕ, zero, suc, ◌+◌, String, List, [], ◌∷◌, Option, none, some, ltb, if◌then◌else◌, or_else, length,
}
use vcode.Base.Dict.{Dict, get, set, keys}
use vcode.Types.Workflow.{FeatureId, TaskId}
use vcode.Scheduling.{NodeMetrics, GraphMetrics}

pub data NodeType : Type 0 where
  virtual task : NodeType

pub record CombinedGraphNode : Type 0 where
  pub id : String
  pub weight : ℕ
  pub type : NodeType
  pub feature_id : FeatureId
  pub task_id : Option TaskId
  pub successors : List String
  pub predecessors : List String

pub record CombinedGraph : Type 0 where
  pub nodes : Dict CombinedGraphNode

-- A call with the cache: its value, and the cache that it leaves.
abbrev pub Visit : Type 0
Visit = String → Dict ℕ → ℕ × Dict ℕ

abbrev pub larger_of : ℕ → ℕ → ℕ
larger_of best v = if ltb best v then v else best

-- The loop over the neighbours: the largest value with what is added to it. A neighbour for which
-- `extra` has nothing is passed over.
unfoldable pub best_over : Visit → (String → Option ℕ) → List String → ℕ → Dict ℕ → ℕ × Dict ℕ
best_over visit extra [] best cache = (best, cache)
best_over visit extra (x ∷ xs) best cache = elim (extra x) [
  | none ↦ best_over visit extra xs best cache
  | some w ↦ best_over visit extra xs (larger_of best ((visit x cache).0 + w)) (visit x cache).1
]

-- What is added to the best neighbour of a node, and the neighbours.
abbrev pub NodeInfo : Type 0
NodeInfo = String → Option (ℕ × List String)

abbrev pub remember : String → ℕ → ℕ × Dict ℕ → ℕ × Dict ℕ
remember id base (best, cache) = (base + best, set id (base + best) cache)

-- `computeMaxDepth` and `computeDistance`.
unfoldable pub memoized : NodeInfo → (String → Option ℕ) → ℕ → Visit
memoized info extra zero id cache = (0, cache)
memoized info extra (suc fuel) id cache = elim (get id cache) [
  | some v ↦ (v, cache)
  | none ↦ elim (info id) [
    | none ↦ (0, cache)
    | some (base, neighbours) ↦
        remember id base (best_over (memoized info extra fuel) extra neighbours 0 cache)
  ]
]

-- The loop over the nodes that fills a cache.
unfoldable pub visit_all : Visit → List String → Dict ℕ → Dict ℕ
visit_all visit [] cache = cache
visit_all visit (id ∷ ids) cache = visit_all visit ids (visit id cache).1

abbrev depth_part : Option CombinedGraphNode → Option (ℕ × List String)
depth_part none = none
depth_part (some n) = some (n.weight, n.successors)

abbrev distance_part : Option CombinedGraphNode → Option (ℕ × List String)
distance_part none = none
distance_part (some n) = some (0, n.predecessors)

abbrev weight_part : Option CombinedGraphNode → Option ℕ
weight_part none = none
weight_part (some n) = some n.weight

-- The weight of a node and its successors; a successor that is not there counts nothing.
abbrev pub depth_info : CombinedGraph → NodeInfo
depth_info graph id = depth_part (get id graph.nodes)

abbrev pub depth_extra : String → Option ℕ
depth_extra id = some 0

-- The predecessors of a node; a predecessor adds its own weight, and one that is not there is skipped.
abbrev pub distance_info : CombinedGraph → NodeInfo
distance_info graph id = distance_part (get id graph.nodes)

abbrev pub distance_extra : CombinedGraph → String → Option ℕ
distance_extra graph id = weight_part (get id graph.nodes)

abbrev pub metrics_fuel : CombinedGraph → ℕ
metrics_fuel graph = suc (length graph.nodes)

abbrev pub depth_cache : CombinedGraph → Dict ℕ
depth_cache graph =
    visit_all (memoized (depth_info graph) depth_extra (metrics_fuel graph)) (keys graph.nodes) []

abbrev pub distance_cache : CombinedGraph → Dict ℕ
distance_cache graph =
    visit_all (memoized (distance_info graph) (distance_extra graph) (metrics_fuel graph))
      (keys graph.nodes) []

-- The loop that combines both caches.
unfoldable pub combine_metrics : Dict ℕ → Dict ℕ → List String → Dict NodeMetrics → Dict NodeMetrics
combine_metrics depths distances [] metrics = metrics
combine_metrics depths distances (id ∷ ids) metrics = combine_metrics depths distances ids (
    set id
      (record { max_depth = or_else (get id depths) 0; distance = or_else (get id distances) 0 })
      metrics)

unfoldable pub compute_graph_metrics : CombinedGraph → GraphMetrics
compute_graph_metrics graph = record {
  node_metrics = combine_metrics (depth_cache graph) (distance_cache graph) (keys graph.nodes) [];
}
