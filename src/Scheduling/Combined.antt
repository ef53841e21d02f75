-- ===== src/Scheduling/Combined.antt =====
-- src/core/scheduling/index.ts: `buildCombinedGraph`, with a node for each feature before or after its
-- execution and for each task of a feature that executes, and `computeCriticalPathWeights`.
use Prim.Native.String.{◌++◌ as ◌++ˢ◌}
use vcode.Base.{
  ℕ, ◌+◌, String, Bool, true, false, List, [], ◌∷◌, ◌++◌, Option, none, some, or_else, keep, map,
  ◌==◌, string_eq, if◌then◌else◌,
}
use vcode.Base.Dict.{Dict, get, set, has, values}
use vcode.Types.Workflow.{FeatureId, TaskId, TaskWeight}
use vcode.Types.Domain.{Feature, Task}
use vcode.Graph.Store.{Graph}
use vcode.Scheduling.{PhaseCategory, feature_phase_category, task_weight_value, NodeMetrics}
use vcode.Scheduling.Metrics.{NodeType, CombinedGraphNode, CombinedGraph, compute_graph_metrics}

-- `nodes`, `featureTerminalIds` and `featureRootIds`.
pub record Building : Type 0 where
  pub nodes : Dict CombinedGraphNode
  pub terminals : Dict (List String)
  pub roots : Dict (List String)

abbrev pub weight_of : Task → ℕ
weight_of t = task_weight_value (or_else t.weight TaskWeight.medium)

abbrev pub feature_tasks : Graph → FeatureId → List Task
feature_tasks graph id = keep (λ t. t.feature_id == id) (values graph.tasks)

unfoldable pub sum_weights : List Task → ℕ
sum_weights [] = 0
sum_weights (t ∷ ts) = weight_of t + sum_weights ts

abbrev pub virtual_weight : List Task → ℕ
virtual_weight [] = task_weight_value TaskWeight.medium
virtual_weight (t ∷ ts) = sum_weights (t ∷ ts)

abbrev pub add_virtual : String → Feature → List Task → Building → Building
add_virtual node_id f tasks b =
    let node : CombinedGraphNode = record {
      id = node_id;
      weight = virtual_weight tasks;
      type = NodeType.virtual;
      feature_id = f.id;
      task_id = none;
      successors = [];
      predecessors = [];
    } in
    record {
      nodes = set node_id node b.nodes;
      terminals = set f.id (node_id ∷ []) b.terminals;
      roots = set f.id (node_id ∷ []) b.roots;
    }

-- `taskSuccessors` and `taskPredecessors`.
pub record TaskEdges : Type 0 where
  pub successors : Dict (List TaskId)
  pub predecessors : Dict (List TaskId)

abbrev ensure : TaskId → Dict (List TaskId) → Dict (List TaskId)
ensure id m = if has id m then m else set id [] m

abbrev push : TaskId → TaskId → Dict (List TaskId) → Dict (List TaskId)
push id x m = set id (or_else (get id m) [] ++ x ∷ []) m

unfoldable pub add_deps : TaskId → List TaskId → TaskEdges → TaskEdges
add_deps id [] e = e
add_deps id (dep ∷ deps) e =
    add_deps id deps
      (record { successors = push dep id e.successors; predecessors = push id dep e.predecessors })

unfoldable pub task_edges : List Task → TaskEdges → TaskEdges
task_edges [] e = e
task_edges (t ∷ ts) e = task_edges ts (
    add_deps t.id t.depends_on
      (record { successors = ensure t.id e.successors; predecessors = ensure t.id e.predecessors }))

abbrev pub task_node_id : FeatureId → TaskId → String
task_node_id feature_id id = "task:" ++ˢ feature_id ++ˢ ":" ++ˢ id

abbrev pub task_node : FeatureId → TaskEdges → Task → CombinedGraphNode
task_node feature_id e t = record {
  id = task_node_id feature_id t.id;
  weight = weight_of t;
  type = NodeType.task;
  feature_id = feature_id;
  task_id = some t.id;
  successors = map (task_node_id feature_id) (or_else (get t.id e.successors) []);
  predecessors = map (task_node_id feature_id) (or_else (get t.id e.predecessors) []);
}

unfoldable pub add_task_nodes :
    FeatureId → TaskEdges → List Task → Dict CombinedGraphNode → Dict CombinedGraphNode
add_task_nodes feature_id e [] nodes = nodes
add_task_nodes feature_id e (t ∷ ts) nodes =
    add_task_nodes feature_id e ts
      (set (task_node_id feature_id t.id) (task_node feature_id e t) nodes)

abbrev is_empty_list : Option (List TaskId) → Bool
is_empty_list none = true
is_empty_list (some []) = true
is_empty_list (some (x ∷ xs)) = false

-- The nodes of the tasks without an edge in the map.
abbrev pub ends_of : FeatureId → Dict (List TaskId) → List Task → List String
ends_of feature_id m ts =
    map (λ t. task_node_id feature_id t.id) (keep (λ t. is_empty_list (get t.id m)) ts)

abbrev pub add_executing : Feature → List Task → Building → Building
add_executing f ts b =
    let e = task_edges ts (record { successors = []; predecessors = [] }) in
    record {
      nodes = add_task_nodes f.id e ts b.nodes;
      terminals = set f.id (ends_of f.id e.successors ts) b.terminals;
      roots = set f.id (ends_of f.id e.predecessors ts) b.roots;
    }

abbrev pub add_feature_nodes : Graph → Feature → PhaseCategory → Building → Building
add_feature_nodes graph f PhaseCategory.done b = b
add_feature_nodes graph f PhaseCategory.pre b =
    add_virtual ("virtual:" ++ˢ f.id) f (feature_tasks graph f.id) b
add_feature_nodes graph f PhaseCategory.post b =
    add_virtual ("virtual:" ++ˢ f.id ++ˢ ":post") f (feature_tasks graph f.id) b
add_feature_nodes graph f PhaseCategory.running b = add_executing f (feature_tasks graph f.id) b

-- The loop over the features that makes the nodes.
unfoldable pub build_nodes : Graph → List Feature → Building → Building
build_nodes graph [] b = b
build_nodes graph (f ∷ fs) b =
    build_nodes graph fs (add_feature_nodes graph f (feature_phase_category f.work_control) b)

abbrev pub add_successor : String → CombinedGraphNode → CombinedGraphNode
add_successor id n = record n { successors = n.successors ++ id ∷ [] }

abbrev pub add_predecessor : String → CombinedGraphNode → CombinedGraphNode
add_predecessor id n = record n { predecessors = n.predecessors ++ id ∷ [] }

abbrev update_node :
    (CombinedGraphNode → CombinedGraphNode)
    → String
    → Dict CombinedGraphNode
    → Dict CombinedGraphNode
update_node f id nodes = elim (get id nodes) [ none ↦ nodes | some n ↦ set id (f n) nodes ]

-- An edge between two nodes, if both are there.
unfoldable pub wire_edge : String → String → Dict CombinedGraphNode → Dict CombinedGraphNode
wire_edge term root nodes = elim (get term nodes) [
  | none ↦ nodes
  | some t ↦ elim (get root nodes) [
    | none ↦ nodes
    | some r ↦ update_node (add_predecessor term) root (update_node (add_successor root) term nodes)
  ]
]

unfoldable pub wire_roots : String → List String → Dict CombinedGraphNode → Dict CombinedGraphNode
wire_roots term [] nodes = nodes
wire_roots term (root ∷ roots) nodes = wire_roots term roots (wire_edge term root nodes)

unfoldable pub wire_terms :
    List String → List String → Dict CombinedGraphNode → Dict CombinedGraphNode
wire_terms [] roots nodes = nodes
wire_terms (term ∷ terms) roots nodes = wire_terms terms roots (wire_roots term roots nodes)

unfoldable pub wire_deps :
    Dict (List String)
    → List FeatureId
    → List String
    → Dict CombinedGraphNode
    → Dict CombinedGraphNode
wire_deps terminals [] roots nodes = nodes
wire_deps terminals (dep ∷ deps) roots nodes =
    wire_deps terminals deps roots (wire_terms (or_else (get dep terminals) []) roots nodes)

abbrev wire_feature :
    Building → Feature → PhaseCategory → Dict CombinedGraphNode → Dict CombinedGraphNode
wire_feature b f PhaseCategory.done nodes = nodes
wire_feature b f _ nodes = wire_deps b.terminals f.depends_on (or_else (get f.id b.roots) []) nodes

-- The loop over the features that makes the edges between them.
unfoldable pub wire_features :
    Building → List Feature → Dict CombinedGraphNode → Dict CombinedGraphNode
wire_features b [] nodes = nodes
wire_features b (f ∷ fs) nodes =
    wire_features b fs (wire_feature b f (feature_phase_category f.work_control) nodes)

unfoldable pub build_combined_graph : Graph → CombinedGraph
build_combined_graph graph =
    let built =
      build_nodes graph (values graph.features)
        (record { nodes = []; terminals = []; roots = [] }) in
    record { nodes = wire_features built (values graph.features) built.nodes }

unfoldable pub depths_of : Dict NodeMetrics → Dict ℕ
depths_of [] = []
depths_of ((id, m) ∷ rest) = (id, m.max_depth) ∷ depths_of rest

unfoldable pub compute_critical_path_weights : Graph → Dict ℕ
compute_critical_path_weights graph =
    depths_of (compute_graph_metrics (build_combined_graph graph)).node_metrics
