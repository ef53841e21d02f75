-- ===== src/Examples/Paths.antt =====
-- The theorem on the critical path at a graph of two tasks, the second after the first.
use mathlib.Core.List.Memᴰ
use vcode.Base.{
  ℕ, String, ◌≡◌, refl, sym, subst, inl, inr, arith, Bool-cases, ◌==◌, string_eq, List, [], ◌∷◌,
  Option, none, some, Memᴰ, if◌then◌else◌, includes, add_to_set,
}
use vcode.Base.Dict.{get, set, keys, values}
use vcode.Scheduling.Metrics.{
  NodeType, CombinedGraphNode, CombinedGraph, depth_info, depth_extra, distance_info,
  distance_extra, compute_graph_metrics, combine_metrics, visit_all, memoized, best_over,
}
use vcode.Scheduling.Combined.{
  compute_critical_path_weights, build_combined_graph, build_nodes, sum_weights, wire_features,
  wire_deps, wire_terms, wire_roots, wire_edge, depths_of,
}
use vcode.Graph.Store.{link}
use vcode.Graph.Search.{nexts, has_path_via_successors, search, push_all, edge_count}
use vcode.Graph.Creation.{
  create_feature, create_task, check_feature_deps, check_task_deps, check_paths, link_all,
}
use vcode.Graph.Dependencies.{add_dependency, add_feature_dependency, is_feature_dependency}
use vcode.Examples.Fixtures.{linked}
use vcode.Scheduling.Metrics.Longest.{best_of, Solves}
use vcode.Scheduling.Metrics.Values.{IsNumbering, compute_graph_metrics-Solves}

abbrev node : String → ℕ → List String → List String → CombinedGraphNode
node id weight successors predecessors = record {
  id = id;
  weight = weight;
  type = NodeType.task;
  feature_id = "f-1";
  task_id = some id;
  successors = successors;
  predecessors = predecessors;
}

abbrev pair : CombinedGraph
pair = record { nodes = ("a", node "a" 4 ("b" ∷ []) []) ∷ ("b", node "b" 10 [] ("a" ∷ [])) ∷ [] }

abbrev depth : String → ℕ
depth id = if "a" == id then 14 else if "b" == id then 10 else 0

abbrev distance : String → ℕ
distance id = if "a" == id then 0 else if "b" == id then 4 else 0

depth-Solves : Solves (depth_info pair) depth_extra depth
unfolding get best_of
depth-Solves id = elim (Bool-cases ("a" == id)) [
  | inl first ↦ inr (4, "b" ∷ [], rw first refl, rw first refl)
  | inr other ↦ elim (Bool-cases ("b" == id)) [
    | inl second ↦ inr (10, [], rw (other, second) refl, rw (other, second) refl)
    | inr missing ↦ inl (rw (other, missing) refl, rw (other, missing) refl)
  ]
]

distance-Solves : Solves (distance_info pair) (distance_extra pair) distance
unfolding get best_of
distance-Solves id = elim (Bool-cases ("a" == id)) [
  | inl first ↦ inr (0, [], rw first refl, rw first refl)
  | inr other ↦ elim (Bool-cases ("b" == id)) [
    | inl second ↦ inr (0, "a" ∷ [], rw (other, second) refl, rw (other, second) refl)
    | inr missing ↦ inl (rw (other, missing) refl, rw (other, missing) refl)
  ]
]

abbrev along : String → ℕ
along id = if "a" == id then 1 else 0

abbrev against : String → ℕ
against id = if "b" == id then 1 else 0

some_pair :
    {a b : ℕ} {xs ys : List String}
    → ◌≡◌ {A = Option (ℕ × List String)} (some (a, xs)) (some (b, ys))
    → xs ≡ ys
some_pair q = cc

not_none : {p : ℕ × List String} → ¬ (none ≡ some p)
not_none q = cc

single : (x y : String) (ns : List String) → y ∷ [] ≡ ns → Memᴰ x ns → x ≡ y
single x y ns e m = Memᴰ.eq_of_singleton (subst (Memᴰ x) (sym e) m)

along-IsNumbering : IsNumbering (depth_info pair) pair along
unfolding get
along-IsNumbering = record {
  down = λ id base ns e x m. elim (Bool-cases ("a" == id)) [
    | inl first ↦
        let q : x ≡ "b" = single x "b" ns (some_pair (rw first at e)) m in
        rw (first, q) (omega arith)
    | inr other ↦ elim (Bool-cases ("b" == id)) [
      | inl second ↦
          absurd (Memᴰ.not-nil (subst (Memᴰ x) (sym (some_pair (rw (other, second) at e))) m))
      | inr missing ↦ absurd (not_none (rw (other, missing) at e))
    ]
  ];
  low = λ id. ground arith;
}

against-IsNumbering : IsNumbering (distance_info pair) pair against
unfolding get
against-IsNumbering = record {
  down = λ id base ns e x m. elim (Bool-cases ("a" == id)) [
    | inl first ↦ absurd (Memᴰ.not-nil (subst (Memᴰ x) (sym (some_pair (rw first at e))) m))
    | inr other ↦ elim (Bool-cases ("b" == id)) [
      | inl second ↦
          let q : x ≡ "a" = single x "a" ns (some_pair (rw (other, second) at e)) m in
          rw (second, q) (omega arith)
      | inr missing ↦ absurd (not_none (rw (other, missing) at e))
    ]
  ];
  low = λ id. ground arith;
}

first_there : get "a" pair.nodes ≡ some (node "a" 4 ("b" ∷ []) [])
unfolding get
first_there = refl

compute_graph_metrics-Solves_example :
    get "a" (compute_graph_metrics pair).node_metrics
    ≡ some (record { max_depth = depth "a"; distance = distance "a" })
compute_graph_metrics-Solves_example =
    compute_graph_metrics-Solves pair depth distance along against depth-Solves distance-Solves
      along-IsNumbering against-IsNumbering "a" (node "a" 4 ("b" ∷ []) []) first_there

measured :
    get "b" (compute_graph_metrics pair).node_metrics
    ≡ some (record { max_depth = 10; distance = 4 })
unfolding get set compute_graph_metrics combine_metrics visit_all memoized best_over keys
measured = refl

-- In the small graph both features are to be discussed, and the second waits for the first.
critical_path :
    compute_critical_path_weights linked ≡ ("virtual:f-api", 20) ∷ ("virtual:f-ui", 10) ∷ []
unfolding compute_critical_path_weights build_combined_graph build_nodes sum_weights wire_features
    wire_deps wire_terms wire_roots wire_edge depths_of compute_graph_metrics combine_metrics
    visit_all memoized best_over get set keys values add_dependency add_feature_dependency
    is_feature_dependency create_task create_feature includes check_feature_deps check_task_deps
    check_paths link_all has_path_via_successors search nexts push_all edge_count link add_to_set
critical_path = refl
