-- ===== src/Graph/Dependencies/Cycles.antt =====
-- When `addDependency` refuses a dependency between features (src/core/graph/dependencies.ts).
use vcode.Base.{String, ◌≡◌, ◌↔◌, arith, List, some, Memᴰ, string_eq, false, includes}
use vcode.Base.Dict.{get}
use vcode.Base.Results.{err}
use vcode.Types.Domain.{Feature}
use vcode.Graph.Search.{Successors, nexts}
use vcode.Graph.Search.Correct.{Reaches, here, step, has_path_iff}
use vcode.Graph.Store.{Graph, feature_cycle}
use vcode.Graph.Index.{IsIndexOf}
use vcode.Graph.Invariant.{IsWellFormed, feature_deps}
use vcode.Graph.Dependencies.{add_feature_dependency}

-- The reflexive and transitive closure of the listed dependencies.
pub data DependsOn (deps : String → List String) (u : String) : String → Type 0 where
  itself : DependsOn deps u u
  through : {v w : String} → DependsOn deps u v → Memᴰ w (deps v) → DependsOn deps u w

before :
    {deps : String → List String} {u v w : String}
    → Memᴰ v (deps u)
    → DependsOn deps v w
    → DependsOn deps u w
before m itself = through itself m
before m (through d e) = through (before m d) e

depends_of_Reaches :
    (s : Successors) (deps : String → List String)
    → IsIndexOf s deps
    → {u v : String} → Reaches s u v
    → DependsOn deps v u
depends_of_Reaches s deps index here = itself
depends_of_Reaches s deps index (step {v} {w} p e) =
    before ((index v w).0 e) (depends_of_Reaches s deps index p)

prepend : {s : Successors} {u v w : String} → Memᴰ v (nexts u s) → Reaches s v w → Reaches s u w
prepend m here = step here m
prepend m (step p e) = step (prepend m p) e

Reaches-of_depends :
    (s : Successors) (deps : String → List String)
    → IsIndexOf s deps
    → {u v : String} → DependsOn deps u v
    → Reaches s v u
Reaches-of_depends s deps index itself = here
Reaches-of_depends s deps index (through {v} {w} d m) =
    prepend ((index w v).1 m) (Reaches-of_depends s deps index d)

-- In a well-formed graph, adding a dependency between two features that are there, and of which the
-- first does not list the second yet, is refused as a cycle exactly when the second is, or depends
-- through any number of others on, the first.
pub add_feature_cycle_iff :
    (g : Graph) (from to : String) (f t : Feature)
    → IsWellFormed g
    → get from g.features ≡ some f
    → get to g.features ≡ some t
    → includes to f.depends_on ≡ false
    → (add_feature_dependency g from to ≡ err (feature_cycle from to))
      ↔ DependsOn (feature_deps g.features) to from
unfolding add_feature_dependency
add_feature_cycle_iff g from to f t wf at_from at_to new =
    let found = has_path_iff from to g.feature_successors in
    (
      λ e.
          depends_of_Reaches g.feature_successors (feature_deps g.features) wf.features_indexed
            (found.0 (ground arith)),
      λ d.
          let b = found.1 (
            Reaches-of_depends g.feature_successors (feature_deps g.features) wf.features_indexed
              d) in
          ground arith,
    )
