-- ===== src/Graph/Invariant.antt =====
-- The invariant of the dependency graph of src/core/graph: each index is that of the dependencies
-- which the nodes list, and neither has a cycle.
use vcode.Base.{
  String, ◌≡◌, ◌≢◌, refl, ◌↔◌, ◌⊎◌, inl, inr, arith, List, [], ◌∷◌, ◌++◌, Option, none, some, Memᴰ,
  Memᴰ-cons, Memᴰ-append, without, string_eq, mem-without, if◌then◌else◌, ◌==◌, eq_iff, Bool-cases,
  eq_of_beq,
}
use mathlib.Core.List.Memᴰ
use vcode.Base.Dict.{Dict, get, set, get-set}
use vcode.Types.Domain.{Feature, Task}
use vcode.Graph.Store.{Graph}
use vcode.Graph.Index.{IsIndexOf, IsAcyclic}

same_key : {V : Type 0} (u v : String) (m : Dict V) → u ≡ v → get u m ≡ get v m
same_key u v m e = rw e

module _ {V : Type 0} (field : V → List String) where
  abbrev pub listed : Option V → List String
  listed none = []
  listed (some x) = field x

  -- The dependencies of an id: none for one that is missing.
  abbrev pub deps_in : Dict V → String → List String
  deps_in m v = listed (get v m)

  pub deps_in-set :
      (k v : String) (x : V) (m : Dict V)
      → deps_in (set k x m) v ≡ (if k == v then field x else deps_in m v)
  deps_in-set k v x m = elim (Bool-cases (k == v)) [
    | inl same ↦ rw (get-set, same)
    | inr other ↦ rw (get-set, other)
  ]

  -- A node that is written with the same dependencies leaves all dependencies as they are.
  pub deps_in-keep :
      (k v : String) (x x' : V) (m : Dict V)
      → get k m ≡ some x
      → field x' ≡ field x
      → deps_in (set k x' m) v ≡ deps_in m v
  deps_in-keep k v x x' m e h = elim (Bool-cases (k == v)) [
    | inl same ↦ rw (deps_in-set, same, h) (rw (← eq_of_beq k v same, e) refl)
    | inr other ↦ rw (deps_in-set, other)
  ]

  pub mem-deps_in-add :
      (from to : String) (x x' : V) (m : Dict V)
      → get from m ≡ some x
      → field x' ≡ field x ++ to ∷ []
      → (v u : String)
      → Memᴰ u (deps_in (set from x' m) v) ↔ (Memᴰ u (deps_in m v) ⊎ ((u ≡ to) × (v ≡ from)))
  mem-deps_in-add from to x x' m e h v u = ground (
    arith,
    deps_in-set from v x' m,
    eq_iff from v,
    Memᴰ-append u (field x) (to ∷ []),
    Memᴰ-cons u to [],
    λ (n : Memᴰ u []). Memᴰ.not-nil n,
    same_key from v m,
  )

  pub mem-deps_in-remove :
      (from to : String) (x x' : V) (m : Dict V)
      → get from m ≡ some x
      → field x' ≡ without to (field x)
      → (v u : String)
      → Memᴰ u (deps_in (set from x' m) v) ↔ (Memᴰ u (deps_in m v) × ¬ ((u ≡ to) × (v ≡ from)))
  mem-deps_in-remove from to x x' m e h v u =
      ground (
        arith,
        deps_in-set from v x' m,
        eq_iff from v,
        mem-without to u (field x),
        same_key from v m,
      )

abbrev pub feature_deps : Dict Feature → String → List String
feature_deps = deps_in (λ f. f.depends_on)

abbrev pub task_deps : Dict Task → String → List String
task_deps = deps_in (λ t. t.depends_on)

pub record IsWellFormed (g : Graph) : Type 0 where
  pub features_indexed : IsIndexOf g.feature_successors (feature_deps g.features)
  pub features_acyclic : IsAcyclic g.feature_successors
  pub tasks_indexed : IsIndexOf g.task_successors (task_deps g.tasks)
  pub tasks_acyclic : IsAcyclic g.task_successors

-- Every dependency that a node lists is there.
abbrev pub IsKnown : {V : Type 0} → (V → List String) → Dict V → Type 0
IsKnown field m = (v u : String) → Memᴰ u (deps_in field m v) → get u m ≢ none

pub record DepsKnown (g : Graph) : Type 0 where
  pub features_known : IsKnown (λ (f : Feature). f.depends_on) g.features
  pub tasks_known : IsKnown (λ (t : Task). t.depends_on) g.tasks
