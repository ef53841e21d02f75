-- ===== src/Graph/Known.antt =====
-- The operations of src/core/graph/dependencies.ts name only nodes that are there.
use mathlib.Core.List.Memᴰ
use vcode.Base.{
  String, ◌≡◌, ◌≢◌, refl, sym, subst, inl, inr, arith, List, [], ◌∷◌, ◌++◌, Option, none, some,
  Memᴰ, string_eq, Bool-cases, without, mem-without,
}
use vcode.Base.Dict.{Dict, get, set, get-set}
use vcode.Base.Results.{ok}
use vcode.Types.Domain.{Feature, Task}
use vcode.Graph.Store.{Graph}
use vcode.Graph.Invariant.{DepsKnown, IsKnown, deps_in-set}
use vcode.Graph.Dependencies.{
  add_dependency, remove_dependency, add_feature_dependency, add_task_dependency,
  remove_feature_dependency, remove_task_dependency, is_feature_dependency,
}

module _ {V : Type 0} (field : V → List String) (m : Dict V) where
  present-set : (k u : String) (x : V) → get u m ≢ none → get u (set k x m) ≢ none
  present-set k u x there gone = ground (arith, get-set k u x m)

  -- A node that is written with dependencies that are there.
  IsKnown-set :
      (k : String) (x : V)
      → IsKnown field m
      → ((u : String) → Memᴰ u (field x) → get u m ≢ none)
      → IsKnown field (set k x m)
  IsKnown-set k x known there v u listed =
      present-set k u x (ground (arith, deps_in-set field k v x m, there u, known v u))

  own-known :
      (k : String) (x : V)
      → IsKnown field m
      → get k m ≡ some x
      → (u : String) → Memᴰ u (field x)
      → get u m ≢ none
  own-known k x known at u listed = known k u (rw at listed)

pub add_feature-known :
    (g h : Graph) (from to : String)
    → add_feature_dependency g from to ≡ ok h
    → (f : Feature) × (t : Feature) × (get from g.features ≡ some f)
      × (get to g.features ≡ some t)
      × (h.features ≡ set from (record f { depends_on = f.depends_on ++ to ∷ [] }) g.features)
      × (h.tasks ≡ g.tasks)
unfolding add_feature_dependency
add_feature-known g h from to e = ground arith

pub add_task-known :
    (g h : Graph) (from to : String)
    → add_task_dependency g from to ≡ ok h
    → (s : Task) × (t : Task) × (get from g.tasks ≡ some s)
      × (get to g.tasks ≡ some t)
      × (h.tasks ≡ set from (record s { depends_on = s.depends_on ++ to ∷ [] }) g.tasks)
      × (h.features ≡ g.features)
unfolding add_task_dependency
add_task-known g h from to e = ground arith

pub remove_feature-known :
    (g h : Graph) (from to : String)
    → remove_feature_dependency g from to ≡ ok h
    → (f : Feature) × (get from g.features ≡ some f)
      × (h.features ≡ set from (record f { depends_on = without to f.depends_on }) g.features)
      × (h.tasks ≡ g.tasks)
unfolding remove_feature_dependency
remove_feature-known g h from to e = ground arith

pub remove_task_dep-known :
    (g h : Graph) (from to : String)
    → remove_task_dependency g from to ≡ ok h
    → (s : Task) × (get from g.tasks ≡ some s)
      × (h.tasks ≡ set from (record s { depends_on = without to s.depends_on }) g.tasks)
      × (h.features ≡ g.features)
unfolding remove_task_dependency
remove_task_dep-known g h from to e = ground arith

module _ {V : Type 0} (field : V → List String) (m : Dict V) (from to : String) (x x' : V)
    (known : IsKnown field m) (at : get from m ≡ some x) where
  IsKnown-append : field x' ≡ field x ++ to ∷ [] → get to m ≢ none → IsKnown field (set from x' m)
  IsKnown-append h there = IsKnown-set field m from x' known λ u k.
      elim (Memᴰ.append_cases (field x) (subst (Memᴰ u) h k)) [
        | inl old ↦ own-known field m from x known at u old
        | inr new ↦ subst (λ j. get j m ≢ none) (sym (Memᴰ.eq_of_singleton new)) there
      ]

  IsKnown-without : field x' ≡ without to (field x) → IsKnown field (set from x' m)
  IsKnown-without h = IsKnown-set field m from x' known λ u k.
      own-known field m from x known at u ((mem-without to u (field x)).0 (subst (Memᴰ u) h k)).0

  pub IsKnown-keep : field x' ≡ field x → IsKnown field (set from x' m)
  IsKnown-keep h =
      IsKnown-set field m from x' known
        λ u k. own-known field m from x known at u (subst (Memᴰ u) h k)

known-of :
    (g h : Graph) (fs : Dict Feature) (ts : Dict Task)
    → h.features ≡ fs
    → h.tasks ≡ ts
    → IsKnown (λ (f : Feature). f.depends_on) fs
    → IsKnown (λ (t : Task). t.depends_on) ts
    → DepsKnown h
known-of g h fs ts same_fs same_ts k j = record {
  features_known = rw same_fs k;
  tasks_known = rw same_ts j;
}

some_there : {A : Type 0} {o : Option A} {a : A} → o ≡ some a → o ≢ none
some_there at gone = cc

pub add_dependency-DepsKnown :
    (g h : Graph) (from to : String) → DepsKnown g → add_dependency g from to ≡ ok h → DepsKnown h
unfolding add_dependency
add_dependency-DepsKnown g h from to known e = elim (Bool-cases (is_feature_dependency from)) [
  | inl b ↦
      let (f, t, at, at_to, fs, ts) = add_feature-known g h from to (rw b at e) in
      known-of g h _ g.tasks fs ts
        (IsKnown-append _ g.features from to f _ known.features_known at refl (some_there at_to))
        known.tasks_known
  | inr b ↦
      let (s, t, at, at_to, ts, fs) = add_task-known g h from to (rw b at e) in
      known-of g h g.features _ fs ts known.features_known
        (IsKnown-append _ g.tasks from to s _ known.tasks_known at refl (some_there at_to))
]

pub remove_dependency-DepsKnown :
    (g h : Graph) (from to : String)
    → DepsKnown g
    → remove_dependency g from to ≡ ok h
    → DepsKnown h
unfolding remove_dependency
remove_dependency-DepsKnown g h from to known e = elim (Bool-cases (is_feature_dependency from)) [
  | inl b ↦
      let (f, at, fs, ts) = remove_feature-known g h from to (rw b at e) in
      known-of g h _ g.tasks fs ts
        (IsKnown-without _ g.features from to f _ known.features_known at refl) known.tasks_known
  | inr b ↦
      let (s, at, ts, fs) = remove_task_dep-known g h from to (rw b at e) in
      known-of g h g.features _ fs ts known.features_known
        (IsKnown-without _ g.tasks from to s _ known.tasks_known at refl)
]
