-- ===== src/Graph/Side.antt =====
-- One half of a graph, its features or its tasks: a map of nodes with its successor index.
use mathlib.Core.List.Memᴰ
use vcode.Base.{
  String, ◌≡◌, ◌≢◌, refl, subst, ◌↔◌, ◌⊎◌, inl, inr, arith, List, [], ◌∷◌, none, some, Memᴰ, ◌==◌,
  string_eq, includes, includes_iff, without, mem-without, Bool-cases, eq_iff, if◌then◌else◌,
}
use vcode.Base.Dict.{Dict, get, set, get-delete, delete, get-set}
use vcode.Types.Domain.{Feature, Task}
use vcode.Graph.Search.{Successors, nexts}
use vcode.Graph.Search.Correct.{Reaches, here, step}
use vcode.Graph.Store.{Graph}
use vcode.Graph.Index.{IsIndexOf, IsAcyclic}
use vcode.Graph.Invariant.{IsWellFormed, DepsKnown, IsKnown, listed, deps_in, deps_in-keep}
use vcode.Graph.Mutations.{map_values}

pub record IsSide {V : Type 0} (field : V → List String) (m : Dict V) (s : Successors)
    : Type 0 where
  pub indexed : IsIndexOf s (deps_in field m)
  pub acyclic : IsAcyclic s
  pub known : IsKnown field m

abbrev pub FeatureSide : Graph → Type 0
FeatureSide g = IsSide (λ (f : Feature). f.depends_on) g.features g.feature_successors

abbrev pub TaskSide : Graph → Type 0
TaskSide g = IsSide (λ (t : Task). t.depends_on) g.tasks g.task_successors

-- Both indexes equal to the listed dependencies and free of cycles, and every dependency there.
pub record IsConsistent (g : Graph) : Type 0 where
  pub features : FeatureSide g
  pub tasks : TaskSide g

pub IsConsistent-of : (g : Graph) → IsWellFormed g × DepsKnown g → IsConsistent g
IsConsistent-of g (wf, known) = record {
  features = record {
    indexed = wf.features_indexed;
    acyclic = wf.features_acyclic;
    known = known.features_known;
  };
  tasks = record {
    indexed = wf.tasks_indexed;
    acyclic = wf.tasks_acyclic;
    known = known.tasks_known;
  };
}

pub IsWellFormed-of : (g : Graph) → IsConsistent g → IsWellFormed g
IsWellFormed-of g c = record {
  features_indexed = c.features.indexed;
  features_acyclic = c.features.acyclic;
  tasks_indexed = c.tasks.indexed;
  tasks_acyclic = c.tasks.acyclic;
}

pub DepsKnown-of : (g : Graph) → IsConsistent g → DepsKnown g
DepsKnown-of g c = record { features_known = c.features.known; tasks_known = c.tasks.known }

pub get-map_values :
    {V : Type 0} (f : V → V) (k : String) (m : Dict V)
    → ((get k m ≡ none) × (get k (map_values f m) ≡ none))
      ⊎ ((v : V) × (get k m ≡ some v) × (get k (map_values f m) ≡ some (f v)))
unfolding get map_values
get-map_values f k [] = inl (refl, refl)
get-map_values f k ((j, v) ∷ m) = elim (Bool-cases (j == k)) [
  | inl same ↦ inr (v, rw same, rw same)
  | inr other ↦ rw other (get-map_values f k m)
]

pub sub-IsAcyclic :
    (s s' : Successors)
    → ((u v : String) → Memᴰ v (nexts u s') → Memᴰ v (nexts u s))
    → IsAcyclic s
    → IsAcyclic s'
sub-IsAcyclic s s' sub acyclic u v e p = acyclic u v (sub u v e) (path p)
  where
    path : {a b : String} → Reaches s' a b → Reaches s a b
    path here = here
    path (step q r) = step (path q) (sub _ _ r)

pub mem-nexts-delete :
    (id u w : String) (s : Successors)
    → Memᴰ w (nexts u (delete id s)) ↔ (Memᴰ w (nexts u s) × (u ≢ id))
unfolding nexts
mem-nexts-delete id u w s =
    ground (arith, get-delete id u s, eq_iff id u, λ (m : Memᴰ w []). Memᴰ.not-nil m)

module _ {V : Type 0} (field : V → List String) where
  -- Changes that keep the dependencies of each node.
  pub same-IsSide :
      (m m' : Dict V) (s : Successors)
      → ((v : String) → deps_in field m' v ≡ deps_in field m v)
      → ((v : String) → get v m' ≡ none → get v m ≡ none)
      → IsSide field m s
      → IsSide field m' s
  same-IsSide m m' s same there side = record {
    indexed = λ u v. rw (same v) (side.indexed u v);
    acyclic = side.acyclic;
    known = λ v u k gone. side.known v u (rw (same v) at k) (there u gone);
  }

  pub set-IsSide :
      (m : Dict V) (s : Successors) (k : String) (x x' : V)
      → get k m ≡ some x
      → field x' ≡ field x
      → IsSide field m s
      → IsSide field (set k x' m) s
  set-IsSide m s k x x' at same =
      same-IsSide m (set k x' m) s (λ v. deps_in-keep field k v x x' m at same)
        (λ v gone. ground (arith, get-set k v x' m))

  pub map-IsSide :
      (m : Dict V) (s : Successors) (f : V → V)
      → ((x : V) → field (f x) ≡ field x)
      → IsSide field m s
      → IsSide field (map_values f m) s
  map-IsSide m s f same =
      same-IsSide m (map_values f m) s
        (λ v. elim (get-map_values f v m) [
          | inl (a, b) ↦ rw (a, b) refl
          | inr (x, a, b) ↦ rw (a, b) (same x)
        ])
        (λ v gone. elim (get-map_values f v m) [ inl (a, b) ↦ a | inr (x, a, b) ↦ cc ])

-- The removal of the node `id`, which the other nodes' dependencies lose.
module _ {V : Type 0} (field : V → List String) (id : String) (strip : V → V)
    (strips : (x : V)
      → field (strip x) ≡ (if includes id (field x) then without id (field x) else field x))
    (m : Dict V) where
  mem-strip : (u : String) (x : V) → Memᴰ u (field (strip x)) ↔ (Memᴰ u (field x) × (u ≢ id))
  mem-strip u x =
      ground (arith, mem-without id u (field x), includes_iff id (field x), same, strips x)
    where
      same : u ≡ id → Memᴰ u (field x) → Memᴰ id (field x)
      same q k = subst (λ y. Memᴰ y (field x)) q k

  mem-deps_in-strip :
      (u v : String)
      → Memᴰ u (deps_in field (map_values strip m) v) ↔ (Memᴰ u (deps_in field m v) × (u ≢ id))
  mem-deps_in-strip u v = elim (get-map_values strip v m) [
    | inl (a, b) ↦ rw (a, b) (λ k. absurd (Memᴰ.not-nil k), λ (k, _). k)
    | inr (x, a, b) ↦ rw (a, b) (mem-strip u x)
  ]

  mem-deps_in-removed :
      (u v : String)
      → Memᴰ u (deps_in field (delete id (map_values strip m)) v)
        ↔ (Memᴰ u (deps_in field m v) × (u ≢ id) × (v ≢ id))
  mem-deps_in-removed u v = elim (Bool-cases (id == v)) [
    | inl same ↦
        rw (get-delete, same) (ground (arith, eq_iff id v, λ (k : Memᴰ u []). Memᴰ.not-nil k))
    | inr other ↦ rw (get-delete, other) (ground (arith, eq_iff id v, mem-deps_in-strip u v))
  ]

  present-removed :
      (u : String) → u ≢ id → get u m ≢ none → get u (delete id (map_values strip m)) ≢ none
  present-removed u other there gone = elim (get-map_values strip u m) [
    | inl (a, b) ↦ there a
    | inr (x, a, b) ↦ ground (arith, get-delete id u (map_values strip m), eq_iff id u)
  ]

  pub removed-IsSide :
      (s s' : Successors) (x : V)
      → get id m ≡ some x
      → ((u w : String)
          → Memᴰ w (nexts u s') ↔ (Memᴰ w (nexts u s) × (u ≢ id) × ¬ (Memᴰ u (field x) × (w ≡ id))))
      → IsSide field m s
      → IsSide field (delete id (map_values strip m)) s'
  removed-IsSide s s' x at less side = record {
    indexed = λ u w. ground (arith, less u w, side.indexed u w, mem-deps_in-removed u w, own u w);
    acyclic = sub-IsAcyclic s s' (λ u v k. ((less u v).0 k).0) side.acyclic;
    known = λ v u k.
        let (listed, other, _) = (mem-deps_in-removed u v).0 k in
        present-removed u other (side.known v u listed);
  }
    where
      own : (u w : String) → w ≡ id → Memᴰ u (deps_in field m w) → Memᴰ u (field x)
      own u w q k =
          subst (λ o. Memᴰ u (listed field o)) at (subst (λ j. Memᴰ u (deps_in field m j)) q k)
