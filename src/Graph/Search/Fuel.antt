-- ===== src/Graph/Search/Fuel.antt =====
-- The fuel of the search is enough: a round pops one entry, and pushes the successors of a node only
-- at its first visit.
use vcode.Base.{
  ℕ, zero, suc, ◌+◌, ◌≤◌, ◌<◌, ◌≡◌, refl, ◌↔◌, ◌⊎◌, inl, inr, arith, String, Bool, true, false,
  List, [], ◌∷◌, some, ◌==◌, string_eq, if◌then◌else◌, includes, add_to_set, length, includes_iff,
  mem-add_to_set, Bool-cases, eq_iff,
}
use vcode.Base.Dict.{get}
use vcode.Graph.Search.{Successors, nexts, push_all, search, edge_count, has_path_via_successors}

-- The edges out of nodes that are not visited yet.
weight : List String → Successors → ℕ
weight visited [] = 0
weight visited ((u, targets) ∷ rest) =
    (if includes u visited then 0 else length targets) + weight visited rest

includes-add :
    (u v : String) (visited : List String)
    → (includes u (add_to_set v visited) ≡ true) ↔ ((includes u visited ≡ true) ⊎ (u ≡ v))
includes-add u v visited = ground (
  arith,
  includes_iff u visited,
  includes_iff u (add_to_set v visited),
  mem-add_to_set v u visited,
)

weight-add-le :
    (v : String) (visited : List String) (s : Successors)
    → weight (add_to_set v visited) s ≤ weight visited s
unfolding weight
weight-add-le v visited [] = omega arith
weight-add-le v visited ((u, targets) ∷ rest) =
    ground (arith, includes-add u v visited, weight-add-le v visited rest)

weight-add :
    (v : String) (visited : List String) (s : Successors)
    → includes v visited ≡ false
    → weight (add_to_set v visited) s + length (nexts v s) ≤ weight visited s
unfolding weight nexts get
weight-add v visited [] h = omega arith
weight-add v visited ((u, targets) ∷ rest) h = ground (
  arith,
  includes-add u v visited,
  weight-add-le v visited rest,
  weight-add v visited rest h,
  eq_iff u v,
)

weight-start : (s : Successors) → weight [] s ≡ edge_count s
unfolding weight edge_count includes
weight-start [] = refl
weight-start ((u, targets) ∷ rest) = omega (arith, weight-start rest)

length-push_all : (xs stack : List String) → length (push_all xs stack) ≡ length xs + length stack
unfolding push_all
length-push_all [] stack = omega arith
length-push_all (x ∷ xs) stack = omega (arith, length-push_all xs (x ∷ stack))

search_ends :
    (fuel : ℕ) (to : String) (s : Successors) (visited stack : List String)
    → length stack + weight visited s < fuel
    → (b : Bool) × (search fuel to s visited stack ≡ some b)
unfolding search
search_ends zero to s visited stack h = absurd (omega arith)
search_ends (suc fuel) to s visited [] h = (false, refl)
search_ends (suc fuel) to s visited (c ∷ stack) h = elim (Bool-cases (c == to)) [
  | inl found ↦ (true, rw found)
  | inr other ↦ elim (Bool-cases (includes c visited)) [
    | inl old ↦
        let (b, e) = search_ends fuel to s visited stack (omega arith) in (b, rw (other, old) e)
    | inr new ↦
        let (b, e) =
          search_ends fuel to s (add_to_set c visited) (push_all (nexts c s) stack)
            (omega (arith, weight-add c visited s new, length-push_all (nexts c s) stack)) in
        (b, rw (other, new) e)
  ]
]

-- The search always ends within the fuel that `has_path_via_successors` gives it, with the answer
-- that this function returns.
pub search_answers :
    (from to : String) (s : Successors)
    → search (suc (suc (edge_count s))) to s [] (from ∷ [])
      ≡ some (has_path_via_successors from to s)
unfolding has_path_via_successors
search_answers from to s =
    let (b, e) =
      search_ends (suc (suc (edge_count s))) to s [] (from ∷ []) (omega (arith, weight-start s)) in
    rw e
