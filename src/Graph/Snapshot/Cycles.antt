-- ===== src/Graph/Snapshot/Cycles.antt =====
-- What the search for cycles of src/core/graph/validation.ts finds.
use mathlib.Core.List.Memᴰ
use mathlib.Core.WellFounded.{Acc}
use vcode.Base.{
  ℕ, zero, suc, String, ◌≡◌, refl, sym, subst, ◌⊎◌, inl, inr, arith, true, false, Bool-cases, List,
  [], ◌∷◌, Memᴰ, includes, includes_iff, add_to_set, mem-add_to_set, string_eq, length, ◌==◌,
  eq_of_beq, ne_of_beq,
}
use vcode.Base.Results.{Result, ok, err, ◌>>=◌}
use vcode.Graph.Search.{Successors, nexts}
use vcode.Graph.Snapshot.{SearchStop, SearchResult, search_over, dfs, find_cycle}

module _ (adjacency : Successors) where
  abbrev pub Asks : String → String → Type 0
  Asks y x = Memᴰ y (nexts x adjacency)

  -- What was left behind asks in turn for nothing without end.
  abbrev Settled : List String → List String → Type 0
  Settled stack visited = (x : String) → Memᴰ x visited → ¬ Memᴰ x stack → Acc Asks x

  abbrev Passes : List String → (String → List String → SearchResult) → Type 0
  Passes stack visit =
      (x : String) (visited later : List String)
      → Settled stack visited
      → visit x visited ≡ ok later
      → Settled stack later × Acc Asks x

  passing_first :
      {A B : Type 0} (r : Result SearchStop A) (k : A → Result SearchStop B) (b : B)
      → (r >>= k) ≡ ok b
      → (a : A) × (r ≡ ok a) × (k a ≡ ok b)
  passing_first (ok a) k b e = (a, refl, e)
  passing_first (err x) k b e = cc

  search_over-Settled :
      (stack : List String) (visit : String → List String → SearchResult)
      → Passes stack visit
      → (ns visited later : List String) → Settled stack visited
      → search_over visit ns visited ≡ ok later
      → Settled stack later × ((x : String) → Memᴰ x ns → Acc Asks x)
  unfolding search_over
  search_over-Settled stack visit passes [] visited later settled e =
      (subst (Settled stack) (same e) settled, λ x m. absurd (Memᴰ.not-nil m))
    where
      same : ◌≡◌ {A = SearchResult} (ok visited) (ok later) → visited ≡ later
      same q = cc
  search_over-Settled stack visit passes (n ∷ ns) visited later settled e =
      let (mid, first, rest) = passing_first (visit n visited) (search_over visit ns) later e in
      let (settled', found) = passes n visited mid settled first in
      let (last, others) = search_over-Settled stack visit passes ns mid later settled' rest in
      (
        last,
        λ x m. elim (Memᴰ.cases_cons m) [
          | inl same ↦ subst (Acc Asks) (sym same) found
          | inr other ↦ others x other
        ],
      )

  dfs_outcome :
      (fuel : ℕ) (stack : List String) (x : String) (visited later : List String)
      → dfs (suc fuel) adjacency stack x visited ≡ ok later
      → (includes x stack ≡ false)
        × (((includes x visited ≡ true) × (visited ≡ later))
            ⊎ (search_over
                  (dfs fuel adjacency (add_to_set x stack))
                  (nexts x adjacency)
                  (add_to_set x visited)
                ≡ ok later))
  unfolding dfs
  dfs_outcome fuel stack x visited later e = elim (Bool-cases (includes x stack)) [
    | inl again ↦ ground arith
    | inr fresh ↦ elim (Bool-cases (includes x visited)) [
      | inl seen ↦ (fresh, inl (seen, ground arith))
      | inr new ↦ (fresh, inr (ground arith))
    ]
  ]

  dfs-Passes : (fuel : ℕ) (stack : List String) → Passes stack (dfs fuel adjacency stack)
  unfolding dfs
  dfs-Passes zero stack x visited later settled e = cc
  dfs-Passes (suc fuel) stack x visited later settled e =
      let (fresh, rest) = dfs_outcome fuel stack x visited later e in
      let outside : ¬ Memᴰ x stack = λ m. cc ((includes_iff x stack).1 m) in
      elim rest [
        | inl (seen, same) ↦ (
          subst (Settled stack) same settled,
          settled x ((includes_iff x visited).0 seen) outside,
        )
        | inr searched ↦
            let stack' = add_to_set x stack in
            let before : Settled stack' (add_to_set x visited) = λ y m off.
              elim ((mem-add_to_set x y visited).0 m) [
                | inl old ↦ settled y old (λ k. off ((mem-add_to_set x y stack).1 (inl k)))
                | inr same ↦ absurd (off ((mem-add_to_set x y stack).1 (inr same)))
              ] in
            let (last, found) =
              search_over-Settled stack' (dfs fuel adjacency stack') (dfs-Passes fuel stack')
                (nexts x adjacency) (add_to_set x visited) later before searched in
            let settles : Acc Asks x = Acc.intro x (λ y m. found y m) in
            (
              λ y m off. elim (Bool-cases (y == x)) [
                | inl same ↦ subst (Acc Asks) (sym (eq_of_beq y x same)) settles
                | inr apart ↦ last y m (λ k. elim ((mem-add_to_set x y stack).0 k) [
                  | inl old ↦ off old
                  | inr same ↦ ne_of_beq y x apart same
                ])
              ],
              settles,
            )
      ]

-- When the search passes, no chain of dependencies that starts at one of the ids goes on without end,
-- so none comes back to its start.
find_cycle-Acc :
    (adjacency : Successors) (ids visited : List String)
    → find_cycle adjacency ids ≡ ok visited
    → (x : String) → Memᴰ x ids
    → Acc (Asks adjacency) x
find_cycle-Acc adjacency ids visited passes x m =
    (search_over-Settled adjacency [] (dfs (suc (length ids)) adjacency [])
        (dfs-Passes adjacency (suc (length ids)) []) ids [] visited
        (λ y k outside. absurd (Memᴰ.not-nil k)) passes).1
      x m
