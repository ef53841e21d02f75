-- ===== src/Graph/Snapshot/Fuel.antt =====
-- That the search for cycles of src/core/graph/validation.ts has fuel enough.
use mathlib.Core.List.Memᴰ
use vcode.Base.{
  ℕ, zero, suc, ◌≤◌, ◌<◌, String, ◌≡◌, ◌≢◌, refl, ◌⊎◌, inl, inr, arith, true, false, Bool-cases,
  List, [], ◌∷◌, Memᴰ, includes, includes_iff, add_to_set, mem-add_to_set, string_eq, length,
  if◌then◌else◌,
}
use vcode.Base.Results.{ok, err, ◌>>=◌}
use vcode.Graph.Search.{Successors, nexts}
use vcode.Graph.Snapshot.{cycle, out_of_fuel, SearchResult, search_over, dfs, find_cycle}

-- How many of the ids are not on the stack.
unfoldable outside : List String → List String → ℕ
outside stack [] = 0
outside stack (i ∷ is) = let rest = outside stack is in if includes i stack then rest else suc rest

abbrev Keeps : List String → List String → Type 0
Keeps stack later = (y : String) → includes y stack ≡ true → includes y later ≡ true

outside_mono :
    (stack later is : List String) → Keeps stack later → outside later is ≤ outside stack is
unfolding outside
outside_mono stack later [] keeps = omega arith
outside_mono stack later (i ∷ is) keeps =
    let below = outside_mono stack later is keeps in
    elim (Bool-cases (includes i stack)) [
      | inl on ↦ let still = keeps i on in rw (on, still) below
      | inr off ↦ elim (Bool-cases (includes i later)) [
        | inl on ↦ rw (off, on) (omega arith)
        | inr off' ↦ rw (off, off') (omega arith)
      ]
    ]

outside-less :
    (stack later is : List String) (x : String)
    → Keeps stack later
    → Memᴰ x is
    → includes x stack ≡ false
    → includes x later ≡ true
    → outside later is < outside stack is
unfolding outside
outside-less stack later [] x keeps m off on = absurd (Memᴰ.not-nil m)
outside-less stack later (i ∷ is) x keeps m off on = elim (Memᴰ.cases_cons m) [
  | inl same ↦
      let below = outside_mono stack later is keeps in
      let off' : includes i stack ≡ false = cc in
      let on' : includes i later ≡ true = cc in rw (off', on') (omega arith)
  | inr other ↦
      let less = outside-less stack later is x keeps other off on in
      elim (Bool-cases (includes i stack)) [
        | inl there ↦ let still = keeps i there in rw (there, still) less
        | inr away ↦ elim (Bool-cases (includes i later)) [
          | inl there ↦ rw (away, there) (omega arith)
          | inr away' ↦ rw (away, away') (omega arith)
        ]
      ]
]

outside-length : (is : List String) → outside [] is ≤ length is
unfolding outside includes
outside-length [] = omega arith
outside-length (i ∷ is) = let below = outside-length is in omega arith

-- Every call on a neighbour ends for a reason of its own.
abbrev HasFuel : (String → List String → SearchResult) → Type 0
HasFuel visit = (x : String) (visited : List String) → visit x visited ≢ err out_of_fuel

bind_apart :
    (r : SearchResult) (k : List String → SearchResult)
    → r ≢ err out_of_fuel
    → ((a : List String) → k a ≢ err out_of_fuel)
    → (r >>= k) ≢ err out_of_fuel
bind_apart (ok a) k first rest = rest a
bind_apart (err stop) k first rest = λ e. first e

search_over-HasFuel :
    (visit : String → List String → SearchResult)
    → HasFuel visit
    → (ns visited : List String) → search_over visit ns visited ≢ err out_of_fuel
unfolding search_over
search_over-HasFuel visit has [] visited = λ e. cc
search_over-HasFuel visit has (n ∷ ns) visited =
    bind_apart (visit n visited) (search_over visit ns) (has n visited)
      (search_over-HasFuel visit has ns)

search_over-none :
    (visit : String → List String → SearchResult) (visited : List String)
    → search_over visit [] visited ≢ err out_of_fuel
unfolding search_over
search_over-none visit visited = λ e. cc

-- Only what is validated has dependencies.
abbrev pub IsClosed : Successors → List String → Type 0
IsClosed adjacency ids = (x : String) → (nexts x adjacency ≡ []) ⊎ Memᴰ x ids

dfs_again :
    (fuel : ℕ) (adjacency : Successors) (stack visited : List String) (x : String)
    → includes x stack ≡ true
    → dfs (suc fuel) adjacency stack x visited ≡ err (cycle x)
unfolding dfs
dfs_again fuel adjacency stack visited x again = ground arith

dfs_seen :
    (fuel : ℕ) (adjacency : Successors) (stack visited : List String) (x : String)
    → includes x stack ≡ false
    → includes x visited ≡ true
    → dfs (suc fuel) adjacency stack x visited ≡ ok visited
unfolding dfs
dfs_seen fuel adjacency stack visited x fresh seen = ground arith

dfs_new :
    (fuel : ℕ) (adjacency : Successors) (stack visited : List String) (x : String)
    → includes x stack ≡ false
    → includes x visited ≡ false
    → dfs (suc fuel) adjacency stack x visited
      ≡ search_over
          (dfs fuel adjacency (add_to_set x stack))
          (nexts x adjacency)
          (add_to_set x visited)
unfolding dfs
dfs_new fuel adjacency stack visited x fresh new = ground arith

dfs-HasFuel :
    (adjacency : Successors) (ids : List String)
    → IsClosed adjacency ids
    → (fuel : ℕ) (stack : List String) → outside stack ids < fuel
    → HasFuel (dfs fuel adjacency stack)
dfs-HasFuel adjacency ids closed zero stack less x visited = absurd (omega arith)
dfs-HasFuel adjacency ids closed (suc fuel) stack less x visited =
    elim (Bool-cases (includes x stack)) [
      | inl again ↦ rw (dfs_again fuel adjacency stack visited x again) (λ e. cc)
      | inr fresh ↦ elim (Bool-cases (includes x visited)) [
        | inl seen ↦ rw (dfs_seen fuel adjacency stack visited x fresh seen) (λ e. cc)
        | inr new ↦
            let stack' = add_to_set x stack in
            let keeps : Keeps stack stack' = λ y on.
              (includes_iff y stack').1
                ((mem-add_to_set x y stack).1 (inl ((includes_iff y stack).0 on))) in
            let on : includes x stack' ≡ true =
              (includes_iff x stack').1 ((mem-add_to_set x x stack).1 (inr refl)) in
            rw (dfs_new fuel adjacency stack visited x fresh new) (elim (closed x) [
              | inl none ↦
                  rw none (search_over-none (dfs fuel adjacency stack') (add_to_set x visited))
              | inr known ↦
                  let fewer = outside-less stack stack' ids x keeps known fresh on in
                  search_over-HasFuel (dfs fuel adjacency stack')
                    (dfs-HasFuel adjacency ids closed fuel stack' (omega arith)) (nexts x adjacency)
                    (add_to_set x visited)
            ])
      ]
    ]

-- When only the given ids have dependencies, the search for cycles ends with a verdict: its fuel is
-- enough.
find_cycle-HasFuel :
    (adjacency : Successors) (ids : List String)
    → IsClosed adjacency ids
    → find_cycle adjacency ids ≢ err out_of_fuel
find_cycle-HasFuel adjacency ids closed =
    let enough = outside-length ids in
    search_over-HasFuel (dfs (suc (length ids)) adjacency [])
      (dfs-HasFuel adjacency ids closed (suc (length ids)) [] (omega arith)) ids []
