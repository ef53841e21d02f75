-- ===== src/Graph/Search.antt =====
-- src/core/graph/validation.ts, `hasFeaturePathViaSuccessors` and `hasTaskPathViaSuccessors`: two
-- copies of one depth-first search with an explicit stack, over an index from an id to the set of
-- its successors.
pub mod Fuel
pub mod Correct
use vcode.Base.{
  ℕ, zero, suc, ◌+◌, String, Bool, true, false, List, [], ◌∷◌, Option, none, some, ◌==◌, string_eq,
  if◌then◌else◌, includes, add_to_set, length, or_else,
}
use vcode.Base.Dict.{Dict, get}

-- `Map<string, Set<string>>`, each set in insertion order.
abbrev pub Successors : Type 0
Successors = Dict (List String)

-- The successors of `u`: none for a key that is missing.
unfoldable pub nexts : String → Successors → List String
nexts u successors = or_else (get u successors) []

-- `for (const next of nexts) stack.push(next);` The top of the stack is the head of the list.
unfoldable pub push_all : List String → List String → List String
push_all [] stack = stack
push_all (next ∷ rest) stack = push_all rest (next ∷ stack)

-- The `while` loop; `none` means that the fuel ran out.
unfoldable pub search : ℕ → String → Successors → List String → List String → Option Bool
search zero to successors visited stack = none
search (suc fuel) to successors visited [] = some false
search (suc fuel) to successors visited (current ∷ stack) =
    let skip = search fuel to successors visited stack in
    let expand =
      search fuel to successors (add_to_set current visited)
        (push_all (nexts current successors) stack) in
    if current == to then some true else if includes current visited then skip else expand

-- The edges of the index, which bound the pushes.
unfoldable pub edge_count : Successors → ℕ
edge_count [] = 0
edge_count ((u, targets) ∷ rest) = length targets + edge_count rest

unfoldable pub has_path_via_successors : String → String → Successors → Bool
has_path_via_successors from to successors =
    or_else (search (suc (suc (edge_count successors))) to successors [] (from ∷ [])) false
