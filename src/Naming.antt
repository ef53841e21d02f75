-- ===== src/Naming.antt =====
-- src/core/naming/index.ts: branch names. A text is a list of code points. `toLowerCase` is written
-- out for the characters whose lower case has a letter of a-z: A to Z, the Kelvin sign and the dotted
-- capital I; every other character outside a-z and 0-9 stays outside, and becomes part of a hyphen.
use Prim.Native.Char.{Char, code}
use Prim.Native.String.{◌++◌}
use vcode.Base.{
  ℕ, ◌-◌, Bool, true, false, ◌&&◌, ◌||◌, String, ◌==◌, nat_eq, leb, if◌then◌else◌, or_else,
}
use vcode.Types.Workflow.{FeatureId, TaskId}
use vcode.Types.Domain.{Task}

infixr 67 ◌∷◌
pattern abbrev ◌∷◌ : Char → String → String
c ∷ s = String.◌∷◌ c s

-- `id.slice(2)`
unfoldable pub strip_prefix : String → String
strip_prefix (a ∷ b ∷ rest) = rest
strip_prefix _ = String.[]

abbrev pub char_at_or : Char → String → ℕ → Char
char_at_or d String.[] n = d
char_at_or d (c ∷ s) ℕ.zero = c
char_at_or d (c ∷ s) (ℕ.suc n) = char_at_or d s n

abbrev alphabet : String
alphabet = "abcdefghijklmnopqrstuvwxyz"

-- `toLowerCase`
unfoldable pub to_lower_case : String → String
to_lower_case String.[] = String.[]
to_lower_case (c ∷ s) =
    let rest = to_lower_case s in
    if leb b'A' (code c) && leb (code c) b'Z'
    then char_at_or c alphabet (code c - b'A') ∷ rest
    else if code c == 0x212a
    then "k" ∷ rest
    else if code c == 0x130
    then "i" ∷ "̇" ∷ rest
    else c ∷ rest

-- The class [a-z0-9].
abbrev pub is_slug_char : Char → Bool
is_slug_char c = leb b'a' (code c) && leb (code c) b'z' || leb b'0' (code c) && leb (code c) b'9'

-- `.replace(/[^a-z0-9]+/g, '-')`; the flag says that the character before was replaced too.
unfoldable pub hyphenate : Bool → String → String
hyphenate in_run String.[] = String.[]
hyphenate in_run (c ∷ s) =
    let in_word = c ∷ hyphenate false s in
    let more = hyphenate true s in
    if is_slug_char c then in_word else if in_run then more else "-" ∷ more

-- `.replace(/^-+|-+$/g, '')`, its two halves.
unfoldable pub trim_start : String → String
trim_start String.[] = String.[]
trim_start (c ∷ s) = let rest = trim_start s in if code c == b'-' then rest else c ∷ s

abbrev drop_if_last : Char → String → String
drop_if_last c String.[] = if code c == b'-' then String.[] else c ∷ String.[]
drop_if_last c (d ∷ s) = c ∷ d ∷ s

unfoldable pub trim_end : String → String
trim_end String.[] = String.[]
trim_end (c ∷ s) = drop_if_last c (trim_end s)

unfoldable pub slugify : String → String
unfolding to_lower_case hyphenate trim_start trim_end
slugify name = trim_end (trim_start (hyphenate false (to_lower_case name)))

unfoldable pub feature_branch_name : FeatureId → String → String
unfolding slugify strip_prefix
feature_branch_name id name = "feat-" ++ slugify name ++ "-" ++ strip_prefix id

unfoldable pub task_branch_name : FeatureId → String → TaskId → String
unfolding slugify strip_prefix
task_branch_name feature_id name task_id =
    "feat-" ++ slugify name ++ "-" ++ strip_prefix feature_id ++ "-" ++ strip_prefix task_id

unfoldable pub resolve_task_worktree_branch : Task → String
resolve_task_worktree_branch task =
    or_else task.worktree_branch ("feat-" ++ task.feature_id ++ "-task-" ++ task.id)

unfoldable pub worktree_path : String → String
worktree_path branch = ".gvc0/worktrees/" ++ branch
