-- ===== src/Graph/Queries/Milestones.antt =====
-- What `queuedMilestones` of src/core/graph/queries.ts answers.
use vcode.Base.{
  ◌≤◌, ◌≡◌, ◌≢◌, ◌↔◌, arith, false, List, [], ◌∷◌, All, none, Memᴰ, mem-keep, is_some, or_else,
}
use vcode.Base.Dict.{values}
use vcode.Base.Sort.{is_gt, IsOrder, IsSortedBy, sort_by-IsSortedBy, mem-sort_by}
use vcode.Types.Domain.{Milestone}
use vcode.Graph.Store.{Graph}
use vcode.Graph.Queries.{compare_positions, queued_milestones}

positions_iff :
    (a b : Milestone)
    → (is_gt (compare_positions a b) ≡ false)
      ↔ (or_else a.steering_queue_position 0 ≤ or_else b.steering_queue_position 0)
unfolding compare_positions
positions_iff a b = ground arith

positions_order : IsOrder compare_positions
positions_order = record {
  total = λ a b h. ground (arith, positions_iff a b, positions_iff b a);
  trans = λ a b c h k. ground (arith, positions_iff a b, positions_iff b c, positions_iff a c);
}

-- No milestone stands before one with a lower position.
abbrev pub Ascending : List Milestone → Type 0
Ascending [] = Unit
Ascending (a ∷ rest) =
    All (λ b. or_else a.steering_queue_position 0 ≤ or_else b.steering_queue_position 0) rest
    × Ascending rest

first_lowest :
    (a : Milestone) (xs : List Milestone)
    → All (λ b. is_gt (compare_positions a b) ≡ false) xs
    → All (λ b. or_else a.steering_queue_position 0 ≤ or_else b.steering_queue_position 0) xs
first_lowest a [] h = tt
first_lowest a (b ∷ xs) (first, rest) = ((positions_iff a b).0 first, first_lowest a xs rest)

Ascending-of : (xs : List Milestone) → IsSortedBy compare_positions xs → Ascending xs
Ascending-of [] s = tt
Ascending-of (a ∷ xs) (first, rest) = (first_lowest a xs first, Ascending-of xs rest)

-- `queuedMilestones` lists exactly the milestones of the graph that have a queue position, in
-- ascending order of position.
pub mem-queued_milestones :
    (g : Graph) (m : Milestone)
    → (Memᴰ m (queued_milestones g)
        ↔ (Memᴰ m (values g.milestones) × (m.steering_queue_position ≢ none)))
      × Ascending (queued_milestones g)
unfolding queued_milestones
mem-queued_milestones g m =
    let test = λ (x : Milestone). is_some x.steering_queue_position in
    let kept = mem-keep test m (values g.milestones) in
    let sorted = mem-sort_by compare_positions m _ in
    (
      (
        λ k. let (listed, is) = kept.0 (sorted.0 k) in (listed, ground arith),
        λ (listed, there). sorted.1 (kept.1 (listed, ground arith)),
      ),
      Ascending-of _ (sort_by-IsSortedBy compare_positions positions_order _),
    )
