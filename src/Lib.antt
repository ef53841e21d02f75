-- ===== src/Lib.antt =====
-- The core of gvc0: the guards and the graph by which features and tasks move from discussion to
-- merge. Paths are from the repository's root.
--
-- Parts. `src/core/types` names the states; `src/core/fsm` says which changes of them are allowed;
-- `src/core/graph` keeps milestones, features and tasks with two successor indexes, and moves
-- features and tasks through those guards; `src/core/merge-train` orders the merges and changes
-- features through the graph only; `src/core/state` derives the statuses that are shown and
-- scheduled by; `src/core/naming` makes branch names; `src/core/proposals` applies the operations that
-- a planner proposes to the graph; `src/core/scheduling` puts the units of work that are ready in
-- order; `src/runtime/retry-policy.ts` says which failures are tried again.
--
-- Files.
--   Base: equality tests, lists on native numbers, maps with string keys in insertion order (Dict),
--     the stable sort (Sort) and code that throws (Results).
--   Types: src/core/types: Workflow for workflow.ts, Payload for usage.ts, verification.ts and
--     phases.ts, Domain for domain.ts, Runs for runs.ts.
--   Fsm: src/core/fsm/index.ts. Table has the result of a guard, Feature and Task the guards
--     (validateFeatureTransition is validate_feature_transition, and so on). Relation and TaskLaws
--     write the moves as relations; Laws, Lifecycle and TaskLifecycle are about runs of steps.
--   State: src/core/state/index.ts, with Features and Milestones on what the statuses mean.
--   Naming: src/core/naming/index.ts.
--   Decimal: the digits of a number, printed and read. Doubles: the rounding of whole numbers to
--     doubles, and with it `${n}`, `n + 1` and Number.parseInt, for the numbers in ids.
--   Graph: src/core/graph. Store has the maps and the errors (MutableGraphInternals,
--     GraphValidationError), Search the path search of validation.ts, Snapshot its search
--     for cycles and the rebuilding of the indexes, Dependencies, Creation,
--     Mutations, Transitions and Queries the files of these names, Features the rest of
--     feature-mutations.ts with usage-mutations.ts, and Numbering addTask and initTaskIdCounter. Index
--     and Invariant say when a graph is well formed, Known that it lists only what is there, Side both
--     for one half of the graph, and Steps runs of operations. An operation is a function from a graph
--     to a graph or an error: each checks all before it writes, but addTask, which counts first.
--   MergeTrain: src/core/merge-train/index.ts. The coordinator's counter is passed along with the
--     graph, also by a call that throws. Order is about the choice, Laws, Leaving and Invariant
--     about calls.
--   Proposals: src/core/proposals/index.ts. Stale has the reasons to skip an operation, Aliases the ids
--     that a proposal's aliases get, Apply the application with the graph as a value that is passed
--     along, also by an operation that throws, and Builder the builder.
--   Scheduling: src/core/scheduling/index.ts, with prioritizeReadyWork in Priority, whose Ranked is
--     about the order that it returns, with Profiles for what it depends on and Claims, Keys, Sorted,
--     Reads and Order for its parts, and Exact about the units in it, with Due for what they are; buildCombinedGraph in Combined;
--     and computeGraphMetrics in Metrics.
--   RetryPolicy: src/runtime/retry-policy.ts. Bounds has the delays, and Patterns the errors.
--   Examples: tests, and the theorems at concrete inputs.
--
-- Numbers. The numbers in ids, and the counters that are set from them, are doubles, up to Infinity.
-- Orders, queue positions, times and what one process counts up from zero are natural numbers. `maximum + 1` with a
-- maximum that starts at -1 is kept as one number that starts at 0. Amounts of money are whole. The
-- jitter of a retry and the random number are fractions, and products are exact where the code has
-- floating-point numbers.
--
-- Fuel. The path search runs on fuel: two more than the edges of the index. A round pops one
-- entry of the stack, and a node's successors are pushed at its first visit only. The cascade of
-- cancelFeature runs on one more than the number of features: each call but the first cancels a
-- feature that was not cancelled. So does the search for cycles of a snapshot, where each nested
-- call has one feature more in `inStack`. A number has at most as many digits as its
-- value, which is the fuel of its print. The two passes of computeGraphMetrics run on one more
-- than the nodes, since a path has each node once.
--
-- Outside the program. `Date.now()`, `Math.random()`, `localeCompare`, `toLowerCase` of an error and
-- the reader of runs are arguments, and a regular expression is given by its test;
-- `Array.prototype.sort`, `Map` and `Set` are Sort and Dict of Base; an error's text is a constructor
-- with what the text quotes.
--
-- Not modelled: the assertion on tick boundaries of src/core/graph/index.ts, which an
-- environment variable switches on; the other checks of validateInvariants on a whole snapshot;
-- the tests of isGraphProposal on untyped values; src/core/warnings; src/orchestrator and
-- src/runtime, whose decisions stand between calls of git and of processes; and src/agents,
-- src/persistence, src/tui and src/app, which call a model provider, a database and a terminal.
pub mod Base
pub mod Types
pub mod Fsm
pub mod State
pub mod Naming
pub mod Graph
pub mod MergeTrain
pub mod Scheduling
pub mod RetryPolicy
pub mod Examples
pub mod Decimal
pub mod Doubles
pub mod Proposals
