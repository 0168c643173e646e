-- ===== src/Lib.antt =====
-- Verification of the teaching-assignment service (reparto_service).
--
-- The service allocates teaching hours: a plan generates indivisible teacher-position slots, a
-- bounded solver decides whether the slots that are left can be given away exactly, cheap guards
-- check each selection against the solver's witness, a meeting gives the teachers their turns, and
-- every committed change is broadcast to the viewers of the process. These files model the parts of
-- this that are decisions on data; a database row is a record, a table a list, a transaction a
-- function that returns the new state or an error.
--
-- Prelude: lists over native numbers, Boolean tests, sorting, dicts.
-- Lifecycle (services/process_lifecycle.py, services/planning_lifecycle.py): Status and Process hold
--   the enumerations of enums.py, Table the generic transition table, Process and Planning the four
--   tables, Paths the theorems.
-- Feasibility (services/feasibility.py): Types has the snapshot and the results, Grouping
--   `_slots_by_activity`, Matching `_activity_has_matching` with `_augment_activity_match`, Residual
--   the tests at the root and the pruning tests, Search `_FeasibilitySearch`, Evaluate the entry
--   point. Augment, AugmentVisited, AugmentLoop and Matchings are about the matching. Exact says what
--   an exact assignment is without the solver; Workspaces, Soundness and Feasible lead from a search
--   that succeeds to it. Divisors, Groups, Reachable, Pools, Pruning and Roots are about the tests that
--   prune, Symmetry about participants that can change places, and Refutation, Completeness, Refuted
--   and Infeasible about a search that fails.
-- Guards (services/selection_guards.py): Fast has `compute_fast_feasibility_checks`, Witness
--   `validate_feasibility_witness`, Repair `validate_proposed_assignment_against_witness`;
--   Matchings, Exact, Repaired and Steps have the theorems.
-- Meeting (controllers/selection_turns.py, and the queue functions of controllers/assignments.py):
--   Turns has the actions on one meeting session, Queue the re-entry of completed turns, Invariant
--   the theorems.
-- Assignments (controllers/assignments.py): Rows has the rows of one process (db_models/), Hours
--   `AssignmentCalculationService` (services/calculations.py), Remaining the solver's views of the
--   rows (`build_remaining_assignment_state`, `build_feasibility_snapshot`), Witnesses
--   `FeasibilityWitnessService` (services/feasibility_witnesses.py), Occupy `_occupy_slot` with its
--   guards and `_release_assignment`, Actions the handlers, Run the requests one after the other.
--   Tables has lemmas on the writes. Invariant, Effects and Sound are about the tables, Backed, Notes
--   and Backing about the stored witness, Kept about what every handler keeps, Safe about runs of
--   calls of the five handlers create_manual_assignment, create_direct_choice, undo_assignment,
--   reassign_assignment and update_assignment. Ledger, Moves and RoundTrip say what becomes of rows
--   and hours, Refusals when the routine refuses, Summary what the batched summary adds up.
-- Generation (controllers/hour_requirements.py): Diff has `_plan_generation`, Apply the writes of
--   `generate` and `reconcile`; their gates on feasibility are not joined to them yet. Partition,
--   Covered, Rows, Distinct, Live, Reconciled and Released say what becomes of positions, live slots
--   and assignments. Intended (`_intended_slots`) and Evaluate (`evaluate`, both
--   services/feasibility_witnesses.py) have the evaluation of a plan with its store, Answers, Reuse
--   and Stored the theorems on it.
-- Stream (services/sse.py): Events, Broker with the subscriptions, Projection with the audiences,
--   Buffer on lost events.
-- The files are under reparto_service/.
--
-- Conventions. Hours are hundredths, as in the solver. A text identifier is a number: the code only
-- tests it for being empty (0), compares and orders it. Sets are lists. The clock of the solver is
-- an argument, `elapsed`, which says what it shows when so many states have been explored. Prose of
-- messages is left out where a code determines it.
-- Assignments. The tables hold the rows of one process, so that the checks that a row belongs to the
-- process are lookups. Transactions are taken one after the other: a row lock is a read. SHA-256 over
-- the JSON text of a snapshot is the parameter `digest`, of which nothing is assumed. New identifiers
-- and the clock are arguments; the primary key refuses an identifier that is taken.
-- `uuid5`, from which a generation takes the identifiers of new slots, is the parameter
-- `prospective_requirement_id`, of which nothing is assumed.
-- Recursion. The search recurs on the slots that are left and the repair on the moves that are left;
-- neither has fuel of its own. The augmenting-path search has a depth of one more than there are
-- participants: every call but the first has marked one more participant as visited. Euclid's
-- algorithm takes one round more than its second argument, which falls in every round.
--
-- Uuids and the solver's lock. `uuid5` is taken not to collide: the insert of a new slot, unlike that
-- of an assignment, has no refusal by the primary key. The refusal of a second evaluation while one
-- runs (429, `serialize_feasibility_solve`) is about two requests at once, and transactions are taken
-- one after the other. `_mapping_is_exact` raises a KeyError for a slot without an owner or an owner
-- who is no participant; its model reads no hours there, since `_validated_witness_mapping`
-- has refused such a mapping before, and the repair only names participants.
--
-- Not modelled: the database and its locks, the web routes, authentication, rendering, translation,
-- migrations, and the controllers that only read and write rows. In Meeting the assignment service that
-- `complete_turn` calls enters as the answer that it gives.
pub mod Prelude
pub mod Lifecycle
pub mod Feasibility
pub mod Guards
pub mod Meeting
pub mod Assignments
pub mod Generation
pub mod Stream
