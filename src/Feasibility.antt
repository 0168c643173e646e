-- ===== src/Feasibility.antt =====
-- The bounded feasibility solver: reparto_service/services/feasibility.py.
pub mod Types
pub mod Grouping
pub mod Matching
pub mod Augment
pub mod AugmentVisited
pub mod AugmentLoop
pub mod Matchings
pub mod Exact
pub mod Residual
pub mod Divisors
pub mod Groups
pub mod Reachable
pub mod Pools
pub mod Pruning
pub mod Symmetry
pub mod Search
pub mod Evaluate
pub mod Workspaces
pub mod Soundness
pub mod Refutation
pub mod Completeness
pub mod Refuted
pub mod Feasible
pub mod Roots
pub mod Infeasible
mod Tests
