-- ===== src/Guards.antt =====
-- The selection guards: reparto_service/services/selection_guards.py.
pub mod Types
pub mod Fast
pub mod Matchings
pub mod Witness
pub mod Repair
pub mod Exact
pub mod Repaired
pub mod Steps
mod Tests
