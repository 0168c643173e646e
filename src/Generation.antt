-- ===== src/Generation.antt =====
-- The generation of requirement slots: reparto_service/controllers/hour_requirements.py.
pub mod Diff
pub mod Apply
pub mod Partition
pub mod Covered
pub mod Rows
pub mod Distinct
pub mod Live
pub mod Reconciled
pub mod Released
pub mod Intended
pub mod Evaluate
pub mod Answers
pub mod Reuse
pub mod Stored
mod Tests
