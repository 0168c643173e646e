-- ===== src/Assignments.antt =====
-- The assignment service: reparto_service/controllers/assignments.py and the services it calls.
pub mod Rows
pub mod Hours
pub mod Remaining
pub mod Witnesses
pub mod Occupy
pub mod Actions
pub mod Tables
pub mod Invariant
pub mod Run
pub mod Kept
pub mod Backed
pub mod Effects
pub mod Sound
pub mod Notes
pub mod Backing
pub mod Safe
pub mod Ledger
pub mod Summary
pub mod Moves
pub mod RoundTrip
pub mod Refusals
mod Tests
