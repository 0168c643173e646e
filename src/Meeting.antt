-- ===== src/Meeting.antt =====
-- Selection turns of a meeting: reparto_service/controllers/selection_turns.py and the queue
-- functions of reparto_service/controllers/assignments.py.
pub mod Turns
pub mod Queue
pub mod Invariant
mod Tests
