-- ===== src/Lifecycle.antt =====
-- The lifecycle tables: reparto_service/services/process_lifecycle.py and
-- reparto_service/services/planning_lifecycle.py, over reparto_service/enums.py.
pub mod Status
pub mod Table
pub mod Process
pub mod Planning
pub mod Paths
mod Tests
