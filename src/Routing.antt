-- ===== src/Routing.antt =====
-- The routing of queries: src/jvc/routing.py.
pub mod Words
pub mod Resolve
pub mod Segments
pub mod Outcomes
mod Tests
