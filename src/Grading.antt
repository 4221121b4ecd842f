-- ===== src/Grading.antt =====
-- mcp_server/analysis/move_grading: how good a played move was.
pub mod Score
pub mod Helpers
pub mod Enforce
pub mod Dispatch
pub mod Played
pub mod Terminal
pub mod Draw
pub mod Transitions
pub mod Standard
