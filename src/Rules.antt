-- ===== src/Rules.antt =====
-- mcp_server/rules: what the rules of chess say of a position, and what to recommend.
pub mod ActionChoice
pub mod DeadPosition
pub mod Terminal
pub mod Pv
pub mod Status
pub mod Evaluate
