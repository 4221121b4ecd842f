-- ===== src/Analysis.antt =====
-- mcp_server/analysis: judgements on moves and games that the reports are made of.
pub mod PracticalEquivalence
pub mod Reconcile
pub mod Stability
pub mod Coaching
