-- ===== src/Contracts.antt =====
-- mcp_server/contracts, and what its parts take from mcp_server/tcp_analyzer.py.
pub mod MateState
pub mod Candidates
