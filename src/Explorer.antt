-- ===== src/Explorer.antt =====
-- mcp_server/lichess_explorer: the HTTP client of the Lichess Opening Explorer.
pub mod Client
pub mod Cache
