-- ===== src/Domain.antt =====
-- mcp_server/domain: the actions of a game and their values.
pub mod Action
pub mod ActionEvaluation
