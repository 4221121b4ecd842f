-- ===== src/Tools.antt =====
-- mcp_server/tools: what the tools share.
pub mod Termination
pub mod Inputs
