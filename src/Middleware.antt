-- ===== src/Middleware.antt =====
-- mcp_server/middleware: who may send how much to the server.
pub mod RateLimit
pub mod Texts
pub mod Admission
