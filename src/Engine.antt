-- ===== src/Engine.antt =====
-- core/engines and mcp_server/engine: the pool of engine handlers and the retry of engine calls.
pub mod Pool
pub mod Retry
pub mod ParallelGather
pub mod Zeroing
pub mod Override
