-- ===== src/Cache.antt =====
-- mcp_server/cache: the in-memory tier.
pub mod Memory
pub mod SingleFlight
pub mod MultiTier
pub mod Disk
