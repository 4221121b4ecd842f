-- ===== src/Broker.antt =====
-- broker/server.py: UCI clients that share one Stockfish process. A client is named by a number,
-- and its session by the client; a coroutine is cut at its awaits.
pub mod Session
pub mod Search
pub mod Steps
pub mod Exclusion
pub mod Options
