-- ===== src/Parsers.antt =====
-- mcp_server/parsers: what the server checks and recovers in FEN and PGN text. Characters are
-- compared by their codes, and the classes of characters (blanks, digits) are those of ASCII.
pub mod Semicolon
pub mod Castling
