-- ===== src/Tests/Parsers.antt =====
-- Runs of mcp_server/parsers on concrete texts, and instances of its theorems.
use chessy_mcp.Prelude.{◌≡◌, refl, [], ◌∷◌, pos, negsuc}
use chessy_mcp.Parsers.Semicolon.{extract_semicolon_comments}

mainline_comments :
    extract_semicolon_comments "1. e4 e5 ; solid\n2. ; next\nNf3 {a ; b} (1. d4 ; x\n) \n% skipped"
    ≡ (pos 2, "solid") ∷ (pos 3, "next") ∷ (pos 3, "skipped") ∷ []
unfolding extract_semicolon_comments
mainline_comments = refl

-- the move number `0.` gives a ply below 1
ply_of_move_zero : extract_semicolon_comments "0. ; note" ≡ (negsuc 0, "note") ∷ []
unfolding extract_semicolon_comments
ply_of_move_zero = refl
