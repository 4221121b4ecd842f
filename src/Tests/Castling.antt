-- ===== src/Tests/Castling.antt =====
-- mcp_server/parsers/pgn_validate/castling.py on small inputs.
use chessy_mcp.Prelude.{◌≡◌, refl, true, false, [], ◌∷◌, if◌then◌else◌}
use chessy_mcp.Chess.{Chess}
use chessy_mcp.Parsers.Castling.{
  accepted, rook_missing, foreign_char, wrong_order, validate_castling_rights,
}
use chessy_mcp.Parsers.Castling.Backed.{IsSound, validate_castling_rights_lem}
use chessy_mcp.Tests.Toy.{toy}

-- rooks on h1 and h8 alone
abbrev short_side : Chess
short_side = record toy { pieces = λ b kind color. if color then 7 ∷ [] else 63 ∷ [] }

canonical : validate_castling_rights short_side true "kKk" false ≡ accepted "Kk"
unfolding validate_castling_rights
canonical = refl

-- the right that goes takes the reordering with it
left_over : validate_castling_rights short_side true "qkK" false ≡ accepted "kK"
unfolding validate_castling_rights
left_over = refl

refused_rook : validate_castling_rights short_side true "Qk" true ≡ rook_missing
unfolding validate_castling_rights
refused_rook = refl

refused_order : validate_castling_rights short_side true "kK" true ≡ wrong_order
unfolding validate_castling_rights
refused_order = refl

refused_char : validate_castling_rights short_side true "Ha" true ≡ foreign_char
unfolding validate_castling_rights
refused_char = refl

validate_castling_rights_lem_example :
    IsSound short_side true true (validate_castling_rights short_side true "Kk" true)
validate_castling_rights_lem_example = validate_castling_rights_lem short_side true "Kk" true
