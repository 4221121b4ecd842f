-- ===== src/Chess.antt =====
-- What the code calls of python-chess: a parameter of the modules that use it.
use chessy_mcp.Prelude.{ℕ, String, Bool, Option, List}

pub data PieceType : Type 0 where
  pawn knight bishop rook queen king_ : PieceType

-- A colour is `true` for white, as in python-chess. Squares are numbers; a set of squares is a
-- list. `moved_piece b m` is `b.piece_type_at(m.from_square)`, `with_turn` assigns `turn`, `push`
-- works on a copy, and `is_repetition` is `is_repetition(3)`.
pub record Chess : Type 1 where
  pub Board : Type 0
  pub Move : Type 0
  pub turn : Board → Bool
  pub with_turn : Bool → Board → Board
  pub push : Board → Move → Board
  pub legal_moves : Board → List Move
  -- the move of a UCI text, if the text is well-formed and `legal_moves` accepts the move; that test
  -- knows more spellings of a castling than the list has
  pub legal_uci : Board → String → Option Move
  pub uci : Move → String
  pub san : Board → Move → Option String
  pub moved_piece : Board → Move → Option PieceType
  pub is_capture : Board → Move → Bool
  pub halfmove_clock : Board → ℕ
  pub is_checkmate : Board → Bool
  pub is_stalemate : Board → Bool
  pub is_insufficient_material : Board → Bool
  pub is_seventyfive_moves : Board → Bool
  pub is_fivefold_repetition : Board → Bool
  pub is_fifty_moves : Board → Bool
  pub is_repetition : Board → Bool
  pub is_game_over : Board → Bool
  pub pieces : Board → PieceType → Bool → List ℕ
  pub king : Board → Bool → Option ℕ
  pub occupied : Board → List ℕ
  pub attacks_mask : Board → ℕ → List ℕ
  pub king_attacks : ℕ → List ℕ
  pub square_rank : ℕ → ℕ
  pub square_file : ℕ → ℕ
