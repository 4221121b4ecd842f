-- ===== src/Tests/Toy.antt =====
-- python-chess cut down to a game of two moves, for tests.
use chessy_mcp.Prelude.{
  ◌<◌, ◌≡◌, arith, inl, inr, Bool-cases, ℕ, zero, suc, ◌+◌, ◌/◌, ◌%◌, ltb, if◌then◌else◌, none,
  str_eq, ◌||◌, some, String, Bool, true, false, not, List, [], ◌∷◌,
}
use chessy_mcp.Rules.DeadPosition.{is_in}
use chessy_mcp.Chess.{Chess, PieceType, pawn, knight, bishop, rook, queen, king_}

-- white has a queen more
abbrev toy_pieces : PieceType → Bool → List ℕ
toy_pieces pawn color = 8 ∷ 9 ∷ []
toy_pieces knight color = []
toy_pieces bishop color = []
toy_pieces rook color = 0 ∷ []
toy_pieces queen true = 3 ∷ []
toy_pieces queen false = []
toy_pieces king_ color = 4 ∷ []

abbrev is_one_of : String → List String → Bool
is_one_of s [] = false
is_one_of s (t ∷ l) = let rest = is_one_of s l in str_eq s t || rest

-- the neighbours on a strip of 64 squares
abbrev pub neighbors : ℕ → List ℕ
neighbors zero = 1 ∷ []
neighbors (suc n) = if ltb n 62 then n ∷ (n + 2) ∷ [] else if ltb n 64 then n ∷ [] else []

-- a board is who has the turn
abbrev pub toy : Chess
toy = record {
  Board = Bool;
  Move = String;
  turn = λ b. b;
  with_turn = λ color b. color;
  push = λ b m. not b;
  legal_moves = λ b. "a1a2" ∷ "h7h8q" ∷ [];
  legal_uci = λ b text. if is_one_of text ("a1a2" ∷ "h7h8q" ∷ []) then some text else none;
  uci = λ m. m;
  san = λ b m. none;
  moved_piece = λ b m. none;
  is_capture = λ b m. false;
  halfmove_clock = λ b. 0;
  is_checkmate = λ b. false;
  is_stalemate = λ b. false;
  is_insufficient_material = λ b. false;
  is_seventyfive_moves = λ b. false;
  is_fivefold_repetition = λ b. false;
  is_fifty_moves = λ b. b;
  is_repetition = λ b. false;
  is_game_over = λ b. false;
  pieces = λ b. toy_pieces;
  king = λ b color. some (if color then 4 else 60);
  occupied = λ b. 4 ∷ 60 ∷ [];
  attacks_mask = λ b n. [];
  king_attacks = neighbors;
  square_rank = λ n. n / 8;
  square_file = λ n. n % 8;
}

-- only kings and two pawns that stand still, between the kings
abbrev locked_pieces : PieceType → Bool → List ℕ
locked_pieces pawn true = 20 ∷ []
locked_pieces pawn false = 28 ∷ []
locked_pieces knight color = []
locked_pieces bishop color = []
locked_pieces rook color = []
locked_pieces queen color = []
locked_pieces king_ color = if color then 4 ∷ [] else 60 ∷ []

abbrev pub locked : Chess
locked = record toy { pieces = λ b. locked_pieces; occupied = λ b. 4 ∷ 60 ∷ 20 ∷ 28 ∷ [] }

pub neighbors_inside : (m n : ℕ) → is_in n (neighbors m) ≡ true → n < 64
neighbors_inside zero n h = ground (arith, h)
neighbors_inside (suc m) n h = elim (Bool-cases (ltb m 62)) [
  | inl e ↦ ground (arith, e, h)
  | inr e ↦ elim (Bool-cases (ltb m 64)) [
    | inl f ↦ ground (arith, e, f, h)
    | inr f ↦ ground (arith, e, f, h)
  ]
]
