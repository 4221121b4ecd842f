-- ===== src/Tests/Override.antt =====
-- Runs of the scan of zeroing moves and of the replacement of a drawing move on a position with
-- two moves, and instances of the theorems on them.
use chessy_mcp.Prelude.{
  ℕ, ◌⊎◌, ℤ, pos, negsuc, is_empty, String, ◌≡◌, refl, Bool, true, false, not, Option, none, some,
  [], ◌∷◌,
}
use chessy_mcp.Chess.{Chess}
use chessy_mcp.Rules.Pv.{find_move}
use chessy_mcp.Engine.Zeroing.{
  Evaluation, noop_result, evaluate_all_zeroing_post_states, zeroing_results, consider,
  is_zeroing_move,
}
use chessy_mcp.Engine.Zeroing.Best.{
  any_beats, IsOfMove, any_move_beats, evaluate_all_zeroing_post_states_lem,
}
use chessy_mcp.Engine.Override.{is_drawing, apply_override, zeroing_best}
use chessy_mcp.Engine.Override.Replaced.{apply_override_lem}
use chessy_mcp.Engine.Override.Score.{is_won, zeroing_best_lem}

abbrev name : Bool → String
name true = "a1a2"
name false = "h7h8q"

-- 120 half moves without a capture; a king's move, and a pawn that can take
abbrev late : Chess
late = record {
  Board = Bool;
  Move = Bool;
  turn = λ b. b;
  with_turn = λ color b. color;
  push = λ b m. not b;
  legal_moves = λ b. true ∷ false ∷ [];
  legal_uci = λ b text. none;
  uci = name;
  san = λ b m. none;
  moved_piece = λ b m. none;
  is_capture = λ b m. not m;
  halfmove_clock = λ b. 120;
  is_checkmate = λ b. false;
  is_stalemate = λ b. false;
  is_insufficient_material = λ b. false;
  is_seventyfive_moves = λ b. false;
  is_fivefold_repetition = λ b. false;
  is_fifty_moves = λ b. true;
  is_repetition = λ b. false;
  is_game_over = λ b. false;
  pieces = λ b kind color. [];
  king = λ b color. none;
  occupied = λ b. [];
  attacks_mask = λ b n. [];
  king_attacks = λ n. [];
  square_rank = λ n. n;
  square_file = λ n. n;
}

abbrev told : Option Bool → Bool
told none = true
told (some m) = m

-- the engine plays the king's move, or what it is told to search
abbrev engine : ℤ → Bool → ℕ → Option Bool → Option Evaluation
engine score b depth root = some (record {
  best_move = some (name (told root));
  cp = some score;
  mate = none;
  pv = name (told root) ∷ [];
  depth = depth;
})

scan :
    evaluate_all_zeroing_post_states late (engine (pos 5)) true 9
    ≡ record { cp = some (pos 5); mate = none; winning_uci = some "h7h8q" }
unfolding evaluate_all_zeroing_post_states consider
scan = refl

mate_first :
    consider
      (record { cp = some (pos 9); mate = none; winning_uci = some "a" })
      ("b", (none, some (pos 4)))
    ≡ record { cp = none; mate = some (pos 4); winning_uci = some "b" }
unfolding consider
mate_first = refl

evaluate_all_zeroing_post_states_lem_example :
    let r = evaluate_all_zeroing_post_states late (engine (pos 5)) true 9 in
    (any_move_beats late (engine (pos 5)) true 9 (true ∷ false ∷ []) r ≡ false)
    × ((r ≡ noop_result) ⊎ IsOfMove late (engine (pos 5)) true 9 (true ∷ false ∷ []) r)
evaluate_all_zeroing_post_states_lem_example =
    evaluate_all_zeroing_post_states_lem late (engine (pos 5)) true 9 refl refl

wins :
    any_beats (zeroing_results late (engine (pos 5)) true 9 (true ∷ false ∷ [])) noop_result ≡ true
unfolding zeroing_results
wins = refl

zeroing_best_lem_example : is_won (zeroing_best late (engine (pos 5)) true (some "a1a2") 9) ≡ true
zeroing_best_lem_example =
    zeroing_best_lem late (engine (pos 5)) true (some "a1a2") 9 refl refl wins

obeys :
    (m : Bool)
    → (is_empty (name m) ≡ false)
      × ((o : Evaluation) × (engine (negsuc 899) true 9 (some m) ≡ some o)
          × (o.best_move ≡ some (name m)))
unfolding is_empty
obeys true = (refl, (_, refl, refl))
obeys false = (refl, (_, refl, refl))

abbrev drawn : Evaluation
drawn = record { best_move = some "a1a2"; cp = some (pos 0); mate = none; pv = []; depth = 9 }

-- a draw is turned down for a capture that loses
turned_down : (apply_override late (engine (negsuc 899)) true drawn 9).cp ≡ some (negsuc 899)
unfolding apply_override is_empty
turned_down = refl

first_move : find_move late "a1a2" (true ∷ false ∷ []) ≡ some true
unfolding find_move
first_move = refl

capture_run : (apply_override late (engine (negsuc 899)) true drawn 9).best_move ≡ some "h7h8q"
unfolding is_empty is_drawing is_zeroing_move
capture_run =
    apply_override_lem late (engine (negsuc 899)) true drawn 9 "a1a2" true obeys refl refl refl
      first_move refl
