-- ===== src/Engine/Zeroing.antt =====
-- mcp_server/engine/zeroing_post_state.py and zeroing_post_state_all.py: the captures and pawn
-- moves that reset the clock near a draw, each judged by the position behind it; and how
-- `_compute_pos` of cached_evaluator.py puts the two together.
pub mod Best
use chessy_mcp.Prelude.{
  ℕ, leb, ltb, min, ℤ, pos, negate, lebℤ, ltbℤ, String, Bool, true, false, not, ◌&&◌, ◌||◌, Option,
  none, some, List, [], ◌∷◌, lower, is_empty, if◌then◌else◌,
}
use chessy_mcp.Chess.{Chess, PieceType, pawn}
use chessy_mcp.Rules.Pv.{find_move}

-- what the engine says of a position
pub record Evaluation : Type 0 where
  pub best_move : Option String
  pub cp : Option ℤ
  pub mate : Option ℤ
  pub pv : List String
  pub depth : ℕ

-- `ZeroingPostState`; a pair of `cp` and `mate`
abbrev pub PostState : Type 0
PostState = Option ℤ × Option ℤ

-- `_NOOP_RESULT`
abbrev pub nothing_won : PostState
nothing_won = (none, none)

-- `ZeroingOverrideResult`
pub record ZeroingOverrideResult : Type 0 where
  pub cp : Option ℤ
  pub mate : Option ℤ
  pub winning_uci : Option String

abbrev pub noop_result : ZeroingOverrideResult
noop_result = record { cp = none; mate = none; winning_uci = none }

abbrev pub max_post_state_depth : ℕ
max_post_state_depth = 6

-- `_post_state_winning`: the score for the mover, where it is good for the mover
unfoldable pub post_state_winning : Bool → Option ℤ → Option ℤ → PostState
unfolding negate
post_state_winning mover cp (some mate) =
    let m = if mover then mate else negate mate in
    if ltbℤ (pos 0) m then (none, some m) else nothing_won
post_state_winning mover (some cp) none =
    let c = if mover then cp else negate cp in
    if ltbℤ (pos 0) c then (some c, none) else nothing_won
post_state_winning mover none none = nothing_won

-- `results`: the UCI of a move, and `cp` and `mate` of the position behind it
abbrev pub Entry : Type 0
Entry = String × PostState

-- the body of the loop over `results`
unfoldable pub consider : ZeroingOverrideResult → Entry → ZeroingOverrideResult
consider best (uci, (cp, some mate)) = if lebℤ mate (pos 0) then best else elim best.mate [
  | none ↦ record { cp = none; mate = some mate; winning_uci = some uci }
  | some m ↦
      if ltbℤ mate m then record { cp = none; mate = some mate; winning_uci = some uci } else best
]
consider best (uci, (none, none)) = best
consider best (uci, (some cp, none)) = if lebℤ cp (pos 0) then best else elim best.mate [
  | some m ↦ best
  | none ↦ elim best.cp [
    | none ↦ record best { cp = some cp; winning_uci = some uci }
    | some c ↦ if ltbℤ c cp then record best { cp = some cp; winning_uci = some uci } else best
  ]
]

unfoldable pub best_of : ZeroingOverrideResult → List Entry → ZeroingOverrideResult
best_of best [] = best
best_of best (e ∷ entries) = best_of (consider best e) entries

abbrev pub is_pawn : Option PieceType → Bool
is_pawn (some pawn) = true
is_pawn o = false

-- `evaluate` is `pool.evaluate` on a board, to a depth, of all moves or of one; `none` when it
-- raises
module _ (c : Chess) (evaluate : c.Board → ℕ → Option c.Move → Option Evaluation) where
  open c use {
    Board, Move, turn, push, legal_moves, uci, moved_piece, is_capture, halfmove_clock,
    is_game_over, is_checkmate,
  }

  -- `_is_zeroing_move`
  unfoldable pub is_zeroing_move : Board → Move → Bool
  is_zeroing_move b m = is_capture b m || is_pawn (moved_piece b m)

  -- `_eval_one_post_state`
  unfoldable pub eval_one_post_state : Board → Bool → ℕ → PostState
  unfolding post_state_winning
  eval_one_post_state after mover depth = elim (evaluate after depth none) [
    | none ↦ nothing_won
    | some ev ↦ post_state_winning mover ev.cp ev.mate
  ]

  -- `_bounded_eval`
  unfoldable pub bounded_eval : Board → ℕ → Move → Entry
  unfolding eval_one_post_state
  bounded_eval b depth m =
      let post = push b m in
      (
        uci m,
        if is_game_over post
            then (if is_checkmate post then (none, some (pos 1)) else (some (pos 0), none))
            else eval_one_post_state post (turn b) (min depth max_post_state_depth),
      )

  -- the results of the zeroing moves, in the order of the legal moves
  unfoldable pub zeroing_results : Board → ℕ → List Move → List Entry
  unfolding is_zeroing_move bounded_eval
  zeroing_results b depth [] = []
  zeroing_results b depth (m ∷ moves) =
      let rest = zeroing_results b depth moves in
      if is_zeroing_move b m then bounded_eval b depth m ∷ rest else rest

  unfoldable pub evaluate_all_zeroing_post_states : Board → ℕ → ZeroingOverrideResult
  unfolding best_of zeroing_results
  evaluate_all_zeroing_post_states b depth =
      if is_game_over b || ltb (halfmove_clock b) 100
      then noop_result
      else best_of noop_result (zeroing_results b depth (legal_moves b))

  -- `evaluate_zeroing_post_state` for the engine's move
  unfoldable pub evaluate_zeroing_post_state : Board → String → ℕ → PostState
  unfolding lower find_move is_zeroing_move eval_one_post_state
  evaluate_zeroing_post_state b best_move depth =
      elim (find_move c (lower best_move) (legal_moves b)) [
        | none ↦ nothing_won
        | some m ↦
            if not (is_zeroing_move b m) || is_game_over (push b m)
            then nothing_won
            else eval_one_post_state (push b m) (turn b) depth
      ]

  -- `_maybe_zeroing_best_override`
  unfoldable pub maybe_zeroing_best_override : Board → Option String → ℕ → PostState
  unfolding evaluate_zeroing_post_state
  maybe_zeroing_best_override b none depth = nothing_won
  maybe_zeroing_best_override b (some best_move) depth =
      if not (is_empty best_move) && leb 100 (halfmove_clock b) && not (is_game_over b)
      then evaluate_zeroing_post_state b best_move depth
      else nothing_won
