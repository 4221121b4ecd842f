-- ===== src/Contracts/MateState.antt =====
-- mcp_server/contracts/mate_state.py, and the conversion of an engine's reply in
-- mcp_server/tcp_analyzer.py. `turn` is true for white.
pub mod Sides
use chessy_mcp.Prelude.{
  ℤ, pos, negsuc, negate, ltbℤ, lebℤ, String, Bool, true, false, not, ◌&&◌, ◌||◌, Option, none,
  some, if◌then◌else◌, str_eq,
}

-- the scores of a reply, as the engine gives them: for the side to move
pub record UciInfo : Type 0 where
  pub cp : Option ℤ
  pub mate : Option ℤ

-- the fields of an `MCPEval` that are read here
pub record Snapshot : Type 0 where
  pub status : String
  pub winner : Option String
  pub cp : Option ℤ
  pub mate : Option ℤ

pub data MateState : Type 0 where
  no_mate white_mates black_mates terminal_white_won terminal_black_won : MateState

abbrev signed : Bool → ℤ → ℤ
signed true x = x
signed false x = negate x

-- `_info_to_eval`: the centipawns and the mate for white
unfoldable pub info_to_eval : Bool → UciInfo → Option ℤ × Option ℤ
info_to_eval turn info = elim info.mate [
  | some m ↦ (none, some (if ltbℤ m (pos 0) || ltbℤ (pos 0) m then signed turn m else pos 0))
  | none ↦ elim info.cp [ none ↦ (none, none) | some cp ↦ (some (signed turn cp), none) ]
]

abbrev pub is_text : String → Option String → Bool
is_text s none = false
is_text s (some t) = str_eq s t

-- the part behind the test on a checkmate
abbrev pub by_sign : Bool → Option ℤ → MateState
by_sign turn none = no_mate
by_sign turn (some m) =
    if ltbℤ (pos 0) m
    then (if turn then white_mates else black_mates)
    else if ltbℤ m (pos 0)
    then (if turn then black_mates else white_mates)
    else no_mate

-- the winner of a checkmate; the last argument is the state before the move, if it is known
abbrev pub by_winner : Bool → Snapshot → Option MateState → MateState
by_winner turn after before =
    if is_text "white" after.winner
    then terminal_white_won
    else if is_text "black" after.winner
    then terminal_black_won
    else elim before [
      | some white_mates ↦ terminal_white_won
      | some black_mates ↦ terminal_black_won
      | _ ↦ by_sign turn after.mate
    ]

abbrev state_after : Bool → Snapshot → Option MateState → MateState
state_after turn after before =
    if str_eq after.status "checkmate" then by_winner turn after before else by_sign turn after.mate

unfoldable pub semantic_mate_state : Bool → Snapshot → Option Snapshot → MateState
semantic_mate_state turn after none = state_after turn after none
semantic_mate_state turn after (some before) =
    state_after turn after (some (state_after turn before none))

-- the old vocabulary
unfoldable pub coerce_legacy_signature : MateState → MateState
coerce_legacy_signature no_mate = no_mate
coerce_legacy_signature white_mates = white_mates
coerce_legacy_signature terminal_white_won = white_mates
coerce_legacy_signature black_mates = black_mates
coerce_legacy_signature terminal_black_won = black_mates
