-- ===== src/Grading/Dispatch/Claims.antt =====
-- What mcp_server/analysis/move_grading says of a draw claim that was recommended.
use chessy_mcp.Prelude.{
  ℕ, ℤ, ◌≡◌, Bool, true, false, not, ◌||◌, ◌&&◌, ltbℤ, pos, Bool-cases, inl, inr, ◌⊎◌, Option, none,
  some, arith, String, List,
}
use chessy_mcp.Chess.{Chess}
use chessy_mcp.Rules.ActionChoice.{Action}
use chessy_mcp.Rules.Status.{RuleStatus}
use chessy_mcp.Grading.Score.{
  PlayedMoveScore, finalize_score, is_play, is_claim, is_intended, same_action,
}
use chessy_mcp.Grading.Terminal.{
  score_delivered_checkmate, score_received_checkmate, score_blundered_terminal_draw,
}
use chessy_mcp.Grading.Draw.{
  Eval, score_claim_draw_action, score_conceded_draw, score_optimal_claim_recommended,
}
use chessy_mcp.Grading.Transitions.{score_mate_to_mate, score_mate_to_cp, score_cp_to_mate}
use chessy_mcp.Grading.Standard.{score_standard_cp}
use chessy_mcp.Grading.Dispatch.All.{
  All, or_score-All, or_else-All, if-All, map_score-All, All-some,
}
use chessy_mcp.Grading.Enforce.{enforce_invariants, with_claim, is_mate_transition}
use chessy_mcp.Grading.Dispatch.{
  grade, strategy_score, first_strategy, later_strategy, is_best_engine_move, is_only_legal_move,
  canonical_best_action, mover_mate,
}

-- A claim is not missed. Any other action misses it, and is then neither best nor equivalent,
-- unless the recommendation is to claim with an intended move and the score marks the move as the
-- engine's best.
abbrev pub IsFair : Action → Action → PlayedMoveScore → Type 0
IsFair best action s =
    ((is_claim action ≡ true) × (s.missed_draw_claim ≡ false))
    ⊎ ((is_claim action ≡ false)
        × (s.missed_draw_claim ≡ true)
        × (s.is_best_action ≡ false)
        × (s.action_equivalent ≡ false))
    ⊎ ((is_claim action ≡ false)
        × (s.missed_draw_claim ≡ false)
        × (is_intended best ≡ true)
        × (s.is_best_engine_move ≡ true)
        × (s.action_equivalent ≡ true))

-- the move is the engine's best, or a mate for the mover comes of it
abbrev pub is_excused : Bool → Option ℤ → Bool
is_excused is_best_engine_move none = is_best_engine_move
is_excused is_best_engine_move (some mate) = is_best_engine_move || ltbℤ (pos 0) mate

-- a score that marks a move as the engine's best does so for an excused one
abbrev pub IsMarked : Bool → Option ℤ → PlayedMoveScore → Type 0
IsMarked is_best_engine_move mate s =
    (s.is_best_engine_move ≡ false) ⊎ (is_excused is_best_engine_move mate ≡ true)

abbrev pub IsEarned : Action → Action → Bool → Option ℤ → PlayedMoveScore → Type 0
IsEarned best action e mate s = IsFair best action s × IsMarked e mate s

is_excused_lem : (e : Bool) (mate : Option ℤ) → e ≡ true → is_excused e mate ≡ true
is_excused_lem e none h = h
is_excused_lem e (some a) h = ground (arith, h)

cp_to_mate-IsEarned :
    (best : Action) (rule : RuleStatus) (action : Action) (win_pct : ℤ → ℕ) (before mate : Option ℤ)
    (v : ℤ) (o e : Bool)
    → is_claim best ≡ true
    → All
        (IsEarned best action e mate)
        (score_cp_to_mate best rule action win_pct before mate v o e)
unfolding score_cp_to_mate finalize_score
cp_to_mate-IsEarned best rule action win_pct before none v o e h = tt
cp_to_mate-IsEarned best rule action win_pct (some b) (some a) v o e h = tt
cp_to_mate-IsEarned best rule action win_pct none (some a) v o e h = ground (arith, h)

module _ (best : Action) (rule : RuleStatus) (action : Action) (h : is_claim best ≡ true) (e : Bool)
    (mate : Option ℤ) where
  abbrev AllEarned : Option PlayedMoveScore → Type 0
  AllEarned = All (IsEarned best action e mate)

  delivered :
      (c : Chess) (b a : c.Board) → AllEarned (score_delivered_checkmate best rule action c b a e)
  unfolding score_delivered_checkmate finalize_score
  delivered c b a = ground (arith, h, is_excused_lem e mate)

  received :
      (c : Chess) (b a : c.Board) → AllEarned (score_received_checkmate best rule action c b a)
  unfolding score_received_checkmate finalize_score
  received c b a = ground (arith, h, is_excused_lem e mate)

  blundered :
      (auto win : Bool) (cpl : ℕ) (d before : ℤ) (m : Option ℤ)
      → AllEarned (score_blundered_terminal_draw best rule action auto win e cpl d before m)
  unfolding score_blundered_terminal_draw finalize_score
  blundered auto win cpl d before m = ground (arith, h, is_excused_lem e mate)

  claimed :
      (uci played : String) (ucis : List String) (before : ℤ) (m : Option ℤ)
      → AllEarned (score_claim_draw_action best rule action uci played ucis before m e)
  unfolding score_claim_draw_action finalize_score
  claimed uci played ucis before m = ground (arith, h, is_excused_lem e mate)

  conceded :
      (will : Bool) (after : RuleStatus) (ev : Eval) (cpl : ℕ) (d before : ℤ)
      → AllEarned (score_conceded_draw best rule action will after ev cpl d before)
  unfolding score_conceded_draw finalize_score
  conceded will after ev cpl d before = ground (arith, h, is_excused_lem e mate)

  optimal :
      (o auto : Bool) (eb ea : Eval) (cpl : ℕ) (d : ℤ) (losing winning down : Bool)
      (before after : ℤ) (opp own : ℕ)
      → AllEarned (
          score_optimal_claim_recommended best rule action o auto eb ea cpl d e losing winning down
            before after opp own)
  unfolding score_optimal_claim_recommended finalize_score
  optimal o auto eb ea cpl d losing winning down before after opp own =
      ground (arith, h, is_excused_lem e mate)

  mate_to_mate :
      (before after : Option ℤ) (over : Bool)
      → AllEarned (score_mate_to_mate best rule action before after over e)
  unfolding score_mate_to_mate finalize_score
  mate_to_mate none after over = tt
  mate_to_mate (some b) none over = tt
  mate_to_mate (some b) (some a) over = ground (arith, h, is_excused_lem e mate)

  module _ (win_pct : ℤ → ℕ) where
    mate_to_cp :
        (before after : Option ℤ) (v : ℤ) (cpl : ℕ) (d : ℤ)
        → AllEarned (score_mate_to_cp best rule action win_pct before after v e cpl d)
    unfolding score_mate_to_cp finalize_score
    mate_to_cp none after v cpl d = tt
    mate_to_cp (some b) after v cpl d = ground (arith, h, is_excused_lem e mate)

    standard :
        (eb : Eval) (cpl : ℕ) (d b a : ℤ)
        → IsEarned best action e mate (score_standard_cp win_pct best rule action e eb cpl d b a)
    unfolding score_standard_cp finalize_score
    standard eb cpl d b a = ground (arith, h, is_excused_lem e mate)

  -- what makes `_enforce_invariants` clear a score does not meet a recommended claim
  not_cleared :
      (x o : Bool) → (is_play action && x || is_play action && o) && same_action best action ≡ false
  not_cleared x o = elim (Bool-cases (is_play action)) [
    | inl p ↦ ground (arith, h)
    | inr p ↦ ground (arith, h)
  ]

  claim_added :
      (x o : Bool) (s : PlayedMoveScore)
      → IsMarked e mate s
      → IsEarned best action e mate (with_claim best rule action x o s)
  unfolding with_claim
  claim_added x o s f = ground (arith, h, f)

  enforced :
      (x o : Bool) (s : PlayedMoveScore)
      → IsEarned best action e mate s
      → IsEarned best action e mate
          (enforce_invariants best rule action (is_play action && x) (is_play action && o) s)
  unfolding enforce_invariants
  enforced x o s f =
      elim (Bool-cases (is_mate_transition s.loss_kind && not (is_play action && o))) [
        | inl p ↦ rw p f
        | inr p ↦
            rw (p, not_cleared x o) (claim_added (is_play action && x) (is_play action && o) s f.1)
      ]

module _ (c : Chess) (win_pct : ℤ → ℕ) (b a : c.Board) (m : c.Move) (eb ea em : Eval)
    (rb ra : RuleStatus) (action : Action) where
  abbrev best : Action
  best = canonical_best_action c win_pct b a m eb ea em rb ra action

  abbrev is_best : Bool
  is_best = is_best_engine_move c win_pct b a m eb ea em rb ra action

  abbrev mate : Option ℤ
  mate = mover_mate (c.turn b) em

  abbrev IsEarnedHere : PlayedMoveScore → Type 0
  IsEarnedHere = IsEarned best action is_best mate

  module _ (h : is_claim best ≡ true) where
    later : IsEarnedHere (later_strategy c win_pct b a m eb ea em rb ra action)
    unfolding later_strategy
    later =
        or_else-All IsEarnedHere _ _
          (or_score-All IsEarnedHere _ _ (blundered best rb action h is_best mate _ _ _ _ _ _) (
            or_score-All IsEarnedHere _ _ (conceded best rb action h is_best mate _ _ _ _ _ _) (
              or_score-All IsEarnedHere _ _
                (optimal best rb action h is_best mate _ _ _ _ _ _ _ _ _ _ _ _ _)
                (or_score-All IsEarnedHere _ _ (mate_to_mate best rb action h is_best mate _ _ _) (
                  or_score-All IsEarnedHere _ _
                    (mate_to_cp best rb action h is_best mate win_pct _ _ _ _ _)
                    (cp_to_mate-IsEarned best rb action win_pct _ _ _ _ _ h))))))
          (standard best rb action h is_best mate win_pct _ _ _ _ _)

    strategy : All IsEarnedHere (strategy_score c win_pct b a m eb ea em rb ra action)
    unfolding strategy_score first_strategy
    strategy =
        or_score-All IsEarnedHere _ _
          (or_score-All IsEarnedHere _ _ (delivered best rb action h is_best mate c _ _)
            (received best rb action h is_best mate c _ _))
          (if-All IsEarnedHere (is_claim action) _ _
            (claimed best rb action h is_best mate _ _ _ _ _) later)

    -- Where a draw claim is recommended, a claim is never graded as missed, and any other action
    -- is graded as missing it and as neither best nor equivalent, unless the recommendation is to
    -- claim with an intended move and the grade marks the move as the engine's best. It so marks
    -- only a played move that is the engine's best, or after which the mover has a forced mate.
    pub grade-IsFair :
        (s : PlayedMoveScore)
        → grade c win_pct b a m eb ea em rb ra action ≡ some s
        → IsEarnedHere s
    unfolding grade is_best_engine_move is_only_legal_move
    grade-IsFair s = All-some IsEarnedHere _ s (
        if-All IsEarnedHere (not (is_play action || is_claim action)) _ _ tt
          (map_score-All IsEarnedHere _ _ strategy (enforced best rb action h is_best mate _ _)))
