-- ===== src/Rules/ActionChoice/Policy.antt =====
-- What the action that mcp_server/rules/action_choice.py recommends can be relied on for.
use chessy_mcp.Prelude.{
  ◌+◌, ◌≤◌, ℤ, pos, ltbℤ, lebℤ, ◌≡◌, Bool, true, false, not, ◌||◌, inl, inr, Bool-cases, ◌⊎◌,
  Option, none, some, arith,
}
use chessy_mcp.Chess.{Chess}
use chessy_mcp.Rules.ActionChoice.{
  Action, play_move, claim_draw, claim_draw_with_intended_move, forced_win_threshold, material,
  is_down_material, is_mover_in_trouble, is_positive, reaches, choose_recommended_action,
}

-- the mover is known to win: by mate, by mate behind a zeroing move, or by 2000 behind one
pub data KnowsWin : Option ℤ → Option ℤ → Option ℤ → Type 0 where
  by_mate : {m : ℤ} {s z : Option ℤ} → ltbℤ (pos 0) m ≡ true → KnowsWin (some m) s z
  by_zeroing_mate : {z : ℤ} {m s : Option ℤ} → ltbℤ (pos 0) z ≡ true → KnowsWin m s (some z)
  by_zeroing_score : {s : ℤ} {m z : Option ℤ} → lebℤ (pos 2000) s ≡ true → KnowsWin m (some s) z

known :
    (m s z : Option ℤ)
    → KnowsWin m s z
    → (is_positive m || is_positive z || reaches forced_win_threshold s) ≡ true
known (some m) s z (by_mate h) = ground arith
known m s (some z) (by_zeroing_mate h) = ground arith
known m (some s) z (by_zeroing_score h) = ground arith

module _ (c : Chess) where
  open c use {Board, turn}

  -- behind in material by 200 or more, or with a score of at most 50
  pub data IsInTrouble (b : Board) : Option ℤ → Type 0 where
    is_behind :
        {o : Option ℤ} → material c b (turn b) + 200 ≤ material c b (not (turn b)) → IsInTrouble b o
    is_low : {s : ℤ} → lebℤ s (pos 50) ≡ true → IsInTrouble b (some s)

  in_trouble : (b : Board) (o : Option ℤ) → is_mover_in_trouble c b o ≡ true → IsInTrouble b o
  unfolding is_mover_in_trouble is_down_material
  in_trouble b none h = is_behind (ground arith)
  in_trouble b (some s) h = elim (Bool-cases (is_down_material c b)) [
    | inl d ↦ is_behind (ground arith)
    | inr d ↦ is_low (ground arith)
  ]

  module _ (b : Board) (now intended : Bool)
      (score mate zeroing_score zeroing_mate : Option ℤ) where
    abbrev chosen : Action
    chosen = choose_recommended_action c b now intended score mate zeroing_score zeroing_mate

    -- A draw claim is recommended only if it is legal, in the form that is legal, the mover is not
    -- known to win, and the mover is behind in material or scores at most 50; otherwise the
    -- recommendation is to play on.
    pub choose_recommended_action_lem :
        (chosen ≡ play_move)
        ⊎ ((((chosen ≡ claim_draw) × (now ≡ true))
              ⊎ ((chosen ≡ claim_draw_with_intended_move) × (now ≡ false) × (intended ≡ true)))
            × ¬ KnowsWin mate zeroing_score zeroing_mate
            × IsInTrouble b score)
    unfolding choose_recommended_action
    choose_recommended_action_lem =
        ground (arith, in_trouble b score, known mate zeroing_score zeroing_mate)
