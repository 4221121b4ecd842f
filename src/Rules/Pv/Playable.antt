-- ===== src/Rules/Pv/Playable.antt =====
-- The variations that mcp_server/rules/pv.py lets through can be played out.
use chessy_mcp.Prelude.{String, ◌≡◌, ◌⊎◌, false, some, List, [], ◌∷◌}
use chessy_mcp.Chess.{Chess}
use chessy_mcp.Rules.Terminal.{is_terminal_position}
use chessy_mcp.Rules.Pv.{find_move}

module _ (c : Chess) where
  open c use {Board, Move, push, legal_moves, uci}

  -- each text is the UCI of a legal move, and the game is not over before the last one
  pub IsPlayable : Board → List String → Type 0
  unfolding find_move
  IsPlayable b [] = Unit
  IsPlayable b (text ∷ pv) =
      (m : Move) × (find_move c text (legal_moves b) ≡ some m)
      × ((pv ≡ []) ⊎ (is_terminal_position c (push b m) ≡ false))
      × IsPlayable (push b m) pv
