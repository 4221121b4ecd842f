-- ===== src/Grading/Dispatch/All.antt =====
-- What holds of every strategy's score holds of the score that mcp_server/analysis/move_grading
-- chooses.
use chessy_mcp.Prelude.{◌≡◌, subst, Bool, true, false, Option, none, some, if◌then◌else◌}
use chessy_mcp.Grading.Score.{PlayedMoveScore}
use chessy_mcp.Grading.Dispatch.{or_score, map_score}

abbrev pub All : (PlayedMoveScore → Type 0) → Option PlayedMoveScore → Type 0
All P none = Unit
All P (some s) = P s

module _ (P : PlayedMoveScore → Type 0) where
  pub or_score-All : (a b : Option PlayedMoveScore) → All P a → All P b → All P (or_score a b)
  or_score-All none b h k = k
  or_score-All (some a) b h k = h

  pub or_else-All :
      (o : Option PlayedMoveScore) (t : PlayedMoveScore)
      → All P o
      → P t
      → P (elim o [ some s ↦ s | none ↦ t ])
  or_else-All none t h k = k
  or_else-All (some s) t h k = h

  pub if-All :
      (c : Bool) (a b : Option PlayedMoveScore) → All P a → All P b → All P (if c then a else b)
  if-All true a b h k = h
  if-All false a b h k = k

  pub map_score-All :
      (f : PlayedMoveScore → PlayedMoveScore) (o : Option PlayedMoveScore)
      → All P o
      → ((s : PlayedMoveScore) → P s → P (f s))
      → All P (map_score f o)
  map_score-All f none h k = tt
  map_score-All f (some s) h k = k s h

  pub All-some : (o : Option PlayedMoveScore) (s : PlayedMoveScore) → All P o → o ≡ some s → P s
  All-some o s h e = subst (All P) e h

  pub map_score-any :
      (f : PlayedMoveScore → PlayedMoveScore) (o : Option PlayedMoveScore)
      → ((s : PlayedMoveScore) → P (f s))
      → All P (map_score f o)
  map_score-any f none k = tt
  map_score-any f (some s) k = k s
