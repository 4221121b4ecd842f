-- ===== src/Analysis/Stability/Agreement.antt =====
-- Searches compared as in mcp_server/analysis/classification_stability.py, two at a time.
use chessy_mcp.Prelude.{◌≡◌, Bool, true, ◌&&◌, String, str_eq, eq_iff, arith}
use chessy_mcp.Analysis.Stability.{
  Searched, Comparison, compare_searches, agrees, best_of, signature,
}

-- the class, the best move and the state of the mates are the same
abbrev pub is_same_verdict : Comparison → Bool
is_same_verdict k = k.class_stable && k.best_move_stable && k.mate_status_stable

str_eq-through :
    (first second third : String)
    → str_eq second first ≡ true
    → str_eq second third ≡ true
    → str_eq first third ≡ true
str_eq-through first second third h k =
    ground (arith, h, k, eq_iff second first, eq_iff second third, eq_iff first third)

both_eq-through :
    (a b c a' b' c' : String)
    → (str_eq b a && str_eq b' a') ≡ true
    → (str_eq b c && str_eq b' c') ≡ true
    → (str_eq a c && str_eq a' c') ≡ true
both_eq-through a b c a' b' c' h k = ground (
  arith,
  str_eq-through a b c (ground (arith, h)) (ground (arith, k)),
  str_eq-through a' b' c' (ground (arith, h)) (ground (arith, k)),
)

verdicts :
    (k : Comparison)
    → agrees k ≡ true
    → (k.class_stable ≡ true) × (k.best_move_stable ≡ true) × (k.mate_status_stable ≡ true)
verdicts k h = (ground (arith, h), ground (arith, h), ground (arith, h))

is_same_verdict-joined :
    (k : Comparison)
    → (k.class_stable ≡ true) × (k.best_move_stable ≡ true) × (k.mate_status_stable ≡ true)
    → is_same_verdict k ≡ true
is_same_verdict-joined k (h, p, q) = ground (arith, h, p, q)

-- two searches that agree with a third one agree with each other
pub compare_searches-through :
    (mover turn_after tactical : Bool) (initial first second : Searched)
    → agrees (compare_searches mover turn_after tactical first second) ≡ true
    → agrees (compare_searches mover turn_after tactical initial second) ≡ true
    → is_same_verdict (compare_searches mover turn_after tactical initial first) ≡ true
unfolding compare_searches
compare_searches-through mover turn_after tactical initial first second h k =
    let u = verdicts (compare_searches mover turn_after tactical first second) h in
    let v = verdicts (compare_searches mover turn_after tactical initial second) k in
    is_same_verdict-joined (compare_searches mover turn_after tactical initial first) (
      str_eq-through first.score.move_class second.score.move_class initial.score.move_class u.0
          v.0,
      str_eq-through (best_of first.before.best_move) (best_of second.before.best_move)
          (best_of initial.before.best_move) u.1 v.1,
      both_eq-through (signature mover first.before) (signature mover second.before)
          (signature mover initial.before) (signature turn_after first.after)
          (signature turn_after second.after) (signature turn_after initial.after) u.2 v.2,
    )

pub agrees-is_same_verdict : (k : Comparison) → agrees k ≡ true → is_same_verdict k ≡ true
agrees-is_same_verdict k h = ground (arith, h)
