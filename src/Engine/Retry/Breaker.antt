-- ===== src/Engine/Retry/Breaker.antt =====
-- When the circuit breaker of mcp_server/engine/retry.py refuses calls.
use chessy_mcp.Prelude.{ℕ, ◌+◌, ◌≤◌, ◌<◌, ◌≡◌, Option, none, some, List, [], ◌∷◌, arith}
use chessy_mcp.Engine.Retry.{
  BreakerState, threshold, cooldown, reset_breaker, check_breaker, record_success, record_failure,
}

-- what happens to the breaker
pub data Event : Type 0 where
  success : Event
  fails_at : ℕ → Event
  checked_at : ℕ → Event

abbrev pub kept : BreakerState → Option BreakerState → BreakerState
kept b none = b
kept b (some c) = c

-- the breaker after a history, the last event first
abbrev pub after : List Event → BreakerState
after [] = reset_breaker
after (success ∷ older) = record_success (after older)
after (fails_at t ∷ older) = record_failure t (after older)
after (checked_at t ∷ older) = kept (after older) (check_breaker t (after older))

-- the failures since the last success
abbrev pub streak : List Event → ℕ
streak [] = 0
streak (success ∷ older) = 0
streak (fails_at t ∷ older) = streak older + 1
streak (checked_at t ∷ older) = streak older

failures-le-streak : (history : List Event) → (after history).failures ≤ streak history
unfolding reset_breaker record_success record_failure check_breaker
failures-le-streak [] = omega arith
failures-le-streak (success ∷ older) = omega arith
failures-le-streak (fails_at t ∷ older) = ground (arith, failures-le-streak older)
failures-le-streak (checked_at t ∷ older) = ground (arith, failures-le-streak older)

-- A call is refused only behind three failures with no success between them, and only within the
-- cool-down of the failure that the breaker remembers.
pub check_breaker-refuses :
    (history : List Event) (now : ℕ)
    → check_breaker now (after history) ≡ none
    → (threshold ≤ streak history) × (now < (after history).opened_at + cooldown)
unfolding check_breaker
check_breaker-refuses history now h = ground (arith, failures-le-streak history)
