-- ===== src/Engine/Retry.antt =====
-- mcp_server/engine/retry.py: engine calls tried again after a transport error, and the circuit
-- breaker. Times are in milliseconds. The breaker is shared by all tasks: what they do to it while
-- an attempt waits is given with the attempt.
pub mod Attempts
pub mod Breaker
use chessy_mcp.Prelude.{
  ℕ, zero, suc, ◌+◌, ◌-◌, String, Bool, ◌||◌, Option, none, some, ltb, leb, ◌==◌, if◌then◌else◌,
}

pub record BreakerState : Type 0 where
  pub failures : ℕ
  -- 0 for never
  pub opened_at : ℕ

abbrev pub threshold : ℕ
threshold = 3

abbrev pub window : ℕ
window = 30000

abbrev pub cooldown : ℕ
cooldown = 5000

unfoldable pub reset_breaker : BreakerState
reset_breaker = record { failures = 0; opened_at = 0 }

-- `none` is `EngineUnavailable`
unfoldable pub check_breaker : ℕ → BreakerState → Option BreakerState
check_breaker now b =
    if b.opened_at == 0
    then some b
    else if ltb b.failures threshold
    then some b
    else if ltb (now - b.opened_at) cooldown
    then none
    else some (record { failures = 0; opened_at = 0 })

unfoldable pub record_success : BreakerState → BreakerState
record_success b = record { failures = 0; opened_at = 0 }

unfoldable pub record_failure : ℕ → BreakerState → BreakerState
record_failure now b =
    if b.opened_at == 0 || ltb window (now - b.opened_at)
    then record { failures = 1; opened_at = now }
    else record b { failures = b.failures + 1 }

-- how `fn()` ends; `transport` is what `_is_transport_error` accepts
pub data Ending {ℓ} (A : Type ℓ) : Type ℓ where
  value : A → Ending A
  transport : String → Ending A
  failure : String → Ending A

pub data Reply {ℓ} (A : Type ℓ) : Type ℓ where
  ok : A → Reply A
  raised : String → Reply A
  engine_unavailable no_attempts_ran : Reply A

pub record Attempt {ℓ} (A : Type ℓ) : Type ℓ where
  pub ending : Ending A
  pub ended_at : ℕ
  pub meanwhile : BreakerState → BreakerState

-- a reply, the breaker, and how often `fn` was called
pub record Outcome {ℓ} (A : Type ℓ) : Type ℓ where
  pub reply : Reply A
  pub breaker : BreakerState
  pub calls : ℕ

module _ {ℓ} {A : Type ℓ} where
  -- The loop: `left` rounds are left, and this is round `i`.
  pub attempt_from : ℕ → ℕ → (ℕ → Attempt A) → BreakerState → Outcome A
  unfolding record_success record_failure
  attempt_from zero i env b = record { reply = no_attempts_ran; breaker = b; calls = i }
  attempt_from (suc left) i env b =
      let b' = (env i).meanwhile b in
      let failed = record_failure (env i).ended_at b' in
      let rest = attempt_from left (i + 1) env failed in
      elim (env i).ending [
        | value r ↦ record { reply = ok r; breaker = record_success b'; calls = i + 1 }
        | failure e ↦ record { reply = raised e; breaker = b'; calls = i + 1 }
        | transport e ↦
            if left == 0 then record { reply = raised e; breaker = failed; calls = i + 1 } else rest
      ]

  unfoldable pub with_engine_retry : ℕ → ℕ → (ℕ → Attempt A) → BreakerState → Outcome A
  unfolding check_breaker attempt_from
  with_engine_retry max_retries now env b = elim (check_breaker now b) [
    | none ↦ record { reply = engine_unavailable; breaker = b; calls = 0 }
    | some b' ↦ attempt_from (max_retries + 1) 0 env b'
  ]
