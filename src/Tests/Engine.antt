-- ===== src/Tests/Engine.antt =====
-- core/engines/pool.py and mcp_server/engine/retry.py on small inputs.
use chessy_mcp.Prelude.{
  Bool, Option, ◌==◌, if◌then◌else◌, ℕ, ◌+◌, ◌≤◌, ◌<◌, ◌≡◌, ◌≢◌, refl, true, false, inl, none, some,
  [], ◌∷◌, arith, String, ltb, if◌then◌else◌,
}
use chessy_mcp.Engine.ParallelGather.{
  gather_evaluate_positions_bounded, max_batch_workers, slices, write, run_slice,
}
use chessy_mcp.Engine.ParallelGather.Slices.{AreResults, gather_evaluate_positions_bounded_lem}
use chessy_mcp.Engine.Pool.{returned, EnginePool, make, acquire, release, heal}
use chessy_mcp.Engine.Pool.Steps.{System, Step, Reach, here, next, take, break, start}
use chessy_mcp.Engine.Pool.Slots.{
  IsSized, Reach-IsSized, release-ne-none, HasNoLostSlot, Reach-HasNoLostSlot, IsStuck,
  Reach-IsStuck,
}
use chessy_mcp.Engine.Pool.Places.{IsPlaced, Reach-IsPlaced, closed_release}
use chessy_mcp.Engine.Retry.{
  BreakerState, reset_breaker, check_breaker, record_failure, value, transport, ok, Attempt,
  with_engine_retry, threshold, cooldown,
}
use chessy_mcp.Engine.Retry.Attempts.{with_engine_retry_lem}
use chessy_mcp.Engine.Retry.Breaker.{fails_at, after, streak, check_breaker-refuses}

-- one of two handlers is lent
abbrev lent : System
lent = record (start 2) { pool = record (make (0 ∷ 1 ∷ [])) { queue = 1 ∷ [] }; working = 0 ∷ [] }

lent_reached : Reach false (start 2) lent
unfolding acquire make
lent_reached = next here (take (start 2) 0 lent.pool refl)

-- it breaks, and the caller waits for it to close
abbrev broken : System
broken = record lent {
  pool = record lent.pool { alive_count = 1; discarded = 0 ∷ [] };
  working = [];
  burying = 1;
}

broken_reached : Reach false (start 2) broken
unfolding release make
broken_reached = next lent_reached (break lent 0 [] [] broken.pool refl refl)

Reach-IsSized_example : IsSized broken
Reach-IsSized_example = Reach-IsSized 2 broken broken_reached

release-ne-none_run : release returned 0 lent.pool ≢ none
release-ne-none_run = release-ne-none 2 lent returned 0 [] [] lent_reached refl

Reach-HasNoLostSlot_example : HasNoLostSlot broken
Reach-HasNoLostSlot_example = Reach-HasNoLostSlot 2 broken broken_reached

Reach-IsPlaced_example : IsPlaced broken
Reach-IsPlaced_example = Reach-IsPlaced 2 broken broken_reached

Reach-IsStuck_example :
    (s : System) × Reach true (start 2) s
    × (s.respawning ≡ 1)
    × Step true s (record s { respawning = 0 })
    × IsStuck (record s { respawning = 0 })
Reach-IsStuck_example = Reach-IsStuck 1

abbrev shut : EnginePool
shut = record (make (0 ∷ [])) { queue = []; alive_count = 0; closed = true }

closed_release_run :
    (q : EnginePool) × (release returned 0 shut ≡ some q)
    × (q.closed ≡ true)
    × (q.discarded ≡ shut.discarded)
    × (acquire q ≡ some (0, shut))
unfolding make
closed_release_run = closed_release 0 shut refl refl (omega arith)

healed : (heal (some 7) (record (make (0 ∷ [])) { queue = []; alive_count = 0 })).queue ≡ 7 ∷ []
unfolding heal make
healed = refl

-- the first attempt meets a dead transport, the second one answers
abbrev script : ℕ → Attempt String
script i = record {
  ending = if ltb i 1 then transport "closed" else value "e4";
  ended_at = 1000;
  meanwhile = λ b. b;
}

abbrev fresh : BreakerState
fresh = record { failures = 0; opened_at = 0 }

with_engine_retry_lem_example :
    ((with_engine_retry 1 1000 script fresh).reply ≡ ok "e4")
    × ((with_engine_retry 1 1000 script fresh).calls ≡ 2)
    × (2 ≤ 2)
unfolding check_breaker
with_engine_retry_lem_example =
    with_engine_retry_lem 1 1 1000 script fresh fresh refl (omega arith) (λ j h. ground arith)
      (inl refl)

-- the third failure comes six seconds after the first: nothing is refused
slow_failures :
    check_breaker 7000
      (record_failure 7000 (record_failure 2000 (record_failure 1000 reset_breaker)))
    ≡ some reset_breaker
unfolding check_breaker record_failure reset_breaker
slow_failures = refl

check_breaker-refuses_run :
    (threshold ≤ streak (fails_at 3000 ∷ fails_at 2000 ∷ fails_at 1000 ∷ []))
    × (4000 < (after (fails_at 3000 ∷ fails_at 2000 ∷ fails_at 1000 ∷ [])).opened_at + cooldown)
unfolding check_breaker record_failure reset_breaker
check_breaker-refuses_run =
    check_breaker-refuses (fails_at 3000 ∷ fails_at 2000 ∷ fails_at 1000 ∷ []) 4000 refl

-- whether the engine's table was reused, and the position
abbrev looked_at : Bool → ℕ → Bool × ℕ
looked_at reuse_tt b = (reuse_tt, b)

-- the third position is not sent to the engine
abbrev skip_third : ℕ → ℕ → Option (Bool × ℕ)
skip_third b i = if i == 2 then some (true, 0) else none

-- two workers, and so slices of three and two positions
gathered_five :
    gather_evaluate_positions_bounded looked_at skip_third 3 (10 ∷ 20 ∷ 30 ∷ 40 ∷ 50 ∷ [])
    ≡ some (false, 10) ∷ some (true, 20) ∷ some (true, 0) ∷ some (false, 40) ∷ some (true, 50) ∷ []
unfolding gather_evaluate_positions_bounded max_batch_workers slices write run_slice
gathered_five = refl

gather_evaluate_positions_bounded_lem_example :
    AreResults looked_at skip_third 0
      (10 ∷ 20 ∷ 30 ∷ 40 ∷ 50 ∷ [])
      (gather_evaluate_positions_bounded looked_at skip_third 3 (10 ∷ 20 ∷ 30 ∷ 40 ∷ 50 ∷ []))
gather_evaluate_positions_bounded_lem_example =
    gather_evaluate_positions_bounded_lem looked_at skip_third 3 (10 ∷ 20 ∷ 30 ∷ 40 ∷ 50 ∷ [])
