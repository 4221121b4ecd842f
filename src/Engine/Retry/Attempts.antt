-- ===== src/Engine/Retry/Attempts.antt =====
-- Which attempt answers in `with_engine_retry` (mcp_server/engine/retry.py), and how many are made.
use chessy_mcp.Prelude.{
  ap, ◌∙◌, ℕ, zero, suc, ◌+◌, ◌≤◌, ◌<◌, ◌≡◌, Bool, true, false, some, arith, ◌⊎◌, inl, inr,
}
use chessy_mcp.Engine.Retry.{
  BreakerState, Ending, value, transport, failure, Reply, ok, raised, Attempt, check_breaker,
  attempt_from, with_engine_retry, record_failure,
}

module _ {ℓ} {A : Type ℓ} where
  abbrev pub is_transport : Ending A → Bool
  is_transport (transport e) = true
  is_transport _ = false

  -- how the caller sees an attempt that decides
  abbrev pub answer : Ending A → Reply A
  answer (value r) = ok r
  answer (transport e) = raised e
  answer (failure e) = raised e

  -- `left` rounds are left before round `i`, which decides or is the last
  decides :
      (left i : ℕ) (env : ℕ → Attempt A) (b : BreakerState)
      → (left ≡ 0) ⊎ (is_transport (env i).ending ≡ false)
      → ((attempt_from (suc left) i env b).reply ≡ answer (env i).ending)
        × ((attempt_from (suc left) i env b).calls ≡ i + 1)
  unfolding attempt_from
  decides left i env b last = ground arith

  goes_on :
      (left i : ℕ) (env : ℕ → Attempt A) (b : BreakerState)
      → is_transport (env i).ending ≡ true
      → (c : BreakerState) × (attempt_from (suc (suc left)) i env b
          ≡ attempt_from (suc left) (i + 1) env c)
  unfolding attempt_from
  goes_on left i env b t = (record_failure (env i).ended_at ((env i).meanwhile b), ground arith)

  -- round `i + k` is the first that does not fail in transport, or the last one
  attempt_from_lem :
      (k left i : ℕ) (env : ℕ → Attempt A) (b : BreakerState)
      → k ≤ left
      → ((j : ℕ) → j < k → is_transport (env (i + j)).ending ≡ true)
      → (k ≡ left) ⊎ (is_transport (env (i + k)).ending ≡ false)
      → ((attempt_from (suc left) i env b).reply ≡ answer (env (i + k)).ending)
        × ((attempt_from (suc left) i env b).calls ≡ i + k + 1)
  attempt_from_lem zero left i env b l before last =
      let e : i + 0 ≡ i = omega arith in
      let d =
        decides left i env b (elim last [ inl z ↦ inl (omega arith) | inr t ↦ inr (rw e at t) ]) in
      (rw e d.0, omega (arith, d.1))
  attempt_from_lem (suc k) zero i env b l before last = absurd (omega arith)
  attempt_from_lem (suc k) (suc left) i env b l before last =
      let z : i + 0 ≡ i = omega arith in
      let e : i + suc k ≡ (i + 1) + k = omega arith in
      let (c, step) = goes_on left i env b (rw z at (before 0 (omega arith))) in
      let rest =
        attempt_from_lem k left (i + 1) env c (omega arith)
          (λ j h.
            let f : i + suc j ≡ (i + 1) + j = omega arith in rw f at (before (suc j) (omega arith)))
          (elim last [ inl z ↦ inl (omega arith) | inr t ↦ inr (rw e at t) ]) in
      (rw (step, e) rest.0, rw step (omega (arith, rest.1)))

  admitted_lem :
      (max_retries now : ℕ) (env : ℕ → Attempt A) (b c : BreakerState)
      → check_breaker now b ≡ some c
      → ((with_engine_retry max_retries now env b).reply
          ≡ (attempt_from (suc max_retries) 0 env c).reply)
        × ((with_engine_retry max_retries now env b).calls
            ≡ (attempt_from (suc max_retries) 0 env c).calls)
  unfolding with_engine_retry
  admitted_lem max_retries now env b c h =
      let rounds : max_retries + 1 ≡ suc max_retries = omega arith in
      rw (← rounds) (ground arith, ground arith)

  -- If the breaker lets the call through, the reply is that of the first attempt that does not
  -- fail in transport, or of attempt `max_retries` if all before it do; `fn` is called just so
  -- often, and never more than `max_retries + 1` times.
  pub with_engine_retry_lem :
      (k max_retries now : ℕ) (env : ℕ → Attempt A) (b c : BreakerState)
      → check_breaker now b ≡ some c
      → k ≤ max_retries
      → ((j : ℕ) → j < k → is_transport (env j).ending ≡ true)
      → (k ≡ max_retries) ⊎ (is_transport (env k).ending ≡ false)
      → ((with_engine_retry max_retries now env b).reply ≡ answer (env k).ending)
        × ((with_engine_retry max_retries now env b).calls ≡ k + 1)
        × (k + 1 ≤ max_retries + 1)
  with_engine_retry_lem k max_retries now env b c open_ l before last =
      let admitted = admitted_lem max_retries now env b c open_ in
      let z : (j : ℕ) → 0 + j ≡ j = λ j. omega arith in
      let main =
        attempt_from_lem k max_retries 0 env c l (λ j h. rw (z j) (before j h))
          (elim last [ inl e ↦ inl e | inr t ↦ inr (rw (z k) t) ]) in
      (
        admitted.0 ∙ main.0 ∙ ap (λ (j : ℕ). answer (env j).ending) (z k),
        admitted.1 ∙ omega (arith, main.1),
        omega arith,
      )
