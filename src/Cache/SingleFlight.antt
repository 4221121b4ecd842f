-- ===== src/Cache/SingleFlight.antt =====
-- mcp_server/cache/single_flight.py: calls for one key share one run of the work. A future is
-- named by a number. `do` is cut at its waits: `enter` is the first section under the lock,
-- `settle` what the producer does when its work ends, and `leave` the section in `finally`.
pub mod Steps
use chessy_mcp.Prelude.{
  ℕ, ◌+◌, String, Bool, true, false, Option, none, some, [], ◌∷◌, Assoc, lookup, assign, without,
  if◌then◌else◌, ◌==◌,
}

-- how the awaited work ends
pub data Ending {ℓ} (T : Type ℓ) : Type ℓ where
  result : T → Ending T
  raised : String → Ending T
  cancelled : Ending T

-- a caller of `do` runs the work for a future, or waits for one
pub data Role : Type 0 where
  producer : ℕ → Role
  waiter : ℕ → Role

pub record SingleFlight {ℓ} (T : Type ℓ) : Type ℓ where
  pub in_flight : Assoc ℕ
  -- the futures made so far are those below `next`; `none` is pending
  pub next : ℕ
  pub future : ℕ → Option (Ending T)

module _ {ℓ} {T : Type ℓ} where
  unfoldable pub empty : SingleFlight T
  empty = record { in_flight = []; next = 0; future = λ _. none }

  store : ℕ → Option (Ending T) → (ℕ → Option (Ending T)) → ℕ → Option (Ending T)
  store f e heap g = if g == f then e else heap g

  unfoldable pub enter : String → SingleFlight T → Role × SingleFlight T
  unfolding store
  enter key s = elim (lookup key s.in_flight) [
    | some f ↦ (waiter f, s)
    | none ↦ (
      producer s.next,
      record {
        in_flight = assign key s.next s.in_flight;
        next = s.next + 1;
        future = store s.next none s.future;
      },
    )
  ]

  -- `if not future.done()`
  unfoldable pub settle : ℕ → Ending T → SingleFlight T → SingleFlight T
  unfolding store
  settle f e s = elim (s.future f) [
    | some _ ↦ s
    | none ↦ record s { future = store f (some e) s.future }
  ]

  unfoldable pub leave : String → SingleFlight T → SingleFlight T
  leave key s = record s { in_flight = without key s.in_flight }

  -- what `await asyncio.shield(future)` gives, if it gives anything yet
  unfoldable pub awaited : ℕ → SingleFlight T → Option (Ending T)
  awaited f s = s.future f
