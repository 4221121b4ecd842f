-- ===== src/Engine/Pool.antt =====
-- core/engines/pool.py: `_EnginePool`. A handler is named by a number. Each method is cut where it
-- waits (for a free handler, for the work, for the factory, for a handler to close): a piece
-- between two waits is one function. `_cardinality_lock` is never held across a wait, so taking it
-- does not wait, and a wait that ends a method, behind which nothing changes, is not cut. Logging,
-- and the time of the last log line, are left out.
pub mod Steps
pub mod Places
pub mod Slots
use chessy_mcp.Prelude.{
  ℕ, zero, suc, ◌+◌, ◌-◌, ◌*◌, ◌/◌, min, max, Bool, true, false, not, ◌&&◌, Option, none, some,
  List, [], ◌∷◌, ◌++◌, length, ltb, leb, if◌then◌else◌,
}

-- how the awaited work on a handler ends; `transport_error` is what `_is_transport_error` accepts
pub data Ending : Type 0 where
  returned transport_error cancelled other_error : Ending

pub record EnginePool : Type 0 where
  pub queue : List ℕ
  pub target_size : ℕ
  pub alive_count : ℕ
  pub closed : Bool
  -- `_self_heal_task` is there and not done
  pub healing : Bool
  pub self_heal_attempts : ℕ
  -- in milliseconds
  pub self_heal_interval : ℕ
  -- the handlers whose `close` was called, the last one first
  pub discarded : List ℕ

-- `EnginePool(instances, …)`
unfoldable pub make : List ℕ → EnginePool
make instances = record {
  queue = instances;
  target_size = length instances;
  alive_count = length instances;
  closed = false;
  healing = false;
  self_heal_attempts = 0;
  self_heal_interval = 5000;
  discarded = [];
}

unfoldable pub start_self_heal : EnginePool → EnginePool
start_self_heal p = if p.closed then p else if p.healing then p else record p { healing = true }

unfoldable pub discard : ℕ → EnginePool → EnginePool
discard inst p = record p { discarded = inst ∷ p.discarded }

-- `asyncio.Queue.put_nowait`: `none` is `QueueFull`; a queue of size 0 has no bound
unfoldable pub put_nowait : ℕ → EnginePool → Option EnginePool
put_nowait inst p =
    if ltb 0 p.target_size && leb p.target_size (length p.queue)
    then none
    else some (record p { queue = p.queue ++ inst ∷ [] })

unfoldable pub accept_fresh : ℕ → EnginePool → Bool × EnginePool
unfolding discard put_nowait
accept_fresh fresh p =
    if not p.closed && ltb p.alive_count p.target_size
    then elim (put_nowait fresh p) [
      | none ↦ (false, discard fresh p)
      | some q ↦ (true, record q { alive_count = q.alive_count + 1 })
    ]
    else (false, discard fresh p)

-- the head of `run`; `none` is a wait, which ends in `PoolBusy` at the timeout
unfoldable pub acquire : EnginePool → Option (ℕ × EnginePool)
acquire p = elim p.queue [ [] ↦ none | inst ∷ rest ↦ some (inst, record p { queue = rest }) ]

-- `max(0, alive - 1)`
lose_one : EnginePool → EnginePool
lose_one p = record p { alive_count = p.alive_count - 1 }

-- The part of `run` behind the work. `none` is an uncaught `QueueFull`. After a transport error or a
-- cancellation the caller waits for the handler to close.
unfoldable pub release : Ending → ℕ → EnginePool → Option EnginePool
unfolding put_nowait discard lose_one
release returned inst p = put_nowait inst p
release other_error inst p = put_nowait inst p
release cancelled inst p = some (discard inst (lose_one p))
release transport_error inst p = some (discard inst (lose_one p))

-- `_replace_and_retry`, where the factory has failed
unfoldable pub respawn_failed : EnginePool → EnginePool
unfolding start_self_heal
respawn_failed p = start_self_heal p

-- `run` and `_replace_and_retry`, where the handler of a caller that gives up has been closed
unfoldable pub after_discard : EnginePool → EnginePool
unfolding start_self_heal
after_discard p = start_self_heal p

-- `_replace_and_retry`, where the second try has ended, up to a wait for the handler to close
unfoldable pub after_retry : Ending → ℕ → EnginePool → EnginePool
unfolding discard accept_fresh
after_retry transport_error fresh p = discard fresh p
after_retry cancelled fresh p = discard fresh p
after_retry returned fresh p = (accept_fresh fresh p).1
after_retry other_error fresh p = (accept_fresh fresh p).1

-- the test at the head of a round of `_self_heal_loop`
unfoldable pub missing : EnginePool → ℕ
missing p = p.target_size - p.alive_count

-- the rest of the round; `none` is a failing factory
unfoldable pub heal : Option ℕ → EnginePool → EnginePool
unfolding accept_fresh
heal none p = record p {
  self_heal_attempts = p.self_heal_attempts + 1;
  self_heal_interval = min 60000 (p.self_heal_interval * 3 / 2);
}
heal (some fresh) p =
    let (accepted, q) = accept_fresh fresh p in
    if accepted then record q { self_heal_attempts = 0; self_heal_interval = 5000 } else q

-- `close` up to its loop
unfoldable pub close_begin : EnginePool → EnginePool
close_begin p = record p { closed = true; healing = false }

-- one round of the loop; `none` when the queue is empty
unfoldable pub drain_one : EnginePool → Option EnginePool
unfolding discard
drain_one p = elim p.queue [
  | [] ↦ none
  | inst ∷ rest ↦ some (discard inst (record p { queue = rest }))
]

unfoldable pub close_end : EnginePool → EnginePool
close_end p = record p { alive_count = 0 }
