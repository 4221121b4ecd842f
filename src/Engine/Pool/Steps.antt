-- ===== src/Engine/Pool/Steps.antt =====
-- Callers of `run`, the self-heal task and `close` of core/engines/pool.py, interleaved.
use chessy_mcp.Prelude.{ℕ, zero, suc, ◌+◌, ◌≡◌, Bool, true, false, none, some, List, [], ◌∷◌, ◌++◌}
use chessy_mcp.Engine.Pool.{
  Ending, returned, transport_error, cancelled, other_error, EnginePool, make, acquire, release,
  respawn_failed, after_discard, after_retry, heal, close_begin, drain_one, close_end,
}

-- the work has given an answer or an error of its own
abbrev pub keeps : Ending → Bool
keeps returned = true
keeps other_error = true
keeps transport_error = false
keeps cancelled = false

-- `working`: handlers that a caller uses; `retrying`: fresh handlers on a second try. Callers that
-- wait: `burying` for a dead handler to close, `respawning` for the factory, `leaving` for a handler
-- to close before they start the self-heal task. `made`: handlers made so far, named by the numbers
-- below it; `healed`: how many of them the self-heal task has made
pub record System : Type 0 where
  pub pool : EnginePool
  pub working : List ℕ
  pub retrying : List ℕ
  pub burying : ℕ
  pub respawning : ℕ
  pub leaving : ℕ
  pub made : ℕ
  pub healed : ℕ

-- With `cancels` a caller may be cancelled while it waits for the factory or for a handler to close.
pub data Step (cancels : Bool) : System → System → Type 0 where
  take :
      (s : System) (inst : ℕ) (q : EnginePool)
      → acquire s.pool ≡ some (inst, q)
      → Step cancels s (record s { pool = q; working = inst ∷ s.working })
  finish :
      (s : System) (e : Ending) (inst : ℕ) (before after : List ℕ) (q : EnginePool)
      → s.working ≡ before ++ inst ∷ after
      → keeps e ≡ true
      → release e inst s.pool ≡ some q
      → Step cancels s (record s { pool = q; working = before ++ after })
  give_up :
      (s : System) (inst : ℕ) (before after : List ℕ) (q : EnginePool)
      → s.working ≡ before ++ inst ∷ after
      → release cancelled inst s.pool ≡ some q
      → Step cancels s (record s { pool = q; working = before ++ after; leaving = s.leaving + 1 })
  break :
      (s : System) (inst : ℕ) (before after : List ℕ) (q : EnginePool)
      → s.working ≡ before ++ inst ∷ after
      → release transport_error inst s.pool ≡ some q
      → Step cancels s (record s { pool = q; working = before ++ after; burying = s.burying + 1 })
  bury :
      (s : System) (n : ℕ)
      → s.burying ≡ n + 1
      → Step cancels s (record s { burying = n; respawning = s.respawning + 1 })
  bury_cancel :
      (s : System) (n : ℕ)
      → cancels ≡ true
      → s.burying ≡ n + 1
      → Step cancels s (record s { burying = n })
  respawn :
      (s : System) (n : ℕ)
      → s.respawning ≡ n + 1
      → Step cancels s
          (record s { respawning = n; retrying = s.made ∷ s.retrying; made = s.made + 1 })
  respawn_fail :
      (s : System) (n : ℕ)
      → s.respawning ≡ n + 1
      → Step cancels s (record s { pool = respawn_failed s.pool; respawning = n })
  respawn_cancel :
      (s : System) (n : ℕ)
      → cancels ≡ true
      → s.respawning ≡ n + 1
      → Step cancels s (record s { respawning = n })
  retried :
      (s : System) (e : Ending) (fresh : ℕ) (before after : List ℕ)
      → s.retrying ≡ before ++ fresh ∷ after
      → keeps e ≡ true
      → Step cancels s (record s { pool = after_retry e fresh s.pool; retrying = before ++ after })
  retry_lost :
      (s : System) (e : Ending) (fresh : ℕ) (before after : List ℕ)
      → s.retrying ≡ before ++ fresh ∷ after
      → keeps e ≡ false
      → Step cancels s (record s {
        pool = after_retry e fresh s.pool;
        retrying = before ++ after;
        leaving = s.leaving + 1;
      })
  leave :
      (s : System) (n : ℕ)
      → s.leaving ≡ n + 1
      → Step cancels s (record s { pool = after_discard s.pool; leaving = n })
  leave_cancel :
      (s : System) (n : ℕ)
      → cancels ≡ true
      → s.leaving ≡ n + 1
      → Step cancels s (record s { leaving = n })
  heal_fail :
      (s : System) → s.pool.healing ≡ true → Step cancels s (record s { pool = heal none s.pool })
  heal_make :
      (s : System)
      → s.pool.healing ≡ true
      → Step cancels s
          (record s { pool = heal (some s.made) s.pool; made = s.made + 1; healed = s.healed + 1 })
  close : (s : System) → Step cancels s (record s { pool = close_begin s.pool })
  drain :
      (s : System) (q : EnginePool)
      → s.pool.closed ≡ true
      → drain_one s.pool ≡ some q
      → Step cancels s (record s { pool = q })
  closed :
      (s : System)
      → s.pool.closed ≡ true
      → drain_one s.pool ≡ none
      → Step cancels s (record s { pool = close_end s.pool })

pub data Reach (cancels : Bool) (s : System) : System → Type 0 where
  here : Reach cancels s s
  next : {t u : System} → Reach cancels s t → Step cancels t u → Reach cancels s u

-- the handlers 0, 1, …, n - 1
abbrev pub first_handlers : ℕ → List ℕ
first_handlers zero = []
first_handlers (suc n) = first_handlers n ++ n ∷ []

abbrev pub start : ℕ → System
start n = record {
  pool = make (first_handlers n);
  working = [];
  retrying = [];
  burying = 0;
  respawning = 0;
  leaving = 0;
  made = n;
  healed = 0;
}
