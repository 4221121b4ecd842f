-- ===== src/Engine/Pool/Slots.antt =====
-- The count of live handlers in core/engines/pool.py: `_alive_count` against the queue and the
-- handlers in use, and who fills a lost slot.
use chessy_mcp.Prelude.{
  ℕ, zero, suc, ◌+◌, ◌-◌, ◌≤◌, ◌≡◌, ◌≢◌, refl, ap, Bool, true, false, none, List, [], ◌∷◌, ◌++◌,
  length, length-middle, length-append, arith,
}
use chessy_mcp.Engine.Pool.{
  Ending, returned, transport_error, cancelled, other_error, make, acquire, release, respawn_failed,
  after_discard, after_retry, heal, close_begin, drain_one, close_end,
}
use chessy_mcp.Engine.Pool.Steps.{
  System, Step, take, finish, give_up, break, bury, bury_cancel, respawn, respawn_fail,
  respawn_cancel, retried, retry_lost, leave, leave_cancel, heal_fail, heal_make, close, drain,
  closed, Reach, here, next, first_handlers, start,
}

-- the handlers in the queue and in use, and the callers between two handlers
abbrev pub load : System → ℕ
load s =
    length s.pool.queue
    + length s.working
    + length s.retrying
    + s.burying
    + s.respawning
    + s.leaving

pub record IsSized (s : System) : Type 0 where
  pub fits : length s.pool.queue + length s.working ≤ s.pool.target_size
  pub alive : s.pool.alive_count ≤ s.pool.target_size
  pub counted : s.pool.closed ≡ false → s.pool.alive_count ≡ length s.pool.queue + length s.working
  pub loaded : load s ≤ s.pool.target_size + s.healed

module _ {cancels : Bool} where
  Step-IsSized : {s t : System} → Step cancels s t → IsSized s → IsSized t
  unfolding acquire release respawn_failed after_discard after_retry heal close_begin drain_one
      close_end
  Step-IsSized (take s inst q a) h = ground arith
  Step-IsSized (finish s returned inst b c q w k r) h =
      ground (arith, ap length w, length-middle b inst c, length-append s.pool.queue (inst ∷ []))
  Step-IsSized (finish s other_error inst b c q w k r) h =
      ground (arith, ap length w, length-middle b inst c, length-append s.pool.queue (inst ∷ []))
  Step-IsSized (finish s _ inst b c q w k r) h = absurd (ground (arith, k))
  Step-IsSized (give_up s inst b c q w r) h = ground (arith, ap length w, length-middle b inst c)
  Step-IsSized (break s inst b c q w r) h = ground (arith, ap length w, length-middle b inst c)
  Step-IsSized (bury s n e) h = ground arith
  Step-IsSized (bury_cancel s n c e) h = ground arith
  Step-IsSized (respawn s n e) h = ground arith
  Step-IsSized (respawn_fail s n e) h = ground arith
  Step-IsSized (respawn_cancel s n c e) h = ground arith
  Step-IsSized (retried s returned fresh b c w k) h =
      ground (arith, ap length w, length-middle b fresh c, length-append s.pool.queue (fresh ∷ []))
  Step-IsSized (retried s other_error fresh b c w k) h =
      ground (arith, ap length w, length-middle b fresh c, length-append s.pool.queue (fresh ∷ []))
  Step-IsSized (retried s _ fresh b c w k) h = absurd (ground (arith, k))
  Step-IsSized (retry_lost s transport_error fresh b c w k) h =
      ground (arith, ap length w, length-middle b fresh c)
  Step-IsSized (retry_lost s cancelled fresh b c w k) h =
      ground (arith, ap length w, length-middle b fresh c)
  Step-IsSized (retry_lost s _ fresh b c w k) h = absurd (ground (arith, k))
  Step-IsSized (leave s n e) h = ground arith
  Step-IsSized (leave_cancel s n c e) h = ground arith
  Step-IsSized (heal_fail s e) h = ground arith
  Step-IsSized (heal_make s e) h = ground (arith, length-append s.pool.queue (s.made ∷ []))
  Step-IsSized (close s) h = ground arith
  Step-IsSized (drain s q c d) h = ground arith
  Step-IsSized (closed s c d) h = ground arith

length-first_handlers : (n : ℕ) → length (first_handlers n) ≡ n
length-first_handlers zero = refl
length-first_handlers (suc n) =
    omega (arith, length-append (first_handlers n) (n ∷ []), length-first_handlers n)

start-IsSized : (n : ℕ) → IsSized (start n)
unfolding make
start-IsSized n = record {
  fits = omega arith;
  alive = omega arith;
  counted = λ _. omega arith;
  loaded = omega arith;
}

module _ {cancels : Bool} where
  -- Whatever callers, the self-heal task and `close` do, the handlers in the queue and those on a
  -- first try never exceed the target size, and until `close` begins `_alive_count` is exactly their
  -- number. Together with the fresh handlers on a second try and the callers that wait for one to
  -- close or to be made they exceed it by no more than the handlers that the self-heal task has made.
  pub Reach-IsSized : (n : ℕ) (s : System) → Reach cancels (start n) s → IsSized s
  Reach-IsSized n _ here = start-IsSized n
  Reach-IsSized n _ (next {t} r st) = Step-IsSized st (Reach-IsSized n t r)

  -- Giving a handler back to the queue never raises `QueueFull`, in any reachable state.
  pub release-ne-none :
      (n : ℕ) (s : System) (e : Ending) (inst : ℕ) (before after : List ℕ)
      → Reach cancels (start n) s
      → s.working ≡ before ++ inst ∷ after
      → release e inst s.pool ≢ none
  unfolding release
  release-ne-none n s returned inst b c r w =
      let h = Reach-IsSized n s r in ground (arith, h.fits, ap length w, length-middle b inst c)
  release-ne-none n s other_error inst b c r w =
      let h = Reach-IsSized n s r in ground (arith, h.fits, ap length w, length-middle b inst c)
  release-ne-none n s _ inst b c r w = ground arith

-- an open pool with no self-heal task: what is missing is on its way
abbrev pub HasNoLostSlot : System → Type 0
HasNoLostSlot s =
    s.pool.closed ≡ false
    → s.pool.healing ≡ false
    → s.pool.target_size
      ≤ s.pool.alive_count + s.burying + s.respawning + length s.retrying + s.leaving

Step-HasNoLostSlot : {s t : System} → Step false s t → IsSized s → HasNoLostSlot s → HasNoLostSlot t
unfolding acquire release respawn_failed after_discard after_retry heal close_begin drain_one
    close_end
Step-HasNoLostSlot (take s inst q a) z h = ground arith
Step-HasNoLostSlot (finish s returned inst b c q w ne r) z h = ground arith
Step-HasNoLostSlot (finish s other_error inst b c q w ne r) z h = ground arith
Step-HasNoLostSlot (finish s _ inst b c q w k r) z h = absurd (ground (arith, k))
Step-HasNoLostSlot (give_up s inst b c q w r) z h = ground arith
Step-HasNoLostSlot (break s inst b c q w r) z h = ground arith
Step-HasNoLostSlot (bury s n e) z h = ground arith
Step-HasNoLostSlot (bury_cancel s n c e) z h = cc
Step-HasNoLostSlot (respawn s n e) z h = ground arith
Step-HasNoLostSlot (respawn_fail s n e) z h = ground arith
Step-HasNoLostSlot (respawn_cancel s n c e) z h = cc
Step-HasNoLostSlot (retried s returned fresh b c w k) z h =
    ground (arith, ap length w, length-middle b fresh c)
Step-HasNoLostSlot (retried s other_error fresh b c w k) z h =
    ground (arith, ap length w, length-middle b fresh c)
Step-HasNoLostSlot (retried s _ fresh b c w k) z h = absurd (ground (arith, k))
Step-HasNoLostSlot (retry_lost s transport_error fresh b c w k) z h =
    ground (arith, ap length w, length-middle b fresh c)
Step-HasNoLostSlot (retry_lost s cancelled fresh b c w k) z h =
    ground (arith, ap length w, length-middle b fresh c)
Step-HasNoLostSlot (retry_lost s _ fresh b c w k) z h = absurd (ground (arith, k))
Step-HasNoLostSlot (leave s n e) z h = ground arith
Step-HasNoLostSlot (leave_cancel s n c e) z h = cc
Step-HasNoLostSlot (heal_fail s e) z h = ground arith
Step-HasNoLostSlot (heal_make s e) z h = ground arith
Step-HasNoLostSlot (close s) z h = ground arith
Step-HasNoLostSlot (drain s q c d) z h = ground arith
Step-HasNoLostSlot (closed s c d) z h = ground arith

-- Unless a caller is cancelled while it waits for the factory or for a handler to close, no slot of
-- an open pool is lost for good: the self-heal task runs, or the live handlers, the callers that are
-- replacing one and those that are about to start the task make up the target size.
pub Reach-HasNoLostSlot : (n : ℕ) (s : System) → Reach false (start n) s → HasNoLostSlot s
unfolding make
Reach-HasNoLostSlot n _ here = ground arith
Reach-HasNoLostSlot n _ (next {t} r st) =
    Step-HasNoLostSlot st (Reach-IsSized n t r) (Reach-HasNoLostSlot n t r)

head_handler : (n : ℕ) → (rest : List ℕ) × (first_handlers (suc n) ≡ 0 ∷ rest)
head_handler zero = ([], refl)
head_handler (suc n) = let (rest, e) = head_handler n in (rest ++ suc n ∷ [], rw e)

-- Nothing is on its way, the pool is open, and yet a handler is missing and nobody heals.
pub record IsStuck (s : System) : Type 0 where
  pub is_open : s.pool.closed ≡ false
  pub unhealed : s.pool.healing ≡ false
  pub none_burying : s.burying ≡ 0
  pub none_respawning : s.respawning ≡ 0
  pub none_leaving : s.leaving ≡ 0
  pub none_retrying : s.retrying ≡ []
  pub missing_one : s.pool.alive_count + 1 ≡ s.pool.target_size

abbrev pub stuck : ℕ → List ℕ → System
stuck n rest = record {
  pool = record {
    queue = rest;
    target_size = length (first_handlers (suc n));
    alive_count = length (first_handlers (suc n)) - 1;
    closed = false;
    healing = false;
    self_heal_attempts = 0;
    self_heal_interval = 5000;
    discarded = 0 ∷ [];
  };
  working = [];
  retrying = [];
  burying = 0;
  respawning = 0;
  leaving = 0;
  made = suc n;
  healed = 0;
}

-- A pool of any size can get stuck: there is a run to a state in which one caller waits for the
-- factory, and if that caller is cancelled there, the open pool is one handler short, with no
-- self-heal task and nobody who replaces the handler.
pub Reach-IsStuck :
    (n : ℕ)
    → (s : System) × Reach true (start (suc n)) s
      × (s.respawning ≡ 1)
      × Step true s (record s { respawning = 0 })
      × IsStuck (record s { respawning = 0 })
unfolding acquire release make
Reach-IsStuck n =
    let (rest, e) = head_handler n in
    let lent : System = record (start (suc n)) {
      pool = record (make (first_handlers (suc n))) { queue = rest };
      working = 0 ∷ [];
    } in
    let broken : System = record (stuck n rest) { burying = 1 } in
    let waiting : System = record (stuck n rest) { respawning = 1 } in
    let taken : Reach true (start (suc n)) lent =
      next here (take (start (suc n)) 0 lent.pool (rw e)) in
    let dropped : Reach true (start (suc n)) broken =
      next taken (break lent 0 [] [] broken.pool refl refl) in
    (
      waiting,
      next dropped (bury broken 0 refl),
      refl,
      respawn_cancel waiting 0 refl refl,
      record {
        is_open = refl;
        unhealed = refl;
        none_burying = refl;
        none_respawning = refl;
        none_leaving = refl;
        none_retrying = refl;
        missing_one = omega (arith, length-append (first_handlers n) (n ∷ []));
      },
    )
