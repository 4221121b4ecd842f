-- ===== src/Engine/Pool/Places.antt =====
-- Where the handlers of core/engines/pool.py are: each that was ever made is in one place.
use chessy_mcp.Prelude.{
  ℕ, zero, suc, ◌+◌, ◌<◌, ◌≡◌, refl, ap, Bool, true, some, List, [], ◌∷◌, ◌++◌, arith, ◌==◌, ltb,
  if◌then◌else◌,
}
use chessy_mcp.Engine.Pool.{
  returned, transport_error, cancelled, other_error, EnginePool, make, acquire, release,
  respawn_failed, after_discard, after_retry, heal, close_begin, drain_one, close_end,
}
use chessy_mcp.Engine.Pool.Steps.{
  System, Step, take, finish, give_up, break, bury, bury_cancel, respawn, respawn_fail,
  respawn_cancel, retried, retry_lost, leave, leave_cancel, heal_fail, heal_make, close, drain,
  closed, Reach, here, next, first_handlers, start,
}

abbrev pub count : ℕ → List ℕ → ℕ
count i [] = 0
count i (x ∷ xs) = (if x == i then 1 else 0) + count i xs

count-append : (i : ℕ) (xs ys : List ℕ) → count i (xs ++ ys) ≡ count i xs + count i ys
count-append i [] ys = omega arith
count-append i (x ∷ xs) ys = omega (arith, count-append i xs ys)

-- how often handler `i` stands in the queue, with callers, and among the closed ones
abbrev pub places : ℕ → System → ℕ
places i s =
    count i s.pool.queue + count i s.working + count i s.retrying + count i s.pool.discarded

abbrev pub IsPlaced : System → Type 0
IsPlaced s = (i : ℕ) → places i s ≡ (if ltb i s.made then 1 else 0)

count-middle :
    (i : ℕ) (xs : List ℕ) (x : ℕ) (ys : List ℕ)
    → count i (xs ++ x ∷ ys) ≡ count i (x ∷ []) + count i (xs ++ ys)
count-middle i xs x ys = omega (arith, count-append i xs (x ∷ ys), count-append i xs ys)

count-first_handlers : (i n : ℕ) → count i (first_handlers n) ≡ (if ltb i n then 1 else 0)
count-first_handlers i zero = ground arith
count-first_handlers i (suc n) =
    ground (arith, count-append i (first_handlers n) (n ∷ []), count-first_handlers i n)

module _ {cancels : Bool} where
  Step-IsPlaced : {s t : System} → Step cancels s t → IsPlaced s → IsPlaced t
  unfolding acquire release respawn_failed after_discard after_retry heal close_begin drain_one
      close_end
  Step-IsPlaced (take s inst q a) h i = ground (arith, h i)
  Step-IsPlaced (finish s returned inst b c q w ne r) h i =
      ground (
        arith,
        h i,
        ap (count i) w,
        count-middle i b inst c,
        count-append i s.pool.queue (inst ∷ []),
      )
  Step-IsPlaced (finish s other_error inst b c q w ne r) h i =
      ground (
        arith,
        h i,
        ap (count i) w,
        count-middle i b inst c,
        count-append i s.pool.queue (inst ∷ []),
      )
  Step-IsPlaced (finish s _ inst b c q w ne r) h i = absurd (ground (arith, ne))
  Step-IsPlaced (give_up s inst b c q w r) h i =
      ground (arith, h i, ap (count i) w, count-middle i b inst c)
  Step-IsPlaced (break s inst b c q w r) h i =
      ground (arith, h i, ap (count i) w, count-middle i b inst c)
  Step-IsPlaced (bury s n e) h i = ground (arith, h i)
  Step-IsPlaced (bury_cancel s n c e) h i = ground (arith, h i)
  Step-IsPlaced (respawn s n e) h i = ground (arith, h i)
  Step-IsPlaced (respawn_fail s n e) h i = ground (arith, h i)
  Step-IsPlaced (respawn_cancel s n c e) h i = ground (arith, h i)
  Step-IsPlaced (retried s returned f b c w k) h i =
      ground
        (arith, h i, ap (count i) w, count-middle i b f c, count-append i s.pool.queue (f ∷ []))
  Step-IsPlaced (retried s other_error f b c w k) h i =
      ground
        (arith, h i, ap (count i) w, count-middle i b f c, count-append i s.pool.queue (f ∷ []))
  Step-IsPlaced (retried s _ f b c w k) h i = absurd (ground (arith, k))
  Step-IsPlaced (retry_lost s transport_error f b c w k) h i =
      ground (arith, h i, ap (count i) w, count-middle i b f c)
  Step-IsPlaced (retry_lost s cancelled f b c w k) h i =
      ground (arith, h i, ap (count i) w, count-middle i b f c)
  Step-IsPlaced (retry_lost s _ f b c w k) h i = absurd (ground (arith, k))
  Step-IsPlaced (leave s n e) h i = ground (arith, h i)
  Step-IsPlaced (leave_cancel s n c e) h i = ground (arith, h i)
  Step-IsPlaced (heal_fail s e) h i = ground (arith, h i)
  Step-IsPlaced (heal_make s e) h i = ground (arith, h i, count-append i s.pool.queue (s.made ∷ []))
  Step-IsPlaced (close s) h i = ground (arith, h i)
  Step-IsPlaced (drain s q c d) h i = ground (arith, h i)
  Step-IsPlaced (closed s c d) h i = ground (arith, h i)

  -- Every handler that was ever made is in exactly one place: in the queue, with one caller, or
  -- closed. So none is lent to two callers, and none is lent again or closed again once closed.
  pub Reach-IsPlaced : (n : ℕ) (s : System) → Reach cancels (start n) s → IsPlaced s
  unfolding make
  Reach-IsPlaced n _ here i = ground (arith, count-first_handlers i n)
  Reach-IsPlaced n _ (next {t} r st) i = Step-IsPlaced st (Reach-IsPlaced n t r) i

-- A handler that comes back after `close` has emptied the queue is put into it, not closed, and
-- the pool then lends it again.
pub closed_release :
    (inst : ℕ) (p : EnginePool)
    → p.closed ≡ true
    → p.queue ≡ []
    → 0 < p.target_size
    → (q : EnginePool) × (release returned inst p ≡ some q)
      × (q.closed ≡ true)
      × (q.discarded ≡ p.discarded)
      × (acquire q ≡ some (inst, p))
unfolding release acquire
closed_release inst p c e t = (record p { queue = inst ∷ [] }, ground arith, c, refl, ground arith)
