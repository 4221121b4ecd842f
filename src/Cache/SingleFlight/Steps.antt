-- ===== src/Cache/SingleFlight/Steps.antt =====
-- Interleaved callers of `SingleFlight.do` (mcp_server/cache/single_flight.py).
use chessy_mcp.Prelude.{
  ℕ, ◌<◌, String, ◌≡◌, refl, some, [], ◌∷◌, ◌++◌, arith, Assoc, lookup, HasUniqueKeys,
  HasUniqueKeys-without, HasUniqueKeys-concat, assign-absent, without-middle, ◌∙◌,
}
use chessy_mcp.Cache.SingleFlight.{
  Ending, Role, producer, waiter, SingleFlight, empty, enter, settle, leave, awaited,
}

-- the tasks that run the work now, each with its key and its future, in the order they entered
pub record Tasks {ℓ} (T : Type ℓ) : Type ℓ where
  pub flight : SingleFlight T
  pub producers : Assoc ℕ

abbrev pub admit : String → Role → Assoc ℕ → Assoc ℕ
admit key (producer f) ps = ps ++ (key, f) ∷ []
admit key (waiter f) ps = ps

module _ {ℓ} {T : Type ℓ} where
  -- A caller enters; a producer's work ends and it settles its future; a producer leaves. Other
  -- callers may come between the last two.
  pub data Step : Tasks T → Tasks T → Type ℓ where
    call :
        (key : String) (s : Tasks T)
        → Step s (record {
          flight = (enter key s.flight).1;
          producers = admit key (enter key s.flight).0 s.producers;
        })
    finish :
        (f : ℕ) (e : Ending T) (s : Tasks T) → Step s (record s { flight = settle f e s.flight })
    exit :
        (key : String) (f : ℕ) (before after : Assoc ℕ) (s : Tasks T)
        → s.producers ≡ before ++ (key, f) ∷ after
        → Step s (record { flight = leave key s.flight; producers = before ++ after })

  pub data Reach (s : Tasks T) : Tasks T → Type ℓ where
    here : Reach s s
    next : {t u : Tasks T} → Reach s t → Step t u → Reach s u

  pub record IsCoalesced (s : Tasks T) : Type 0 where
    pub same : s.flight.in_flight ≡ s.producers
    pub unique : HasUniqueKeys s.producers

  enter-IsCoalesced :
      (key : String) (s : Tasks T)
      → IsCoalesced s
      → IsCoalesced (record {
        flight = (enter key s.flight).1;
        producers = admit key (enter key s.flight).0 s.producers;
      })
  unfolding enter
  enter-IsCoalesced key s h = record {
    same = ground (arith, h.same, assign-absent key s.flight.next s.producers);
    unique = ground (arith, h.same, h.unique, HasUniqueKeys-concat key s.flight.next s.producers);
  }

  settle-in_flight :
      (f : ℕ) (e : Ending T) (s : SingleFlight T) → (settle f e s).in_flight ≡ s.in_flight
  unfolding settle
  settle-in_flight f e s = ground arith

  exit-IsCoalesced :
      (key : String) (f : ℕ) (before after : Assoc ℕ) (s : Tasks T)
      → s.producers ≡ before ++ (key, f) ∷ after
      → IsCoalesced s
      → IsCoalesced (record { flight = leave key s.flight; producers = before ++ after })
  unfolding leave
  exit-IsCoalesced key f before after s e h =
      let unique : HasUniqueKeys (before ++ (key, f) ∷ after) = rw e at h.unique in
      let left = without-middle key f before after unique in
      record {
        same = rw (h.same, e) left;
        unique = rw left at (HasUniqueKeys-without key (before ++ (key, f) ∷ after) unique);
      }

  Step-IsCoalesced : {s t : Tasks T} → Step s t → IsCoalesced s → IsCoalesced t
  Step-IsCoalesced (call key s) h = enter-IsCoalesced key s h
  Step-IsCoalesced (finish f e s) h = record {
    same = settle-in_flight f e s.flight ∙ h.same;
    unique = h.unique;
  }
  Step-IsCoalesced (exit key f before after s e) h = exit-IsCoalesced key f before after s e h

  abbrev pub start : Tasks T
  start = record { flight = empty; producers = [] }

  -- However callers interleave, at most one task runs the work of a key, and the table holds
  -- exactly the running tasks.
  pub Reach-IsCoalesced : {s : Tasks T} → Reach start s → IsCoalesced s
  unfolding empty
  Reach-IsCoalesced here = record { same = refl; unique = tt }
  Reach-IsCoalesced (next r st) = Step-IsCoalesced st (Reach-IsCoalesced r)

  -- A caller that finds a running task of its key waits for that task's future, and changes
  -- nothing.
  pub call_joins :
      (key : String) (f : ℕ) (s : Tasks T)
      → IsCoalesced s
      → lookup key s.producers ≡ some f
      → enter key s.flight ≡ (waiter f, s.flight)
  unfolding enter
  call_joins key f s h e = ground (arith, h.same)

  Step-keeps :
      {s t : Tasks T} (f : ℕ) (e : Ending T)
      → Step s t
      → f < s.flight.next
      → awaited f s.flight ≡ some e
      → (f < t.flight.next) × (awaited f t.flight ≡ some e)
  unfolding awaited enter settle leave
  Step-keeps f e (call key s) b h = ground arith
  Step-keeps f e (finish g d s) b h = ground arith
  Step-keeps f e (exit key g before after s p) b h = ground arith

  -- What a future has once given to its waiters it gives to every later one, whatever happens
  -- in between.
  pub Reach-awaited :
      (s t : Tasks T) (f : ℕ) (e : Ending T)
      → f < s.flight.next
      → awaited f s.flight ≡ some e
      → Reach s t
      → (f < t.flight.next) × (awaited f t.flight ≡ some e)
  Reach-awaited s _ f e b h here = (b, h)
  Reach-awaited s _ f e b h (next {t} r st) =
      let (b', h') = Reach-awaited s t f e b h r in Step-keeps f e st b' h'
