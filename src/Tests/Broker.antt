-- ===== src/Tests/Broker.antt =====
-- Runs of broker/server.py at concrete clients, and instances of its theorems.
use chessy_mcp.Prelude.{
  ℕ, zero, suc, String, ◌≡◌, refl, Bool, true, false, ◌&&◌, Option, none, some, List, [], ◌∷◌,
  assign, lookup, is_some, arith, latest,
}
use chessy_mcp.Broker.Session.{setoption, isready, ucinewgame, position, go, stop}
use chessy_mcp.Broker.Search.{
  default_options, EngineBroker, handle_command, acquire, advance, receive,
}
use chessy_mcp.Broker.Steps.{Step, Reach, here, next, start, is_holding}
use chessy_mcp.Broker.Exclusion.Holder.{Reach-holder}
use chessy_mcp.Broker.Options.{options_of, unwritten}
use chessy_mcp.Broker.Options.Private.{Reach-private, Holds, acquired, goes_on}

data Event : Type 0 where
  says : ℕ → String → Event
  locks : ℕ → Event
  writes : ℕ → ℕ → Event
  reads : ℕ → String → Event

-- a step that cannot happen changes nothing
unless : Option EngineBroker → EngineBroker → EngineBroker
unless none b = b
unless (some t) b = t

write_some : ℕ → ℕ → EngineBroker → EngineBroker
unfolding advance unless
write_some zero c b = b
write_some (suc n) c b = write_some n c (unless (advance c b) b)

play : List Event → EngineBroker → EngineBroker
unfolding handle_command acquire write_some receive unless
play [] b = b
play (says c text ∷ es) b = play es (handle_command c text b).0
play (locks c ∷ es) b = play es (unless (acquire "6" "768" c b) b)
play (writes n c ∷ es) b = play es (write_some n c b)
play (reads c line ∷ es) b = play es (unless (receive c line b) b)

Broker : EngineBroker → Type 0
Broker b = Reach "6" "768" (start []) b

unless-Reach :
    (o : Option EngineBroker) (b : EngineBroker)
    → ((t : EngineBroker) → o ≡ some t → Step "6" "768" b t)
    → Broker b
    → Broker (unless o b)
unfolding unless Broker
unless-Reach none b st r = r
unless-Reach (some t) b st r = next r (st t refl)

write_some-Reach : (n c : ℕ) (b : EngineBroker) → Broker b → Broker (write_some n c b)
unfolding write_some
write_some-Reach zero c b r = r
write_some-Reach (suc n) c b r =
    write_some-Reach n c (unless (advance c b) b)
      (unless-Reach (advance c b) b (λ t e. Step.send c t e) r)

play-Reach : (es : List Event) (b : EngineBroker) → Broker b → Broker (play es b)
unfolding play Broker
play-Reach [] b r = r
play-Reach (says c text ∷ es) b r =
    play-Reach es (handle_command c text b).0 (next r (Step.command c text))
play-Reach (locks c ∷ es) b r =
    play-Reach es (unless (acquire "6" "768" c b) b)
      (unless-Reach (acquire "6" "768" c b) b (λ t e. Step.lock c t e) r)
play-Reach (writes n c ∷ es) b r = play-Reach es (write_some n c b) (write_some-Reach n c b r)
play-Reach (reads c line ∷ es) b r =
    play-Reach es (unless (receive c line b) b)
      (unless-Reach (receive c line b) b (λ t e. Step.read c line t e) r)

-- client 1 searches with an option of its own, then client 0 gets the engine
abbrev turns : List Event
turns =
    says 1 "setoption name SyzygyPath value /tb"
    ∷ says 0 "setoption name MultiPV value 3"
    ∷ says 1 "go depth 1"
    ∷ locks 1
    ∷ writes 9 1
    ∷ reads 1 "readyok"
    ∷ writes 3 1
    ∷ says 0 "go depth 2"
    ∷ locks 0
    ∷ reads 1 "bestmove e2e4"
    ∷ locks 0
    ∷ writes 8 0
    ∷ []

abbrev after_turns : EngineBroker
after_turns = play turns (start [])

after_turns-Reach : Reach "6" "768" (start []) after_turns
unfolding Broker
after_turns-Reach = play-Reach turns (start []) here

client_1_is_served : (after_turns.sessions 1).written ≡ "bestmove e2e4" ∷ []
unfolding play assign
client_1_is_served = refl

-- an option outside the configuration of client 0 is still the one that client 1 has set
other_option_stays : lookup "SyzygyPath" (options_of after_turns.log) ≡ some "/tb"
unfolding play assign options_of lookup
other_option_stays = refl

-- A `stop` that comes while the engine is being configured reaches it before the `go`, and the
-- search goes on.
early_stop :
    (play
      (says 0 "go infinite"
        ∷ locks 0
        ∷ writes 8 0
        ∷ says 0 "stop"
        ∷ reads 0 "readyok"
        ∷ writes 3 0
        ∷ [])
      (start [])).log
    ≡ go "go infinite"
      ∷ position "position startpos"
      ∷ ucinewgame
      ∷ stop
      ∷ isready
      ∷ setoption "UCI_ShowWDL" "true"
      ∷ setoption "Skill Level" "20"
      ∷ setoption "UCI_Elo" "2850"
      ∷ setoption "UCI_LimitStrength" "false"
      ∷ setoption "MultiPV" "1"
      ∷ setoption "Hash" "768"
      ∷ setoption "Threads" "6"
      ∷ []
unfolding play assign
early_stop = refl

-- client 0 waits for the engine, gets it, and writes its configuration
abbrev before_lock : EngineBroker
before_lock =
    play
      (says 1 "setoption name SyzygyPath value /tb"
        ∷ says 0 "setoption name MultiPV value 3"
        ∷ says 1 "go depth 1"
        ∷ locks 1
        ∷ writes 9 1
        ∷ reads 1 "readyok"
        ∷ writes 3 1
        ∷ says 0 "go depth 2"
        ∷ locks 0
        ∷ reads 1 "bestmove e2e4"
        ∷ [])
      (start [])

before_lock-Reach : Reach "6" "768" (start []) before_lock
unfolding Broker
before_lock-Reach = play-Reach _ (start []) here

abbrev locked : EngineBroker
locked = unless (acquire "6" "768" 0 before_lock) before_lock

unless-some :
    (o : Option EngineBroker) (b : EngineBroker) → is_some o ≡ true → o ≡ some (unless o b)
unfolding unless
unless-some none b h = ground (arith, h)
unless-some (some t) b h = refl

is_granted : is_some (acquire "6" "768" 0 before_lock) ≡ true
unfolding play unless write_some assign acquire
is_granted = refl

is_acquired : acquire "6" "768" 0 before_lock ≡ some locked
is_acquired = unless-some (acquire "6" "768" 0 before_lock) before_lock is_granted

is_open_0 : (before_lock.sessions 0).closed ≡ false
unfolding play unless write_some assign
is_open_0 = refl

-- client 0 holds the engine at each of its next steps
abbrev holds_for : ℕ → EngineBroker → Bool
holds_for zero b = true
holds_for (suc n) b =
    let rest = holds_for n (unless (advance 0 b) b) in
    is_holding ((unless (advance 0 b) b).sessions 0).search && rest

unless-Holds :
    (o : Option EngineBroker) (b : EngineBroker)
    → ((t : EngineBroker) → o ≡ some t → Step "6" "768" b t)
    → is_holding ((unless o b).sessions 0).search ≡ true
    → Holds "6" "768" 0 locked b
    → Holds "6" "768" 0 locked (unless o b)
unfolding unless
unless-Holds none b st h r = r
unless-Holds (some t) b st h r = goes_on r (st t refl) h

write_some-Holds :
    (n : ℕ) (b : EngineBroker)
    → holds_for n b ≡ true
    → Holds "6" "768" 0 locked b
    → Holds "6" "768" 0 locked (write_some n 0 b)
unfolding write_some
write_some-Holds zero b h r = r
write_some-Holds (suc n) b h r =
    write_some-Holds n (unless (advance 0 b) b) (ground (arith, h))
      (unless-Holds (advance 0 b) b (λ t e. Step.send 0 t e) (ground (arith, h)) r)

abbrev configured : EngineBroker
configured = write_some 8 0 locked

holds_on : holds_for 8 locked ≡ true
unfolding play unless write_some assign advance acquire
holds_on = refl

locked-Holds : is_holding (locked.sessions 0).search ≡ true
unfolding play unless write_some assign acquire
locked-Holds = refl

has_written_0 : unwritten (configured.sessions 0).search ≡ []
unfolding play unless write_some assign advance acquire
has_written_0 = refl

names_MultiPV :
    is_some (
      latest "MultiPV"
        (before_lock.sessions 0).options
        (lookup "MultiPV" (default_options "6" "768")))
    ≡ true
unfolding play unless write_some assign lookup
names_MultiPV = refl

Reach-private_example :
    lookup "MultiPV" (options_of configured.log)
    ≡ latest "MultiPV"
        (before_lock.sessions 0).options
        (lookup "MultiPV" (default_options "6" "768"))
Reach-private_example =
    Reach-private "6" "768" [] before_lock locked configured 0 "MultiPV" before_lock-Reach
      is_acquired is_open_0 (write_some-Holds 8 locked holds_on (acquired locked-Holds))
      has_written_0 names_MultiPV

is_holding_0 : is_holding (after_turns.sessions 0).search ≡ true
unfolding play assign
is_holding_0 = refl

Reach-holder_example : (◌≡◌ {A = ℕ} 0 0) × (after_turns.active_session ≡ some 0)
Reach-holder_example =
    Reach-holder "6" "768" [] after_turns 0 0 after_turns-Reach is_holding_0 is_holding_0
