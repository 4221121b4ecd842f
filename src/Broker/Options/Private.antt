-- ===== src/Broker/Options/Private.antt =====
-- The shared engine of broker/server.py against an engine of a client's own, however the
-- coroutines interleave.
use chessy_mcp.Prelude.{
  ℕ, String, ◌≡◌, ◌≢◌, ◌∙◌, refl, true, false, none, some, List, [], arith, Assoc, lookup, is_some,
  latest, ap,
}
use chessy_mcp.Broker.Session.{Search, command_of}
use chessy_mcp.Broker.Search.{
  EngineBroker, put, with_session, handle, handle_command, acquire, fail, advance, give_up,
  disconnect, settings, merge, default_options,
}
use chessy_mcp.Broker.Steps.{Step, Reach, start, is_holding}
use chessy_mcp.Broker.Exclusion.{IsExclusive, Agree, fits}
use chessy_mcp.Broker.Exclusion.Holder.{Reach-IsExclusive}
use chessy_mcp.Broker.Options.Own.{lookup-merge, lookup-configuration}
use chessy_mcp.Broker.Options.{
  options_of, hear_all, configuration, unwritten, hear_all-settings, Shows, IsConfigured, IsQuiet,
  IsQuiet-IsConfigured, IsQuiet-same, IsQuiet-handle, IsQuiet-fail, IsQuiet-give_up,
  IsQuiet-receive, IsQuiet-disconnect,
}

acquire-IsConfigured :
    (threads hash : String) (c : ℕ) (b t : EngineBroker)
    → acquire threads hash c b ≡ some t
    → IsConfigured b
    → IsConfigured t
unfolding acquire put Shows
acquire-IsConfigured threads hash c b t e h d o name f i =
    ground (arith, e, f, i, h d o name, hear_all-settings name o (options_of b.log) [])

-- only the holder of the lock writes settings
advance-IsConfigured :
    (c : ℕ) (b t : EngineBroker)
    → advance c b ≡ some t
    → IsExclusive b
    → IsConfigured b
    → IsConfigured t
unfolding advance put Shows options_of hear_all Agree fits
advance-IsConfigured c b t e x h d o name f i = ground (arith, e, f, i, h d o name, x c, x d)

Step-IsConfigured :
    {threads hash : String} {b t : EngineBroker}
    → Step threads hash b t
    → IsExclusive b
    → IsConfigured b
    → IsConfigured t
unfolding handle_command
Step-IsConfigured {b = b} (Step.command c text) x h =
    IsQuiet-IsConfigured b (handle c (command_of text) text b).0
      (IsQuiet-handle c (command_of text) text b) h
Step-IsConfigured {threads} {hash} {b} (Step.lock c t e) x h =
    acquire-IsConfigured threads hash c b t e h
Step-IsConfigured {b = b} (Step.send c t e) x h = advance-IsConfigured c b t e x h
Step-IsConfigured {b = b} (Step.read c line t e) x h =
    IsQuiet-IsConfigured b t (IsQuiet-receive c line b t e) h
Step-IsConfigured {b = b} (Step.read_fail c error e) x h =
    IsQuiet-IsConfigured b (fail c error b) (IsQuiet-fail c error b) h
Step-IsConfigured {b = b} (Step.report c error e) x h =
    IsQuiet-IsConfigured b (give_up c error b) (IsQuiet-give_up c error b) h
Step-IsConfigured {b = b} (Step.leave c) x h =
    IsQuiet-IsConfigured b (disconnect c b) (IsQuiet-disconnect c b) h
Step-IsConfigured {b = b} (Step.hang_up c) x h =
    IsQuiet-IsConfigured b (with_session c (record (b.sessions c) { is_closing = true }) b)
      (IsQuiet-same c (record (b.sessions c) { is_closing = true }) b refl) h
Step-IsConfigured Step.engine_exit x h = h

Reach-IsConfigured :
    {threads hash : String} {banner : List String} {b : EngineBroker}
    → Reach threads hash (start banner) b
    → IsConfigured b
unfolding Shows
Reach-IsConfigured Reach.here = λ c o name e i. ground (arith, e)
Reach-IsConfigured (Reach.next r st) =
    Step-IsConfigured st (Reach-IsExclusive r) (Reach-IsConfigured r)

holding-configuration : (s : Search) → is_holding s ≡ true → configuration s ≢ none
holding-configuration Search.finished h = ground (arith, h)
holding-configuration (Search.waiting g) h = ground (arith, h)
holding-configuration (Search.configuring o l g) h = ground arith
holding-configuration (Search.confirming o g) h = ground arith
holding-configuration (Search.ready o g) h = ground arith
holding-configuration (Search.announced o g) h = ground arith
holding-configuration (Search.launching o g) h = ground arith
holding-configuration (Search.reading o) h = ground arith
holding-configuration (Search.failing m) h = ground (arith, h)

-- a client that holds the engine before and after a step has the same configuration
abbrev IsKept : ℕ → EngineBroker → EngineBroker → Type 0
IsKept c b t =
    is_holding (b.sessions c).search ≡ true
    → is_holding (t.sessions c).search ≡ true
    → configuration (t.sessions c).search ≡ configuration (b.sessions c).search

IsQuiet-IsKept : (c : ℕ) (b t : EngineBroker) → IsQuiet b t → IsKept c b t
IsQuiet-IsKept c b t q h k = ground (arith, q.less c, holding-configuration (t.sessions c).search k)

acquire-IsKept :
    (threads hash : String) (c d : ℕ) (b t : EngineBroker)
    → acquire threads hash d b ≡ some t
    → IsKept c b t
unfolding acquire put
acquire-IsKept threads hash c d b t e h k = ground (arith, e, h, k)

advance-IsKept : (c d : ℕ) (b t : EngineBroker) → advance d b ≡ some t → IsKept c b t
unfolding advance put
advance-IsKept c d b t e h k = ground (arith, e, h, k)

Step-IsKept :
    {threads hash : String} {b t : EngineBroker} (c : ℕ) → Step threads hash b t → IsKept c b t
unfolding handle_command
Step-IsKept {b = b} c (Step.command d text) =
    IsQuiet-IsKept c b (handle d (command_of text) text b).0
      (IsQuiet-handle d (command_of text) text b)
Step-IsKept {threads} {hash} {b} c (Step.lock d t e) = acquire-IsKept threads hash c d b t e
Step-IsKept {b = b} c (Step.send d t e) = advance-IsKept c d b t e
Step-IsKept {b = b} c (Step.read d line t e) = IsQuiet-IsKept c b t (IsQuiet-receive d line b t e)
Step-IsKept {b = b} c (Step.read_fail d error e) =
    IsQuiet-IsKept c b (fail d error b) (IsQuiet-fail d error b)
Step-IsKept {b = b} c (Step.report d error e) =
    IsQuiet-IsKept c b (give_up d error b) (IsQuiet-give_up d error b)
Step-IsKept {b = b} c (Step.leave d) = IsQuiet-IsKept c b (disconnect d b) (IsQuiet-disconnect d b)
Step-IsKept {b = b} c (Step.hang_up d) =
    IsQuiet-IsKept c b (with_session d (record (b.sessions d) { is_closing = true }) b)
      (IsQuiet-same d (record (b.sessions d) { is_closing = true }) b refl)
Step-IsKept c Step.engine_exit = λ h k. refl

-- a run all along which the client holds the engine
pub data Holds (threads hash : String) (c : ℕ) (b : EngineBroker) : EngineBroker → Type 0 where
  acquired : is_holding (b.sessions c).search ≡ true → Holds threads hash c b b
  goes_on :
      {t u : EngineBroker}
      → Holds threads hash c b t
      → Step threads hash t u
      → is_holding (u.sessions c).search ≡ true
      → Holds threads hash c b u

Holds-holding :
    {threads hash : String} {c : ℕ} {b t : EngineBroker}
    → Holds threads hash c b t
    → is_holding (t.sessions c).search ≡ true
Holds-holding (acquired h) = h
Holds-holding (goes_on r st h) = h

Holds-Reach :
    {threads hash : String} {c : ℕ} {s b t : EngineBroker}
    → Reach threads hash s b
    → Holds threads hash c b t
    → Reach threads hash s t
Holds-Reach r (acquired h) = r
Holds-Reach r (goes_on q st h) = Reach.next (Holds-Reach r q) st

Holds-configuration :
    {threads hash : String} {c : ℕ} {b t : EngineBroker}
    → Holds threads hash c b t
    → configuration (t.sessions c).search ≡ configuration (b.sessions c).search
Holds-configuration (acquired h) = refl
Holds-configuration {c = c} (goes_on r st h) =
    Step-IsKept c st (Holds-holding r) h ∙ Holds-configuration r

-- what a client configures: the seven defaults, with its own settings over them
abbrev own_options : String → String → ℕ → EngineBroker → Assoc String
own_options threads hash c b = merge (default_options threads hash) (b.sessions c).options

acquire-configuration :
    (threads hash : String) (c : ℕ) (b t : EngineBroker)
    → acquire threads hash c b ≡ some t
    → (b.sessions c).closed ≡ false
    → configuration (t.sessions c).search ≡ some (own_options threads hash c b)
unfolding acquire put
acquire-configuration threads hash c b t e h = ground (arith, e, h)

-- From the moment when a client's search gets the engine until it gives it back, however the other
-- clients' commands and searches interleave: once its configuration is written, each of the seven
-- default options and of those that the client itself had set by that moment has in the engine the
-- client's own last setting, or the default if it has set none. Of an option that only another
-- client has set nothing is said.
pub Reach-private :
    (threads hash : String) (banner : List String) (b t u : EngineBroker) (c : ℕ) (name : String)
    → Reach threads hash (start banner) b
    → acquire threads hash c b ≡ some t
    → (b.sessions c).closed ≡ false
    → Holds threads hash c t u
    → unwritten (u.sessions c).search ≡ []
    → is_some (latest name (b.sessions c).options (lookup name (default_options threads hash)))
      ≡ true
    → lookup name (options_of u.log)
      ≡ latest name (b.sessions c).options (lookup name (default_options threads hash))
unfolding Shows
Reach-private threads hash banner b t u c name r e o h w i =
    let own : Assoc String = (b.sessions c).options in
    let reached : Reach threads hash (start banner) u =
      Holds-Reach (Reach.next r (Step.lock c t e)) h in
    let kept : configuration (u.sessions c).search ≡ some (own_options threads hash c b) =
      Holds-configuration h ∙ acquire-configuration threads hash c b t e o in
    let named : is_some (lookup name (own_options threads hash c b)) ≡ true =
      ap is_some (lookup-merge name (default_options threads hash) own) ∙ i in
    let shown : lookup name (options_of u.log)
        ≡ lookup name (hear_all (settings (own_options threads hash c b)) []) =
      ground
        (arith, Reach-IsConfigured reached c (own_options threads hash c b) name kept named, w) in
    shown ∙ lookup-configuration threads hash name own
