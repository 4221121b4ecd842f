-- ===== src/Broker/Options.antt =====
-- What the shared engine of broker/server.py has been told by the time a client's search begins,
-- against what an engine of that client's own would have been told.
pub mod Own
pub mod Private
use chessy_mcp.Prelude.{
  ℕ, ◌==◌, String, ◌≡◌, refl, ◌⊎◌, inl, inr, Bool, true, false, Option, none, some, List, [], ◌∷◌,
  arith, Bool-cases, if◌then◌else◌, Assoc, assign, lookup, is_some, lookup-assign, str_eq, eq_iff,
}
use chessy_mcp.Broker.Session.{
  Line, setoption, isready, ucinewgame, position, go, stop, Search, finished, waiting, configuring,
  confirming, ready, announced, launching, reading, failing, ClientSession, new_session, send,
  send_all, set_option, uci_answer, is_running, Command, ask_uci, ask_ready, new_game_command,
  set_command, position_text, go_text, stop_command, quit_command, ignored, command_of,
}
use chessy_mcp.Broker.Search.{
  EngineBroker, owns, put, with_session, send_engine, send_stop, must_preempt, preempt_background,
  stop_search, begin_search, handle, handle_command, acquire, fail, write, next_line, advance,
  clear_active, receive, give_up, close_session, disconnect, settings, merge, default_options,
}
use chessy_mcp.Broker.Steps.{Step, Reach, start, is_holding}
use chessy_mcp.Broker.Exclusion.{
  send-search, send_all-search, set_option-search, IsExclusive, Agree, fits,
}
use chessy_mcp.Broker.Exclusion.Holder.{Reach-IsExclusive}

-- a UCI engine's options after one more line
unfoldable pub hear : Line → Assoc String → Assoc String
hear (setoption name value) es = assign name value es
hear isready es = es
hear ucinewgame es = es
hear (position p) es = es
hear (go g) es = es
hear stop es = es

-- after a log, the newest line first
unfoldable pub options_of : List Line → Assoc String
unfolding hear
options_of [] = []
options_of (line ∷ older) = hear line (options_of older)

-- after lines that are still to be written, the next one first
unfoldable pub hear_all : List Line → Assoc String → Assoc String
unfolding hear
hear_all [] es = es
hear_all (line ∷ left) es = hear_all left (hear line es)

-- the configuration of a search that holds the engine, and the settings that it has yet to write
abbrev pub configuration : Search → Option (Assoc String)
configuration finished = none
configuration (waiting g) = none
configuration (configuring o l g) = some o
configuration (confirming o g) = some o
configuration (ready o g) = some o
configuration (announced o g) = some o
configuration (launching o g) = some o
configuration (reading o) = some o
configuration (failing m) = none

abbrev pub unwritten : Search → List Line
unwritten finished = []
unwritten (waiting g) = []
unwritten (configuring o l g) = l
unwritten (confirming o g) = []
unwritten (ready o g) = []
unwritten (announced o g) = []
unwritten (launching o g) = []
unwritten (reading o) = []
unwritten (failing m) = []

-- a name that the settings give has the same value whatever the engine held before
pub hear_all-settings :
    (name : String) (o es fs : Assoc String)
    → (is_some (lookup name o) ≡ true) ⊎ (lookup name es ≡ lookup name fs)
    → lookup name (hear_all (settings o) es) ≡ lookup name (hear_all (settings o) fs)
unfolding hear_all settings lookup
hear_all-settings name [] es fs h = ground (arith, h)
hear_all-settings name ((other, value) ∷ o) es fs h = ground (
  arith,
  h,
  hear_all-settings name o (assign other value es) (assign other value fs),
  lookup-assign other name value es,
  lookup-assign other name value fs,
)

-- once the rest of its settings is written, the engine shows each name of the configuration as
-- an engine with nothing but these settings does
unfoldable pub Shows : Assoc String → Search → Type 0
unfolding hear_all settings lookup
Shows es s =
    (o : Assoc String) (name : String)
    → configuration s ≡ some o
    → is_some (lookup name o) ≡ true
    → lookup name (hear_all (unwritten s) es) ≡ lookup name (hear_all (settings o) [])

abbrev pub IsConfigured : EngineBroker → Type 0
IsConfigured b = (c : ℕ) → Shows (options_of b.log) (b.sessions c).search

-- the session afterwards holds no configuration, or the one that it held before
abbrev pub IsLess : Search → Search → Type 0
IsLess t s =
    (configuration t ≡ none) ⊎ ((configuration t ≡ configuration s) × (unwritten t ≡ unwritten s))

Shows-less : (es : Assoc String) (s t : Search) → IsLess t s → Shows es s → Shows es t
unfolding Shows
Shows-less es s t l h o name e i = ground (arith, l, e, i, h o name)

pub record IsQuiet (b t : EngineBroker) : Type 0 where
  pub heard : options_of t.log ≡ options_of b.log
  pub less : (c : ℕ) → IsLess (t.sessions c).search (b.sessions c).search

pub IsQuiet-IsConfigured : (b t : EngineBroker) → IsQuiet b t → IsConfigured b → IsConfigured t
IsQuiet-IsConfigured b t q h c =
    Shows-less (options_of t.log) (b.sessions c).search (t.sessions c).search (q.less c)
      (rw q.heard (h c))

IsQuiet-put :
    (c : ℕ) (s : ClientSession) (b : EngineBroker)
    → IsLess s.search (b.sessions c).search
    → IsQuiet b (with_session c s b)
unfolding with_session put
IsQuiet-put c s b h = record { heard = refl; less = λ d. ground (arith, h) }

IsQuiet-trans : (b t u : EngineBroker) → IsQuiet b t → IsQuiet t u → IsQuiet b u
IsQuiet-trans b t u p q = record {
  heard = ground (arith, p.heard, q.heard);
  less = λ c. ground (arith, p.less c, q.less c);
}

IsQuiet-send_stop : (b : EngineBroker) → IsQuiet b (send_stop b).0
unfolding send_stop options_of
IsQuiet-send_stop b = record { heard = ground arith; less = λ c. ground arith }

IsQuiet-preempt : (c : ℕ) (b : EngineBroker) → IsQuiet b (preempt_background c b).0
unfolding preempt_background send_stop options_of
IsQuiet-preempt c b = record { heard = ground arith; less = λ c. ground arith }

IsQuiet-stop_search : (c : ℕ) (b : EngineBroker) → IsQuiet b (stop_search c b).0
unfolding stop_search options_of put
IsQuiet-stop_search c b = record { heard = ground arith; less = λ c. ground arith }

IsQuiet-begin_search :
    (c : ℕ) (text : String) (b : EngineBroker) → IsQuiet b (begin_search c text b).0
unfolding begin_search options_of put
IsQuiet-begin_search c text b = record { heard = ground arith; less = λ d. ground arith }

-- a session that changes without its search
pub IsQuiet-same :
    (c : ℕ) (s : ClientSession) (b : EngineBroker)
    → s.search ≡ (b.sessions c).search
    → IsQuiet b (with_session c s b)
IsQuiet-same c s b e = IsQuiet-put c s b (ground (arith, e))

pub IsQuiet-handle :
    (c : ℕ) (k : Command) (text : String) (b : EngineBroker) → IsQuiet b (handle c k text b).0
unfolding handle
IsQuiet-handle c ask_uci text b =
    IsQuiet-same c (send_all (uci_answer b.uci_banner) (b.sessions c)) b
      (send_all-search (uci_answer b.uci_banner) (b.sessions c))
IsQuiet-handle c ask_ready text b =
    IsQuiet-same c (send "readyok" (b.sessions c)) b (send-search "readyok" (b.sessions c))
IsQuiet-handle c new_game_command text b =
    IsQuiet-same c (record (b.sessions c) { new_game = true }) b refl
IsQuiet-handle c set_command text b =
    IsQuiet-same c (set_option text (b.sessions c)) b (set_option-search text (b.sessions c))
IsQuiet-handle c position_text text b =
    IsQuiet-same c (record (b.sessions c) { position_command = text }) b refl
IsQuiet-handle c go_text text b = IsQuiet-begin_search c text b
IsQuiet-handle c stop_command text b = IsQuiet-stop_search c b
IsQuiet-handle c quit_command text b = record { heard = refl; less = λ d. ground arith }
IsQuiet-handle c ignored text b = record { heard = refl; less = λ d. ground arith }

pub IsQuiet-fail : (c : ℕ) (error : String) (b : EngineBroker) → IsQuiet b (fail c error b)
unfolding fail put
IsQuiet-fail c error b = record { heard = refl; less = λ d. ground arith }

pub IsQuiet-give_up : (c : ℕ) (error : String) (b : EngineBroker) → IsQuiet b (give_up c error b)
unfolding give_up put
IsQuiet-give_up c error b = record { heard = refl; less = λ d. ground arith }

pub IsQuiet-receive :
    (c : ℕ) (line : String) (b t : EngineBroker) → receive c line b ≡ some t → IsQuiet b t
unfolding receive put options_of
IsQuiet-receive c line b t e = record {
  heard = ground (arith, e);
  less = λ d. ground (arith, e, send-search line (b.sessions c));
}

IsQuiet-close_session : (c : ℕ) (b : EngineBroker) → IsQuiet b (close_session c b)
unfolding close_session
IsQuiet-close_session c b = IsQuiet-same c (record (b.sessions c) { closed = true }) b refl

pub IsQuiet-disconnect : (c : ℕ) (b : EngineBroker) → IsQuiet b (disconnect c b)
unfolding disconnect
IsQuiet-disconnect c b = elim (Bool-cases (b.sessions c).closed) [
  | inl e ↦ rw e (record { heard = refl; less = λ d. ground arith })
  | inr e ↦ rw e (
      IsQuiet-trans b (close_session c b) (stop_search c (close_session c b)).0
        (IsQuiet-close_session c b) (IsQuiet-stop_search c (close_session c b)))
]
