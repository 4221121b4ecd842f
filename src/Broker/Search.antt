-- ===== src/Broker/Search.antt =====
-- The broker's state, `_handle_command`, and the pieces of `_run_search` in broker/server.py.
use chessy_mcp.Prelude.{
  ℕ, String, Bool, true, false, not, ◌&&◌, Option, none, some, List, [], ◌∷◌, Assoc, assign, str_eq,
  if◌then◌else◌, ◌==◌, starts_with, str_append,
}
use chessy_mcp.Broker.Session.{
  Line, setoption, isready, ucinewgame, position, go, stop, finished, waiting, configuring,
  confirming, ready, announced, launching, reading, failing, ClientSession, send, send_all,
  set_option, Command, ask_uci, ask_ready, new_game_command, set_command, position_text, go_text,
  stop_command, quit_command, ignored, command_of, uci_answer, is_running,
}

-- `log` holds what was written to the engine, the newest first; `is_up` says that the engine's
-- writer is there and open.
pub record EngineBroker : Type 0 where
  pub sessions : ℕ → ClientSession
  pub lock : Option ℕ
  pub active_session : Option ℕ
  pub is_up : Bool
  pub log : List Line
  pub uci_banner : List String

unfoldable pub put : ℕ → ClientSession → (ℕ → ClientSession) → ℕ → ClientSession
put c s sessions d = if d == c then s else sessions d

unfoldable pub with_session : ℕ → ClientSession → EngineBroker → EngineBroker
unfolding put
with_session c s b = record b { sessions = put c s b.sessions }

abbrev pub owns : Option ℕ → ℕ → Bool
owns none c = false
owns (some d) c = d == c

-- `_send_engine`; `none` is its `ConnectionError`
unfoldable pub send_engine : Line → EngineBroker → Option EngineBroker
send_engine line b = if b.is_up then some (record b { log = line ∷ b.log }) else none

-- how a handler ends: it reads on, it leaves the loop, or it raises
pub data Outcome : Type 0 where
  going_on : Outcome
  leaving : Outcome
  raising : Outcome

unfoldable pub send_stop : EngineBroker → EngineBroker × Outcome
unfolding send_engine
send_stop b = elim (send_engine stop b) [ none ↦ (b, raising) | some after ↦ (after, going_on) ]

-- `_preempt_background_if_needed`
unfoldable pub must_preempt : ℕ → EngineBroker → Bool
must_preempt c b = elim b.active_session [
  | none ↦ false
  | some a ↦
      str_eq (b.sessions c).priority "interactive" && str_eq (b.sessions a).priority "background"
]

unfoldable pub preempt_background : ℕ → EngineBroker → EngineBroker × Outcome
unfolding send_stop must_preempt
preempt_background c b = if must_preempt c b then send_stop b else (b, going_on)

-- `_stop_session_search`
unfoldable pub stop_search : ℕ → EngineBroker → EngineBroker × Outcome
unfolding send_stop with_session
stop_search c b =
    if not (is_running (b.sessions c).search)
    then (b, going_on)
    else if owns b.active_session c
    then send_stop b
    else (with_session c (record (b.sessions c) { search = finished }) b, going_on)

unfoldable pub begin_search : ℕ → String → EngineBroker → EngineBroker × Outcome
unfolding send with_session preempt_background
begin_search c command b =
    if is_running (b.sessions c).search
    then (
      with_session c
          (send "info string broker already has an active search for this client" (b.sessions c)) b,
      going_on,
    )
    else preempt_background c
        (with_session c (record (b.sessions c) { search = waiting command }) b)

-- `_handle_command`
unfoldable pub handle : ℕ → Command → String → EngineBroker → EngineBroker × Outcome
unfolding send send_all uci_answer set_option with_session begin_search stop_search
handle c ask_uci text b =
    (with_session c (send_all (uci_answer b.uci_banner) (b.sessions c)) b, going_on)
handle c ask_ready text b = (with_session c (send "readyok" (b.sessions c)) b, going_on)
handle c new_game_command text b =
    (with_session c (record (b.sessions c) { new_game = true }) b, going_on)
handle c set_command text b = (with_session c (set_option text (b.sessions c)) b, going_on)
handle c position_text text b =
    (with_session c (record (b.sessions c) { position_command = text }) b, going_on)
handle c go_text text b = begin_search c text b
handle c stop_command text b = stop_search c b
handle c quit_command text b = (b, leaving)
handle c ignored text b = (b, going_on)

unfoldable pub handle_command : ℕ → String → EngineBroker → EngineBroker × Outcome
unfolding command_of handle
handle_command c text b = handle c (command_of text) text b

-- `_DEFAULT_OPTIONS`, with the two settings that come from the environment
abbrev pub default_options : String → String → Assoc String
default_options threads hash =
    ("Threads", threads)
    ∷ ("Hash", hash)
    ∷ ("MultiPV", "1")
    ∷ ("UCI_LimitStrength", "false")
    ∷ ("UCI_Elo", "2850")
    ∷ ("Skill Level", "20")
    ∷ ("UCI_ShowWDL", "true")
    ∷ []

-- `{**defaults, **own}`
unfoldable pub merge : Assoc String → Assoc String → Assoc String
merge defaults [] = defaults
merge defaults ((name, value) ∷ own) = merge (assign name value defaults) own

unfoldable pub settings : Assoc String → List Line
settings [] = []
settings ((name, value) ∷ options) = setoption name value ∷ settings options

module _ (threads hash : String) where
  -- `async with self._engine_lock`, up to the first line for the engine
  unfoldable pub acquire : ℕ → EngineBroker → Option EngineBroker
  unfolding with_session merge settings
  acquire c b =
      let s = b.sessions c in
      let options = merge (default_options threads hash) s.options in
      elim b.lock [
        | some _ ↦ none
        | none ↦ elim s.search [
          | waiting command ↦ some (
              if s.closed
              then with_session c (record s { search = finished }) b
              else record (with_session c
                  (record s { search = configuring options (settings options) command }) b) {
                    lock = some c;
                    active_session = some c;
                  })
          | _ ↦ none
        ]
      ]

-- the search leaves the `async with` by an error, which it still has to report
unfoldable pub fail : ℕ → String → EngineBroker → EngineBroker
unfolding with_session
fail c error b = record (with_session c (record (b.sessions c) { search = failing error }) b) {
  lock = none;
}

-- one line for the engine, after which the session is `s`
unfoldable pub write : ℕ → Line → ClientSession → EngineBroker → EngineBroker
unfolding send_engine with_session fail
write c line s b = elim (send_engine line b) [
  | none ↦ fail c "Stockfish process is unavailable" b
  | some after ↦ with_session c s after
]

-- the next line that the search of `c` writes, and its session from there on
unfoldable pub next_line : ClientSession → Option (Line × ClientSession)
next_line s = elim s.search [
  | configuring options (line ∷ left) command ↦
      some (line, record s { search = configuring options left command })
  | configuring options [] command ↦
      some (isready, record s { search = confirming options command })
  | ready options command ↦ some (
      if s.new_game
      then (ucinewgame, record s { search = announced options command })
      else (position s.position_command, record s { search = launching options command }))
  | announced options command ↦ some (
    position s.position_command,
    record s { search = launching options command; new_game = false },
  )
  | launching options command ↦ some (go command, record s { search = reading options })
  | _ ↦ none
]

unfoldable pub advance : ℕ → EngineBroker → Option EngineBroker
unfolding next_line write
advance c b = elim (next_line (b.sessions c)) [
  | none ↦ none
  | some (line, s) ↦ some (write c line s b)
]

-- `finally`
unfoldable pub clear_active : ℕ → EngineBroker → EngineBroker
clear_active c b = record b {
  active_session = if owns b.active_session c then none else b.active_session;
}

-- a line of the engine, read by `_read_until("readyok")` or by the last loop of `_run_search`
unfoldable pub receive : ℕ → String → EngineBroker → Option EngineBroker
unfolding with_session send starts_with clear_active
receive c line b =
    let s = b.sessions c in
    elim s.search [
      | confirming options command ↦ some (
          if starts_with "readyok" line
          then with_session c (record s { search = ready options command }) b
          else b)
      | reading options ↦ some (
          if starts_with "bestmove" line
          then clear_active c
              (record (with_session c (record (send line s) { search = finished }) b) {
                lock = none;
              })
          else with_session c (send line s) b)
      | _ ↦ none
    ]

-- the end of a search that failed
unfoldable pub give_up : ℕ → String → EngineBroker → EngineBroker
unfolding with_session send clear_active
give_up c error b = clear_active c (
    with_session c
      (record (send (str_append "info string broker engine error: " error) (b.sessions c)) {
        search = finished;
      })
      b)

unfoldable pub close_session : ℕ → EngineBroker → EngineBroker
unfolding with_session
close_session c b = with_session c (record (b.sessions c) { closed = true }) b

-- `_disconnect` up to its wait for the task
unfoldable pub disconnect : ℕ → EngineBroker → EngineBroker
disconnect c b = if (b.sessions c).closed then b else (stop_search c (close_session c b)).0
