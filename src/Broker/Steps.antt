-- ===== src/Broker/Steps.antt =====
-- The clients' commands, the search coroutines, the engine's lines and failures of
-- broker/server.py, interleaved at every await.
use chessy_mcp.Prelude.{ℕ, String, ◌≡◌, Bool, true, false, none, some, List, []}
use chessy_mcp.Broker.Session.{new_session, Search, failing}
use chessy_mcp.Broker.Search.{
  EngineBroker, with_session, handle_command, acquire, fail, advance, receive, give_up, disconnect,
}

-- the coroutine is past the lock, in the body of its `async with`
abbrev pub is_holding : Search → Bool
is_holding Search.finished = false
is_holding (Search.waiting g) = false
is_holding (Search.configuring o l g) = true
is_holding (Search.confirming o g) = true
is_holding (Search.ready o g) = true
is_holding (Search.announced o g) = true
is_holding (Search.launching o g) = true
is_holding (Search.reading o) = true
is_holding (failing m) = false

-- `read_fail`: the engine's next line does not come in time, or its output has ended.
-- `hang_up`: a client's writer closes. `engine_exit`: the engine's writer closes.
pub data Step (threads hash : String) (b : EngineBroker) : EngineBroker → Type 0 where
  command : (c : ℕ) (text : String) → Step threads hash b (handle_command c text b).0
  lock : (c : ℕ) (t : EngineBroker) → acquire threads hash c b ≡ some t → Step threads hash b t
  send : (c : ℕ) (t : EngineBroker) → advance c b ≡ some t → Step threads hash b t
  read :
      (c : ℕ) (line : String) (t : EngineBroker) → receive c line b ≡ some t → Step threads hash b t
  read_fail :
      (c : ℕ) (error : String)
      → is_holding (b.sessions c).search ≡ true
      → Step threads hash b (fail c error b)
  report :
      (c : ℕ) (error : String)
      → (b.sessions c).search ≡ failing error
      → Step threads hash b (give_up c error b)
  leave : (c : ℕ) → Step threads hash b (disconnect c b)
  hang_up :
      (c : ℕ) → Step threads hash b (with_session c (record (b.sessions c) { is_closing = true }) b)
  engine_exit : Step threads hash b (record b { is_up = false })

pub data Reach (threads hash : String) (b : EngineBroker) : EngineBroker → Type 0 where
  here : Reach threads hash b b
  next :
      {t u : EngineBroker} → Reach threads hash b t → Step threads hash t u → Reach threads hash b u

-- the broker when its engine has given its banner
abbrev pub start : List String → EngineBroker
start banner = record {
  sessions = λ c. new_session;
  lock = none;
  active_session = none;
  is_up = true;
  log = [];
  uci_banner = banner;
}
