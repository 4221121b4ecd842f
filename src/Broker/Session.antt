-- ===== src/Broker/Session.antt =====
-- Sessions and the commands that change them: `ClientSession`, `_set_option` and the branches of
-- `_handle_command` in broker/server.py.
use chessy_mcp.Prelude.{
  String, Bool, true, false, ◌||◌, none, some, List, [], ◌∷◌, ◌++◌, Assoc, assign, str_eq,
  if◌then◌else◌, starts_with, remove_prefix, split_once, strip, is_empty,
}

-- a line that the broker writes to the engine
pub data Line : Type 0 where
  setoption : String → String → Line
  isready : Line
  ucinewgame : Line
  position : String → Line
  go : String → Line
  stop : Line

-- Where the coroutine `_run_search` stands, with its local variables: the configuration, the
-- settings still to be written, and the `go` command. `finished` is also a session with no task.
pub data Search : Type 0 where
  finished : Search
  waiting : String → Search
  configuring : Assoc String → List Line → String → Search
  confirming : Assoc String → String → Search
  ready : Assoc String → String → Search
  announced : Assoc String → String → Search
  launching : Assoc String → String → Search
  reading : Assoc String → Search
  failing : String → Search

pub record ClientSession : Type 0 where
  pub options : Assoc String
  pub position_command : String
  pub priority : String
  pub new_game : Bool
  pub search : Search
  pub closed : Bool
  -- `writer.is_closing()`, and the lines written to the client
  pub is_closing : Bool
  pub written : List String

abbrev pub new_session : ClientSession
new_session = record {
  options = [];
  position_command = "position startpos";
  priority = "interactive";
  new_game = true;
  search = finished;
  closed = false;
  is_closing = false;
  written = [];
}

-- `ClientSession.send`
unfoldable pub send : String → ClientSession → ClientSession
send line s = if s.closed || s.is_closing then s else record s { written = s.written ++ line ∷ [] }

unfoldable pub send_all : List String → ClientSession → ClientSession
unfolding send
send_all [] s = s
send_all (line ∷ lines) s = send_all lines (send line s)

unfoldable pub set_named : String → String → ClientSession → ClientSession
set_named name value s =
    if str_eq name "BrokerPriority"
    then record s {
      priority =
          if str_eq value "interactive" || str_eq value "background" then value else "interactive";
    }
    else if is_empty name
    then s
    else record s { options = assign name value s.options }

-- `_set_option`
unfoldable pub set_option : String → ClientSession → ClientSession
unfolding set_named starts_with remove_prefix split_once strip
set_option command s =
    let payload = remove_prefix "setoption " command in
    let parts = split_once " value " (remove_prefix "name " payload) in
    let value : String = elim parts.1 [ none ↦ "true" | some text ↦ strip text ] in
    if starts_with "name " payload then set_named (strip parts.0) value s else s

-- the tests of `_handle_command`, in their order
pub data Command : Type 0 where
  ask_uci : Command
  ask_ready : Command
  new_game_command : Command
  set_command : Command
  position_text : Command
  go_text : Command
  stop_command : Command
  quit_command : Command
  ignored : Command

unfoldable pub command_of : String → Command
unfolding starts_with
command_of command =
    if str_eq command "uci"
    then ask_uci
    else if str_eq command "isready"
    then ask_ready
    else if str_eq command "ucinewgame"
    then new_game_command
    else if starts_with "setoption " command
    then set_command
    else if starts_with "position " command
    then position_text
    else if starts_with "go " command
    then go_text
    else if str_eq command "stop"
    then stop_command
    else if str_eq command "quit"
    then quit_command
    else ignored

-- the lines that answer `uci`: the banner without its last line, the broker's own option, `uciok`
unfoldable pub uci_answer : List String → List String
uci_answer [] =
    "option name BrokerPriority type combo default interactive var interactive var background"
    ∷ "uciok" ∷ []
uci_answer (line ∷ lines) =
    let rest = uci_answer lines in if str_eq line "uciok" then rest else line ∷ rest

-- `search_task is not None and not search_task.done()`
abbrev pub is_running : Search → Bool
is_running finished = false
is_running (waiting g) = true
is_running (configuring o l g) = true
is_running (confirming o g) = true
is_running (ready o g) = true
is_running (announced o g) = true
is_running (launching o g) = true
is_running (reading o) = true
is_running (failing m) = true
