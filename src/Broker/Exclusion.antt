-- ===== src/Broker/Exclusion.antt =====
-- Who holds the engine in broker/server.py, however its coroutines interleave.
pub mod Holder
use chessy_mcp.Prelude.{
  ℕ, ◌==◌, String, ◌≡◌, refl, Bool, true, false, not, ◌&&◌, ◌||◌, Option, none, some, List, [], ◌∷◌,
  arith, Bool-cases, inl, inr, if◌then◌else◌,
}
use chessy_mcp.Broker.Session.{
  Line, Search, finished, waiting, configuring, confirming, ready, announced, launching, reading,
  failing, ClientSession, send, send_all, set_named, set_option, is_running, uci_answer, Command,
  ask_uci, ask_ready, new_game_command, set_command, position_text, go_text, stop_command,
  quit_command, ignored, command_of,
}
use chessy_mcp.Broker.Search.{
  EngineBroker, owns, put, with_session, send_engine, send_stop, must_preempt, preempt_background,
  stop_search, begin_search, handle, handle_command, acquire, fail, write, next_line, advance,
  clear_active, receive, give_up, close_session, disconnect, settings, merge, default_options,
}
use chessy_mcp.Broker.Steps.{Step, Reach, start, is_holding}

abbrev pub is_failing : Search → Bool
is_failing (failing m) = true
is_failing Search.finished = false
is_failing (Search.waiting g) = false
is_failing (Search.configuring o l g) = false
is_failing (Search.confirming o g) = false
is_failing (Search.ready o g) = false
is_failing (Search.announced o g) = false
is_failing (Search.launching o g) = false
is_failing (Search.reading o) = false

-- The search of client `c` is in the body of its `async with` just when the lock is its own. Then
-- it is the active session, and an active session without the lock has failed.
unfoldable pub fits : Option ℕ → Option ℕ → ℕ → Search → Bool
fits lock active c s =
    (if is_holding s then owns lock c else not (owns lock c))
    && (not (owns lock c) || owns active c)
    && (not (owns active c) || owns lock c || is_failing s)

unfoldable pub Agree : Option ℕ → Option ℕ → (ℕ → ClientSession) → Type 0
Agree lock active sessions = (c : ℕ) → fits lock active c (sessions c).search ≡ true

abbrev pub IsExclusive : EngineBroker → Type 0
IsExclusive b = Agree b.lock b.active_session b.sessions

Agree-put :
    (l a l' a' : Option ℕ) (f : ℕ → ClientSession) (c : ℕ) (s : ClientSession)
    → Agree l a f
    → fits l' a' c s.search ≡ true
    → ((d : ℕ) → (d == c) ≡ false → (owns l' d ≡ owns l d) × (owns a' d ≡ owns a d))
    → Agree l' a' (put c s f)
unfolding Agree put fits
Agree-put l a l' a' f c s h hc hd d = elim (Bool-cases (d == c)) [
  | inl e ↦ ground (arith, hc)
  | inr e ↦ ground (arith, h d, hd d e)
]

-- a session that changes without its search
pub Agree-same :
    (l a : Option ℕ) (f : ℕ → ClientSession) (c : ℕ) (s : ClientSession)
    → Agree l a f
    → s.search ≡ (f c).search
    → Agree l a (put c s f)
unfolding Agree
Agree-same l a f c s h e = Agree-put l a l a f c s h (rw e (h c)) (λ d n. (refl, refl))

pub send-search : (line : String) (s : ClientSession) → (send line s).search ≡ s.search
unfolding send
send-search line s = ground arith

pub send_all-search :
    (lines : List String) (s : ClientSession) → (send_all lines s).search ≡ s.search
unfolding send_all
send_all-search [] s = refl
send_all-search (line ∷ lines) s =
    ground (arith, send_all-search lines (send line s), send-search line s)

set_named-search :
    (name value : String) (s : ClientSession) → (set_named name value s).search ≡ s.search
unfolding set_named
set_named-search name value s = ground arith

pub set_option-search : (text : String) (s : ClientSession) → (set_option text s).search ≡ s.search
unfolding set_option
set_option-search text s = grind (arith, set_named-search)

send_stop-IsExclusive : (b : EngineBroker) → IsExclusive b → IsExclusive (send_stop b).0
unfolding send_stop send_engine
send_stop-IsExclusive b h = elim (Bool-cases b.is_up) [ inl e ↦ rw e h | inr e ↦ rw e h ]

preempt-IsExclusive :
    (c : ℕ) (b : EngineBroker) → IsExclusive b → IsExclusive (preempt_background c b).0
unfolding preempt_background
preempt-IsExclusive c b h = elim (Bool-cases (must_preempt c b)) [
  | inl e ↦ rw e (send_stop-IsExclusive b h)
  | inr e ↦ rw e h
]

-- a search that holds no lock and is not active may end
fits-finished :
    (l a : Option ℕ) (c : ℕ) (s : Search)
    → fits l a c s ≡ true
    → owns a c ≡ false
    → fits l a c finished ≡ true
unfolding fits
fits-finished l a c s h e = ground (arith, h, e)

pub stop_search-IsExclusive :
    (c : ℕ) (b : EngineBroker) → IsExclusive b → IsExclusive (stop_search c b).0
unfolding stop_search with_session Agree
stop_search-IsExclusive c b h = elim (Bool-cases (is_running (b.sessions c).search)) [
  | inr e ↦ rw e h
  | inl e ↦ elim (Bool-cases (owns b.active_session c)) [
    | inl a ↦ rw (e, a) (send_stop-IsExclusive b h)
    | inr a ↦
        rw (e, a)
          (Agree-put b.lock b.active_session b.lock b.active_session b.sessions c
            (record (b.sessions c) { search = finished }) h
            (fits-finished b.lock b.active_session c (b.sessions c).search (h c) a)
            (λ d n. (refl, refl)))
  ]
]

-- a search that does not run may wait for the lock
fits-waiting :
    (l a : Option ℕ) (c : ℕ) (s : Search) (g : String)
    → fits l a c s ≡ true
    → is_running s ≡ false
    → fits l a c (waiting g) ≡ true
unfolding fits
fits-waiting l a c s g h e = ground (arith, h, e)

IsExclusive-send :
    (c : ℕ) (line : String) (b : EngineBroker)
    → IsExclusive b
    → IsExclusive (with_session c (send line (b.sessions c)) b)
unfolding with_session
IsExclusive-send c line b h =
    Agree-same b.lock b.active_session b.sessions c (send line (b.sessions c)) h
      (send-search line (b.sessions c))

begin_search-IsExclusive :
    (c : ℕ) (text : String) (b : EngineBroker)
    → IsExclusive b
    → IsExclusive (begin_search c text b).0
unfolding begin_search with_session Agree
begin_search-IsExclusive c text b h = elim (Bool-cases (is_running (b.sessions c).search)) [
  | inl e ↦
      rw e
        (IsExclusive-send c "info string broker already has an active search for this client" b h)
  | inr e ↦ rw e (
      preempt-IsExclusive c (with_session c (record (b.sessions c) { search = waiting text }) b) (
        Agree-put b.lock b.active_session b.lock b.active_session b.sessions c
          (record (b.sessions c) { search = waiting text }) h
          (fits-waiting b.lock b.active_session c (b.sessions c).search text (h c) e)
          (λ d n. (refl, refl))))
]

pub handle-IsExclusive :
    (c : ℕ) (k : Command) (text : String) (b : EngineBroker)
    → IsExclusive b
    → IsExclusive (handle c k text b).0
unfolding handle with_session
handle-IsExclusive c ask_uci text b h =
    Agree-same b.lock b.active_session b.sessions c
      (send_all (uci_answer b.uci_banner) (b.sessions c)) h
      (send_all-search (uci_answer b.uci_banner) (b.sessions c))
handle-IsExclusive c ask_ready text b h = IsExclusive-send c "readyok" b h
handle-IsExclusive c new_game_command text b h =
    Agree-same b.lock b.active_session b.sessions c (record (b.sessions c) { new_game = true }) h
      refl
handle-IsExclusive c set_command text b h =
    Agree-same b.lock b.active_session b.sessions c (set_option text (b.sessions c)) h
      (set_option-search text (b.sessions c))
handle-IsExclusive c position_text text b h =
    Agree-same b.lock b.active_session b.sessions c
      (record (b.sessions c) { position_command = text }) h refl
handle-IsExclusive c go_text text b h = begin_search-IsExclusive c text b h
handle-IsExclusive c stop_command text b h = stop_search-IsExclusive c b h
handle-IsExclusive c quit_command text b h = h
handle-IsExclusive c ignored text b h = h
