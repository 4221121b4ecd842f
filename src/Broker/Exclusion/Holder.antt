-- ===== src/Broker/Exclusion/Holder.antt =====
-- The pieces of `_run_search` and `_disconnect` in broker/server.py keep the engine with one
-- client.
use chessy_mcp.Prelude.{ℕ, String, ◌≡◌, refl, true, some, List, arith, Bool-cases, inl, inr}
use chessy_mcp.Broker.Session.{failing, command_of}
use chessy_mcp.Broker.Search.{
  EngineBroker, put, with_session, send_engine, handle_command, acquire, fail, write, next_line,
  advance, clear_active, receive, give_up, close_session, disconnect,
}
use chessy_mcp.Broker.Steps.{Step, Reach, start, is_holding}
use chessy_mcp.Broker.Exclusion.{
  fits, Agree, IsExclusive, Agree-same, stop_search-IsExclusive, handle-IsExclusive, send-search,
}

acquire-IsExclusive :
    (threads hash : String) (c : ℕ) (b t : EngineBroker)
    → acquire threads hash c b ≡ some t
    → IsExclusive b
    → IsExclusive t
unfolding acquire with_session Agree put fits
acquire-IsExclusive threads hash c b t e h d = ground (arith, e, h d, h c)

fail-IsExclusive :
    (c : ℕ) (error : String) (b : EngineBroker)
    → is_holding (b.sessions c).search ≡ true
    → IsExclusive b
    → IsExclusive (fail c error b)
unfolding fail with_session Agree put fits
fail-IsExclusive c error b e h d = ground (arith, e, h d, h c)

give_up-IsExclusive :
    (c : ℕ) (error : String) (b : EngineBroker)
    → (b.sessions c).search ≡ failing error
    → IsExclusive b
    → IsExclusive (give_up c error b)
unfolding give_up clear_active with_session Agree put fits
give_up-IsExclusive c error b e h d = ground (arith, e, h d, h c)

receive-IsExclusive :
    (c : ℕ) (line : String) (b t : EngineBroker)
    → receive c line b ≡ some t
    → IsExclusive b
    → IsExclusive t
unfolding receive clear_active with_session Agree put fits
receive-IsExclusive c line b t e h d = ground (arith, e, h d, h c, send-search line (b.sessions c))

advance-IsExclusive :
    (c : ℕ) (b t : EngineBroker) → advance c b ≡ some t → IsExclusive b → IsExclusive t
unfolding advance next_line write fail send_engine with_session Agree put fits
advance-IsExclusive c b t e h d = ground (arith, e, h d, h c)

close_session-IsExclusive :
    (c : ℕ) (b : EngineBroker) → IsExclusive b → IsExclusive (close_session c b)
unfolding close_session with_session
close_session-IsExclusive c b h =
    Agree-same b.lock b.active_session b.sessions c (record (b.sessions c) { closed = true }) h refl

disconnect-IsExclusive : (c : ℕ) (b : EngineBroker) → IsExclusive b → IsExclusive (disconnect c b)
unfolding disconnect
disconnect-IsExclusive c b h = elim (Bool-cases (b.sessions c).closed) [
  | inl e ↦ rw e h
  | inr e ↦ rw e (stop_search-IsExclusive c (close_session c b) (close_session-IsExclusive c b h))
]

pub Step-IsExclusive :
    {threads hash : String} {b t : EngineBroker}
    → Step threads hash b t
    → IsExclusive b
    → IsExclusive t
unfolding with_session handle_command
Step-IsExclusive {b = b} (Step.command c text) h = handle-IsExclusive c (command_of text) text b h
Step-IsExclusive {threads} {hash} {b} (Step.lock c t e) h =
    acquire-IsExclusive threads hash c b t e h
Step-IsExclusive {b = b} (Step.send c t e) h = advance-IsExclusive c b t e h
Step-IsExclusive {b = b} (Step.read c line t e) h = receive-IsExclusive c line b t e h
Step-IsExclusive {b = b} (Step.read_fail c error e) h = fail-IsExclusive c error b e h
Step-IsExclusive {b = b} (Step.report c error e) h = give_up-IsExclusive c error b e h
Step-IsExclusive {b = b} (Step.leave c) h = disconnect-IsExclusive c b h
Step-IsExclusive {b = b} (Step.hang_up c) h =
    Agree-same b.lock b.active_session b.sessions c (record (b.sessions c) { is_closing = true }) h
      refl
Step-IsExclusive {b = b} Step.engine_exit h = h

pub Reach-IsExclusive :
    {threads hash : String} {banner : List String} {b : EngineBroker}
    → Reach threads hash (start banner) b
    → IsExclusive b
unfolding Agree fits
Reach-IsExclusive Reach.here = λ c. refl
Reach-IsExclusive (Reach.next r st) = Step-IsExclusive st (Reach-IsExclusive r)

-- However the clients' commands, the engine's answers and the failures interleave, at most one
-- client's search is between the acquisition and the release of the engine's lock, and that
-- client is the active session, which `stop` and a preemption look at.
pub Reach-holder :
    (threads hash : String) (banner : List String) (b : EngineBroker) (c d : ℕ)
    → Reach threads hash (start banner) b
    → is_holding (b.sessions c).search ≡ true
    → is_holding (b.sessions d).search ≡ true
    → (c ≡ d) × (b.active_session ≡ some c)
unfolding Agree fits
Reach-holder threads hash banner b c d r hc hd =
    ground (arith, Reach-IsExclusive r c, Reach-IsExclusive r d, hc, hd)
