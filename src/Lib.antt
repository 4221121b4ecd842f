-- ===== src/Lib.antt =====
-- A model of chessy-mcp, a server that answers chess questions of MCP clients with Stockfish, and
-- theorems on it.
--
-- A tool call passes the rate limiter, reads the position, and asks for an evaluation. The
-- evaluation is looked up in a cache of two tiers, and callers that want the same one share a
-- single computation. A computation borrows a handler from a pool of engines, which replaces
-- handlers that crash; calls to the engine are tried again after a transport error, behind a
-- circuit breaker. What the rules say of the position (draw claims, and what to recommend) is added
-- to the answer, and a move that was played is graded by the evaluations before and after it.
--
-- Which file models what:
--   Cache.antt, Cache/: mcp_server/cache. Memory.antt is `AsyncLRUCache` with `get`, `set`, `clear`;
--     Disk.antt is the table of `SQLiteDiskCache`, where `get_sync`, `set_sync` and `clear_sync`
--     take the outcome of the database as an argument; MultiTier.antt is `MultiTierCache`, whose
--     reads take what other tasks do at the wait; SingleFlight.antt is `SingleFlight.do`, cut at
--     its waits into `enter`, `settle` and `leave`.
--   Engine.antt, Engine/: Pool.antt is `_EnginePool` of core/engines/pool.py, each method cut at its
--     waits, and Pool/Steps.antt is the relation of all interleavings of callers, the self-heal task
--     and `close`; Retry.antt is mcp_server/engine/retry.py, with the result of each attempt as an
--     argument; ParallelGather.antt is mcp_server/engine/parallel_gather.py; Zeroing.antt is
--     zeroing_post_state.py and zeroing_post_state_all.py, and Override.antt what `_compute_pos` of
--     cached_evaluator.py does near a draw by the clock, with the engine as an argument.
--   Broker.antt, Broker/: broker/server.py, where UCI clients share one Stockfish process.
--     Session.antt is `ClientSession` with what `_handle_command` tests and sets, Search.antt the
--     broker's state, `_handle_command`, `_disconnect` and `_run_search` cut at its awaits, and
--     Steps.antt the relation of all interleavings.
--   Explorer.antt, Explorer/: mcp_server/lichess_explorer. Client.antt is `query` and `_parse_body`
--     of client.py, Cache.antt is `get_or_fetch` of cache.py.
--   Parsers.antt, Parsers/: mcp_server/parsers. Semicolon.antt is pgn/semicolon.py,
--     and Castling.antt is pgn_validate/castling.py.
--   Middleware.antt, Middleware/: RateLimit.antt is mcp_server/middleware/rate_limit.py;
--     Admission.antt is the call of the middleware in request_logger.py with client_ip.py, which asks
--     the limiter, and Texts.antt the texts that it reads.
--   Chess.antt: what the code calls of python-chess, a record that the other modules take.
--   Rules.antt, Rules/: ActionChoice.antt is mcp_server/rules/action_choice.py with its constants;
--     DeadPosition.antt is dead_position.py, whose two loops over a queue take the number of rounds:
--     64, since a square is taken from the queue once, and `reachable_lem` shows that this ends
--     them; Terminal.antt is terminal.py; Status.antt is the record of
--     mcp_server/domain/rule_status.py with the small functions of status.py, and Evaluate.antt is
--     `evaluate_rule_status`, where the order in which Python lists a set is a parameter; Pv.antt
--     is pv.py.
--   Grading.antt, Grading/: mcp_server/analysis/move_grading. Score.antt is the score of
--     mcp_server/models/legacy.py with `finalize_score` of types.py, Terminal.antt, Draw.antt,
--     Transitions.antt and Standard.antt are the modules of strategies/, Helpers.antt is helpers.py,
--     Enforce.antt, Dispatch.antt and Played.antt are dispatcher.py: `grade` is `dispatch_score`
--     behind its calls of `evaluate_rule_status`, and `dispatch_score` makes the calls. The win
--     probability, a function of floats, is a parameter.
--   Contracts.antt, Contracts/: MateState.antt is mcp_server/contracts/mate_state.py, with
--     `_info_to_eval` of mcp_server/tcp_analyzer.py; Candidates.antt is candidates.py, with the
--     general parser of moves as an argument.
--   Domain.antt, Domain/: Action.antt is mcp_server/domain/action.py, the actions that an answer
--     offers; ActionEvaluation.antt is action_evaluation.py.
--   Analysis.antt, Analysis/: mcp_server/analysis. PracticalEquivalence.antt and its Judge.antt are
--     practical_equivalence.py; Reconcile.antt and its Result.antt are termination_resolution.py,
--     reconciliation_warnings.py and result_reconciliation.py, where the reading of a Termination
--     tag is an argument. Stability.antt compares two searches as classification_stability.py does,
--     Stability/Verify.antt is its verification, Stability/Selected.antt what
--     practical_equivalence.py then reads of it, and Stability/Unanimous.antt what its verdict rests
--     on. Coaching.antt and its Segments.antt are the phases of a game in game_coaching.py, which
--     Coaching/Lookahead.antt describes anew.
--   Tools.antt, Tools/: mcp_server/tools/_common.py. Termination.antt reads a Termination tag, with
--     its regular expressions; Inputs.antt is the verbosity and the codes of errors.
--   Tests.antt, Tests/: runs on small inputs.
--   Prelude.antt, Prelude/: shared names, lists and dictionaries, and Python's integers.
--
-- Python's dictionaries are association lists in insertion order. Times are natural numbers of
-- milliseconds, and floats that only bound or count are integers of a smaller unit. The cooperative
-- scheduler of asyncio is modelled by cutting each coroutine where it waits: the pieces are steps,
-- and the theorems quantify over all sequences of them. Loops are structural: the eviction loop of
-- the disk tier drops a given number of rows, and the retry loop counts the rounds that are left, so
-- no fuel is needed.
--
-- Not modelled: sockets, HTTP, files and SQLite itself, the engine's search, python-chess (a
-- parameter), log lines, metrics and response schemas. PROJECT.json lists every component.
pub mod Prelude
pub mod Cache
pub mod Engine
pub mod Broker
pub mod Explorer
pub mod Parsers
pub mod Middleware
pub mod Chess
pub mod Rules
pub mod Domain
pub mod Grading
pub mod Contracts
pub mod Analysis
pub mod Tools
mod Tests
