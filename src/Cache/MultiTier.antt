-- ===== src/Cache/MultiTier.antt =====
-- mcp_server/cache/multi_tier.py: the two tiers together. While a call waits for SQLite, other
-- tasks may run: each call is given what they do to the tiers meanwhile (`during`), and how the
-- statements of SQLite end. The models and their JSON are pydantic's: a parameter.
pub mod Reads
use chessy_mcp.Prelude.{ℕ, String, Option, none, some, List, is_some, not, Bool, if◌then◌else◌}
use chessy_mcp.Cache.Memory
use chessy_mcp.Cache.Memory.{AsyncLruCache}
use chessy_mcp.Cache.Disk.{Table, Outcome, get_sync, set_sync, clear_sync}

-- `MCPEval` and `MCPMoveAnalysis` with their JSON; `none` is a validation error
pub record Models : Type 1 where
  pub Eval : Type 0
  pub Analysis : Type 0
  pub eval_of_json : String → Option Eval
  pub eval_to_json : Eval → String
  pub moves_of_json : String → Option (List Eval)
  pub moves_to_json : List Eval → String
  pub analysis_of_json : String → Option Analysis
  pub analysis_to_json : Analysis → String

-- what one SQLite write meets: how its blocks end, and the clock
pub record DiskWrite : Type 0 where
  pub first : Outcome
  pub again : Outcome
  pub now : ℕ
  pub pruned_at : ℕ

abbrev pub max_entries : ℕ
max_entries = 100000

module _ (m : Models) where
  open m use {
    Eval, Analysis, eval_of_json, eval_to_json, moves_of_json, moves_to_json, analysis_of_json,
    analysis_to_json,
  }

  -- the values of `AsyncLRUCache[Any]`
  pub data Value : Type 0 where
    eval : Eval → Value
    moves : List Eval → Value
    analysis : Analysis → Value

  pub record MultiTierCache : Type 0 where
    pub l1 : AsyncLruCache Value
    pub l2 : Table

  -- the `isinstance` tests
  abbrev pub as_eval : Option Value → Option Eval
  as_eval (some (eval v)) = some v
  as_eval _ = none

  abbrev pub as_moves : Option Value → Option (List Eval)
  as_moves (some (moves v)) = some v
  as_moves _ = none

  abbrev pub as_analysis : Option Value → Option Analysis
  as_analysis (some (analysis v)) = some v
  as_analysis _ = none

  -- a first look into the memory tier
  abbrev pub peek : String → MultiTierCache → Option Value × MultiTierCache
  peek key c = let (v, l1') = Memory.get key c.l1 in (v, record c { l1 = l1' })

  abbrev remember : String → Value → MultiTierCache → MultiTierCache
  remember key v c = record c { l1 = Memory.set key v c.l1 }

  module _ {A : Type 0} (cast : Option Value → Option A) (wrap : A → Value)
      (parse : String → Option A) where
    -- behind the wait: the row, if it parses, or the second look into the memory tier
    pub after_l2 : String → Option A → MultiTierCache → Option A × MultiTierCache
    after_l2 key (some v) c = (some v, remember key (wrap v) c)
    after_l2 key none c = let (v, c') = peek key c in (cast v, c')

    pub parsed : Option String → Option A
    parsed none = none
    parsed (some raw) = parse raw

    pub from_l2 :
        Outcome
        → (MultiTierCache → MultiTierCache)
        → String
        → MultiTierCache
        → Option A × MultiTierCache
    unfolding after_l2 parsed
    from_l2 disk during key c =
        let (raw, l2') = get_sync disk key c.l2 in
        after_l2 key (parsed raw) (during (record c { l2 = l2' }))

    pub read_through :
        Outcome
        → (MultiTierCache → MultiTierCache)
        → String
        → MultiTierCache
        → Option A × MultiTierCache
    unfolding from_l2
    read_through disk during key c =
        let (v, c') = peek key c in
        elim (cast v) [ some a ↦ (some a, c') | none ↦ from_l2 disk during key c' ]

  -- `text` is what goes into the row
  unfoldable pub write_through :
      DiskWrite → String → Value → String → MultiTierCache → MultiTierCache
  write_through disk key v text c =
      let (old, c') = peek key c in
      let written = remember key v c' in
      if not (is_some old)
      then record written {
        l2 = set_sync disk.first disk.again disk.now disk.pruned_at max_entries key text written.l2;
      }
      else written

  unfoldable pub get_eval :
      Outcome
      → (MultiTierCache → MultiTierCache)
      → String
      → MultiTierCache
      → Option Eval × MultiTierCache
  unfolding read_through
  get_eval = read_through as_eval eval eval_of_json

  unfoldable pub set_eval : DiskWrite → String → Eval → MultiTierCache → MultiTierCache
  unfolding write_through
  set_eval disk key v c = write_through disk key (eval v) (eval_to_json v) c

  unfoldable pub get_top_moves :
      Outcome
      → (MultiTierCache → MultiTierCache)
      → String
      → MultiTierCache
      → Option (List Eval) × MultiTierCache
  unfolding read_through
  get_top_moves = read_through as_moves moves moves_of_json

  unfoldable pub set_top_moves : DiskWrite → String → List Eval → MultiTierCache → MultiTierCache
  unfolding write_through
  set_top_moves disk key v c = write_through disk key (moves v) (moves_to_json v) c

  unfoldable pub get_classify :
      Outcome
      → (MultiTierCache → MultiTierCache)
      → String
      → MultiTierCache
      → Option Analysis × MultiTierCache
  unfolding read_through
  get_classify = read_through as_analysis analysis analysis_of_json

  unfoldable pub set_classify : DiskWrite → String → Analysis → MultiTierCache → MultiTierCache
  unfolding write_through
  set_classify disk key v c = write_through disk key (analysis v) (analysis_to_json v) c

  unfoldable pub clear : Outcome → MultiTierCache → MultiTierCache
  clear disk c = record { l1 = Memory.clear c.l1; l2 = clear_sync disk c.l2 }
