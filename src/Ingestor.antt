-- ===== src/Ingestor.antt =====
-- src/ingestor.rs: the task that fills the block cache from the node. One round of its loop is a
-- function of the cache, of what the node answers, and of how the fetch tasks of a window end.
pub mod Budget
pub mod Chains
pub mod Window
pub mod Steps
pub mod Loop
use lightwalletd_rs.Base.{
  ℕ, zero, suc, ◌+◌, ◌-◌, ◌*◌, Bool, true, false, not, ◌&&◌, ◌||◌, Option, none, some, List, [],
  ◌∷◌, ◌++◌, ltb, leb, ◌==◌, ◌=ᵇ◌, if◌then◌else◌, Result, ok, err, is_empty, min, add64, sat_add64,
}
use lightwalletd_rs.Base.Bytes.{Bytes}
use lightwalletd_rs.Base.Table.{Table}
use lightwalletd_rs.Cache.{
  Cache, CacheError, decode, corruption, range, latest_height, latest_hash, get, add_batch,
}
use lightwalletd_rs.Cache.Check.{lowest_corrupt_height}
use lightwalletd_rs.Cache.Truncate.{reorg, truncate_from}
use lightwalletd_rs.Encoding.{Hex, display_hex_to_wire}
use lightwalletd_rs.Fetch.{FetchError}
use lightwalletd_rs.Node.{NodeError, GetBlockchainInfo}
use lightwalletd_rs.Proto.{CompactBlock, Codec}
use lightwalletd_rs.Repair.{RepairSignal, report}

abbrev pub max_consecutive_recoveries : ℕ
max_consecutive_recoveries = 5

abbrev pub max_repairs_per_window : ℕ
max_repairs_per_window = 5

-- 600 seconds, in nanoseconds, which an `Instant` counts.
abbrev pub repair_window : ℕ
repair_window = 600 * 1000000000

pub record RepairBudget : Type 0 where
  pub spent : ℕ
  pub window_started : ℕ
  pub refusal_logged : Bool

abbrev pub new_budget : ℕ → RepairBudget
new_budget now = record { spent = 0; window_started = now; refusal_logged = false }

-- The window of `now`. `duration_since` stops at 0.
abbrev pub current_window : RepairBudget → ℕ → RepairBudget
current_window budget now =
    if leb repair_window (now - budget.window_started) then new_budget now else budget

unfoldable pub try_spend : RepairBudget → ℕ → Bool × RepairBudget
try_spend budget now =
    let current = current_window budget now in
    if leb max_repairs_per_window current.spent
    then (false, current)
    else (true, record current { spent = current.spent + 1 })

unfoldable pub first_refusal_of_window : RepairBudget → Bool × RepairBudget
first_refusal_of_window budget =
    (not budget.refusal_logged, record budget { refusal_logged = true })

pub data Progress : Type 0 where
  advanced idle : Progress

pub data StepError : Type 0 where
  node_failed : NodeError → StepError
  fetch_failed : FetchError → StepError
  cache_failed : CacheError → StepError
  encoding_failed fetch_task : StepError

-- Both variants of `CacheError` that are modelled are recoverable; those of redb are not modelled.
abbrev pub is_corruption : StepError → Bool
is_corruption (cache_failed decode) = true
is_corruption (cache_failed (corruption height detail)) = true
is_corruption _ = false

unfoldable pub should_recover : StepError → ℕ → Bool
should_recover error consecutive_recoveries =
    is_corruption error && ltb consecutive_recoveries max_consecutive_recoveries

abbrev pub would_not_lower_tip : ℕ → Option ℕ → Bool
would_not_lower_tip target none = true
would_not_lower_tip target (some tip) = leb tip target

unfoldable pub reorg_to_floor : Cache → ℕ → ℕ → Cache × Result CacheError (Unit {0})
unfolding truncate_from reorg
reorg_to_floor c target start_height =
    if ltb target start_height || would_not_lower_tip target (latest_height c)
    then truncate_from c 0
    else reorg c target

unfoldable pub recover : Codec → Cache → Cache × Result CacheError (Unit {0})
unfolding lowest_corrupt_height reorg
recover codec c = elim (lowest_corrupt_height codec c) [
  | none ↦ (c, ok tt)
  | some corrupt ↦ reorg c (corrupt - 1)
]

abbrev pub in_cached_range : ℕ → Option (ℕ × ℕ) → Bool
in_cached_range height none = false
in_cached_range height (some (base, tip)) = leb base height && leb height tip

-- The cache, the slot and the budget after a report is acted on; a failed truncation keeps the cache.
unfoldable pub repair_reported :
    Cache → ℕ → ℕ → RepairSignal → RepairBudget → ℕ → Cache × RepairSignal × RepairBudget
unfolding range try_spend first_refusal_of_window report reorg_to_floor
repair_reported c height start_height repair budget now =
    if not (in_cached_range height (range c))
    then (c, repair, budget)
    else (let (allowed, charged) = try_spend budget now in
        if not allowed
        then (c, report repair height, (first_refusal_of_window charged).1)
        else ((reorg_to_floor c (height - 1) start_height).0, repair, charged))

-- How the task that fetches one height of a window ends.
pub data Joined : Type 0 where
  joined : Result FetchError CompactBlock → Joined
  panicked cancelled : Joined

-- The results by height in ascending order, and whether a task panicked.
unfoldable pub fetch_window : (ℕ → Joined) → ℕ → ℕ → Table (Result FetchError CompactBlock) × Bool
fetch_window tasks first zero = ([], false)
fetch_window tasks first (suc n) =
    let (results, any_panicked) = fetch_window tasks (suc first) n in
    elim (tasks first) [
      | joined result ↦ ((first, result) ∷ results, any_panicked)
      | panicked ↦ (results, true)
      | cancelled ↦ (results, any_panicked)
    ]

-- What the loop over the results keeps of a window.
pub data Kept : Type 0 where
  reorged : Kept
  kept : List CompactBlock → Option StepError → Kept

abbrev pub mismatches : Option Bytes → CompactBlock → Bool
mismatches none block = false
mismatches (some prev) block = not (prev =ᵇ block.prev_hash)

unfoldable pub keep_prefix :
    ℕ → Table (Result FetchError CompactBlock) → Option Bytes → List CompactBlock → Kept
keep_prefix expected [] prev batch = kept batch none
keep_prefix expected ((height, result) ∷ rest) prev batch =
    if not (height == expected) then kept batch none else elim result [
      | err e ↦ kept batch (some (fetch_failed e))
      | ok block ↦ elim (mismatches prev block) [
        | true ↦ (if is_empty batch then reorged else kept batch none)
        | false ↦ keep_prefix (suc expected) rest (some block.hash) (batch ++ block ∷ [])
      ]
    ]

abbrev pub rolled_back : Cache × Result CacheError (Unit {0}) → Cache × Result StepError Progress
rolled_back (c, ok u) = (c, ok advanced)
rolled_back (c, err e) = (c, err (cache_failed e))

-- How a window without a usable block ends.
abbrev pub nothing_usable : Option StepError → Bool → Result StepError Progress
nothing_usable (some e) any_panicked = err e
nothing_usable none true = err fetch_task
nothing_usable none false = ok advanced

module _ (codec : Codec) (hex : Hex) (start_height window : ℕ) where
  unfoldable pub commit_window : Cache → ℕ → Kept → Bool → Cache × Result StepError Progress
  unfolding reorg_to_floor add_batch
  commit_window c next reorged any_panicked = rolled_back (reorg_to_floor c (next - 2) start_height)
  commit_window c next (kept [] failure) any_panicked = (c, nothing_usable failure any_panicked)
  commit_window c next (kept (b ∷ batch) failure) any_panicked =
      rolled_back (add_batch codec c (b ∷ batch))

  unfoldable pub ingest_from : Cache → (ℕ → Joined) → ℕ → ℕ → Cache × Result StepError Progress
  unfolding latest_hash fetch_window keep_prefix commit_window
  ingest_from c tasks next tip_height =
      if ltb tip_height next
      then (c, ok idle)
      else (let last = min tip_height (sat_add64 next (window - 1)) in
          let (results, any_panicked) = fetch_window tasks next (suc last - next) in
          elim (latest_hash codec c) [
            | err e ↦ (c, err (cache_failed e))
            | ok prev_hash ↦
                commit_window c next (keep_prefix next results prev_hash []) any_panicked
          ])

  abbrev pub is_hash : Option Bytes → Bytes → Bool
  is_hash none tip_hash = false
  is_hash (some latest) tip_hash = latest =ᵇ tip_hash

  unfoldable pub compare_tip : Cache → Bytes → ℕ → Cache × Result StepError Progress
  unfolding latest_hash reorg_to_floor
  compare_tip c tip_hash latest = elim (latest_hash codec c) [
    | err e ↦ (c, err (cache_failed e))
    | ok held ↦
        if is_hash held tip_hash
        then (c, ok idle)
        else rolled_back (reorg_to_floor c (latest - 1) start_height)
  ]

  unfoldable pub compare_behind : Cache → Bytes → ℕ → ℕ → Cache × Result StepError Progress
  unfolding get reorg_to_floor
  compare_behind c tip_hash tip_height latest = elim (get codec c tip_height) [
    | err e ↦ (c, err (cache_failed e))
    | ok none ↦ (c, ok idle)
    | ok (some cached) ↦
        if cached.hash =ᵇ tip_hash
        then (c, ok idle)
        else rolled_back (reorg_to_floor c (latest - 1) start_height)
  ]

  abbrev pub with_hash :
      Cache
      → GetBlockchainInfo
      → (Bytes → Cache × Result StepError Progress)
      → Cache × Result StepError Progress
  with_hash c info continue' = elim (display_hex_to_wire hex info.bestblockhash) [
    | err e ↦ (c, err encoding_failed)
    | ok tip_hash ↦ continue' tip_hash
  ]

  -- `tasks` says how the fetch of each height ends, if the step gets to it.
  unfoldable pub step :
      Cache → Result NodeError GetBlockchainInfo → (ℕ → Joined) → Cache × Result StepError Progress
  unfolding ingest_from compare_tip compare_behind display_hex_to_wire
  step c (err e) tasks = (c, err (node_failed e))
  step c (ok info) tasks = elim (latest_height c) [
    | none ↦ ingest_from c tasks start_height info.blocks
    | some latest ↦
        if latest == info.blocks
        then with_hash c info (λ tip_hash. compare_tip c tip_hash latest)
        else if ltb info.blocks latest
        then with_hash c info (λ tip_hash. compare_behind c tip_hash info.blocks latest)
        else ingest_from c tasks (add64 latest 1) info.blocks
  ]
