-- ===== src/Blocks.antt =====
-- src/service/blocks.rs: serving single blocks and block ranges. The cache that each read
-- transaction sees is an argument, since the ingestor may change it between two of them, and so is
-- what the node answers for each height.
pub mod Requests
pub mod Steps
pub mod Heights
pub mod Sources
pub mod Links
pub mod Stream
use lightwalletd_rs.Base.{
  ℕ, zero, suc, ◌+◌, ◌-◌, Bool, true, false, not, ◌&&◌, ◌||◌, Option, none, some, List, [], ◌∷◌,
  map, ltb, leb, ◌==◌, ◌=ᵇ◌, if◌then◌else◌, Result, ok, err, ◌>>=◌, ◌>>◌, map_err, ok_or, is_empty,
  min, max, add64, sat_add64, sub64, reverse, ◌*◌, ◌++◌,
}
use lightwalletd_rs.Base.Bytes.{Bytes}
use lightwalletd_rs.Base.Int.{ℤ}
use lightwalletd_rs.Base.Table.{Table, lookup, retain_keys}
use lightwalletd_rs.Cache.{Cache, CacheError, CachedChunk, get, range, read_chunk, decode}
use lightwalletd_rs.Errors.{from_cache_error, block_fetch_to_status}
use lightwalletd_rs.Fetch.{FetchError}
use lightwalletd_rs.Filter.{
  Pools, validate_pool_types, from_pool_types, from_pool_types_dropping_transparent,
  nullifiers_only, filter_block_to_pools, filter_block_to_pools_nullifiers_only,
}
use lightwalletd_rs.Proto.{CompactBlock, Codec}
use lightwalletd_rs.Repair.{RepairSignal, report}
use lightwalletd_rs.Status.{Status, invalid_argument, unimplemented, out_of_range, aborted}

abbrev pub max_block_range : ℕ
max_block_range = 10000

abbrev pub abs_diff : ℕ → ℕ → ℕ
abs_diff a b = if leb a b then b - a else a - b

unfoldable pub validate_block_range : ℕ → ℕ → Result Status (Unit {0})
validate_block_range start end =
    if start == 0 || end == 0
    then err invalid_argument
    else if ltb max_block_range (add64 (abs_diff start end) 1)
    then err invalid_argument
    else ok tt

abbrev pub floor_of : ℕ → Option (ℕ × ℕ) → ℕ
floor_of configured none = configured
floor_of configured (some (base, tip)) = base

-- `ingest_floor` is the streamer's field.
unfoldable pub check_ingest_floor : Option ℕ → Cache → ℕ → Result Status (Unit {0})
unfolding range
check_ingest_floor none cache low = ok tt
check_ingest_floor (some configured) cache low =
    if ltb low (floor_of configured (range cache)) then err out_of_range else ok tt

abbrev pub cache_read_chunk : ℕ
cache_read_chunk = 64

abbrev pub cache_read_chunk_bytes : ℕ
cache_read_chunk_bytes = 512 * 1024

unfoldable pub chunk_from : ℕ → ℕ → ℕ → Bool → ℕ × ℕ
chunk_from cursor low high true = (max (cursor - (cache_read_chunk - 1)) low, cursor)
chunk_from cursor low high false = (cursor, min (sat_add64 cursor (cache_read_chunk - 1)) high)

pub data BlockSource : Type 0 where
  from_cache from_node : BlockSource

pub record ChainLink : Type 0 where
  pub height : ℕ
  pub expected_hash : Bytes
  pub source : BlockSource

abbrev pub after : ℕ → CompactBlock → Bool → BlockSource → ChainLink
after height block descending source = record {
  height = height;
  expected_hash = if descending then block.prev_hash else block.hash;
  source = source;
}

abbrev pub is_cache : BlockSource → Bool
is_cache from_cache = true
is_cache from_node = false

-- Whether `block` is the one that the link expects next.
abbrev pub connects : ChainLink → CompactBlock → Bool → Bool
connects link block descending =
    (if descending then block.hash else block.prev_hash) =ᵇ link.expected_hash

abbrev pub report_to : Option RepairSignal → ℕ → Option RepairSignal
report_to none height = none
report_to (some s) height = some (report s height)

-- `ChainLink::check`: the result, and the repair slot afterwards.
unfoldable pub check :
    ChainLink
    → CompactBlock
    → ℕ
    → Bool
    → BlockSource
    → Option RepairSignal
    → Result Status (Unit {0}) × Option RepairSignal
check link block height descending source repair =
    if connects link block descending
    then (ok tt, repair)
    else if is_cache link.source || is_cache source
    then (err aborted, report_to repair (min height link.height))
    else (err aborted, repair)

-- The heights from `low` to `high` in the order in which they are served.
abbrev pub up : ℕ → ℕ → List ℕ
up from zero = []
up from (suc n) = from ∷ up (suc from) n

abbrev pub heights : ℕ × ℕ → Bool → List ℕ
heights (first, last) true = reverse (up first (suc last - first))
heights (first, last) false = up first (suc last - first)

-- One block that the stream yields, before `transform`.
pub record Sent : Type 0 where
  pub height : ℕ
  pub block : CompactBlock
  pub source : BlockSource

abbrev pub sent_at : ℕ → CompactBlock × BlockSource → Sent
sent_at height (block, source) = record { height = height; block = block; source = source }

-- Why the stream yields no more.
pub data Ending : Type 0 where
  finished out_of_fuel : Ending
  failed : Status → Ending

-- What a part of the stream yields, the repair slot after it, and the link that it leaves.
pub record Served : Type 0 where
  pub sent : List Sent
  pub repair : Option RepairSignal
  pub link : Result Status (Option ChainLink)

pub record Run : Type 0 where
  pub sent : List Sent
  pub repair : Option RepairSignal
  pub ending : Ending

abbrev pub failure_of : Ending → Option Status
failure_of finished = none
failure_of out_of_fuel = none
failure_of (failed s) = some s

abbrev pub remove : ℕ → Table Bytes → Table Bytes
remove height = retain_keys (λ k. not (k == height))

unfoldable pub check_link :
    Option ChainLink
    → CompactBlock
    → ℕ
    → Bool
    → BlockSource
    → Option RepairSignal
    → Result Status (Unit {0}) × Option RepairSignal
unfolding check
check_link none block height descending source repair = (ok tt, repair)
check_link (some previous) block height descending source repair =
    check previous block height descending source repair

abbrev pub is_last : ℕ × ℕ → ℕ → ℕ → Bool → Bool
is_last covered low high true = leb covered.0 low
is_last covered low high false = leb high covered.1

abbrev pub next_cursor : ℕ × ℕ → Bool → ℕ
next_cursor covered true = sub64 covered.0 1
next_cursor covered false = add64 covered.1 1

-- `fetch` is `fetch::compact_block` on what the node answers for a height.
module _ (codec : Codec) (fetch : ℕ → Result FetchError CompactBlock) where
  abbrev from_fetch : ℕ → Result Status CompactBlock
  from_fetch height = map_err (λ e. block_fetch_to_status e height) (fetch height)

  unfoldable pub block_at : Cache → ℕ → Result Status CompactBlock
  unfolding get
  block_at cache height = do
    cached ← map_err from_cache_error (get codec cache height)
    elim cached [ none ↦ from_fetch height | some block ↦ ok block ]

  -- The block of one height of the stream: the chunk's, or else the node's.
  unfoldable pub resolve : Table Bytes → ℕ → Result Status (CompactBlock × BlockSource)
  resolve cached height = elim (lookup height cached) [
    | some bytes ↦ do
      block ← map_err from_cache_error (ok_or decode (codec.decode bytes))
      ok (block, from_cache)
    | none ↦ do block ← from_fetch height; ok (block, from_node)
  ]

  -- The inner loop, over the heights of one chunk.
  unfoldable pub serve_heights :
      Bool → Table Bytes → List ℕ → Option ChainLink → Option RepairSignal → Served
  unfolding check_link resolve
  serve_heights descending cached [] link repair = record {
    sent = [];
    repair = repair;
    link = ok link;
  }
  serve_heights descending cached (height ∷ rest) link repair = elim (resolve cached height) [
    | err e ↦ record { sent = []; repair = repair; link = err e }
    | ok (block, source) ↦
        let (checked, repair') = check_link link block height descending source repair in
        elim checked [
          | err e ↦ record { sent = []; repair = repair'; link = err e }
          | ok _ ↦
              let served =
                serve_heights descending (remove height cached) rest
                  (some (after height block descending source)) repair' in
              record served { sent = sent_at height (block, source) ∷ served.sent }
        ]
  ]

  -- The outer loop: `caches n` is the cache in the `n`-th read transaction.
  unfoldable pub serve_chunks :
      (ℕ → Cache) → ℕ → ℕ → Bool → ℕ → ℕ → ℕ → Option ChainLink → Option RepairSignal → Run
  unfolding chunk_from read_chunk serve_heights
  serve_chunks caches low high descending zero round cursor link repair = record {
    sent = [];
    repair = repair;
    ending = out_of_fuel;
  }
  serve_chunks caches low high descending (suc fuel) round cursor link repair =
      let chunk =
        read_chunk (caches round) (chunk_from cursor low high descending) descending
          cache_read_chunk_bytes in
      let served =
        serve_heights descending chunk.blocks (heights chunk.covered descending) link repair in
      elim served.link [
        | err e ↦ record { sent = served.sent; repair = served.repair; ending = failed e }
        | ok link' ↦ elim (is_last chunk.covered low high descending) [
          | true ↦ record { sent = served.sent; repair = served.repair; ending = finished }
          | false ↦
              let run =
                serve_chunks caches low high descending fuel (suc round)
                  (next_cursor chunk.covered descending) link' served.repair in
              record run { sent = served.sent ++ run.sent }
        ]
      ]

  -- Every chunk serves a height, so that many rounds are enough.
  unfoldable pub serve_range : (ℕ → Cache) → ℕ → ℕ → Option RepairSignal → Run
  unfolding serve_chunks
  serve_range caches start end' repair =
      let descending = ltb end' start in
      let low = min start end' in
      let high = max start end' in
      serve_chunks caches low high descending (suc (high - low)) 0
        (if descending then high else low) none repair
