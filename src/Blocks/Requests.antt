-- ===== src/Blocks/Requests.antt =====
-- The four methods of src/service/blocks.rs. What the node answers, the caches that the read
-- transactions see and the repair slot are arguments, as for the stream.
pub mod Guards
pub mod Valid
use lightwalletd_rs.Base.{
  ℕ, suc, Bool, true, false, not, ◌&&◌, Option, none, some, List, map, ◌==◌, if◌then◌else◌, Result,
  ok, err, ◌>>=◌, ◌>>◌, is_empty, min,
}
use lightwalletd_rs.Base.Bytes.{Bytes}
use lightwalletd_rs.Base.Int.{ℤ}
use lightwalletd_rs.Blocks.{
  Run, Sent, serve_range, failure_of, block_at, validate_block_range, check_ingest_floor,
}
use lightwalletd_rs.Cache.{Cache}
use lightwalletd_rs.Fetch.{FetchError}
use lightwalletd_rs.Filter.{
  validate_pool_types, from_pool_types, from_pool_types_dropping_transparent, nullifiers_only,
  filter_block_to_pools, filter_block_to_pools_nullifiers_only,
}
use lightwalletd_rs.Framing.{Stream, coalesce}
use lightwalletd_rs.Proto.{CompactBlock, Codec}
use lightwalletd_rs.Repair.{RepairSignal}
use lightwalletd_rs.Status.{Status, invalid_argument, unimplemented}

pub record BlockId : Type 0 where
  pub height : ℕ
  pub hash : Bytes

pub record BlockRange : Type 0 where
  pub start : Option BlockId
  pub end : Option BlockId
  pub pool_types : List ℤ

-- The fields of `Streamer` that the methods read. `caches n` is the cache as the `n`-th read
-- transaction of a request sees it, and `fetch` is `fetch::compact_block` on the node.
pub record Streamer : Type 0 where
  pub caches : ℕ → Cache
  pub fetch : ℕ → Result FetchError CompactBlock
  pub repair : Option RepairSignal
  pub ingest_floor : Option ℕ

abbrev pub required : Option BlockId → Result Status BlockId
required none = err invalid_argument
required (some id) = ok id

-- What the stream hands to the transport: its batches, and the error that ends it.
abbrev pub Response : Type 0
Response = List (List CompactBlock) × Option Status

module _ (codec : Codec) (encoded_len : CompactBlock → ℕ) where
  unfoldable pub get_block : Streamer → BlockId → Result Status CompactBlock
  unfolding block_at
  get_block streamer id =
      if id.height == 0 && is_empty id.hash
      then err invalid_argument
      else if not (is_empty id.hash)
      then err unimplemented
      else block_at codec streamer.fetch (streamer.caches 0) id.height

  unfoldable pub get_block_nullifiers : Streamer → BlockId → Result Status CompactBlock
  unfolding block_at nullifiers_only
  get_block_nullifiers streamer id =
      if id.height == 0 && is_empty id.hash
      then err invalid_argument
      else if not (is_empty id.hash)
      then err unimplemented
      else block_at codec streamer.fetch (streamer.caches 0) id.height >>= λ block.
          ok (nullifiers_only block)

  -- The stream, and the repair slot after it.
  unfoldable pub block_range_stream :
      Streamer → ℕ → ℕ → (CompactBlock → CompactBlock) → Response × Option RepairSignal
  unfolding serve_range coalesce
  block_range_stream streamer start end' transform =
      let run = serve_range codec streamer.fetch streamer.caches start end' streamer.repair in
      (
        coalesce encoded_len (record {
          messages = map (λ s. transform s.block) run.sent;
          failure = failure_of run.ending;
        }),
        run.repair,
      )

  -- The part that the two range methods share: the read transaction of the floor check is the
  -- first, and the stream's follow.
  unfoldable pub serve_valid :
      Streamer
      → BlockRange
      → (CompactBlock → CompactBlock)
      → Result Status (Response × Option RepairSignal)
  unfolding check_ingest_floor validate_block_range block_range_stream
  serve_valid streamer range transform = do
    start ← required range.start
    end' ← required range.end
    validate_block_range start.height end'.height
    check_ingest_floor streamer.ingest_floor (streamer.caches 0) (min start.height end'.height)
    ok (
        block_range_stream (record streamer { caches = λ n. streamer.caches (suc n) }) start.height
          end'.height transform)

  unfoldable pub get_block_range :
      Streamer → BlockRange → Result Status (Response × Option RepairSignal)
  unfolding validate_pool_types serve_valid filter_block_to_pools from_pool_types
  get_block_range streamer range = do
    validate_pool_types range.pool_types
    serve_valid streamer range
        λ block. filter_block_to_pools block (from_pool_types range.pool_types)

  unfoldable pub get_block_range_nullifiers :
      Streamer → BlockRange → Result Status (Response × Option RepairSignal)
  unfolding validate_pool_types serve_valid filter_block_to_pools_nullifiers_only
      from_pool_types_dropping_transparent
  get_block_range_nullifiers streamer range = do
    validate_pool_types range.pool_types
    serve_valid streamer range λ block.
        filter_block_to_pools_nullifiers_only block
          (from_pool_types_dropping_transparent range.pool_types)
