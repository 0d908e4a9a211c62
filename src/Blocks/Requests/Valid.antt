-- ===== src/Blocks/Requests/Valid.antt =====
-- Which block ranges the range methods of src/service/blocks.rs accept, and what they answer.
use lightwalletd_rs.Blocks.Requests.Guards.{
  validate_block_range_iff, Fits, AboveFloor, check_ingest_floor_iff, no_invalid_iff,
}
use mathlib.Core.Path.{subst}
use lightwalletd_rs.Base.{
  ℕ, suc, ◌-◌, ◌≤◌, ◌<◌, ◌≡◌, ◌≢◌, ◌⊎◌, inl, inr, refl, Option, some, map, length, All, arith,
  Result, ok, err, Result-cases, ◌>>◌, >>=-eq-ok, ok_injective, min, max,
}
use lightwalletd_rs.Base.Int.{pos}
use lightwalletd_rs.Blocks.{validate_block_range, check_ingest_floor, serve_range, failure_of}
use lightwalletd_rs.Blocks.Requests.{
  Streamer, BlockRange, BlockId, Response, required, get_block_range, get_block_range_nullifiers,
  serve_valid, block_range_stream,
}
use lightwalletd_rs.Filter.{
  validate_pool_types, from_pool_types, from_pool_types_dropping_transparent, filter_block_to_pools,
  filter_block_to_pools_nullifiers_only,
}
use lightwalletd_rs.Filter.Requests.{validate_pool_types_iff}
use lightwalletd_rs.Framing.{flatten, coalesce-transparent}
use lightwalletd_rs.Proto.{CompactBlock, Codec}
use lightwalletd_rs.Repair.{RepairSignal}
use lightwalletd_rs.Status.{Status}

-- The batches hold the blocks of the range stream, each through `transform`.
abbrev pub Delivers :
    Codec
    → Streamer
    → ℕ
    → ℕ
    → (CompactBlock → CompactBlock)
    → Response × Option RepairSignal
    → Type 0
Delivers codec streamer start end' transform answer =
    let run = serve_range codec streamer.fetch streamer.caches start end' streamer.repair in
    (flatten answer.0.0 ≡ map (λ s. transform s.block) run.sent)
    × (answer.0.1 ≡ failure_of run.ending)
    × (answer.1 ≡ run.repair)

-- A request for the range from `start` to `end'` that is to be answered, as the first read transaction
-- shows the cache.
pub record Accepts (streamer : Streamer) (asked : BlockRange) (start end' : BlockId) : Type 0 where
  pub few_pools : length asked.pool_types ≤ 16
  pub valid_pools : All (λ pool. pool ≢ pos 0) asked.pool_types
  pub start_is : asked.start ≡ some start
  pub end_is : asked.end ≡ some end'
  pub start_named : 1 ≤ start.height
  pub end_named : 1 ≤ end'.height
  pub narrow : max start.height end'.height - min start.height end'.height < 10000
  pub above_floor :
      AboveFloor streamer.ingest_floor (streamer.caches 0).blocks (min start.height end'.height)

-- A request is answered with the blocks of the range stream, each through `transform`, and the error
-- that ends the stream, if it is one to answer; every other one is refused.
abbrev pub Answers :
    Codec
    → Streamer
    → BlockRange
    → (CompactBlock → CompactBlock)
    → Result Status (Response × Option RepairSignal)
    → Type 0
Answers codec streamer asked transform outcome =
    ((start : BlockId) × (end' : BlockId) × Accepts streamer asked start end'
      × (answer : Response × Option RepairSignal) × (outcome ≡ ok answer)
      × Delivers codec (record streamer { caches = λ n. streamer.caches (suc n) }) start.height
          end'.height transform answer)
    ⊎ ((¬ ((start : BlockId) × (end' : BlockId) × Accepts streamer asked start end'))
        × (e : Status) × (outcome ≡ err e))

module _ (codec : Codec) (encoded_len : CompactBlock → ℕ) where
  block_range_stream-flatten :
      (streamer : Streamer) (start end' : ℕ) (transform : CompactBlock → CompactBlock)
      → Delivers codec streamer start end' transform
          (block_range_stream codec encoded_len streamer start end' transform)
  unfolding block_range_stream
  block_range_stream-flatten streamer start end' transform =
      let run = serve_range codec streamer.fetch streamer.caches start end' streamer.repair in
      let whole = coalesce-transparent encoded_len (record {
        messages = map (λ s. transform s.block) run.sent;
        failure = failure_of run.ending;
      }) in
      (whole.0, whole.1, refl)

  required-eq-ok : (o : Option BlockId) (id : BlockId) → required o ≡ ok id → o ≡ some id
  required-eq-ok o id h = ground arith

  -- The part that the two methods share, after the test of the pool types.
  abbrev request :
      Streamer
      → BlockRange
      → (CompactBlock → CompactBlock)
      → Result Status (Response × Option RepairSignal)
  request streamer asked transform =
      validate_pool_types asked.pool_types >> serve_valid codec encoded_len streamer asked transform

  abbrev answer_of :
      Streamer → (CompactBlock → CompactBlock) → BlockId → BlockId → Response × Option RepairSignal
  answer_of streamer transform start end' =
      block_range_stream codec encoded_len
        (record streamer { caches = λ n. streamer.caches (suc n) }) start.height end'.height
        transform

  request-Accepts :
      (streamer : Streamer) (asked : BlockRange) (transform : CompactBlock → CompactBlock)
      (answer : Response × Option RepairSignal)
      → Fits asked.start
      → Fits asked.end
      → request streamer asked transform ≡ ok answer
      → (start : BlockId) × (end' : BlockId) × Accepts streamer asked start end'
        × (answer_of streamer transform start end' ≡ answer)
  unfolding serve_valid
  request-Accepts streamer asked transform answer fits fits' h =
      let (u, pools, h0) = >>=-eq-ok (validate_pool_types asked.pool_types) _ h in
      let (start, s, h1) = >>=-eq-ok (required asked.start) _ h0 in
      let (end', e, h2) = >>=-eq-ok (required asked.end) _ h1 in
      let (u1, spans, h3) = >>=-eq-ok (validate_block_range start.height end'.height) _ h2 in
      let (u2, above, h4) =
        >>=-eq-ok
          (check_ingest_floor streamer.ingest_floor (streamer.caches 0)
            (min start.height end'.height))
          _ h3 in
      let start_is = required-eq-ok asked.start start s in
      let end_is = required-eq-ok asked.end end' e in
      let (few, valid) = (validate_pool_types_iff asked.pool_types).0 pools in
      let (named, named', narrow) =
        (validate_block_range_iff start.height end'.height (rw start_is at fits)
            (rw end_is at fits')).0
          spans in
      (
        start,
        end',
        record {
          few_pools = few;
          valid_pools = (no_invalid_iff asked.pool_types).0 valid;
          start_is = start_is;
          end_is = end_is;
          start_named = named;
          end_named = named';
          narrow = narrow;
          above_floor =
              (check_ingest_floor_iff streamer.ingest_floor (streamer.caches 0) _).0 above;
        },
        ok_injective _ answer h4,
      )

  Accepts-request :
      (streamer : Streamer) (asked : BlockRange) (transform : CompactBlock → CompactBlock)
      (start end' : BlockId)
      → Fits asked.start
      → Fits asked.end
      → Accepts streamer asked start end'
      → request streamer asked transform ≡ ok (answer_of streamer transform start end')
  unfolding serve_valid
  Accepts-request streamer asked transform start end' fits fits' accepts =
      let pools : validate_pool_types asked.pool_types ≡ ok tt =
        (validate_pool_types_iff asked.pool_types).1
          (accepts.few_pools, (no_invalid_iff asked.pool_types).1 accepts.valid_pools) in
      let spans : validate_block_range start.height end'.height ≡ ok tt =
        (validate_block_range_iff start.height end'.height (rw accepts.start_is at fits)
            (rw accepts.end_is at fits')).1
          (accepts.start_named, accepts.end_named, accepts.narrow) in
      let above =
        (check_ingest_floor_iff streamer.ingest_floor (streamer.caches 0)
            (min start.height end'.height)).1
          accepts.above_floor in
      rw (serve_valid, pools, accepts.start_is, accepts.end_is) (rw spans (rw above refl))

  request-Answers :
      (streamer : Streamer) (asked : BlockRange) (transform : CompactBlock → CompactBlock)
      → Fits asked.start
      → Fits asked.end
      → Answers codec streamer asked transform (request streamer asked transform)
  request-Answers streamer asked transform fits fits' =
      elim (Result-cases (request streamer asked transform)) [
        | inl (answer, answered) ↦
            let (start, end', accepts, same) =
              request-Accepts streamer asked transform answer fits fits' answered in
            inl (
              start,
              end',
              accepts,
              answer,
              answered,
              subst
                  (Delivers codec (record streamer { caches = λ n. streamer.caches (suc n) })
                    start.height end'.height transform)
                  same
                  (block_range_stream-flatten
                    (record streamer { caches = λ n. streamer.caches (suc n) }) start.height
                    end'.height transform),
            )
        | inr (e, refused) ↦ inr (
          λ (start, end', accepts).
              let passes = Accepts-request streamer asked transform start end' fits fits' accepts in
              cc,
          e,
          refused,
        )
      ]

  -- A request for a block range with `u64` bounds is answered exactly where it names at most 16 pool
  -- types, none of them the invalid one, and both bounds, none of them 0, spans at most 10,000 heights,
  -- and does not begin below the ingest floor, if one is configured: that is the lowest height of the
  -- cache as the first read transaction shows it, or the configured one if the cache is empty. The
  -- answer is the range stream over the transactions that follow, each block pruned to the requested
  -- pools, in batches, and the stream's error. Every other request is refused with a status.
  pub get_block_range-Answers :
      (streamer : Streamer) (asked : BlockRange)
      → Fits asked.start
      → Fits asked.end
      → Answers codec streamer asked
          (λ block. filter_block_to_pools block (from_pool_types asked.pool_types))
          (get_block_range codec encoded_len streamer asked)
  unfolding get_block_range
  get_block_range-Answers streamer asked fits fits' =
      request-Answers streamer asked
        (λ block. filter_block_to_pools block (from_pool_types asked.pool_types)) fits fits'

  -- The nullifiers method answers and refuses the same requests. The answer is the range stream with
  -- each block pruned to the nullifiers of the requested shielded pools, in batches, and the stream's
  -- error.
  pub get_block_range_nullifiers-Answers :
      (streamer : Streamer) (asked : BlockRange)
      → Fits asked.start
      → Fits asked.end
      → Answers codec streamer asked
          (λ block.
            filter_block_to_pools_nullifiers_only block
              (from_pool_types_dropping_transparent asked.pool_types))
          (get_block_range_nullifiers codec encoded_len streamer asked)
  unfolding get_block_range_nullifiers
  get_block_range_nullifiers-Answers streamer asked fits fits' =
      request-Answers streamer asked
        (λ block.
          filter_block_to_pools_nullifiers_only block
            (from_pool_types_dropping_transparent asked.pool_types))
        fits fits'
