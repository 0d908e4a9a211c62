-- ===== src/Tests/BlocksTests.antt =====
-- The theorems about serving blocks (src/service/blocks.rs) at a concrete server.
use lightwalletd_rs.Base.{
  ℕ, ◌≡◌, refl, Option, none, some, List, [], ◌∷◌, ◌++◌, ok, false, arith, Result, ◌⊎◌,
}
use lightwalletd_rs.Base.Table.{AscendsFrom}
use lightwalletd_rs.Blocks.{serve_range, finished, failed}
use lightwalletd_rs.Blocks.Heights.{serve_range-heights, sent_heights}
use lightwalletd_rs.Blocks.Links.{Linked}
use lightwalletd_rs.Blocks.Requests.{
  Streamer, BlockRange, BlockId, Response, get_block_range, get_block_range_nullifiers,
}
use lightwalletd_rs.Blocks.Requests.Valid.{
  get_block_range-Answers, get_block_range_nullifiers-Answers, Answers,
}
use lightwalletd_rs.Blocks.Sources.{Comes, InChunks}
use lightwalletd_rs.Blocks.Stream.{serve_range-Linked, Explained}
use lightwalletd_rs.Cache.{Cache}
use lightwalletd_rs.Fetch.{FetchError}
use lightwalletd_rs.Filter.{
  filter_block_to_pools, from_pool_types, from_pool_types_dropping_transparent,
  filter_block_to_pools_nullifiers_only,
}
use lightwalletd_rs.Proto.{CompactBlock}
use lightwalletd_rs.Repair.{RepairSignal, new}
use lightwalletd_rs.Status.{Status}
use lightwalletd_rs.Tests.CacheTests.{b7, b8, b9, sample_cache}
use lightwalletd_rs.Tests.Codecs.{sample_codec, sample_block}

-- The node has the block above the cached ones.
abbrev sample_fetch : ℕ → Result FetchError CompactBlock
sample_fetch height = ok (sample_block height (3 ∷ []) (2 ∷ []))

abbrev sample_caches : ℕ → Cache
sample_caches n = sample_cache

abbrev sample_streamer : Streamer
sample_streamer = record {
  caches = sample_caches;
  fetch = sample_fetch;
  repair = some new;
  ingest_floor = some 7;
}

abbrev id_at : ℕ → BlockId
id_at height = record { height = height; hash = [] }

abbrev sample_range : BlockRange
sample_range = record { start = some (id_at 7); end = some (id_at 9); pool_types = [] }

abbrev sample_answer : Response × Option RepairSignal
sample_answer = (((b7 ∷ b8 ∷ b9 ∷ []) ∷ [], none), some new)

-- The stream takes two blocks from the cache and one from the node.
sample_range-served :
    get_block_range sample_codec (λ b. 100) sample_streamer sample_range ≡ ok sample_answer
unfolding get_block_range
sample_range-served = refl

sample_range_nullifiers-served :
    get_block_range_nullifiers sample_codec (λ b. 100) sample_streamer sample_range
    ≡ ok sample_answer
unfolding get_block_range_nullifiers
sample_range_nullifiers-served = refl

sample_caches-AscendsFrom : (n : ℕ) → AscendsFrom 0 (sample_caches n).blocks
sample_caches-AscendsFrom n = omega arith

serve_range-heights_example :
    (let run = serve_range sample_codec sample_fetch sample_caches 9 7 (some new) in
      (rest : List ℕ) × (sent_heights run.sent ++ rest ≡ 9 ∷ 8 ∷ 7 ∷ [])
      × (((run.ending ≡ finished) × (rest ≡ [])) ⊎ ((e : Status) × (run.ending ≡ failed e))))
serve_range-heights_example =
    serve_range-heights sample_codec sample_fetch sample_caches 9 7 (some new)
      sample_caches-AscendsFrom (omega arith) (omega arith)

serve_range-Linked_example :
    (let run = serve_range sample_codec sample_fetch sample_caches 7 9 (some new) in
      InChunks sample_codec sample_fetch sample_caches 7 9 false 0 7 run.sent
      × Linked false run.sent
      × Explained
          (Comes sample_codec sample_fetch sample_caches)
          false
          run.sent
          (some new)
          run.repair
          run.ending)
serve_range-Linked_example =
    serve_range-Linked sample_codec sample_fetch sample_caches 7 9 (some new)
      sample_caches-AscendsFrom (omega arith) (omega arith)

get_block_range-Answers_example :
    Answers sample_codec sample_streamer sample_range
      (λ block. filter_block_to_pools block (from_pool_types []))
      (get_block_range sample_codec (λ b. 100) sample_streamer sample_range)
get_block_range-Answers_example =
    get_block_range-Answers sample_codec (λ b. 100) sample_streamer sample_range (omega arith)
      (omega arith)

get_block_range_nullifiers-Answers_example :
    Answers sample_codec sample_streamer sample_range
      (λ block.
        filter_block_to_pools_nullifiers_only block (from_pool_types_dropping_transparent []))
      (get_block_range_nullifiers sample_codec (λ b. 100) sample_streamer sample_range)
get_block_range_nullifiers-Answers_example =
    get_block_range_nullifiers-Answers sample_codec (λ b. 100) sample_streamer sample_range
      (omega arith) (omega arith)
