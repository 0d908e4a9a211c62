-- ===== src/Tests/CacheTests.antt =====
-- The theorems about the cache (src/cache.rs) at concrete caches.
use lightwalletd_rs.Base.{
  ℕ, ◌≤◌, ◌<◌, ◌≡◌, ◌≢◌, refl, none, some, List, [], ◌∷◌, ◌++◌, ok, err, map, length, inr, true,
  arith, Result, take, leb, ◌-◌, ◌+◌, ◌&&◌, if◌then◌else◌, ◌⊎◌, ◌↔◌,
}
use lightwalletd_rs.Base.Bytes.{le_bytes}
use lightwalletd_rs.Base.Table.{lookup}
use lightwalletd_rs.Cache.Append.{append-IsChain, append-eq-ok}
use lightwalletd_rs.Cache.Append.Refusals.{append-Breaks}
use lightwalletd_rs.Cache.Chain.{Consecutive, IsChain, rows, block_at}
use lightwalletd_rs.Cache.Check.{validate_light, is_good, lowest_corrupt_height}
use lightwalletd_rs.Cache.Check.Gaps.{NoGaps}
use lightwalletd_rs.Cache.Check.Suffix.{IsSuffixStart, lowest_corrupt_height-IsSuffixStart}
use lightwalletd_rs.Cache.Check.Verdict.{validate_light_iff, lowest_corrupt_height-gap}
use lightwalletd_rs.Cache.Chunk.Coverage.{CoversPart, read_chunk-CoversPart, read_chunk-exact}
use lightwalletd_rs.Cache.Read.{get-IsChain}
use lightwalletd_rs.Cache.Truncate.{
  remove_from, remove_from-IsChain, remove_from-metadata, BaseLeft, DigestLeft, epoch_digest,
}
use lightwalletd_rs.Cache.{
  Cache, CacheError, append, write_base, snapshot_base_height, get, read_chunk, decode,
}
use lightwalletd_rs.Proto.{CompactBlock}
use lightwalletd_rs.Tests.Codecs.{sample_codec, sample_codec-IsCodec, sample_block}

abbrev pub b7 : CompactBlock
b7 = sample_block 7 (1 ∷ []) (0 ∷ [])

abbrev pub b8 : CompactBlock
b8 = sample_block 8 (2 ∷ []) (1 ∷ [])

abbrev pub b9 : CompactBlock
b9 = sample_block 9 (3 ∷ []) (2 ∷ [])

abbrev pub two_blocks : List CompactBlock
two_blocks = b7 ∷ b8 ∷ []

-- A cache bootstrapped from a snapshot whose base is height 7.
abbrev pub sample_cache : Cache
sample_cache = record {
  blocks = rows sample_codec two_blocks;
  base_row = some (le_bytes 8 7);
  digests = (0, 5 ∷ []) ∷ [];
}

pub sample_cache-IsChain : IsChain sample_codec sample_cache 7 two_blocks
sample_cache-IsChain = record { rows_are = refl; run = omega arith }

append-IsChain_example :
    ((append sample_codec sample_cache (map ok (b9 ∷ [])) none).1 ≡ ok tt)
    × IsChain sample_codec
        (append sample_codec sample_cache (map ok (b9 ∷ [])) none).0
        7
        (two_blocks ++ b9 ∷ [])
    × ((append sample_codec sample_cache (map ok (b9 ∷ [])) none).0.base_row
        ≡ write_base none sample_cache.base_row)
    × ((append sample_codec sample_cache (map ok (b9 ∷ [])) none).0.digests ≡ sample_cache.digests)
append-IsChain_example =
    append-IsChain sample_codec sample_cache 7 9 two_blocks b9 [] none sample_cache-IsChain
      (omega arith) (inr refl)

abbrev b9_input : List (Result CacheError CompactBlock)
b9_input = ok b9 ∷ []

append_b9 : (append sample_codec sample_cache b9_input none).1 ≡ ok tt
unfolding append
append_b9 = refl

append-eq-ok_example :
    (ns : List CompactBlock) × (b9_input ≡ map ok ns)
    × (next : ℕ) × Consecutive next ns
    × ((ns ≡ []) ⊎ ((two_blocks ≡ []) ⊎ (next ≡ 7 + length two_blocks)))
append-eq-ok_example =
    append-eq-ok sample_codec sample_cache 7 two_blocks b9_input none sample_cache-IsChain
      (omega arith) append_b9

abbrev undecodable : List (Result CacheError CompactBlock)
undecodable = ok b9 ∷ err decode ∷ []

append-Breaks_example :
    append sample_codec sample_cache undecodable none ≡ (sample_cache, err decode)
append-Breaks_example =
    append-Breaks sample_codec sample_cache 7 9 two_blocks b9 [] (err decode) [] none decode
      sample_cache-IsChain (omega arith) (inr refl) refl

sample_base : snapshot_base_height sample_cache ≡ ok (some 7)
unfolding snapshot_base_height
sample_base = refl

remove_from-IsChain_example :
    ((remove_from sample_cache 8).1 ≡ ok tt)
    × IsChain sample_codec (remove_from sample_cache 8).0 7 (take (8 - 7) two_blocks)
remove_from-IsChain_example =
    remove_from-IsChain sample_codec sample_cache 7 8 two_blocks (some 7) sample_cache-IsChain
      (unfold snapshot_base_height in sample_base)

remove_from-metadata_example :
    BaseLeft 7 (some 7) (snapshot_base_height (remove_from sample_cache 7).0)
    × ((index : ℕ)
        → DigestLeft 7 index
            (epoch_digest sample_cache index)
            (epoch_digest (remove_from sample_cache 7).0 index))
remove_from-metadata_example =
    remove_from-metadata sample_cache 7 (some 7) (omega arith) sample_base

validate_light_iff_example :
    (validate_light sample_codec sample_cache ≡ ok tt)
    ↔ (NoGaps sample_cache.blocks 7 8 × (is_good sample_codec sample_cache.blocks 8 ≡ true))
validate_light_iff_example =
    validate_light_iff sample_codec sample_cache 7 8 (omega arith) refl refl (omega arith)

-- The same cache with height 8 lost and height 9 stored.
abbrev gapped_cache : Cache
gapped_cache = record sample_cache { blocks = rows sample_codec (b7 ∷ b9 ∷ []) }

lowest_corrupt_height-gap_example :
    (h : ℕ) × (lowest_corrupt_height sample_codec gapped_cache ≡ some h)
    × (7 ≤ h)
    × (h ≤ 8)
    × (lookup h gapped_cache.blocks ≡ none)
    × ((j : ℕ) → 7 ≤ j → j < h → lookup j gapped_cache.blocks ≢ none)
lowest_corrupt_height-gap_example =
    lowest_corrupt_height-gap sample_codec gapped_cache 7 9 (omega arith) refl refl (omega arith) 8
      (omega arith) (omega arith) refl

gapped_cache_lowest : lowest_corrupt_height sample_codec gapped_cache ≡ some 8
unfolding lowest_corrupt_height
gapped_cache_lowest = refl

-- The same cache with the tip stored under the wrong height.
abbrev misfiled_cache : Cache
misfiled_cache = record sample_cache {
  blocks = (7, sample_codec.encode b7) ∷ (8, sample_codec.encode b9) ∷ [];
}

lowest_corrupt_height-IsSuffixStart_example :
    IsSuffixStart sample_codec misfiled_cache.blocks 7 8
      (lowest_corrupt_height sample_codec misfiled_cache)
lowest_corrupt_height-IsSuffixStart_example =
    lowest_corrupt_height-IsSuffixStart sample_codec misfiled_cache 7 8 refl refl (omega arith) refl

misfiled_cache_lowest : lowest_corrupt_height sample_codec misfiled_cache ≡ some 8
unfolding lowest_corrupt_height
misfiled_cache_lowest = refl

read_chunk-CoversPart_example : CoversPart 7 8 true (read_chunk sample_cache (7, 8) true 10).covered
read_chunk-CoversPart_example =
    read_chunk-CoversPart sample_cache 7 8 true 10 (omega arith) (omega arith) (omega arith)

read_chunk-exact_example : lookup 8 (read_chunk sample_cache (7, 8) true 10).blocks ≡ (
    if leb (read_chunk sample_cache (7, 8) true 10).covered.0 8
      && leb 8 (read_chunk sample_cache (7, 8) true 10).covered.1
    then lookup 8 sample_cache.blocks
    else none)
read_chunk-exact_example = read_chunk-exact sample_cache 7 8 true 10 (omega arith) (omega arith) 8

-- The budget ends the chunk after one block.
read_chunk_runs : (read_chunk sample_cache (7, 8) true 10).covered ≡ (8, 8)
unfolding read_chunk
read_chunk_runs = refl

get-IsChain_example : get sample_codec sample_cache 8 ≡ ok (block_at 8 two_blocks)
get-IsChain_example =
    get-IsChain sample_codec sample_codec-IsCodec sample_cache 7 8 two_blocks sample_cache-IsChain
