-- ===== src/Tests/ServiceTests.antt =====
-- The theorems about the smaller parts (src/repair.rs, src/encoding.rs, src/filter.rs, src/fetch.rs,
-- src/service/framing.rs, src/snapshot/mod.rs) at concrete inputs.
use lightwalletd_rs.Base.{
  ℕ, replicate, ◌≤◌, ◌≡◌, ◌↔◌, refl, none, some, List, [], ◌∷◌, ok, map, true, false, arith, All,
  Result,
}
use lightwalletd_rs.Base.Bytes.{Bytes}
use lightwalletd_rs.Base.Int.{ℤ, pos}
use lightwalletd_rs.Encoding.{wire_to_display_hex}
use lightwalletd_rs.Fetch.{ParseError, FetchError, compact_block}
use lightwalletd_rs.Fetch.Checks.{IsChecked, compact_block-IsChecked}
use lightwalletd_rs.Filter.{Pools, filter_block_to_pools, filter_block_to_pools_nullifiers_only}
use lightwalletd_rs.Filter.Blocks.{IsPruned, HasSome, Prunes, filter_block_to_pools-IsPruned}
use lightwalletd_rs.Filter.Nullifiers.{identity, nullifiers, nullifiers_only_exact, IsBareTx}
use lightwalletd_rs.Framing.{coalesce, coalesce-transparent, flatten, AreFrames, Stream}
use lightwalletd_rs.Node.{Node}
use lightwalletd_rs.Proto.{CompactBlock, CompactTx}
use lightwalletd_rs.Repair.{new, take, report_all, take-report_all}
use lightwalletd_rs.Snapshot.Epoch.{
  epoch_index, epoch_first_height, epoch_last_height, epoch_index_iff,
}
use lightwalletd_rs.Snapshot.Digest.{EpochDigest, encode, decode, decode-encode}
use lightwalletd_rs.Status.{unavailable}
use lightwalletd_rs.Tests.Codecs.{sample_hex, sample_block}

take-report_all_example :
    (take (report_all (take new).1 (9 ∷ 4 ∷ 6 ∷ [])) ≡ (some 4, new))
    × ((take (take (report_all (take new).1 (9 ∷ 4 ∷ 6 ∷ []))).1).0 ≡ none)
take-report_all_example = take-report_all new 9 (4 ∷ 6 ∷ []) (omega arith)

epoch_index_iff_example :
    ((epoch_first_height 3 ≤ 35000) × (35000 ≤ epoch_last_height 3)) ↔ (epoch_index 35000 ≡ 3)
epoch_index_iff_example = epoch_index_iff 3 35000 (omega arith)

abbrev named_pools : List ℤ
named_pools = pos 1 ∷ pos 3 ∷ []

-- A transaction with a Sapling spend and output and a transparent output.
abbrev sample_tx : CompactTx
sample_tx = record {
  index = 1;
  txid = 7 ∷ 8 ∷ [];
  fee = 0;
  spends = record { nf = 5 ∷ [] } ∷ [];
  outputs = record { cmu = 6 ∷ []; ephemeral_key = []; ciphertext = [] } ∷ [];
  actions = [];
  ironwood_actions = [];
  vin = [];
  vout = record { value = 3; script_pub_key = [] } ∷ [];
}

abbrev full_block : CompactBlock
full_block = record (sample_block 7 (1 ∷ 2 ∷ []) (0 ∷ [])) { vtx = sample_tx ∷ [] }

abbrev sapling_only : Pools
sapling_only = record { transparent = false; sapling = true; orchard = false; ironwood = false }

filter_block_to_pools-IsPruned_example :
    All
      (λ tx. IsPruned sapling_only tx × HasSome tx)
      (filter_block_to_pools full_block sapling_only).vtx
    × Prunes sapling_only full_block.vtx (filter_block_to_pools full_block sapling_only).vtx
filter_block_to_pools-IsPruned_example = filter_block_to_pools-IsPruned full_block sapling_only

nullifiers_only_exact_example :
    (let bare = filter_block_to_pools_nullifiers_only full_block sapling_only in
      (map identity bare.vtx ≡ map identity (filter_block_to_pools full_block sapling_only).vtx)
      × (map nullifiers bare.vtx
          ≡ map nullifiers (filter_block_to_pools full_block sapling_only).vtx)
      × All IsBareTx bare.vtx
      × (bare.height ≡ 7)
      × (bare.hash ≡ 1 ∷ 2 ∷ [])
      × (bare.prev_hash ≡ 0 ∷ [])
      × (bare.time ≡ 0))
nullifiers_only_exact_example = nullifiers_only_exact full_block sapling_only

-- Four messages of 2000 bytes, and then an error.
abbrev four_messages : Stream ℕ
four_messages = record { messages = 1 ∷ 2 ∷ 3 ∷ 4 ∷ []; failure = some unavailable }

coalesce-transparent_example :
    (flatten (coalesce (λ n. 2000) four_messages).0 ≡ 1 ∷ 2 ∷ 3 ∷ 4 ∷ [])
    × ((coalesce (λ n. 2000) four_messages).1 ≡ some unavailable)
    × AreFrames (λ n. 2000) (coalesce (λ n. 2000) four_messages).0
coalesce-transparent_example = coalesce-transparent (λ n. 2000) four_messages

-- A node that knows the full block.
abbrev sample_node : Node
sample_node = record {
  get_blockchain_info =
      ok (record { chain = []; blocks = 7; bestblockhash = sample_hex.encode (2 ∷ 1 ∷ []) });
  get_block_verbose = λ height. ok (record {
    hash = sample_hex.encode (2 ∷ 1 ∷ []);
    tx = sample_hex.encode (8 ∷ 7 ∷ []) ∷ [];
    trees = record { sapling = 1; orchard = 0; ironwood = 0 };
  });
  get_block_raw = λ hash. ok (9 ∷ []);
  get_block_hashes = λ heights. ok [];
}

abbrev sample_parser : Bytes → Result ParseError CompactBlock
sample_parser raw = ok full_block

full_block-fetched :
    ◌≡◌ {A = Result FetchError CompactBlock}
      (compact_block sample_hex sample_parser sample_node 7)
      (ok full_block)
unfolding compact_block wire_to_display_hex
full_block-fetched = refl

compact_block-IsChecked_example : IsChecked sample_hex sample_node 7 full_block
compact_block-IsChecked_example =
    compact_block-IsChecked sample_hex sample_parser sample_node 7 full_block full_block-fetched

abbrev sample_digest : EpochDigest
sample_digest = record {
  start = 30000;
  end = 39999;
  bytes = 123456;
  content = replicate 32 7;
  anchor = replicate 32 9;
}

decode-encode_example : decode (encode sample_digest) ≡ some sample_digest
decode-encode_example =
    decode-encode sample_digest (omega arith) (omega arith) (omega arith) refl refl
