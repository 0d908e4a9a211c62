-- ===== src/Tests/SnapshotTests.antt =====
-- The theorems about snapshots (src/snapshot/) at a publisher that holds four blocks, three of them in
-- a completed epoch, and at an importer whose node is on the same chain.
use lightwalletd_rs.Base.{
  ℕ, ◌+◌, ◌-◌, ◌≤◌, ◌<◌, ◌≡◌, refl, ap, sym, ◌↔◌, Option, none, some, List, [], ◌∷◌, ◌++◌, map,
  length, length-take, length-append, length-replicate, take, replicate, Result, ok, err,
  ok_injective, arith, u64_max, true,
}
use lightwalletd_rs.Base.Bytes.{Bytes}
use lightwalletd_rs.Cache.Chain.{IsChain, rows}
use lightwalletd_rs.Cache.Truncate.{epoch_digest}
use lightwalletd_rs.Cache.{Cache, empty, in_range, range}
use lightwalletd_rs.Encoding.{Text, display_hex_to_wire}
use lightwalletd_rs.Node.{Node, GetBlockchainInfo, empty_result}
use lightwalletd_rs.Proto.{CompactBlock, ChainMetadata}
use lightwalletd_rs.Snapshot.Body.{
  EpochHeader, format_version, is_ascii, write_header, write_records, parse_epoch,
}
use lightwalletd_rs.Snapshot.Body.Canonical.{parse_epoch-canonical}
use lightwalletd_rs.Snapshot.Body.RoundTrip.{framed, header_bytes, parse_epoch-write_records}
use lightwalletd_rs.Snapshot.Digest
use lightwalletd_rs.Snapshot.Digest.{EpochDigest}
use lightwalletd_rs.Snapshot.Epoch.{epoch_size, epoch_index}
use lightwalletd_rs.Snapshot.Export.{compute_epoch_digest, write_epoch, next_pending_epoch}
use lightwalletd_rs.Snapshot.Export.Bodies.{write_epoch-served}
use lightwalletd_rs.Snapshot.Export.Pending.{IsLowestPending, next_pending_epoch-IsLowestPending}
use lightwalletd_rs.Snapshot.Failure.{SnapshotError}
use lightwalletd_rs.Snapshot.Import.{EpochSource, import_snapshot}
use lightwalletd_rs.Snapshot.Import.Chains.{Reports, import_snapshot-Extends}
use lightwalletd_rs.Snapshot.Import.Epochs.{Extends}
use lightwalletd_rs.Snapshot.Manifest.{Manifest, entry, validate_manifest}
use lightwalletd_rs.Snapshot.Manifest.Valid.{RunsFrom, validate_manifest_iff}
use lightwalletd_rs.Snapshot.Published.{verify_epoch-write_epoch}
use lightwalletd_rs.Snapshot.Verify.{verify_epoch}
use lightwalletd_rs.Snapshot.Verify.Accepts.{AnswersAll}
use lightwalletd_rs.Snapshot.Verify.Anchor.{AnswersBy, HeldFrom}
use lightwalletd_rs.Snapshot.Verify.Layers.{Joins, JoinedTo}
use lightwalletd_rs.Snapshot.Verify.Records.{hashes_of}
use lightwalletd_rs.Snapshot.Verify.Sound.{Verified, verify_epoch-Verified}
use lightwalletd_rs.Tests.Codecs.{sample_codec, sample_codec-IsCodec, sample_hex, sample_block}

-- In place of SHA-256: the first 32 bytes, filled up.
abbrev sample_sha256 : Bytes → Bytes
sample_sha256 b = take 32 (b ++ replicate 32 0)

length-sample_sha256 : (b : Bytes) → length (sample_sha256 b) ≡ 32
length-sample_sha256 b = omega (
  arith,
  length-take 32 (b ++ replicate 32 0),
  length-append b (replicate 32 0),
  length-replicate {A = ℕ} 32 0,
)

-- The chain of the node: the hash of a block is its distance from 9996.
abbrev grown_block : ℕ → CompactBlock
grown_block height = record (sample_block height ((height - 9996) ∷ []) ((height - 9997) ∷ [])) {
  chain_metadata = some (record {
    sapling_commitment_tree_size = 0;
    orchard_commitment_tree_size = 0;
    ironwood_commitment_tree_size = 0;
  });
}

abbrev node_hash : ℕ → Text
node_hash height = sample_hex.encode ((height - 9996) ∷ [])

abbrev chain_name : Text
chain_name = 109 ∷ []

abbrev sample_info : GetBlockchainInfo
sample_info = record { chain = chain_name; blocks = 20000; bestblockhash = [] }

abbrev chain_node : Node
chain_node = record {
  get_blockchain_info = ok sample_info;
  get_block_verbose = λ height. err empty_result;
  get_block_raw = λ hash. err empty_result;
  get_block_hashes = λ heights. ok (map node_hash heights);
}

chain_node-AnswersBy : AnswersBy chain_node node_hash
chain_node-AnswersBy = record {
  in_order = λ heights hashes h. sym (ok_injective (map node_hash heights) hashes h);
}

chain_node-AnswersAll : AnswersAll chain_node node_hash
chain_node-AnswersAll = record { always = λ heights. refl }

abbrev epoch_blocks : List CompactBlock
epoch_blocks = grown_block 9997 ∷ grown_block 9998 ∷ grown_block 9999 ∷ []

abbrev publisher : Cache
publisher = record {
  blocks = rows sample_codec (epoch_blocks ++ grown_block 10000 ∷ []);
  base_row = none;
  digests = [];
}

abbrev digest_or : Result SnapshotError (Option EpochDigest) → EpochDigest
digest_or (ok (some d)) = d
digest_or _ = record { start = 0; end = 0; bytes = 0; content = []; anchor = [] }

sample_digest : EpochDigest
unfolding compute_epoch_digest
sample_digest =
    digest_or (compute_epoch_digest sample_codec sample_sha256 publisher publisher chain_name 0)

sample_digest_computed :
    compute_epoch_digest sample_codec sample_sha256 publisher publisher chain_name 0
    ≡ ok (some sample_digest)
unfolding compute_epoch_digest sample_digest
sample_digest_computed = refl

abbrev published : Cache
published = record publisher { digests = (0, Digest.encode sample_digest) ∷ [] }

published_digest : epoch_digest published 0 ≡ some (Digest.encode sample_digest)
unfolding epoch_digest
published_digest = refl

sha256_digest_bytes : sample_digest.bytes ≤ u64_max
unfolding sample_digest compute_epoch_digest
sha256_digest_bytes = omega arith

write_epoch-served_example :
    (body : Bytes) × (write_epoch published chain_name 0 ≡ ok body)
    × (sample_sha256 body ≡ sample_digest.content)
    × (length body ≡ sample_digest.bytes)
write_epoch-served_example =
    write_epoch-served sample_codec sample_sha256 publisher publisher published chain_name 0
      sample_digest sample_digest_computed published_digest refl length-sample_sha256
      sha256_digest_bytes

epoch_rows :
    in_range sample_digest.start sample_digest.end publisher.blocks ≡ rows sample_codec epoch_blocks
unfolding sample_digest compute_epoch_digest
epoch_rows = refl

epoch_start : sample_digest.start ≡ 9997
unfolding sample_digest compute_epoch_digest
epoch_start = refl

no_growth : ChainMetadata
no_growth = record {
  sapling_commitment_tree_size = 0;
  orchard_commitment_tree_size = 0;
  ironwood_commitment_tree_size = 0;
}

grown_block-Joins : (height : ℕ) → Joins (grown_block height) (grown_block (height + 1))
unfolding no_growth
grown_block-Joins height =
    let same : height + 1 - 9997 ≡ height - 9996 = omega arith in
    record {
      linked = ap (λ n. n ∷ []) same;
      grown = record {
        before = no_growth;
        after = no_growth;
        before_is = refl;
        after_is = refl;
        sapling = refl;
        orchard = refl;
        ironwood = refl;
      };
    }

epoch_blocks-JoinedTo : JoinedTo none epoch_blocks
epoch_blocks-JoinedTo = (grown_block-Joins 9997, (grown_block-Joins 9998, tt))

epoch_blocks-HeldFrom : HeldFrom sample_hex node_hash 9997 (hashes_of epoch_blocks)
unfolding display_hex_to_wire
epoch_blocks-HeldFrom = (refl, (refl, (refl, tt)))

verify_epoch-write_epoch_example :
    (body : Bytes) × (write_epoch published chain_name 0 ≡ ok body)
    × (verify_epoch sample_hex sample_sha256 is_ascii sample_codec chain_node body
          (entry sample_hex sample_digest 0)
          chain_name
        ≡ ok (map sample_codec.encode epoch_blocks))
verify_epoch-write_epoch_example =
    verify_epoch-write_epoch sample_codec sample_codec-IsCodec sample_sha256 sample_hex is_ascii
      chain_node node_hash publisher publisher published chain_name 0 sample_digest epoch_blocks
      (λ text h. h) length-sample_sha256 chain_node-AnswersAll sample_digest_computed epoch_rows
      (rw epoch_start (refl, (refl, (refl, tt)))) epoch_blocks-JoinedTo
      (rw epoch_start epoch_blocks-HeldFrom) published_digest refl sha256_digest_bytes

-- A body of two records.
abbrev two_records : List Bytes
two_records = (1 ∷ 2 ∷ []) ∷ (3 ∷ []) ∷ []

two_records_headed : write_header chain_name 7 2 ≡ ok (header_bytes chain_name 7 2)
unfolding write_header
two_records_headed = refl

two_records_written : write_records two_records ≡ ok (framed two_records)
unfolding write_records
two_records_written = refl

abbrev two_records_header : EpochHeader
two_records_header = record { chain = chain_name; start = 7; count = 2 }

parse_epoch-write_records_example :
    parse_epoch is_ascii (header_bytes chain_name 7 2 ++ framed two_records)
    ≡ ok (two_records_header, two_records)
parse_epoch-write_records_example =
    parse_epoch-write_records is_ascii (λ text h. h) chain_name (header_bytes chain_name 7 2)
      (framed two_records) 7 two_records two_records_headed two_records_written (omega arith)
      (omega arith) (omega arith)

abbrev two_records_body : Bytes
two_records_body = header_bytes chain_name 7 2 ++ framed two_records

two_records_parsed : parse_epoch is_ascii two_records_body ≡ ok (two_records_header, two_records)
unfolding parse_epoch
two_records_parsed = refl

parse_epoch-canonical_example :
    (two_records_body ≡ header_bytes chain_name 7 2 ++ framed two_records)
    × (length two_records ≡ 2)
    × (is_ascii chain_name ≡ true)
parse_epoch-canonical_example =
    parse_epoch-canonical is_ascii two_records_body two_records_header two_records (omega arith)
      (omega arith) two_records_parsed

abbrev sample_manifest : Manifest
sample_manifest = record {
  version = 1;
  chain = chain_name;
  span = 10000;
  base_height = 9997;
  tip_height = 10000;
  epochs = entry sample_hex sample_digest 0 ∷ [];
}

validate_manifest_iff_example : (validate_manifest sample_manifest chain_name ≡ ok tt) ↔ (
    (sample_manifest.version ≡ format_version)
    × (sample_manifest.span ≡ epoch_size)
    × (sample_manifest.chain ≡ chain_name)
    × RunsFrom sample_manifest.base_height sample_manifest.epochs)
validate_manifest_iff_example = validate_manifest_iff sample_manifest chain_name

abbrev peer : EpochSource
peer = record {
  manifest = ok sample_manifest;
  epoch = λ index max_bytes. write_epoch published chain_name index;
}

blocks-lt-u64_max :
    (info : GetBlockchainInfo) → chain_node.get_blockchain_info ≡ ok info → info.blocks < u64_max
blocks-lt-u64_max info h = rw (← ok_injective sample_info info h) (omega arith)

empty-IsChain : IsChain sample_codec empty 0 []
empty-IsChain = record { rows_are = refl; run = tt }

import_snapshot-Extends_example :
    Extends sample_codec sample_hex node_hash []
      (import_snapshot sample_codec sample_hex sample_sha256 is_ascii peer chain_node empty).0
    × Reports (import_snapshot sample_codec sample_hex sample_sha256 is_ascii peer chain_node empty)
import_snapshot-Extends_example =
    import_snapshot-Extends sample_codec sample_codec-IsCodec sample_hex sample_sha256 is_ascii peer
      chain_node node_hash chain_node-AnswersBy empty 0 [] empty-IsChain blocks-lt-u64_max

-- The import ends at the last height of the epoch.
import_reaches_9999 :
    (import_snapshot sample_codec sample_hex sample_sha256 is_ascii peer chain_node empty).1
    ≡ ok (some 9999)
unfolding import_snapshot write_epoch entry sample_digest compute_epoch_digest Digest.encode
import_reaches_9999 = refl

published-range : range published ≡ some (9997, 10000)
unfolding range
published-range = refl

next_pending_epoch-IsLowestPending_example :
    IsLowestPending published (epoch_index 9997) 10000 (next_pending_epoch published)
next_pending_epoch-IsLowestPending_example =
    next_pending_epoch-IsLowestPending published 9997 10000 published-range (omega arith)

served_body : Bytes
unfolding write_epoch sample_digest compute_epoch_digest Digest.encode
served_body = body_or (write_epoch published chain_name 0)
  where
    body_or : Result SnapshotError Bytes → Bytes
    body_or (ok body) = body
    body_or (err e) = []

served_body_verified :
    verify_epoch sample_hex sample_sha256 is_ascii sample_codec chain_node served_body
      (entry sample_hex sample_digest 0)
      chain_name
    ≡ ok (map sample_codec.encode epoch_blocks)
unfolding served_body verify_epoch entry write_epoch sample_digest compute_epoch_digest
    Digest.encode
served_body_verified = refl

verify_epoch-Verified_example :
    Verified sample_hex sample_sha256 is_ascii sample_codec node_hash
      (entry sample_hex sample_digest 0)
      served_body
      (map sample_codec.encode epoch_blocks)
verify_epoch-Verified_example =
    verify_epoch-Verified sample_hex sample_sha256 is_ascii sample_codec chain_node node_hash
      served_body (entry sample_hex sample_digest 0) chain_name
      (map sample_codec.encode epoch_blocks) chain_node-AnswersBy served_body_verified
