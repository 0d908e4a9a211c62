-- ===== src/Snapshot/Verify.antt =====
-- The layers that src/snapshot/import.rs runs over one epoch body: the content digest, the framing,
-- the links and the tree sizes of the blocks, and their hashes against the operator's node. Heights
-- are counted on ℕ, since an epoch that is verified ends at a height the node has.
pub mod Layers
pub mod Records
pub mod Anchor
pub mod Sound
pub mod Accepts
use lightwalletd_rs.Base.{
  ℕ, zero, suc, ◌+◌, ◌-◌, List, [], ◌∷◌, ◌++◌, Bool, Option, none, some, ltb, ◌==◌, ◌=ᵇ◌, not, ◌||◌,
  if◌then◌else◌, Result, ok, err, ◌>>=◌, ◌>>◌, ok_or, map_err, length, take, drop, add64, sub64,
  u64_max,
}
use lightwalletd_rs.Base.Bytes.{Bytes, be_bytes}
use lightwalletd_rs.Base.Table.{Table, insert, lookup}
use lightwalletd_rs.Encoding.{Text, Hex, display_hex_to_wire}
use lightwalletd_rs.Node.{Node}
use lightwalletd_rs.Proto.{CompactBlock, CompactTx, ChainMetadata, Codec}
use lightwalletd_rs.Snapshot.Body.{parse_epoch, EpochHeader}
use lightwalletd_rs.Snapshot.Failure.{
  SnapshotError, Check, epoch_rejected, block_rejected, node_lookup, content_digest_check,
  framing_check, chain_check, decode_check, height_check, linkage_check, tree_size_check,
  anchor_check,
}
use lightwalletd_rs.Snapshot.Manifest.{EpochEntry}

-- `later` names `earlier` as its predecessor.
unfoldable pub check_linkage : ℕ → CompactBlock → CompactBlock → Result SnapshotError (Unit {0})
check_linkage epoch earlier later =
    if not (later.prev_hash =ᵇ earlier.hash)
    then err (block_rejected epoch later.height linkage_check)
    else ok tt

abbrev pub sum_of : (CompactTx → ℕ) → List CompactTx → ℕ
sum_of count [] = 0
sum_of count (tx ∷ txs) = count tx + sum_of count txs

-- One pool: its tree grew by what the block carries.
unfoldable pub check_pool : SnapshotError → ℕ → ℕ → ℕ → Result SnapshotError (Unit {0})
check_pool rejected before after carried =
    if ltb after before || not (after - before == carried) then err rejected else ok tt

unfoldable pub check_pools :
    SnapshotError → ChainMetadata → ChainMetadata → CompactBlock → Result SnapshotError (Unit {0})
unfolding check_pool
check_pools rejected before after later = do
  check_pool rejected before.sapling_commitment_tree_size after.sapling_commitment_tree_size
      (sum_of (λ tx. length tx.outputs) later.vtx)
  check_pool rejected before.orchard_commitment_tree_size after.orchard_commitment_tree_size
      (sum_of (λ tx. length tx.actions) later.vtx)
  check_pool rejected before.ironwood_commitment_tree_size after.ironwood_commitment_tree_size
      (sum_of (λ tx. length tx.ironwood_actions) later.vtx)

unfoldable pub check_tree_sizes : ℕ → CompactBlock → CompactBlock → Result SnapshotError (Unit {0})
unfolding check_pools
check_tree_sizes epoch earlier later =
    let rejected = block_rejected epoch later.height tree_size_check in
    do
      before ← ok_or rejected earlier.chain_metadata
      after ← ok_or rejected later.chain_metadata
      check_pools rejected before after later

-- Both checks between a block and the one after it.
unfoldable pub check_joins :
    ℕ → Option CompactBlock → CompactBlock → Result SnapshotError (Unit {0})
unfolding check_linkage check_tree_sizes
check_joins epoch none later = ok tt
check_joins epoch (some earlier) later = do
  check_linkage epoch earlier later
  check_tree_sizes epoch earlier later

-- Heights per batched lookup.
abbrev pub lookup_batch : ℕ
lookup_batch = 250

abbrev pub heights_from : ℕ → ℕ → List ℕ
heights_from start zero = []
heights_from start (suc n) = start ∷ heights_from (suc start) n

-- `chunks(size)`, on fuel for the number of chunks.
abbrev pub chunks {ℓ} : {A : Type ℓ} → ℕ → ℕ → List A → List (List A)
chunks size zero xs = []
chunks size (suc fuel) [] = []
chunks size (suc fuel) (x ∷ xs) = take size (x ∷ xs) ∷ chunks size fuel (drop size (x ∷ xs))

-- `found.extend(batch.zip(hashes))`.
abbrev pub extend : List ℕ → List Text → Table Text → Table Text
extend [] hashes found = found
extend (height ∷ batch) [] found = found
extend (height ∷ batch) (hash ∷ hashes) found = extend batch hashes (insert height hash found)

abbrev pub first_of : List ℕ → ℕ
first_of [] = 0
first_of (height ∷ batch) = height

-- What `AnchorHasher::update` feeds to its hasher.
abbrev pub anchor_bytes : ℕ → Bytes → Bytes
anchor_bytes height hash = be_bytes 8 height ++ hash

module _ (codec : Codec) where
  unfoldable pub decode_block : ℕ → ℕ → Bytes → Result SnapshotError CompactBlock
  decode_block epoch height record' = do
    block ← ok_or (block_rejected epoch height decode_check) (codec.decode record')
    if not (block.height == height) then err (block_rejected epoch height height_check) else ok tt
    ok block

  -- The pass over the records; its result is their hashes.
  unfoldable pub check_records :
      ℕ → ℕ → List Bytes → Option CompactBlock → Result SnapshotError (List Bytes)
  unfolding decode_block check_joins
  check_records epoch height [] previous = ok []
  check_records epoch height (record' ∷ records) previous = do
    block ← decode_block epoch height record'
    check_joins epoch previous block
    hashes ← check_records epoch (suc height) records (some block)
    ok (block.hash ∷ hashes)

-- The lookups of the batches, one batch after the other, up to the first that fails.
unfoldable pub fetch_batches :
    Node → ℕ → List (List ℕ) → Table Text → Result SnapshotError (Table Text)
fetch_batches node epoch [] found = ok found
fetch_batches node epoch (batch ∷ batches) found = do
  hashes ← map_err (node_lookup (first_of batch)) (node.get_block_hashes batch)
  if not (length hashes == length batch) then err (epoch_rejected epoch anchor_check) else ok tt
  fetch_batches node epoch batches (extend batch hashes found)

unfoldable pub fetch_block_hashes : Node → ℕ → ℕ → ℕ → Result SnapshotError (Table Text)
unfolding fetch_batches
fetch_block_hashes node epoch start end =
    let count = suc end - start in
    fetch_batches node epoch (chunks lookup_batch count (heights_from start count)) []

module _ (hex : Hex) where
  -- The loop of `verify_anchor`; its result is what the hasher was fed.
  unfoldable pub compare_hashes :
      ℕ → Table Text → ℕ → List Bytes → Bytes → Result SnapshotError Bytes
  unfolding display_hex_to_wire
  compare_hashes epoch node_hashes height [] hashed = ok hashed
  compare_hashes epoch node_hashes height (claimed ∷ hashes) hashed =
      let rejected = block_rejected epoch height anchor_check in
      do
        display ← ok_or rejected (lookup height node_hashes)
        wire ← map_err (λ _. rejected) (display_hex_to_wire hex display)
        if not (wire =ᵇ claimed) then err rejected else ok tt
        compare_hashes epoch node_hashes (suc height) hashes (hashed ++ anchor_bytes height wire)

module _ (hex : Hex) (sha256 : Bytes → Bytes) where
  unfoldable pub verify_anchor : Node → EpochEntry → List Bytes → Result SnapshotError (Unit {0})
  unfolding fetch_block_hashes compare_hashes
  verify_anchor node entry hashes = do
    node_hashes ← fetch_block_hashes node entry.index entry.start entry.end
    hashed ← compare_hashes hex entry.index node_hashes entry.start hashes []
    if not (hex.encode (sha256 hashed) =ᵇ entry.anchor)
        then err (epoch_rejected entry.index anchor_check)
        else ok tt

  module _ (is_utf8 : Bytes → Bool) where
    -- The body is what the manifest describes: its digest, its chain, and its bounds.
    unfoldable pub open_epoch : Bytes → EpochEntry → Text → Result SnapshotError (List Bytes)
    unfolding parse_epoch
    open_epoch body entry chain = do
      if not (hex.encode (sha256 body) =ᵇ entry.content_digest)
          then err (epoch_rejected entry.index content_digest_check)
          else ok tt
      (header, records) ←
          map_err (λ _. epoch_rejected entry.index framing_check) (parse_epoch is_utf8 body)
      if not (header.chain =ᵇ chain) then err (epoch_rejected entry.index chain_check) else ok tt
      if not (header.start == entry.start)
            || not (header.count == add64 (sub64 entry.end entry.start) 1)
          then err (epoch_rejected entry.index framing_check)
          else ok tt
      ok records

    module _ (codec : Codec) where
      unfoldable pub verify_epoch :
          Node → Bytes → EpochEntry → Text → Result SnapshotError (List Bytes)
      unfolding open_epoch check_records verify_anchor
      verify_epoch node body entry chain = do
        records ← open_epoch body entry chain
        hashes ← check_records codec entry.index entry.start records none
        verify_anchor node entry hashes
        ok records
