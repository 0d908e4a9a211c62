-- ===== src/Snapshot/Import.antt =====
-- The loop of src/snapshot/import.rs: fetch an epoch, verify it, and append it to the cache. The source
-- of the manifest and the bodies is a parameter, as is the node.
pub mod Arrivals
pub mod Junction
pub mod Epochs
pub mod Chains
use lightwalletd_rs.Base.{
  ℕ, ◌+◌, ◌-◌, ◌*◌, List, [], ◌∷◌, map, Bool, true, false, Option, none, some, ltb, ◌==◌, not,
  if◌then◌else◌, Result, ok, err, ◌>>=◌, ◌>>◌, ok_or, map_err, length, drop, head?, add64,
}
use lightwalletd_rs.Base.Bytes.{Bytes}
use lightwalletd_rs.Cache.{Cache, CacheError, decode, latest_height, get, add_decoded_batch}
use lightwalletd_rs.Encoding.{Text, Hex}
use lightwalletd_rs.Node.{Node, GetBlockchainInfo}
use lightwalletd_rs.Proto.{CompactBlock, Codec}
use lightwalletd_rs.Snapshot.Failure.{
  SnapshotError, epoch_rejected, length_check, cache_error, node_error, gap,
}
use lightwalletd_rs.Snapshot.Manifest.{EpochEntry, Manifest, validate_manifest}
use lightwalletd_rs.Snapshot.Verify.{decode_block, check_linkage, check_tree_sizes, verify_epoch}

pub record EpochSource : Type 0 where
  pub manifest : Result SnapshotError Manifest
  pub epoch : ℕ → ℕ → Result SnapshotError Bytes

abbrev pub max_epoch_bytes : ℕ
max_epoch_bytes = 2 * 1024 * 1024 * 1024

unfoldable pub fetch_body : EpochSource → EpochEntry → Result SnapshotError Bytes
fetch_body source entry = do
  if ltb max_epoch_bytes entry.bytes then err (epoch_rejected entry.index length_check) else ok tt
  body ← source.epoch entry.index entry.bytes
  if not (length body == entry.bytes) then err (epoch_rejected entry.index length_check) else ok tt
  ok body

-- What the loop does with an entry: `continue`, an error, `break`, or import it from a height on.
pub data Turn : Type 0 where
  held leaves_gap beyond_node : Turn
  arrives : ℕ → Turn

abbrev pub next_height : Option ℕ → EpochEntry → ℕ
next_height none entry = entry.start
next_height (some height) entry = add64 height 1

unfoldable pub turn : Option ℕ → ℕ → EpochEntry → Turn
turn tip node_blocks entry =
    let next = next_height tip entry in
    if ltb entry.end next
    then held
    else if ltb next entry.start
    then leaves_gap
    else if ltb node_blocks entry.end
    then beyond_node
    else arrives next

abbrev pub base_of : Option ℕ → ℕ → Option ℕ
base_of none next = some next
base_of (some height) next = none

abbrev pub landed : Cache × Result CacheError (Unit {0}) → Cache × Result SnapshotError (Unit {0})
landed (c, result) = (c, map_err cache_error result)

-- The range of records that arrives; what lies behind is `records[(next - entry.start)..]`.
abbrev pub arriving_of : List Bytes → EpochEntry → ℕ → List Bytes
arriving_of records entry next = drop (next - entry.start) records

module _ (codec : Codec) where
  abbrev pub arriving_blocks : List Bytes → List (Result CacheError CompactBlock)
  arriving_blocks records = map (λ raw. ok_or decode (codec.decode raw)) records

  abbrev pub junction : ℕ → ℕ → Bytes → Option CompactBlock → Result SnapshotError (Unit {0})
  junction epoch tip_height raw none = ok tt
  junction epoch tip_height raw (some tip) = do
    first ← decode_block codec epoch (add64 tip_height 1) raw
    check_linkage epoch tip first
    check_tree_sizes epoch tip first

  abbrev pub junction_at : Cache → ℕ → Bytes → Option ℕ → Result SnapshotError (Unit {0})
  junction_at c epoch raw none = ok tt
  junction_at c epoch raw (some tip_height) = do
    tip ← map_err cache_error (get codec c tip_height)
    junction epoch tip_height raw tip

  unfoldable pub check_junction : Cache → ℕ → Option Bytes → Result SnapshotError (Unit {0})
  unfolding get decode_block check_linkage check_tree_sizes
  check_junction c epoch none = ok tt
  check_junction c epoch (some raw) = junction_at c epoch raw (latest_height c)

  module _ (hex : Hex) (sha256 : Bytes → Bytes) (is_utf8 : Bytes → Bool) (source : EpochSource)
      (node : Node) where
    -- The records of an entry that arrive, fetched and verified.
    unfoldable pub obtain : Cache → Text → EpochEntry → ℕ → Result SnapshotError (List Bytes)
    unfolding fetch_body verify_epoch check_junction
    obtain c chain entry next = do
      body ← fetch_body source entry
      records ← verify_epoch hex sha256 is_utf8 codec node body entry chain
      check_junction c entry.index (head? (arriving_of records entry next))
      ok (arriving_of records entry next)

    unfoldable pub import_epoch :
        Cache → Text → Option ℕ → EpochEntry → ℕ → Cache × Result SnapshotError (Unit {0})
    unfolding obtain add_decoded_batch
    import_epoch c chain tip entry next = elim (obtain c chain entry next) [
      | err e ↦ (c, err e)
      | ok arriving ↦
          landed (add_decoded_batch codec c (arriving_blocks arriving) (base_of tip next))
    ]

    -- The loop over the entries, from the tip on that it keeps.
    unfoldable pub import_epochs :
        Cache → Text → ℕ → Option ℕ → List EpochEntry → Cache × Result SnapshotError (Option ℕ)
    unfolding turn import_epoch
    import_epochs c chain node_blocks tip [] = (c, ok tip)
    import_epochs c chain node_blocks tip (entry ∷ entries) = elim (turn tip node_blocks entry) [
      | held ↦ import_epochs c chain node_blocks tip entries
      | leaves_gap ↦ (c, err (gap tip entry.start))
      | beyond_node ↦ (c, ok tip)
      | arrives next ↦ elim (import_epoch c chain tip entry next).1 [
        | err e ↦ ((import_epoch c chain tip entry next).0, err e)
        | ok u ↦
            import_epochs (import_epoch c chain tip entry next).0 chain node_blocks (some entry.end)
              entries
      ]
    ]

    -- What is read before the loop.
    unfoldable pub prepare : Result SnapshotError (Manifest × GetBlockchainInfo)
    unfolding validate_manifest
    prepare = do
      manifest ← source.manifest
      info ← map_err node_error node.get_blockchain_info
      validate_manifest manifest info.chain
      ok (manifest, info)

    unfoldable pub import_snapshot : Cache → Cache × Result SnapshotError (Option ℕ)
    unfolding prepare import_epochs
    import_snapshot c = elim prepare [
      | err e ↦ (c, err e)
      | ok p ↦ import_epochs c p.0.chain p.1.blocks (latest_height c) p.0.epochs
    ]
