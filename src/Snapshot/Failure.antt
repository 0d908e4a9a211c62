-- ===== src/Snapshot/Failure.antt =====
-- Why a snapshot is refused (`SnapshotError` of src/snapshot/mod.rs), without the message texts. An error
-- of the transport carries the status that the peer chose, if there is one.
use lightwalletd_rs.Base.{ℕ, Option}
use lightwalletd_rs.Cache.{CacheError}
use lightwalletd_rs.Node.{NodeError}

-- The `check` label of a rejection.
pub data Check : Type 0 where
  length_check content_digest_check framing_check chain_check decode_check height_check : Check
  linkage_check tree_size_check anchor_check : Check

pub data SnapshotError : Type 0 where
  cache_error : CacheError → SnapshotError
  malformed invalid_chain chain_mismatch malformed_manifest lookup_task : SnapshotError
  http : Option ℕ → SnapshotError
  unknown_epoch malformed_digest : ℕ → SnapshotError
  unsupported_version epoch_size_mismatch : ℕ → SnapshotError
  gap : Option ℕ → ℕ → SnapshotError
  epoch_rejected : ℕ → Check → SnapshotError
  block_rejected : ℕ → ℕ → Check → SnapshotError
  node_error : NodeError → SnapshotError
  node_lookup : ℕ → NodeError → SnapshotError
