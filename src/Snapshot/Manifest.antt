-- ===== src/Snapshot/Manifest.antt =====
-- What a server publishes about the epochs it can serve (src/snapshot/format.rs), and what an import
-- checks of it before it fetches a body (`validate_manifest` of src/snapshot/import.rs).
pub mod Valid
use lightwalletd_rs.Base.{
  ℕ, ◌+◌, List, [], ◌∷◌, Option, none, some, ltb, ◌==◌, ◌=ᵇ◌, not, ◌||◌, if◌then◌else◌, Result, ok,
  err, ◌>>=◌, ◌>>◌, add64,
}
use lightwalletd_rs.Encoding.{Text, Hex}
use lightwalletd_rs.Snapshot.Body.{format_version}
use lightwalletd_rs.Snapshot.Digest.{EpochDigest}
use lightwalletd_rs.Snapshot.Epoch.{epoch_size, epoch_first_height, epoch_last_height}
use lightwalletd_rs.Snapshot.Failure.{
  SnapshotError, unsupported_version, epoch_size_mismatch, chain_mismatch, malformed_manifest,
}

pub record EpochEntry : Type 0 where
  pub index : ℕ
  pub start : ℕ
  pub end : ℕ
  pub bytes : ℕ
  pub content_digest : Text
  pub anchor : Text

pub record Manifest : Type 0 where
  pub version : ℕ
  pub chain : Text
  pub span : ℕ
  pub base_height : ℕ
  pub tip_height : ℕ
  pub epochs : List EpochEntry

-- `EpochDigest::entry`.
unfoldable pub entry : Hex → EpochDigest → ℕ → EpochEntry
entry hex d index = record {
  index = index;
  start = d.start;
  end = d.end;
  bytes = d.bytes;
  content_digest = hex.encode d.content;
  anchor = hex.encode d.anchor;
}

-- The entry is the range of its index.
unfoldable pub check_bounds : EpochEntry → Result SnapshotError (Unit {0})
unfolding epoch_last_height
check_bounds e =
    if ltb e.end e.start || not (e.end == epoch_last_height e.index)
    then err malformed_manifest
    else ok tt

-- The entry continues the one before it; the first one starts where the manifest says.
unfoldable pub check_order : ℕ → Option EpochEntry → EpochEntry → Result SnapshotError (Unit {0})
unfolding epoch_first_height
check_order base none e =
    if ltb e.start (epoch_first_height e.index) || not (base == e.start)
    then err malformed_manifest
    else ok tt
check_order base (some previous) e =
    if not (e.index == add64 previous.index 1) || not (e.start == epoch_first_height e.index)
    then err malformed_manifest
    else ok tt

-- The loop over the entries.
unfoldable pub check_entries :
    ℕ → Option EpochEntry → List EpochEntry → Result SnapshotError (Unit {0})
unfolding check_bounds check_order
check_entries base previous [] = ok tt
check_entries base previous (e ∷ entries) = do
  check_bounds e
  check_order base previous e
  check_entries base (some e) entries

unfoldable pub validate_manifest : Manifest → Text → Result SnapshotError (Unit {0})
unfolding check_entries
validate_manifest m chain = do
  if not (m.version == format_version) then err (unsupported_version m.version) else ok tt
  if not (m.span == epoch_size) then err (epoch_size_mismatch m.span) else ok tt
  if not (m.chain =ᵇ chain) then err chain_mismatch else ok tt
  check_entries m.base_height none m.epochs
