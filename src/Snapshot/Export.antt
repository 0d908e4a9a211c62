-- ===== src/Snapshot/Export.antt =====
-- src/snapshot/export.rs: the digests of completed epochs, and the bodies that are served. A sink keeps
-- what was written to it; SHA-256 is a parameter. Each read of the cache is a transaction of its own, so
-- the maintenance step takes the cache that each of them sees.
pub mod Bodies
pub mod Pending
use lightwalletd_rs.Base.{
  ℕ, zero, suc, ◌+◌, ◌-◌, List, [], ◌∷◌, ◌++◌, map, Bool, true, false, Option, none, some, ltb,
  ◌==◌, not, ◌||◌, if◌then◌else◌, Result, ok, err, ◌>>=◌, ◌>>◌, ok_or, length, max, u32_max,
}
use lightwalletd_rs.Base.Bytes.{Bytes}
use lightwalletd_rs.Base.Table.{Table}
use lightwalletd_rs.Cache.Truncate.{epoch_digest, epoch_digests, set_epoch_digest}
use lightwalletd_rs.Cache.{Cache, decode, corruption, key_mismatch, range, in_range}
use lightwalletd_rs.Encoding.{Text, Hex}
use lightwalletd_rs.Proto.{CompactBlock, Codec}
use lightwalletd_rs.Snapshot.Body.{format_version, write_header, write_record}
use lightwalletd_rs.Snapshot.Digest
use lightwalletd_rs.Snapshot.Digest.{EpochDigest}
use lightwalletd_rs.Snapshot.Epoch.{epoch_size, epoch_index, epoch_first_height, epoch_last_height}
use lightwalletd_rs.Snapshot.Failure.{
  SnapshotError, malformed, unknown_epoch, malformed_digest, cache_error,
}
use lightwalletd_rs.Snapshot.Manifest.{Manifest, EpochEntry, entry}
use lightwalletd_rs.Snapshot.Verify.{anchor_bytes}

-- What a body's writer keeps: the sink, what the anchor's hasher was fed, and `written`.
pub record Written : Type 0 where
  pub out : Bytes
  pub anchored : Bytes
  pub written : ℕ

-- The visitor that `write_body` hands to `for_each_raw`.
unfoldable pub visit_block :
    (ℕ → Bytes → Bytes → Result SnapshotError Bytes)
    → Written
    → ℕ
    → Bytes
    → Result SnapshotError Written
unfolding write_record
visit_block on_block s height raw = do
  framed ← write_record raw
  anchored ← on_block height raw s.anchored
  ok (record { out = s.out ++ framed; anchored = anchored; written = suc s.written })

-- `for_each_raw` of src/cache.rs over the rows of a range, with the state of its visitor.
unfoldable pub visit_rows {ℓ} :
    {S : Type ℓ}
    → (S → ℕ → Bytes → Result SnapshotError S)
    → S
    → Table Bytes
    → Result SnapshotError S
visit_rows visit s [] = ok s
visit_rows visit s ((height, raw) ∷ rows) = do s' ← visit s height raw; visit_rows visit s' rows

abbrev pub for_each_raw {ℓ} :
    {S : Type ℓ}
    → Cache
    → ℕ
    → ℕ
    → (S → ℕ → Bytes → Result SnapshotError S)
    → S
    → Result SnapshotError S
for_each_raw c start end visit s = visit_rows visit s (in_range start end c.blocks)

abbrev pub body_count : ℕ → ℕ → Result SnapshotError ℕ
body_count start end =
    if ltb end start || ltb u32_max (suc end - start) then err malformed else ok (suc end - start)

-- The bytes written, and those the anchor covers.
unfoldable pub write_body :
    Cache
    → Text
    → ℕ
    → ℕ
    → (ℕ → Bytes → Bytes → Result SnapshotError Bytes)
    → Result SnapshotError (Bytes × Bytes)
unfolding write_header visit_block visit_rows
write_body c chain start end on_block = do
  count ← body_count start end
  head ← write_header chain start count
  s ←
      for_each_raw c start end (visit_block on_block)
        (record { out = head; anchored = []; written = 0 })
  if not (s.written == count) then err malformed else ok tt
  ok (s.out, s.anchored)

abbrev pub no_anchor : ℕ → Bytes → Bytes → Result SnapshotError Bytes
no_anchor height raw anchored = ok anchored

unfoldable pub write_epoch : Cache → Text → ℕ → Result SnapshotError Bytes
unfolding write_body epoch_digest Digest.decode
write_epoch c chain index = do
  row ← ok_or (unknown_epoch index) (epoch_digest c index)
  digest ← ok_or (malformed_digest index) (Digest.decode row)
  (out, anchored) ← write_body c chain digest.start digest.end no_anchor
  ok out

unfoldable pub complete_epoch_bounds : Cache → ℕ → Option (ℕ × ℕ)
unfolding range epoch_first_height epoch_last_height
complete_epoch_bounds c index = elim (range c) [
  | none ↦ none
  | some (base, tip) ↦
      let start = max (epoch_first_height index) base in
      let end = epoch_last_height index in
      if ltb end start || not (ltb end tip) then none else some (start, end)
]

unfoldable pub was_truncated : Option (ℕ × ℕ) → Option (ℕ × ℕ) → Bool
was_truncated (some (before_base, before_tip)) (some (base, tip)) =
    not (base == before_base) || ltb tip before_tip
was_truncated (some before) none = true
was_truncated none after = false

-- The scan, on fuel for the epochs it looks at.
unfoldable pub pending_from : Cache → ℕ → ℕ → ℕ → Option ℕ
unfolding epoch_digest epoch_last_height
pending_from c tip zero index = none
pending_from c tip (suc fuel) index =
    let later = pending_from c tip fuel (suc index) in
    if not (ltb (epoch_last_height index) tip)
    then none
    else (elim (epoch_digest c index) [ none ↦ some index | some row ↦ later ])

unfoldable pub next_pending_epoch : Cache → Option ℕ
unfolding range pending_from
next_pending_epoch c = elim (range c) [
  | none ↦ none
  | some (base, tip) ↦ pending_from c tip (suc (epoch_index tip)) (epoch_index base)
]

-- The loop over the stored digests.
unfoldable pub entries_of : Hex → Table Bytes → Result SnapshotError (List EpochEntry)
unfolding Digest.decode entry
entries_of hex [] = ok []
entries_of hex ((index, row) ∷ rows) = do
  digest ← ok_or (malformed_digest index) (Digest.decode row)
  entries ← entries_of hex rows
  ok (entry hex digest index ∷ entries)

abbrev pub bounds_or_zero : Option (ℕ × ℕ) → ℕ × ℕ
bounds_or_zero none = (0, 0)
bounds_or_zero (some bounds) = bounds

-- The range and the digests are read separately.
unfoldable pub manifest : Hex → Cache → Cache → Text → Result SnapshotError Manifest
unfolding range entries_of epoch_digests
manifest hex c c' chain = do
  entries ← entries_of hex (epoch_digests c')
  ok (record {
    version = format_version;
    chain = chain;
    span = epoch_size;
    base_height = (bounds_or_zero (range c)).0;
    tip_height = (bounds_or_zero (range c)).1;
    epochs = entries;
  })

module _ (codec : Codec) (sha256 : Bytes → Bytes) where
  unfoldable pub anchor_block : ℕ → Bytes → Bytes → Result SnapshotError Bytes
  anchor_block height raw anchored = do
    block ← ok_or (cache_error decode) (codec.decode raw)
    if not (block.height == height)
        then err (cache_error (corruption height (key_mismatch block.height height)))
        else ok tt
    ok (anchored ++ anchor_bytes height block.hash)

  abbrev pub digest_of : ℕ → ℕ → Bytes × Bytes → EpochDigest
  digest_of start end (out, anchored) = record {
    start = start;
    end = end;
    bytes = length out;
    content = sha256 out;
    anchor = sha256 anchored;
  }

  -- The bounds are read from one cache, the blocks from the next.
  unfoldable pub compute_epoch_digest :
      Cache → Cache → Text → ℕ → Result SnapshotError (Option EpochDigest)
  unfolding complete_epoch_bounds write_body anchor_block
  compute_epoch_digest c c' chain index = elim (complete_epoch_bounds c index) [
    | none ↦ ok none
    | some (start, end) ↦ do
      body ← write_body c' chain start end anchor_block
      ok (some (digest_of start end body))
  ]

  -- The caches that the transactions see, in their order, the one that is written last.
  pub record Seen : Type 0 where
    pub at_scan : Cache
    pub at_range_before : Cache
    pub at_bounds : Cache
    pub at_body : Cache
    pub at_range_after : Cache
    pub at_write : Cache

  unfoldable pub store_computed : Seen → ℕ → Option EpochDigest → Cache × Option ℕ
  unfolding range was_truncated set_epoch_digest Digest.encode
  store_computed seen index none = (seen.at_write, none)
  store_computed seen index (some digest) =
      if was_truncated (range seen.at_range_before) (range seen.at_range_after)
      then (seen.at_write, none)
      else (set_epoch_digest seen.at_write index (Digest.encode digest), some index)

  unfoldable pub store_next_epoch_digest : Seen → Text → Cache × Result SnapshotError (Option ℕ)
  unfolding next_pending_epoch compute_epoch_digest store_computed
  store_next_epoch_digest seen chain = elim (next_pending_epoch seen.at_scan) [
    | none ↦ (seen.at_write, ok none)
    | some index ↦ elim (compute_epoch_digest seen.at_bounds seen.at_body chain index) [
      | err e ↦ (seen.at_write, err e)
      | ok computed ↦
          ((store_computed seen index computed).0, ok (store_computed seen index computed).1)
    ]
  ]
