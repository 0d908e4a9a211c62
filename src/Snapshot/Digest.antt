-- ===== src/Snapshot/Digest.antt =====
-- src/snapshot/format.rs: the digests of a completed epoch as the cache stores them (`EpochDigest`).
use lightwalletd_rs.Base.{
  ℕ, true, ◌+◌, ◌*◌, ◌≤◌, ◌≡◌, refl, ap, sym, ◌∙◌, [], ◌++◌, length, length-append, take, drop,
  take_append, drop_append, append-nil, ◌==◌, if◌then◌else◌, Option, none, some, u64_max, arith,
}
use lightwalletd_rs.Base.Bytes.{Bytes, le_bytes, from_le_bytes, from_le_bytes-le_bytes}

pub record EpochDigest : Type 0 where
  pub start : ℕ
  pub end : ℕ
  pub bytes : ℕ
  pub content : Bytes
  pub anchor : Bytes

abbrev pub encoded_len : ℕ
encoded_len = 8 * 3 + 32 * 2

unfoldable pub encode : EpochDigest → Bytes
encode d =
    le_bytes 8 d.start ++ (le_bytes 8 d.end ++ (le_bytes 8 d.bytes ++ (d.content ++ d.anchor)))

-- `raw[from..from + width]`.
abbrev pub slice : ℕ → ℕ → Bytes → Bytes
slice from width raw = take width (drop from raw)

unfoldable pub decode : Bytes → Option EpochDigest
decode raw =
    if length raw == encoded_len
    then some (record {
      start = from_le_bytes (slice 0 8 raw);
      end = from_le_bytes (slice 8 8 raw);
      bytes = from_le_bytes (slice 16 8 raw);
      content = slice 24 32 raw;
      anchor = slice 56 32 raw;
    })
    else none

slice_append :
    (from width : ℕ) (before part behind : Bytes)
    → length before ≡ from
    → length part ≡ width
    → slice from width (before ++ (part ++ behind)) ≡ part
slice_append from width before part behind e e' =
    rw (sym e, sym e')
      (ap (take (length part)) (drop_append before (part ++ behind)) ∙ take_append part behind)

-- A digest whose numbers are `u64`s and whose hashes have 32 bytes reads back from its stored row.
pub decode-encode :
    (d : EpochDigest)
    → d.start ≤ u64_max
    → d.end ≤ u64_max
    → d.bytes ≤ u64_max
    → length d.content ≡ 32
    → length d.anchor ≡ 32
    → decode (encode d) ≡ some d
unfolding decode encode
decode-encode d s e b c a =
    let long : (length (encode d) == encoded_len) ≡ true =
      ground (arith, length-append d.content d.anchor) in
    let start_read : from_le_bytes (slice 0 8 (encode d)) ≡ d.start =
      from_le_bytes-le_bytes 8 d.start (omega arith) in
    let end_read : from_le_bytes (slice 8 8 (encode d)) ≡ d.end =
      from_le_bytes-le_bytes 8 d.end (omega arith) in
    let bytes_read : from_le_bytes (slice 16 8 (encode d)) ≡ d.bytes =
      from_le_bytes-le_bytes 8 d.bytes (omega arith) in
    let content_read : slice 24 32 (encode d) ≡ d.content =
      slice_append 0 32 [] d.content d.anchor refl c in
    let anchor_read : slice 56 32 (encode d) ≡ d.anchor =
      ap (λ behind. slice 32 32 (d.content ++ behind)) (sym (append-nil d.anchor))
      ∙ slice_append 32 32 d.content d.anchor [] c a in
    rw (decode, long)
      (λ i. some (record {
        start = start_read i;
        end = end_read i;
        bytes = bytes_read i;
        content = content_read i;
        anchor = anchor_read i;
      }))
