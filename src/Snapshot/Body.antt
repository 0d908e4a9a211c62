-- ===== src/Snapshot/Body.antt =====
-- The framing of an epoch body in src/snapshot/format.rs: the header, the length-prefixed records, and
-- the parser. A sink is the bytes that are written to it, and a chain name is its bytes; whether bytes
-- are UTF-8 is a parameter, since the standard library decides it.
pub mod Position
pub mod RoundTrip
pub mod Canonical
use lightwalletd_rs.Base.{
  ℕ, zero, suc, ◌+◌, ◌-◌, List, [], ◌∷◌, ◌++◌, length, take, drop, is_empty, all, ltb, not, ◌||◌,
  Bool, ◌=ᵇ◌, ◌==◌, if◌then◌else◌, Result, ok, err, ◌>>=◌, ◌>>◌, u64_max, u32_max,
}
use lightwalletd_rs.Base.Bytes.{Bytes, le_bytes, from_le_bytes}
use lightwalletd_rs.Snapshot.Failure.{SnapshotError, malformed, invalid_chain}

abbrev pub format_version : ℕ
format_version = 1

-- "LWDSNAP" and the version.
abbrev pub magic : Bytes
magic = 76 ∷ 87 ∷ 68 ∷ 83 ∷ 78 ∷ 65 ∷ 80 ∷ format_version ∷ []

abbrev pub is_ascii : Bytes → Bool
is_ascii text = all (λ c. ltb c 128) text

-- What `write_header` writes.
unfoldable pub write_header : Bytes → ℕ → ℕ → Result SnapshotError Bytes
write_header chain start count =
    if is_empty chain || not (is_ascii chain) || ltb 255 (length chain)
    then err invalid_chain
    else ok (magic ++ (length chain ∷ (chain ++ (le_bytes 8 start ++ le_bytes 4 count))))

-- What `write_record` writes.
unfoldable pub write_record : Bytes → Result SnapshotError Bytes
write_record block =
    if ltb u32_max (length block) then err malformed else ok (le_bytes 4 (length block) ++ block)

-- The loop of `write_body` of src/snapshot/export.rs over the stored blocks.
unfoldable pub write_records : List Bytes → Result SnapshotError Bytes
unfolding write_record
write_records [] = ok []
write_records (block ∷ blocks) = do
  first ← write_record block
  rest ← write_records blocks
  ok (first ++ rest)

pub record EpochHeader : Type 0 where
  pub chain : Bytes
  pub start : ℕ
  pub count : ℕ

pub record Cursor : Type 0 where
  pub body : Bytes
  pub offset : ℕ

-- `Cursor::take`; the sum is checked on `usize`.
unfoldable pub take_bytes : Cursor → ℕ → Result SnapshotError (Bytes × Cursor)
take_bytes cursor n =
    if ltb u64_max (cursor.offset + n) || ltb (length cursor.body) (cursor.offset + n)
    then err malformed
    else ok (take n (drop cursor.offset cursor.body), record cursor { offset = cursor.offset + n })

abbrev pub first_byte : Bytes → ℕ
first_byte [] = 0
first_byte (b ∷ bs) = b

-- The loop over the records.
unfoldable pub parse_records : ℕ → Cursor → Result SnapshotError (List Bytes × Cursor)
parse_records zero cursor = ok ([], cursor)
parse_records (suc n) cursor = do
  (width, cursor₁) ← take_bytes cursor 4
  (block, cursor₂) ← take_bytes cursor₁ (from_le_bytes width)
  (blocks, cursor₃) ← parse_records n cursor₂
  ok (block ∷ blocks, cursor₃)

-- Nothing is left behind the last record.
abbrev pub at_end :
    EpochHeader → List Bytes × Cursor → Result SnapshotError (EpochHeader × List Bytes)
at_end header (records, cursor) =
    if not (cursor.offset == length cursor.body) then err malformed else ok (header, records)

module _ (is_utf8 : Bytes → Bool) where
  unfoldable pub parse_header : Cursor → Result SnapshotError (EpochHeader × Cursor)
  unfolding take_bytes
  parse_header cursor = do
    (magic', cursor₁) ← take_bytes cursor (length magic)
    if not (magic' =ᵇ magic) then err malformed else ok tt
    (width, cursor₂) ← take_bytes cursor₁ 1
    (chain, cursor₃) ← take_bytes cursor₂ (first_byte width)
    if not (is_utf8 chain) then err malformed else ok tt
    (start, cursor₄) ← take_bytes cursor₃ 8
    (count, cursor₅) ← take_bytes cursor₄ 4
    ok (record { chain = chain; start = from_le_bytes start; count = from_le_bytes count }, cursor₅)

  unfoldable pub parse_epoch : Bytes → Result SnapshotError (EpochHeader × List Bytes)
  unfolding parse_header parse_records
  parse_epoch body = do
    (header, cursor) ← parse_header (record { body = body; offset = 0 })
    parsed ← parse_records header.count cursor
    at_end header parsed
