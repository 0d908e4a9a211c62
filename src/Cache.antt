-- ===== src/Cache.antt =====
-- src/cache.rs: the block cache. A redb table is its contents in key order, a transaction is a
-- function from the committed contents to the next, and dropping a transaction keeps the old ones.
pub mod Chain
pub mod Append
pub mod Read
pub mod Check
pub mod Chunk
pub mod Truncate
use lightwalletd_rs.Base.{
  ℕ, zero, suc, ◌+◌, ◌-◌, Bool, true, false, not, ◌&&◌, Option, none, some, List, [], ◌∷◌, map, ltb,
  leb, ◌==◌, if◌then◌else◌, Result, ok, err, ◌>>=◌, ◌>>◌, ok_or, length, is_empty, head?, get_last?,
  filter, reverse, add64, sub64, sat_add64,
}
use lightwalletd_rs.Base.Bytes.{Bytes, le_bytes, from_le_bytes}
use lightwalletd_rs.Base.Table.{Table, lookup, insert, retain_keys}
use lightwalletd_rs.Proto.{CompactBlock, Codec}

-- What the `detail` text of a `Corruption` says.
pub data Detail : Type 0 where
  key_mismatch : ℕ → ℕ → Detail
  non_monotonic : ℕ → ℕ → Detail
  not_consecutive : ℕ → ℕ → Detail
  base_height_not_8_bytes tip_undecodable : Detail
  tip_height_mismatch : ℕ → ℕ → Detail
  gap : ℕ → ℕ → ℕ → Detail

pub data CacheError : Type 0 where
  decode : CacheError
  corruption : ℕ → Detail → CacheError

-- The tables `compact_blocks` and `meta`: the `snapshot_base_height` row, and the epoch digests by
-- the epoch index that their keys spell.
pub record Cache : Type 0 where
  pub blocks : Table Bytes
  pub base_row : Option Bytes
  pub digests : Table Bytes

abbrev pub empty : Cache
empty = record { blocks = []; base_row = none; digests = [] }

-- `table.first()` and `table.last()`, down to the height.
abbrev pub first_height : Table Bytes → Option ℕ
first_height [] = none
first_height ((h, v) ∷ m) = some h

abbrev pub last_height : Table Bytes → Option ℕ
last_height [] = none
last_height ((h, v) ∷ []) = some h
last_height ((h, v) ∷ e ∷ m) = last_height (e ∷ m)

abbrev pub last_value : Table Bytes → Option Bytes
last_value [] = none
last_value ((h, v) ∷ []) = some v
last_value ((h, v) ∷ e ∷ m) = last_value (e ∷ m)

unfoldable pub decode_base_height : Option Bytes → Result CacheError (Option ℕ)
decode_base_height none = ok none
decode_base_height (some bytes) =
    if length bytes == 8
    then ok (some (from_le_bytes bytes))
    else err (corruption 0 base_height_not_8_bytes)

unfoldable pub snapshot_base_height : Cache → Result CacheError (Option ℕ)
unfolding decode_base_height
snapshot_base_height c = decode_base_height c.base_row

-- The guard of one appended block: the first of a batch extends the tip by one, each later one the
-- block before it.
unfoldable pub check_height : Option ℕ → Option ℕ → ℕ → Result CacheError (Unit {0})
check_height none none height = ok tt
check_height (some tip) none height =
    if height == add64 tip 1 then ok tt else err (corruption height (non_monotonic tip height))
check_height tip (some expected) height =
    if height == expected
    then ok tt
    else err (corruption expected (not_consecutive expected height))

abbrev pub write_base : Option ℕ → Option Bytes → Option Bytes
write_base none row = row
write_base (some base) row = some (le_bytes 8 base)

module _ (codec : Codec) where
  -- The loop of `append`, over blocks decoded on demand; the flag is `appended`.
  unfoldable pub append_loop :
      Option ℕ
      → Option ℕ
      → List (Result CacheError CompactBlock)
      → Table Bytes
      → Bool
      → Result CacheError (Table Bytes × Bool)
  append_loop tip expected [] table appended = ok (table, appended)
  append_loop tip expected (block ∷ rest) table appended = do
    b ← block
    check_height tip expected b.height
    append_loop tip (some (add64 b.height 1)) rest (insert b.height (codec.encode b) table) true

  -- What is committed: nothing after an error or when nothing was appended.
  unfoldable pub commit_append :
      Cache
      → Option ℕ
      → Result CacheError (Table Bytes × Bool)
      → Cache × Result CacheError (Unit {0})
  commit_append c base (err e) = (c, err e)
  commit_append c base (ok (table, appended)) =
      if appended
      then (record c { blocks = table; base_row = write_base base c.base_row }, ok tt)
      else (c, ok tt)

  unfoldable pub append :
      Cache
      → List (Result CacheError CompactBlock)
      → Option ℕ
      → Cache × Result CacheError (Unit {0})
  unfolding append_loop commit_append check_height
  append c blocks base =
      commit_append c base (append_loop (last_height c.blocks) none blocks c.blocks false)

  unfoldable pub add_batch : Cache → List CompactBlock → Cache × Result CacheError (Unit {0})
  unfolding append
  add_batch c blocks = append c (map ok blocks) none

  unfoldable pub add_decoded_batch :
      Cache
      → List (Result CacheError CompactBlock)
      → Option ℕ
      → Cache × Result CacheError (Unit {0})
  unfolding append
  add_decoded_batch c blocks base = append c blocks base

  unfoldable pub add : Cache → ℕ → CompactBlock → Cache × Result CacheError (Unit {0})
  unfolding add_batch
  add c height block =
      if not (block.height == height)
      then (c, err (corruption height (key_mismatch block.height height)))
      else add_batch c (block ∷ [])

  abbrev decode_row : Option Bytes → Result CacheError (Option CompactBlock)
  decode_row none = ok none
  decode_row (some bytes) = do b ← ok_or decode (codec.decode bytes); ok (some b)

  unfoldable pub get : Cache → ℕ → Result CacheError (Option CompactBlock)
  get c height = decode_row (lookup height c.blocks)

  hashes_loop : Table Bytes → List ℕ → Table Bytes → Result CacheError (Table Bytes)
  hashes_loop table [] hashes = ok hashes
  hashes_loop table (height ∷ rest) hashes = elim (lookup height table) [
    | none ↦ hashes_loop table rest hashes
    | some bytes ↦ do
      hash ← ok_or decode (codec.decode_hash bytes)
      hashes_loop table rest (insert height hash hashes)
  ]

  unfoldable pub hashes_at : Cache → List ℕ → Result CacheError (Table Bytes)
  unfolding hashes_loop
  hashes_at c heights = hashes_loop c.blocks heights []

  abbrev decode_tip_hash : Option Bytes → Result CacheError (Option Bytes)
  decode_tip_hash none = ok none
  decode_tip_hash (some bytes) = do b ← ok_or decode (codec.decode bytes); ok (some b.hash)

  -- The hash of the highest cached block.
  unfoldable pub latest_hash : Cache → Result CacheError (Option Bytes)
  latest_hash c = decode_tip_hash (last_value c.blocks)

abbrev pub latest_height : Cache → Option ℕ
latest_height c = last_height c.blocks

-- The lowest and the highest cached height.
unfoldable pub range : Cache → Option (ℕ × ℕ)
range c = elim (first_height c.blocks) [
  | none ↦ none
  | some first ↦ elim (last_height c.blocks) [ none ↦ none | some last ↦ some (first, last) ]
]

-- The loop of `read_chunk`: the blocks read so far, and the height that the budget stopped before.
unfoldable pub fill : ℕ → ℕ → Table Bytes → Table Bytes → Table Bytes × Option ℕ
fill max_bytes held blocks [] = (blocks, none)
fill max_bytes held blocks ((height, bytes) ∷ entries) =
    if not (is_empty blocks) && ltb max_bytes (held + length bytes)
    then (blocks, some height)
    else fill max_bytes (held + length bytes) (insert height bytes blocks) entries

abbrev pub in_range : ℕ → ℕ → Table Bytes → Table Bytes
in_range low high = retain_keys (λ k. leb low k && leb k high)

pub record CachedChunk : Type 0 where
  pub blocks : Table Bytes
  pub covered : ℕ × ℕ

abbrev pub covered_range : ℕ → ℕ → Bool → Option ℕ → ℕ × ℕ
covered_range low high true (some height) = (sat_add64 height 1, high)
covered_range low high false (some height) = (low, height - 1)
covered_range low high descending none = (low, high)

unfoldable pub read_chunk : Cache → ℕ × ℕ → Bool → ℕ → CachedChunk
unfolding fill
read_chunk c (low, high) descending max_bytes =
    let entries = in_range low high c.blocks in
    let (blocks, stopped_before) =
      fill max_bytes 0 [] (if descending then reverse entries else entries) in
    record { blocks = blocks; covered = covered_range low high descending stopped_before }
