-- ===== src/Cache/Check.antt =====
-- The consistency check of src/cache.rs and the localisation of corruption (`validate_light`,
-- `lowest_corrupt_height`).
pub mod Gaps
pub mod Suffix
pub mod Verdict
use lightwalletd_rs.Base.{
  ℕ, zero, suc, ◌+◌, ◌-◌, Bool, true, false, not, Option, none, some, List, [], ◌∷◌, ltb, ◌==◌,
  if◌then◌else◌, Result, ok, err, length, add64, sub64, ◌≡◌, refl,
}
use lightwalletd_rs.Base.Bytes.{Bytes}
use lightwalletd_rs.Base.Table.{Table, lookup}
use lightwalletd_rs.Cache.{
  Cache, CacheError, corruption, tip_undecodable, tip_height_mismatch, gap, first_height,
  last_height, last_value,
}
use lightwalletd_rs.Proto.{CompactBlock, Codec}

-- `last - first + 1` on `u64`.
abbrev pub span : ℕ → ℕ → ℕ
span first last = add64 (sub64 last first) 1

-- `for height in first..=last`, with `rounds` heights to go: the lowest one that is missing.
unfoldable pub scan_up : Table Bytes → ℕ → ℕ → Option ℕ
scan_up table height zero = none
scan_up table height (suc rounds) = elim (lookup height table) [
  | none ↦ some height
  | some bytes ↦ scan_up table (suc height) rounds
]

check_tip : ℕ → ℕ → ℕ → Option CompactBlock → Result CacheError (Unit {0})
check_tip len first last none = err (corruption last tip_undecodable)
check_tip len first last (some tip) =
    if not (tip.height == last)
    then err (corruption last (tip_height_mismatch tip.height last))
    else if not (len == span first last)
    then err (corruption last (gap len first last))
    else ok tt

-- Whether a row decodes to a block of its own height.
abbrev pub is_good_block : ℕ → Option CompactBlock → Bool
is_good_block height none = false
is_good_block height (some b) = b.height == height

module _ (codec : Codec) where
  check_rows : ℕ → Option ℕ → Option ℕ → Option Bytes → Result CacheError (Unit {0})
  unfolding check_tip
  check_rows len (some first) (some last) (some value) =
      check_tip len first last (codec.decode value)
  check_rows len first last value = ok tt

  -- An empty table has no first and no last entry, and passes.
  unfoldable pub validate_light : Cache → Result CacheError (Unit {0})
  unfolding check_rows
  validate_light c =
      check_rows (length c.blocks) (first_height c.blocks) (last_height c.blocks)
        (last_value c.blocks)

  abbrev pub is_good_row : ℕ → Option Bytes → Bool
  is_good_row height none = false
  is_good_row height (some bytes) = is_good_block height (codec.decode bytes)

  abbrev pub is_good : Table Bytes → ℕ → Bool
  is_good table height = is_good_row height (lookup height table)

  -- The walk down from the tip, at `height = first + above`.
  unfoldable pub walk_down : Table Bytes → ℕ → ℕ → ℕ → Option ℕ
  walk_down table first last zero =
      if is_good table first
      then (if ltb first last then some (first + 1) else none)
      else some first
  walk_down table first last (suc above) =
      let lower = walk_down table first last above in
      if is_good table (first + suc above)
      then (if ltb (first + suc above) last then some (first + suc above + 1) else none)
      else lower

  abbrev or_walk : Table Bytes → ℕ → ℕ → Option ℕ → Option ℕ
  or_walk table first last (some missing) = some missing
  or_walk table first last none = walk_down table first last (last - first)

  locate : Table Bytes → Option ℕ → Option ℕ → Option ℕ
  unfolding scan_up walk_down
  locate table (some first) (some last) = or_walk table first last (
      if not (length table == span first last)
      then scan_up table first (last - first + 1)
      else none)
  locate table first last = none

  unfoldable pub lowest_corrupt_height : Cache → Option ℕ
  unfolding locate
  lowest_corrupt_height c = locate c.blocks (first_height c.blocks) (last_height c.blocks)
