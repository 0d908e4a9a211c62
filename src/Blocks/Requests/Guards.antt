-- ===== src/Blocks/Requests/Guards.antt =====
-- The tests that the range methods of src/service/blocks.rs make of a request.
use lightwalletd_rs.Base.{
  ℕ, ◌-◌, ◌≤◌, ◌<◌, ◌≡◌, ◌≢◌, inl, inr, refl, ◌↔◌, Option, none, some, List, [], ◌∷◌, All, arith,
  false, Bool-cases, ltb, if◌then◌else◌, Result, ok, err, u64_max, min, max,
}
use lightwalletd_rs.Base.Bytes.{Bytes}
use lightwalletd_rs.Base.Int.{ℤ, pos, ◌=ℤ◌, =ℤ_iff}
use lightwalletd_rs.Base.Table.{Table}
use lightwalletd_rs.Blocks.{validate_block_range, check_ingest_floor, floor_of}
use lightwalletd_rs.Blocks.Requests.{BlockId}
use lightwalletd_rs.Cache.{Cache, last_height, range}
use lightwalletd_rs.Filter.{contains, pool_invalid}
use lightwalletd_rs.Status.{Status, out_of_range}

-- On `u64` bounds, a range is accepted exactly where both bounds are given and it has at most 10,000
-- heights; the span does not wrap where both are.
pub validate_block_range_iff :
    (start end' : ℕ)
    → start ≤ u64_max
    → end' ≤ u64_max
    → (validate_block_range start end' ≡ ok tt)
      ↔ ((1 ≤ start) × (1 ≤ end') × (max start end' - min start end' < 10000))
unfolding validate_block_range
validate_block_range_iff start end' le le' = ground arith

-- The height is a `u64`, if there is one.
abbrev pub Fits : Option BlockId → Type 0
Fits none = Unit
Fits (some id) = id.height ≤ u64_max

-- A configured floor is that of an empty cache; a cache with rows has its own, the lowest.
abbrev pub AboveFloor : Option ℕ → Table Bytes → ℕ → Type 0
AboveFloor none rows low = Unit
AboveFloor (some configured) [] low = configured ≤ low
AboveFloor (some configured) ((first, row) ∷ rows) low = first ≤ low

last_height-some :
    (first : ℕ) (row : Bytes) (rows : Table Bytes)
    → (last : ℕ) × (last_height ((first, row) ∷ rows) ≡ some last)
last_height-some first row [] = (first, refl)
last_height-some first row ((next, row') ∷ rows) = last_height-some next row' rows

floor_by_rows :
    (configured low : ℕ) (c : Cache) (rows : Table Bytes)
    → c.blocks ≡ rows
    → (◌≡◌ {A = Result Status (Unit {0})}
        (if ltb low (floor_of configured (range c)) then err out_of_range else ok tt)
        (ok tt))
      ↔ AboveFloor (some configured) rows low
unfolding range
floor_by_rows configured low c [] is = rw (range, is) (λ h. ground arith, λ h. ground arith)
floor_by_rows configured low c ((first, row) ∷ rows) is =
    let (last, known) = last_height-some first row rows in
    let known' : last_height c.blocks ≡ some last = rw is known in
    rw (range, is, known') (λ h. ground arith, λ h. ground arith)

pub check_ingest_floor_iff :
    (floor : Option ℕ) (c : Cache) (low : ℕ)
    → (check_ingest_floor floor c low ≡ ok tt) ↔ AboveFloor floor c.blocks low
unfolding check_ingest_floor
check_ingest_floor_iff none c low = (λ h. tt, λ h. refl)
check_ingest_floor_iff (some configured) c low = floor_by_rows configured low c c.blocks refl

pub no_invalid_iff :
    (pools : List ℤ) → (contains pools pool_invalid ≡ false) ↔ All (λ pool. pool ≢ pos 0) pools
no_invalid_iff [] = (λ h. tt, λ h. refl)
no_invalid_iff (p ∷ pools) = elim (Bool-cases (p =ℤ pool_invalid)) [
  | inl invalid ↦ rw invalid (λ h. cc, λ h. absurd (h.0 ((=ℤ_iff p pool_invalid).0 invalid)))
  | inr valid ↦ rw valid (
    λ h. (λ same. cc (valid, (=ℤ_iff p pool_invalid).1 same), (no_invalid_iff pools).0 h),
    λ h. (no_invalid_iff pools).1 h.1,
  )
]
