-- ===== src/Cache/Check/Suffix.antt =====
-- The walk down from the tip in `lowest_corrupt_height` of src/cache.rs.
use lightwalletd_rs.Base.{
  ℕ, zero, suc, ◌+◌, ◌-◌, ◌≤◌, ◌<◌, ◌≡◌, refl, Option, none, some, arith, true, false, ◌⊎◌, inl,
  inr, Bool-cases, ltb, length, ◌==◌, if◌then◌else◌,
}
use lightwalletd_rs.Base.Bytes.{Bytes}
use lightwalletd_rs.Base.Table.{Table}
use lightwalletd_rs.Cache.Check.{is_good, walk_down, lowest_corrupt_height, span}
use lightwalletd_rs.Cache.{Cache, first_height, last_height}
use lightwalletd_rs.Proto.{Codec}

module _ (codec : Codec) (table : Table Bytes) where
  -- The rows from `h` to `last` are all bad, and below them is a good row or nothing.
  abbrev pub IsBadSuffix : ℕ → ℕ → ℕ → Type 0
  IsBadSuffix first last h =
      (first ≤ h)
      × (h ≤ last)
      × ((k : ℕ) → h ≤ k → k ≤ last → is_good codec table k ≡ false)
      × ((h ≡ first) ⊎ (is_good codec table (h - 1) ≡ true))

  abbrev pub IsSuffixStart : ℕ → ℕ → Option ℕ → Type 0
  IsSuffixStart first last none = is_good codec table last ≡ true
  IsSuffixStart first last (some h) = IsBadSuffix first last h

  -- What the loop has seen when it stands at `height`.
  abbrev BadAbove : ℕ → ℕ → Type 0
  BadAbove height last = (k : ℕ) → height < k → k ≤ last → is_good codec table k ≡ false

  good_found :
      (first last height : ℕ)
      → first ≤ height
      → height ≤ last
      → BadAbove height last
      → is_good codec table height ≡ true
      → IsSuffixStart first last (if ltb height last then some (height + 1) else none)
  good_found first last height ge le bad good = elim (Bool-cases (ltb height last)) [
    | inl e ↦
        let below : height + 1 - 1 ≡ height = omega arith in
        rw e
          (omega arith, ground arith, (λ k ge' le'. bad k (omega arith) le'), inr (rw below good))
    | inr e ↦ let same : height ≡ last = ground arith in rw (e, ← same) good
  ]

  bad_extends :
      (last height : ℕ)
      → BadAbove height last
      → is_good codec table height ≡ false
      → (k : ℕ) → height ≤ k
      → k ≤ last
      → is_good codec table k ≡ false
  bad_extends last height bad here k ge le = elim (Bool-cases (height == k)) [
    | inl e ↦ let same : height ≡ k = ground arith in rw same at here
    | inr e ↦ bad k (ground arith) le
  ]

  walk_down-IsSuffixStart :
      (first last above : ℕ)
      → first + above ≤ last
      → BadAbove (first + above) last
      → IsSuffixStart first last (walk_down codec table first last above)
  unfolding walk_down
  walk_down-IsSuffixStart first last zero le bad = elim (Bool-cases (is_good codec table first)) [
    | inl good ↦
        rw good (
          good_found first last first (omega arith) (omega arith) (λ k lt. bad k (omega arith))
            good)
    | inr no_good ↦ rw no_good (
      omega arith,
      omega arith,
      bad_extends last first (λ k lt. bad k (omega arith)) no_good,
      inl refl,
    )
  ]
  walk_down-IsSuffixStart first last (suc above) le bad =
      elim (Bool-cases (is_good codec table (first + suc above))) [
        | inl good ↦ rw good (good_found first last (first + suc above) (omega arith) le bad good)
        | inr no_good ↦ rw no_good (
            walk_down-IsSuffixStart first last above (omega arith)
              (λ k lt le'. bad_extends last (first + suc above) bad no_good k (omega arith) le'))
      ]

-- Without a gap, `lowest_corrupt_height` returns none only if the last row is good, and otherwise the
-- start of a suffix of bad rows that reaches to the tip: below it is a good row, or no row.
pub lowest_corrupt_height-IsSuffixStart :
    (codec : Codec) (c : Cache) (first last : ℕ)
    → first_height c.blocks ≡ some first
    → last_height c.blocks ≡ some last
    → first ≤ last
    → length c.blocks ≡ span first last
    → IsSuffixStart codec c.blocks first last (lowest_corrupt_height codec c)
unfolding lowest_corrupt_height
lowest_corrupt_height-IsSuffixStart codec c first last at_first at_last le count =
    let full : (length c.blocks == span first last) ≡ true = ground arith in
    rw (at_first, at_last, full)
      (walk_down-IsSuffixStart codec c.blocks first last (last - first) (omega arith)
        (λ k lt le'. absurd (omega arith)))
