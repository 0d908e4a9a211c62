-- ===== src/Cache/Check/Verdict.antt =====
-- What `validate_light` of src/cache.rs accepts, and where `lowest_corrupt_height` finds a gap.
use lightwalletd_rs.Base.{
  ℕ, suc, ◌+◌, ◌-◌, ◌≤◌, ◌<◌, ◌≡◌, ◌≢◌, refl, Option, none, some, [], ◌∷◌, ok, length, arith,
  u64_max, ◌==◌, Bool, true, false, ◌⊎◌, inl, inr, Bool-cases, ==_iff, ◌↔◌, dec_lt,
}
use lightwalletd_rs.Base.Bytes.{Bytes}
use lightwalletd_rs.Base.Table.{Table, lookup, AscendsFrom}
use lightwalletd_rs.Cache.Check.Gaps.{
  NoGaps, IsLowestMissing, scan_up-IsLowestMissing, length-eq-span_iff, last_height-Below,
}
use lightwalletd_rs.Cache.Check.{
  scan_up, validate_light, lowest_corrupt_height, span, check_rows, check_tip, or_walk, is_good,
  is_good_row, is_good_block,
}
use lightwalletd_rs.Cache.{Cache, first_height, last_height, last_value}
use lightwalletd_rs.Proto.{CompactBlock, Codec}

-- The value of the last row is what a lookup of the last height finds.
last_value-lookup :
    (low last : ℕ) (m : Table Bytes)
    → AscendsFrom low m
    → last_height m ≡ some last
    → lookup last m ≡ last_value m
last_value-lookup low last [] sorted e = cc
last_value-lookup low last ((k, v) ∷ []) sorted e = ground arith
last_value-lookup low last ((k, v) ∷ (k', v') ∷ m) sorted e =
    let rest = last_height-Below (suc k) last ((k', v') ∷ m) sorted.1 e in
    let earlier : (k == last) ≡ false = ground (arith, rest.0, sorted.1.0) in
    rw earlier (last_value-lookup (suc k) last ((k', v') ∷ m) sorted.1 e)

module _ (codec : Codec) (c : Cache) (first last : ℕ) (sorted : AscendsFrom 0 c.blocks)
    (at_first : first_height c.blocks ≡ some first) (at_last : last_height c.blocks ≡ some last)
    (top : last < u64_max) where
  accepts_iff :
      (value : Option Bytes)
      → value ≢ none
      → (check_rows codec (length c.blocks) (some first) (some last) value ≡ ok tt)
        ↔ ((length c.blocks ≡ span first last) × (is_good_row codec last value ≡ true))
  unfolding check_rows
  accepts_iff none present = absurd (present refl)
  accepts_iff (some bytes) present = decoded (codec.decode bytes)
    where
      decoded :
          (b : Option CompactBlock)
          → (check_tip (length c.blocks) first last b ≡ ok tt)
            ↔ ((length c.blocks ≡ span first last) × (is_good_block last b ≡ true))
      decoded none = (λ h. unfold check_tip in cc, λ h. cc (h.1))
      decoded (some b) = unfold check_tip in (λ h. ground arith, λ h. ground arith)

  -- `validate_light` on a sorted table that is not empty accepts exactly if no height between the
  -- first and the last is missing and the last row decodes to a block of its own height.
  pub validate_light_iff :
      (validate_light codec c ≡ ok tt)
      ↔ (NoGaps c.blocks first last × (is_good codec c.blocks last ≡ true))
  unfolding validate_light
  validate_light_iff =
      let present : last_value c.blocks ≢ none = last_value_present c.blocks at_last in
      let verdict = accepts_iff (last_value c.blocks) present in
      let spans = length-eq-span_iff c.blocks first last sorted at_first at_last top in
      let tip : lookup last c.blocks ≡ last_value c.blocks =
        last_value-lookup 0 last c.blocks sorted at_last in
      rw (at_first, at_last, tip)
        (
          (λ h. let (count, good) = verdict.0 h in (spans.0 count, good)),
          (λ h. verdict.1 (spans.1 h.0, h.1)),
        )
    where
      last_value_present : (m : Table Bytes) → last_height m ≡ some last → last_value m ≢ none
      last_value_present [] e = cc
      last_value_present ((k, v) ∷ []) e = λ n. cc n
      last_value_present ((k, v) ∷ e' ∷ m) e = last_value_present (e' ∷ m) e

  -- With a gap in a sorted table, `lowest_corrupt_height` returns the lowest missing height.
  pub lowest_corrupt_height-gap :
      (k : ℕ)
      → first ≤ k
      → k ≤ last
      → lookup k c.blocks ≡ none
      → (h : ℕ) × (lowest_corrupt_height codec c ≡ some h)
        × (first ≤ h)
        × (h ≤ k)
        × (lookup h c.blocks ≡ none)
        × ((j : ℕ) → first ≤ j → j < h → lookup j c.blocks ≢ none)
  unfolding lowest_corrupt_height
  lowest_corrupt_height-gap k ge le missing =
      let spans = length-eq-span_iff c.blocks first last sorted at_first at_last top in
      let short : (length c.blocks == span first last) ≡ false =
        not_equal (Bool-cases (length c.blocks == span first last))
          (λ e. spans.0 ((==_iff _ _).0 e) k ge le missing) in
      rw (at_first, at_last, short)
        (scanned (scan_up c.blocks first (last - first + 1))
          (scan_up-IsLowestMissing c.blocks first (last - first + 1)))
    where
      not_equal : {b : Bool} → (b ≡ true) ⊎ (b ≡ false) → ¬ (b ≡ true) → b ≡ false
      not_equal (inl e) h = absurd (h e)
      not_equal (inr e) h = e

      at_most : (h : ℕ) → ((j : ℕ) → first ≤ j → j < h → lookup j c.blocks ≢ none) → h ≤ k
      at_most h present = elim (dec_lt k h) [
        | yes p ↦ absurd (present k ge p missing)
        | no p ↦ omega arith
      ]

      scanned :
          (o : Option ℕ)
          → IsLowestMissing c.blocks first (last - first + 1) o
          → (h : ℕ) × (or_walk codec c.blocks first last o ≡ some h)
            × (first ≤ h)
            × (h ≤ k)
            × (lookup h c.blocks ≡ none)
            × ((j : ℕ) → first ≤ j → j < h → lookup j c.blocks ≢ none)
      scanned none h = absurd (h k ge (omega arith) missing)
      scanned (some m) h = (m, refl, h.0, at_most m h.3, h.2, h.3)
