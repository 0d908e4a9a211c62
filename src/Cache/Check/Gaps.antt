-- ===== src/Cache/Check/Gaps.antt =====
-- Gaps in the cached heights, as `validate_light` and `lowest_corrupt_height` of src/cache.rs see
-- them.
use lightwalletd_rs.Base.{
  ℕ, zero, suc, ◌+◌, ◌≤◌, ◌<◌, ◌≡◌, ◌≢◌, refl, Option, none, some, [], ◌∷◌, length, arith, u64_max,
  ◌==◌, true, false, dec_lt, ◌↔◌,
}
use lightwalletd_rs.Base.Bytes.{Bytes}
use lightwalletd_rs.Base.Table.{Table, lookup, AscendsFrom, Below, lookup_below}
use lightwalletd_rs.Cache.Check.{scan_up, span}
use lightwalletd_rs.Cache.{first_height, last_height}

-- What a scan up from `height` reports: the lowest missing height of the next `rounds`.
abbrev pub IsLowestMissing : Table Bytes → ℕ → ℕ → Option ℕ → Type 0
IsLowestMissing table height rounds none =
    (k : ℕ) → height ≤ k → k < height + rounds → lookup k table ≢ none
IsLowestMissing table height rounds (some missing) =
    (height ≤ missing)
    × (missing < height + rounds)
    × (lookup missing table ≡ none)
    × ((k : ℕ) → height ≤ k → k < missing → lookup k table ≢ none)

at_or_above :
    (table : Table Bytes) (height k : ℕ)
    → lookup height table ≢ none
    → height ≤ k
    → (suc height ≤ k → lookup k table ≢ none)
    → lookup k table ≢ none
at_or_above table height k here le above = elim (dec_lt height k) [
  | yes p ↦ above p
  | no p ↦ let same : height ≡ k = omega arith in rw same at here
]

widen :
    (table : Table Bytes) (height rounds : ℕ) (o : Option ℕ)
    → lookup height table ≢ none
    → IsLowestMissing table (suc height) rounds o
    → IsLowestMissing table height (suc rounds) o
widen table height rounds none here h =
    λ k le lt. at_or_above table height k here le (λ le'. h k le' (omega arith))
widen table height rounds (some m) here h = (
  omega arith,
  omega arith,
  h.2,
  λ k le lt. at_or_above table height k here le (λ le'. h.3 k le' lt),
)

pub scan_up-IsLowestMissing :
    (table : Table Bytes) (height rounds : ℕ)
    → IsLowestMissing table height rounds (scan_up table height rounds)
unfolding scan_up
scan_up-IsLowestMissing table height zero = λ k ge lt. absurd (omega arith)
scan_up-IsLowestMissing table height (suc rounds) =
    at (lookup height table) refl (scan_up-IsLowestMissing table (suc height) rounds)
  where
    at :
        (o : Option Bytes)
        → lookup height table ≡ o
        → IsLowestMissing table (suc height) rounds (scan_up table (suc height) rounds)
        → IsLowestMissing table height
            (suc rounds)
            (elim o [ none ↦ some height | some bytes ↦ scan_up table (suc height) rounds ])
    at none e above = (omega arith, omega arith, e, λ k le lt. absurd (omega arith))
    at (some bytes) e above =
        widen table height rounds (scan_up table (suc height) rounds) (λ n. cc (e, n)) above

-- A table whose keys ascend from `first` to below `high` has at most `high - first` rows, and has so
-- many exactly if no height between is missing.
length-le :
    (first high : ℕ) (m : Table Bytes)
    → AscendsFrom first m
    → Below high m
    → first ≤ high
    → length m + first ≤ high
length-le first high [] sorted below le = omega arith
length-le first high ((k, v) ∷ m) sorted below le =
    omega (arith, length-le (suc k) high m sorted.1 below.1 below.0)

full_of_length :
    (first high k : ℕ) (m : Table Bytes)
    → AscendsFrom first m
    → Below high m
    → length m + first ≡ high
    → first ≤ k
    → k < high
    → lookup k m ≢ none
full_of_length first high k [] sorted below e ge lt = absurd (omega arith)
full_of_length first high k ((j, v) ∷ m) sorted below e ge lt =
    let room : length m + suc j ≤ high = length-le (suc j) high m sorted.1 below.1 below.0 in
    elim (dec_lt j k) [
      | yes p ↦
          let later : (j == k) ≡ false = ground arith in
          rw later (full_of_length (suc j) high k m sorted.1 below.1 (omega arith) p lt)
      | no p ↦ let here : (j == k) ≡ true = ground arith in rw here (λ n. cc n)
    ]

length_of_full :
    (first high : ℕ) (m : Table Bytes)
    → AscendsFrom first m
    → ((k : ℕ) → first ≤ k → k < high → lookup k m ≢ none)
    → high ≤ length m + first
length_of_full first high [] sorted full = elim (dec_lt first high) [
  | yes p ↦ absurd (full first (omega arith) p refl)
  | no p ↦ omega arith
]
length_of_full first high ((j, v) ∷ m) sorted full = elim (dec_lt first j) [
  | yes p ↦ elim (dec_lt first high) [
    | yes q ↦
        absurd
          (full first (omega arith) q (lookup_below first j ((j, v) ∷ m) (omega arith, sorted.1) p))
    | no q ↦ omega arith
  ]
  | no p ↦ omega (arith, length_of_full (suc j) high m sorted.1 later)
]
  where
    later : (k : ℕ) → suc j ≤ k → k < high → lookup k m ≢ none
    later k ge lt =
        let past : (j == k) ≡ false = ground arith in rw past at (full k (omega arith) lt)

first_height-AscendsFrom :
    (low first : ℕ) (m : Table Bytes)
    → AscendsFrom low m
    → first_height m ≡ some first
    → AscendsFrom first m
first_height-AscendsFrom low first [] sorted e = cc
first_height-AscendsFrom low first ((k, v) ∷ m) sorted e =
    let same : k ≡ first = cc in (omega arith, sorted.1)

pub last_height-Below :
    (low last : ℕ) (m : Table Bytes)
    → AscendsFrom low m
    → last_height m ≡ some last
    → Below (suc last) m
last_height-Below low last [] sorted e = cc
last_height-Below low last ((k, v) ∷ []) sorted e = let same : k ≡ last = cc in (omega arith, tt)
last_height-Below low last ((k, v) ∷ (k', v') ∷ m) sorted e =
    let rest : Below (suc last) ((k', v') ∷ m) =
      last_height-Below (suc k) last ((k', v') ∷ m) sorted.1 e in
    (omega (arith, rest.0, sorted.1.0), rest)

-- No height from the first to the last cached one is missing.
abbrev pub NoGaps : Table Bytes → ℕ → ℕ → Type 0
NoGaps m first last = (k : ℕ) → first ≤ k → k ≤ last → lookup k m ≢ none

-- For a sorted table, the row count that `validate_light` compares tells whether there is a gap.
pub length-eq-span_iff :
    (m : Table Bytes) (first last : ℕ)
    → AscendsFrom 0 m
    → first_height m ≡ some first
    → last_height m ≡ some last
    → last < u64_max
    → (length m ≡ span first last) ↔ NoGaps m first last
length-eq-span_iff m first last sorted at_first at_last top =
    let from : AscendsFrom first m = first_height-AscendsFrom 0 first m sorted at_first in
    let below : Below (suc last) m = last_height-Below 0 last m sorted at_last in
    let ordered : first ≤ last = first-le-last m from below at_first in
    let room : length m + first ≤ suc last =
      length-le first (suc last) m from below (omega arith) in
    (
      λ e k ge le. full_of_length first (suc last) k m from below (omega arith) ge (omega arith),
      λ full.
          let many : suc last ≤ length m + first =
            length_of_full first (suc last) m from (λ k ge lt. full k ge (omega arith)) in
          omega arith,
    )
  where
    first-le-last :
        (m : Table Bytes)
        → AscendsFrom first m
        → Below (suc last) m
        → first_height m ≡ some first
        → first ≤ last
    first-le-last [] from below e = cc
    first-le-last ((k, v) ∷ m) from below e = let same : k ≡ first = cc in omega arith
