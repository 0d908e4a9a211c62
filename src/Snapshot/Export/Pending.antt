-- ===== src/Snapshot/Export/Pending.antt =====
-- The scan of src/snapshot/export.rs for the next epoch to digest.
use lightwalletd_rs.Base.{
  ℕ, zero, suc, ◌+◌, ◌≤◌, ◌<◌, ◌≡◌, ◌≢◌, Bool-cases, inl, inr, Option, none, some, Option-cases,
  ltb, arith, u64_max,
}
use lightwalletd_rs.Cache.Truncate.{epoch_digest}
use lightwalletd_rs.Cache.{Cache, range}
use lightwalletd_rs.Snapshot.Epoch.{epoch_index, epoch_first_height, epoch_last_height}
use lightwalletd_rs.Snapshot.Export.{pending_from, next_pending_epoch}

-- What is found from the epoch `first` on: the lowest epoch below the tip without a digest, or nothing,
-- if each epoch below the tip has one.
abbrev pub IsLowestPending : Cache → ℕ → ℕ → Option ℕ → Type 0
IsLowestPending c first tip none =
    (j : ℕ) → first ≤ j → epoch_last_height j < tip → epoch_digest c j ≢ none
IsLowestPending c first tip (some index) =
    (first ≤ index)
    × (epoch_last_height index < tip)
    × (epoch_digest c index ≡ none)
    × ((j : ℕ) → first ≤ j → j < index → epoch_digest c j ≢ none)

epoch_last_height_mono : (i j : ℕ) → i ≤ j → epoch_last_height i ≤ epoch_last_height j
unfolding epoch_last_height epoch_first_height
epoch_last_height_mono i j h = ground arith

-- An epoch from the tip's own on does not end below the tip.
epoch_last_height_tip :
    (index tip : ℕ) → epoch_index tip ≤ index → tip ≤ u64_max → tip ≤ epoch_last_height index
unfolding epoch_last_height epoch_first_height
epoch_last_height_tip index tip h fits = ground arith

module _ (c : Cache) (tip : ℕ) where
  extend_down :
      (index : ℕ) (found : Option ℕ)
      → epoch_digest c index ≢ none
      → IsLowestPending c (suc index) tip found
      → IsLowestPending c index tip found
  extend_down index none here h = λ j low below. elim (Bool-cases (ltb index j)) [
    | inl later ↦ h j (ground arith) below
    | inr same ↦ let at : index ≡ j = ground arith in rw (← at) here
  ]
  extend_down index (some p) here (after, below, missing, held) = (
    omega arith,
    below,
    missing,
    λ j low high. elim (Bool-cases (ltb index j)) [
      | inl later ↦ held j (ground arith) high
      | inr same ↦ let at : index ≡ j = ground arith in rw (← at) here
    ],
  )

  pending_from-IsLowestPending :
      (fuel index : ℕ)
      → tip ≤ u64_max
      → epoch_index tip < fuel + index
      → IsLowestPending c index tip (pending_from c tip fuel index)
  unfolding pending_from
  pending_from-IsLowestPending zero index fits enough =
      λ j low below. absurd (omega (arith, epoch_last_height_tip j tip (omega arith) fits))
  pending_from-IsLowestPending (suc fuel) index fits enough =
      let later = pending_from-IsLowestPending fuel (suc index) fits (omega arith) in
      elim (Bool-cases (ltb (epoch_last_height index) tip)) [
        | inl below ↦ elim (Option-cases (epoch_digest c index)) [
          | inl missing ↦
              rw (pending_from, below)
                (rw missing
                  (omega arith, ground arith, missing, λ j low high. absurd (omega arith)))
          | inr (row, held) ↦
              let here : epoch_digest c index ≢ none = λ e. cc in
              rw (pending_from, below) (rw held (extend_down index _ here later))
        ]
        | inr above ↦
            rw (pending_from, above)
              (λ j low below. absurd (ground (arith, epoch_last_height_mono index j low)))
      ]

-- For a cache whose tip is a `u64`, what the scan returns is the lowest epoch, from the one that holds
-- the cache's base on, that ends below the tip and has no stored digest; it returns nothing only if
-- every such epoch has one. So the scan has fuel enough.
pub next_pending_epoch-IsLowestPending :
    (c : Cache) (base tip : ℕ)
    → range c ≡ some (base, tip)
    → tip ≤ u64_max
    → IsLowestPending c (epoch_index base) tip (next_pending_epoch c)
unfolding next_pending_epoch
next_pending_epoch-IsLowestPending c base tip bounds fits =
    rw (next_pending_epoch, bounds)
      (pending_from-IsLowestPending c tip (suc (epoch_index tip)) (epoch_index base) fits
        (omega arith))
