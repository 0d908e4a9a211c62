-- ===== src/Snapshot/Epoch.antt =====
-- src/snapshot/format.rs: the division of heights into epochs.
use lightwalletd_rs.Base.{
  ℕ, ◌+◌, ◌-◌, ◌*◌, ◌/◌, ◌≤◌, ◌≡◌, ◌↔◌, arith, u64_max, sat_add64, ltb, if◌then◌else◌,
}

abbrev pub epoch_size : ℕ
epoch_size = 10000

-- The epoch `height` belongs to.
abbrev pub epoch_index : ℕ → ℕ
epoch_index height = height / epoch_size

-- `saturating_mul` on `u64`.
abbrev sat_mul64 : ℕ → ℕ → ℕ
sat_mul64 a b = if ltb u64_max (a * b) then u64_max else a * b

unfoldable pub epoch_first_height : ℕ → ℕ
epoch_first_height index = sat_mul64 index epoch_size

unfoldable pub epoch_last_height : ℕ → ℕ
unfolding epoch_first_height
epoch_last_height index = sat_add64 (epoch_first_height index) (epoch_size - 1)

-- For a `u64` height, the epochs cut the heights into spans: a height lies between the first and the
-- last height of an epoch whose span is below `u64::MAX` exactly if the epoch is its own.
pub epoch_index_iff :
    (index height : ℕ)
    → index * epoch_size + epoch_size ≤ u64_max
    → ((epoch_first_height index ≤ height) × (height ≤ epoch_last_height index))
      ↔ (epoch_index height ≡ index)
unfolding epoch_last_height
epoch_index_iff index height h = (λ b. ground arith, λ e. ground arith)
