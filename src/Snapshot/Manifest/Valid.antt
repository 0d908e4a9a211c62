-- ===== src/Snapshot/Manifest/Valid.antt =====
-- What a manifest that passes `validate_manifest` of src/snapshot/import.rs says.
use lightwalletd_rs.Base.{
  ℕ, ◌≤◌, ◌≡◌, refl, ◌↔◌, List, [], ◌∷◌, none, some, ◌==◌, ◌=ᵇ◌, =ᵇ-refl, eq_of_=ᵇ, not, ok, ◌>>◌,
  then_iff, guard_ok, arith, add64,
}
use lightwalletd_rs.Encoding.{Text}
use lightwalletd_rs.Snapshot.Body.{format_version}
use lightwalletd_rs.Snapshot.Epoch.{epoch_size, epoch_first_height, epoch_last_height}
use lightwalletd_rs.Snapshot.Manifest.{
  EpochEntry, Manifest, check_bounds, check_order, check_entries, validate_manifest,
}

-- The entries are whole epochs, from the epoch `index` on, one after the other.
abbrev pub WholeFrom : ℕ → List EpochEntry → Type 0
WholeFrom index [] = Unit
WholeFrom index (e ∷ entries) =
    (e.index ≡ index)
    × (e.start ≡ epoch_first_height index)
    × (e.end ≡ epoch_last_height index)
    × (e.start ≤ e.end)
    × WholeFrom (add64 index 1) entries

-- The entries run on without a hole from the height `base`: the first begins there, inside its
-- epoch, and ends with it.
abbrev pub RunsFrom : ℕ → List EpochEntry → Type 0
RunsFrom base [] = Unit
RunsFrom base (e ∷ entries) =
    (e.start ≡ base)
    × (epoch_first_height e.index ≤ e.start)
    × (e.end ≡ epoch_last_height e.index)
    × (e.start ≤ e.end)
    × WholeFrom (add64 e.index 1) entries

check_bounds_iff :
    (e : EpochEntry)
    → (check_bounds e ≡ ok tt) ↔ ((e.start ≤ e.end) × (e.end ≡ epoch_last_height e.index))
unfolding check_bounds
check_bounds_iff e = ground arith

check_order_iff :
    (base : ℕ) (previous e : EpochEntry)
    → (check_order base (some previous) e ≡ ok tt)
      ↔ ((e.index ≡ add64 previous.index 1) × (e.start ≡ epoch_first_height e.index))
unfolding check_order
check_order_iff base previous e = ground arith

check_first_iff :
    (base : ℕ) (e : EpochEntry)
    → (check_order base none e ≡ ok tt)
      ↔ ((epoch_first_height e.index ≤ e.start) × (e.start ≡ base))
unfolding check_order
check_first_iff base e = ground arith

check_entries_iff :
    (base : ℕ) (previous : EpochEntry) (entries : List EpochEntry)
    → (check_entries base (some previous) entries ≡ ok tt)
      ↔ WholeFrom (add64 previous.index 1) entries
unfolding check_entries
check_entries_iff base previous [] = (λ h. tt, λ h. refl)
check_entries_iff base previous (e ∷ entries) =
    let rest = check_entries_iff base e entries in
    let bounds = check_bounds_iff e in
    let order = check_order_iff base previous e in
    let outer =
      then_iff (check_bounds e)
        (check_order base (some previous) e >> check_entries base (some e) entries) tt in
    let inner =
      then_iff (check_order base (some previous) e) (check_entries base (some e) entries) tt in
    (
      λ h.
          let (inside, h₁) = outer.0 h in
          let (continues, h₂) = inner.0 h₁ in
          let (ordered, ends) = bounds.0 inside in
          let (index_is, begins) = order.0 continues in
          (
            index_is,
            rw index_is at begins,
            rw index_is at ends,
            ordered,
            rw index_is at (rest.0 h₂),
          ),
      λ (index_is, begins, ends, ordered, whole). outer.1 (
        bounds.1 (ordered, rw index_is ends),
        inner.1 (order.1 (index_is, rw index_is begins), rest.1 (rw index_is whole)),
      ),
    )

check_entries-none_iff :
    (base : ℕ) (entries : List EpochEntry)
    → (check_entries base none entries ≡ ok tt) ↔ RunsFrom base entries
unfolding check_entries
check_entries-none_iff base [] = (λ h. tt, λ h. refl)
check_entries-none_iff base (e ∷ entries) =
    let rest = check_entries_iff base e entries in
    let bounds = check_bounds_iff e in
    let order = check_first_iff base e in
    let outer =
      then_iff (check_bounds e) (check_order base none e >> check_entries base (some e) entries)
        tt in
    let inner = then_iff (check_order base none e) (check_entries base (some e) entries) tt in
    (
      λ h.
          let (inside, h₁) = outer.0 h in
          let (first, h₂) = inner.0 h₁ in
          let (ordered, ends) = bounds.0 inside in
          let (within, begins) = order.0 first in (begins, within, ends, ordered, rest.0 h₂),
      λ (begins, within, ends, ordered, whole).
          outer.1 (bounds.1 (ordered, ends), inner.1 (order.1 (within, begins), rest.1 whole)),
    )

-- A manifest is accepted exactly if it has this build's format version and epoch size and the
-- node's chain, and its entries, if there are any, run on without a hole: the first begins at the
-- base height, inside its own epoch, and ends with that epoch, and each later one is the whole epoch
-- after the one before it.
pub validate_manifest_iff :
    (m : Manifest) (chain : Text)
    → (validate_manifest m chain ≡ ok tt) ↔ (
        (m.version ≡ format_version)
        × (m.span ≡ epoch_size)
        × (m.chain ≡ chain)
        × RunsFrom m.base_height m.epochs)
unfolding validate_manifest
validate_manifest_iff m chain =
    let entries = check_entries-none_iff m.base_height m.epochs in
    (
      λ h.
          let (version, h₁) = guard_ok (not (m.version == format_version)) _ _ tt h in
          let (span, h₂) = guard_ok (not (m.span == epoch_size)) _ _ tt h₁ in
          let (same, h₃) = guard_ok (not (m.chain =ᵇ chain)) _ _ tt h₂ in
          (ground arith, ground arith, eq_of_=ᵇ m.chain chain (ground arith), entries.0 h₃),
      λ (version, span, same, runs).
          rw (validate_manifest, version, span, same) (rw (=ᵇ-refl chain) (entries.1 runs)),
    )
