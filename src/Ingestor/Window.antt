-- ===== src/Ingestor/Window.antt =====
-- What the ingestor keeps of a window of fetched blocks (`fetch_window` and the loop of `step` of
-- src/ingestor.rs).
use lightwalletd_rs.Base.{
  ℕ, zero, suc, ◌+◌, ◌≤◌, ◌<◌, ◌≡◌, refl, ap, sym, ◌∙◌, Option, some, List, [], ◌∷◌, ◌++◌, length,
  ◌==◌, Result, ok, err, Bool-cases, inl, inr, All, is_empty, u64_max, arith, append_assoc,
  length-append,
}
use lightwalletd_rs.Base.Bytes.{Bytes}
use lightwalletd_rs.Base.Table.{Table}
use lightwalletd_rs.Cache.Chain.{Consecutive, Consecutive-append}
use lightwalletd_rs.Fetch.{FetchError}
use lightwalletd_rs.Ingestor.{
  Joined, joined, panicked, cancelled, Kept, reorged, kept, fetch_window, keep_prefix, mismatches,
}
use lightwalletd_rs.Proto.{CompactBlock}
use lightwalletd_rs.Ingestor.Chains.{HashLinked, last_hash, HashLinked-append, last_hash-append}

-- A fetched block stands at the height it was fetched for, which has a successor.
abbrev pub Placed : ℕ × Result FetchError CompactBlock → Type 0
Placed (height, ok b) = (b.height ≡ height) × (height < u64_max)
Placed (height, err e) = Unit

abbrev pub KeepsLinked : List CompactBlock → ℕ → Kept → Type 0
KeepsLinked bs next reorged = Unit
KeepsLinked bs next (kept batch failure) = HashLinked (bs ++ batch) × Consecutive next batch

pub keep_prefix-KeepsLinked :
    (bs : List CompactBlock) (next expected : ℕ) (results : Table (Result FetchError CompactBlock))
    (prev : Option Bytes) (batch : List CompactBlock)
    → All Placed results
    → prev ≡ last_hash (bs ++ batch)
    → HashLinked (bs ++ batch)
    → Consecutive next batch
    → expected ≡ next + length batch
    → KeepsLinked bs next (keep_prefix expected results prev batch)
unfolding keep_prefix
keep_prefix-KeepsLinked bs next expected [] prev batch placed at linked run len = (linked, run)
keep_prefix-KeepsLinked bs next expected ((height, err e) ∷ rest) prev batch placed at linked run
      len =
    elim (Bool-cases (height == expected)) [
      | inr gap ↦ rw (keep_prefix, gap) (linked, run)
      | inl here ↦ rw (keep_prefix, here) (linked, run)
    ]
keep_prefix-KeepsLinked bs next expected ((height, ok b) ∷ rest) prev batch placed at linked run
      len =
    elim (Bool-cases (height == expected)) [
      | inr gap ↦ rw (keep_prefix, gap) (linked, run)
      | inl here ↦ elim (Bool-cases (mismatches prev b)) [
        | inl apart ↦ elim (Bool-cases (is_empty batch)) [
          | inl first ↦ rw (keep_prefix, here) (rw apart (rw first tt))
          | inr later ↦ rw (keep_prefix, here) (rw apart (rw later (linked, run)))
        ]
        | inr joins ↦
            let assoc = append_assoc bs batch (b ∷ []) in
            let placed_here : Consecutive (next + length batch) (b ∷ []) =
              ground (arith, placed.0) in
            rw (keep_prefix, here)
              (rw joins (
                keep_prefix-KeepsLinked bs next (suc expected) rest (some b.hash) (batch ++ b ∷ [])
                  placed.1 (sym (last_hash-append (bs ++ batch) b) ∙ ap last_hash assoc)
                  (rw assoc at (HashLinked-append (bs ++ batch) b linked (rw at at joins)))
                  (Consecutive-append next batch (b ∷ []) run placed_here)
                  (omega (arith, length-append batch (b ∷ [])))))
      ]
    ]

pub fetch_window-Placed :
    (tasks : ℕ → Joined) (first n : ℕ)
    → ((height : ℕ) (b : CompactBlock) → tasks height ≡ joined (ok b) → b.height ≡ height)
    → first + n ≤ u64_max
    → All Placed (fetch_window tasks first n).0
unfolding fetch_window
fetch_window-Placed tasks first zero placed le = tt
fetch_window-Placed tasks first (suc n) placed le =
    by_task (tasks first) refl (fetch_window-Placed tasks (suc first) n placed (omega arith))
  where
    by_task :
        (t : Joined)
        → tasks first ≡ t
        → All Placed (fetch_window tasks (suc first) n).0
        → All Placed (fetch_window tasks first (suc n)).0
    by_task (joined (ok b)) e rest = rw (fetch_window, e) ((placed first b e, omega arith), rest)
    by_task (joined (err f)) e rest = rw (fetch_window, e) (tt, rest)
    by_task panicked e rest = rw (fetch_window, e) rest
    by_task cancelled e rest = rw (fetch_window, e) rest
