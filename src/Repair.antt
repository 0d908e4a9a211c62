-- ===== src/Repair.antt =====
-- src/repair.rs: the slot through which the read path reports the lowest suspect height to the
-- ingestor. The slot is one atomic number, so its history is a sequence of reports and takes.
use lightwalletd_rs.Base.{
  ℕ, ◌≤◌, ◌<◌, ◌≡◌, refl, ap, ◌∙◌, Option, none, some, List, [], ◌∷◌, arith, min, u64_max, ◌==◌,
  if◌then◌else◌,
}

-- `NOTHING`: no height is reported.
abbrev pub nothing : ℕ
nothing = u64_max

pub record RepairSignal : Type 0 where
  pub lowest : ℕ

abbrev pub new : RepairSignal
new = record { lowest = nothing }

-- `fetch_min`.
unfoldable pub report : RepairSignal → ℕ → RepairSignal
report s height = record { lowest = min s.lowest height }

-- `swap` with `NOTHING`.
unfoldable pub take : RepairSignal → Option ℕ × RepairSignal
take s = (if s.lowest == nothing then none else some s.lowest, new)

-- The slot after reports from any number of tasks, in the order in which they reached it.
unfoldable pub report_all : RepairSignal → List ℕ → RepairSignal
report_all s [] = s
report_all s (h ∷ hs) = report_all (report s h) hs

-- The lowest of `h` and the heights of a list.
abbrev pub lowest_of : ℕ → List ℕ → ℕ
lowest_of h [] = h
lowest_of h (k ∷ ks) = lowest_of (min h k) ks

report_all-lowest :
    (s : RepairSignal) (hs : List ℕ) → (report_all s hs).lowest ≡ lowest_of s.lowest hs
unfolding report_all report
report_all-lowest s [] = refl
report_all-lowest s (h ∷ hs) = report_all-lowest (report s h) hs

lowest_of-le : (h : ℕ) (hs : List ℕ) → lowest_of h hs ≤ h
lowest_of-le h [] = omega arith
lowest_of-le h (k ∷ ks) = omega (arith, lowest_of-le (min h k) ks)

-- Reports after a take, the first of them below `u64::MAX`: the next take returns the lowest of them
-- and leaves the slot empty, so a take directly after it returns nothing.
pub take-report_all :
    (s : RepairSignal) (h : ℕ) (hs : List ℕ)
    → h < nothing
    → (take (report_all (take s).1 (h ∷ hs)) ≡ (some (lowest_of h hs), new))
      × ((take (take (report_all (take s).1 (h ∷ hs))).1).0 ≡ none)
unfolding take
take-report_all s h hs lt =
    let found : (report_all new (h ∷ hs)).lowest ≡ lowest_of h hs =
      report_all-lowest new (h ∷ hs) ∙ ap (λ x. lowest_of x hs) (omega arith) in
    (ground (arith, found, lowest_of-le h hs), refl)
