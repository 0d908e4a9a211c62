-- ===== src/Ingestor/Budget.antt =====
-- How often a reported discontinuity truncates the cache (`RepairBudget` of src/ingestor.rs).
use lightwalletd_rs.Base.{
  ℕ, suc, ◌+◌, ◌-◌, ◌≤◌, ◌<◌, ◌≡◌, refl, List, [], ◌∷◌, true, false, if◌then◌else◌, leb, arith, All,
  Bool-cases, inl, inr,
}
use lightwalletd_rs.Ingestor.{RepairBudget, try_spend, max_repairs_per_window, repair_window}

-- How many requests are granted, of a sequence of them at the given times.
unfoldable pub granted : RepairBudget → List ℕ → ℕ
granted budget [] = 0
granted budget (now ∷ times) =
    let rest = granted (try_spend budget now).1 times in
    if (try_spend budget now).0 then suc rest else rest

module _ (budget : RepairBudget) (now : ℕ)
    (inside : now < budget.window_started + repair_window) where
  try_spend_full :
      leb max_repairs_per_window budget.spent ≡ true → try_spend budget now ≡ (false, budget)
  unfolding try_spend
  try_spend_full full =
      let same : leb repair_window (now - budget.window_started) ≡ false = ground arith in
      rw (try_spend, same, full) refl

  try_spend_room :
      leb max_repairs_per_window budget.spent ≡ false
      → try_spend budget now ≡ (true, record budget { spent = budget.spent + 1 })
  unfolding try_spend
  try_spend_room room =
      let same : leb repair_window (now - budget.window_started) ≡ false = ground arith in
      rw (try_spend, same, room) refl

-- Whatever a sequence of requests within one window, at most five of them are granted, counting those
-- granted before in that window.
pub granted-le-max_repairs_per_window :
    (budget : RepairBudget) (times : List ℕ)
    → budget.spent ≤ max_repairs_per_window
    → All (λ now. now < budget.window_started + repair_window) times
    → granted budget times + budget.spent ≤ max_repairs_per_window
unfolding granted
granted-le-max_repairs_per_window budget [] fits inside = omega arith
granted-le-max_repairs_per_window budget (now ∷ times) fits inside =
    elim (Bool-cases (leb max_repairs_per_window budget.spent)) [
      | inl full ↦
          rw (try_spend_full budget now inside.0 full)
            (granted-le-max_repairs_per_window budget times fits inside.1)
      | inr room ↦
          let charged : RepairBudget = record budget { spent = budget.spent + 1 } in
          let rest = granted-le-max_repairs_per_window charged times (ground arith) inside.1 in
          rw (try_spend_room budget now inside.0 room) (omega (arith, rest))
    ]
