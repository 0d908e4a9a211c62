-- ===== src/Ingestor/Loop.antt =====
-- The endless loop of src/ingestor.rs (`run`) as a step relation. A round first acts on a reported
-- discontinuity and then makes one step; the read path may report a height at any time. What the node
-- answers, how the fetch tasks end and what the clock shows are functions of the moment.
pub mod Runs
pub mod Pauses
use lightwalletd_rs.Base.{
  ℕ, zero, suc, Bool, true, false, Option, none, some, List, [], ◌∷◌, if◌then◌else◌, Result, ok,
  err,
}
use lightwalletd_rs.Cache.{Cache, CacheError}
use lightwalletd_rs.Encoding.{Hex}
use lightwalletd_rs.Ingestor.{
  RepairBudget, new_budget, Progress, advanced, idle, StepError, should_recover, recover,
  repair_reported, Joined, step,
}
use lightwalletd_rs.Node.{NodeError, GetBlockchainInfo}
use lightwalletd_rs.Proto.{CompactBlock, Codec}
use lightwalletd_rs.Repair
use lightwalletd_rs.Repair.{RepairSignal, report}

-- How a round ends: it goes on at once, or it sleeps for `IDLE_POLL` or for `ERROR_BACKOFF`.
pub data Pause : Type 0 where
  at_once idle_poll error_backoff : Pause

abbrev pub after_recovery : Cache × Result CacheError (Unit {0}) → ℕ → Cache × ℕ × Pause
after_recovery (c, ok u) recoveries = (c, suc recoveries, at_once)
after_recovery (c, err e) recoveries = (c, suc recoveries, error_backoff)

-- The `match` on the outcome of a step: the cache, the count of consecutive recoveries, and the pause.
unfoldable pub settle : Codec → ℕ → Cache × Result StepError Progress → Cache × ℕ × Pause
unfolding should_recover recover
settle codec recoveries (c, ok advanced) = (c, 0, at_once)
settle codec recoveries (c, ok idle) = (c, 0, idle_poll)
settle codec recoveries (c, err e) =
    if should_recover e recoveries
    then after_recovery (recover codec c) recoveries
    else (c, 0, error_backoff)

pub record Loop : Type 0 where
  pub cache : Cache
  pub slot : RepairSignal
  pub budget : RepairBudget
  pub recoveries : ℕ

-- What a new task starts from.
abbrev pub started : Cache → RepairSignal → ℕ → Loop
started c slot now = record { cache = c; slot = slot; budget = new_budget now; recoveries = 0 }

abbrev pub act_on : Loop → ℕ → ℕ → Option ℕ × RepairSignal → Loop
act_on l start_height now (none, slot) = record l { slot = slot }
act_on l start_height now (some height, slot) =
    let (c, slot', budget) = repair_reported l.cache height start_height slot l.budget now in
    record l { cache = c; slot = slot'; budget = budget }

-- The first half of a round.
unfoldable pub repair_half : Loop → ℕ → ℕ → Loop
unfolding Repair.take repair_reported
repair_half l start_height now = act_on l start_height now (Repair.take l.slot)

-- What the surroundings show at each moment.
pub record Surroundings : Type 0 where
  pub now : ℕ → ℕ
  pub answer : ℕ → Result NodeError GetBlockchainInfo
  pub tasks : ℕ → ℕ → Joined

-- Where the task stands.
pub data Place : Type 0 where
  at_repair : Loop → Place
  at_step : Loop → Place

module _ (codec : Codec) (hex : Hex) (start_height window : ℕ) where
  -- The second half of a round.
  unfoldable pub step_half : Loop → Result NodeError GetBlockchainInfo → (ℕ → Joined) → Loop × Pause
  unfolding step settle
  step_half l answer tasks =
      let (c, recoveries, pause) =
        settle codec l.recoveries (step codec hex start_height window l.cache answer tasks) in
      (record l { cache = c; recoveries = recoveries }, pause)

  module _ (world : Surroundings) where
    pub data LoopStep : Place → Place → Type 0 where
      repairs :
          (l : Loop) (moment : ℕ)
          → LoopStep (at_repair l) (at_step (repair_half l start_height (world.now moment)))
      steps :
          (l : Loop) (moment : ℕ)
          → LoopStep
              (at_step l)
              (at_repair (step_half l (world.answer moment) (world.tasks moment)).0)
      reported_repair :
          (l : Loop) (height : ℕ)
          → LoopStep (at_repair l) (at_repair (record l { slot = report l.slot height }))
      reported_step :
          (l : Loop) (height : ℕ)
          → LoopStep (at_step l) (at_step (record l { slot = report l.slot height }))

    -- The places that the task can reach.
    pub data Reachable (place : Place) : Place → Type 0 where
      here : Reachable place place
      next : (p q : Place) → Reachable place p → LoopStep p q → Reachable place q
