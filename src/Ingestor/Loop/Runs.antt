-- ===== src/Ingestor/Loop/Runs.antt =====
-- The invariants of the loop of src/ingestor.rs over every run of it.
use lightwalletd_rs.Base.{
  ℕ, suc, ◌-◌, ◌≤◌, ◌<◌, ◌≡◌, refl, Bool-cases, inl, inr, Option, none, some, Option-cases, Result,
  ok, err, arith, u64_max,
}
use lightwalletd_rs.Cache.{Cache, CacheError, range}
use lightwalletd_rs.Cache.Check.{lowest_corrupt_height}
use lightwalletd_rs.Encoding.{Hex}
use lightwalletd_rs.Ingestor.Chains.{
  IsLinkedChain, reorg_to_floor-IsLinkedChain, reorg-IsLinkedChain,
}
use lightwalletd_rs.Ingestor.Loop.{
  after_recovery, settle, Loop, act_on, repair_half, Surroundings, step_half, Place, at_repair,
  at_step, LoopStep, repairs, steps, reported_repair, reported_step, Reachable, here, next,
}
use lightwalletd_rs.Ingestor.Steps.{step-IsLinkedChain}
use lightwalletd_rs.Ingestor.{
  RepairBudget, Progress, advanced, idle, StepError, should_recover, recover,
  max_consecutive_recoveries, in_cached_range, try_spend, repair_reported, joined, step,
}
use lightwalletd_rs.Node.{GetBlockchainInfo}
use lightwalletd_rs.Proto.{CompactBlock, Codec, IsCodec}
use lightwalletd_rs.Repair
use lightwalletd_rs.Repair.{RepairSignal, report}

-- The cache is a linked chain, and the count is within its limit.
pub record IsSound (codec : Codec) (l : Loop) : Type 0 where
  pub linked : IsLinkedChain codec l.cache
  pub bounded : l.recoveries ≤ max_consecutive_recoveries

module _ (codec : Codec) where
  repair_reported-IsLinkedChain :
      (c : Cache) (height start_height : ℕ) (slot : RepairSignal) (budget : RepairBudget) (now : ℕ)
      → IsLinkedChain codec c
      → IsLinkedChain codec (repair_reported c height start_height slot budget now).0
  unfolding repair_reported
  repair_reported-IsLinkedChain c height start_height slot budget now h =
      elim (Bool-cases (in_cached_range height (range c))) [
        | inr outside ↦ rw (repair_reported, outside) h
        | inl inside ↦ elim (Bool-cases (try_spend budget now).0) [
          | inr refused ↦ rw (repair_reported, inside) (rw refused h)
          | inl allowed ↦
              rw (repair_reported, inside)
                (rw allowed (reorg_to_floor-IsLinkedChain codec c (height - 1) start_height h))
        ]
      ]

  recover-IsLinkedChain :
      (c : Cache) → IsLinkedChain codec c → IsLinkedChain codec (recover codec c).0
  unfolding recover
  recover-IsLinkedChain c h = elim (Option-cases (lowest_corrupt_height codec c)) [
    | inl e ↦ rw (recover, e) h
    | inr (corrupt, e) ↦ rw (recover, e) (reorg-IsLinkedChain codec c (corrupt - 1) h)
  ]

  after_recovery-fst :
      (p : Cache × Result CacheError (Unit {0})) (n : ℕ) → (after_recovery p n).0 ≡ p.0
  after_recovery-fst (c, ok u) n = refl
  after_recovery-fst (c, err e) n = refl

  after_recovery-count :
      (p : Cache × Result CacheError (Unit {0})) (n : ℕ) → (after_recovery p n).1 ≡ suc n
  after_recovery-count (c, ok u) n = refl
  after_recovery-count (c, err e) n = refl

  settle-IsSound :
      (n : ℕ) (outcome : Cache × Result StepError Progress)
      → IsLinkedChain codec outcome.0
      → IsLinkedChain codec (settle codec n outcome).0
        × ((settle codec n outcome).1 ≤ max_consecutive_recoveries)
  unfolding settle should_recover
  settle-IsSound n (c, ok advanced) h = (h, omega arith)
  settle-IsSound n (c, ok idle) h = (h, omega arith)
  settle-IsSound n (c, err e) h = elim (Bool-cases (should_recover e n)) [
    | inr given_up ↦ rw (settle, given_up) (h, omega arith)
    | inl recovers ↦
        let low : n < max_consecutive_recoveries = ground arith in
        rw (settle, recovers)
          (
            rw (after_recovery-fst (recover codec c) n) (recover-IsLinkedChain c h),
            rw (after_recovery-count (recover codec c) n) (omega arith),
          )
  ]

abbrev pub loop_of : Place → Loop
loop_of (at_repair l) = l
loop_of (at_step l) = l

module _ (codec : Codec) (lawful : IsCodec codec) (hex : Hex) (start_height window : ℕ)
    (world : Surroundings) where
  repair_half-IsSound :
      (l : Loop) (now : ℕ) → IsSound codec l → IsSound codec (repair_half l start_height now)
  unfolding repair_half
  repair_half-IsSound l now h = acted (Repair.take l.slot)
    where
      acted : (taken : Option ℕ × RepairSignal) → IsSound codec (act_on l start_height now taken)
      acted (none, slot) = record { linked = h.linked; bounded = h.bounded }
      acted (some height, slot) = record {
        linked =
            repair_reported-IsLinkedChain codec l.cache height start_height slot l.budget now
              h.linked;
        bounded = h.bounded;
      }

  module _
      (placed : (moment height : ℕ) (b : CompactBlock)
        → world.tasks moment height ≡ joined (ok b)
        → b.height ≡ height)
      (top : (moment : ℕ) (info : GetBlockchainInfo)
        → world.answer moment ≡ ok info
        → info.blocks < u64_max) where
    LoopStep-IsSound :
        (p q : Place)
        → IsSound codec (loop_of p)
        → LoopStep codec hex start_height window world p q
        → IsSound codec (loop_of q)
    unfolding step_half
    LoopStep-IsSound _ _ h (repairs l moment) = repair_half-IsSound l (world.now moment) h
    LoopStep-IsSound _ _ h (steps l moment) =
        let (linked, bounded) =
          settle-IsSound codec l.recoveries
            (step codec hex start_height window l.cache (world.answer moment) (world.tasks moment))
            (step-IsLinkedChain codec lawful hex start_height window l.cache (world.answer moment)
              (world.tasks moment) (placed moment) (top moment) h.linked) in
        record { linked = linked; bounded = bounded }
    LoopStep-IsSound _ _ h (reported_repair l height) = record {
      linked = h.linked;
      bounded = h.bounded;
    }
    LoopStep-IsSound _ _ h (reported_step l height) = record {
      linked = h.linked;
      bounded = h.bounded;
    }

    -- In every run of the ingestor's loop, from a cache that is a linked chain and a recovery count
    -- within its limit, with any answers of the node, any ends of the fetch tasks, any clock and any
    -- reports at any time, the cache stays a run of blocks at consecutive heights, each naming the hash
    -- of the one below it, and the recovery count stays within its limit. The codec reads back what it
    -- writes, the fetch of a height yields a block of that height, and the node's tip is below
    -- `u64::MAX`.
    pub Reachable-IsSound :
        (p q : Place)
        → Reachable codec hex start_height window world p q
        → IsSound codec (loop_of p)
        → IsSound codec (loop_of q)
    Reachable-IsSound p _ here h = h
    Reachable-IsSound p _ (next q r before step') h =
        LoopStep-IsSound q r (Reachable-IsSound p q before h) step'
