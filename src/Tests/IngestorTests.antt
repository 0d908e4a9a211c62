-- ===== src/Tests/IngestorTests.antt =====
-- The theorems about the ingestor (src/ingestor.rs) at a concrete cache and node.
use lightwalletd_rs.Base.{
  any, true, false, err, ℕ, ◌+◌, ◌≤◌, ◌<◌, ◌≡◌, refl, [], ◌∷◌, Result, ok, arith, u64_max,
}
use lightwalletd_rs.Cache.{Cache, decode, decode_base_height}
use lightwalletd_rs.Ingestor.{
  Joined, joined, step, new_budget, max_repairs_per_window, StepError, Progress, cache_failed,
  recover,
}
use lightwalletd_rs.Ingestor.Loop.{
  Surroundings, Loop, started, repair_half, step_half, at_repair, at_step, repairs, steps,
  Reachable, here, next,
}
use lightwalletd_rs.Ingestor.Loop.Pauses.{
  pauses, sleeps, alternating, failing_rounds_sleep, alternating_never_sleeps,
}
use lightwalletd_rs.Ingestor.Loop.Runs.{IsSound, Reachable-IsSound}
use lightwalletd_rs.Ingestor.Budget.{granted, granted-le-max_repairs_per_window}
use lightwalletd_rs.Ingestor.Chains.{IsLinkedChain}
use lightwalletd_rs.Ingestor.Steps.{step-IsLinkedChain}
use lightwalletd_rs.Node.{NodeError, GetBlockchainInfo}
use lightwalletd_rs.Proto.{CompactBlock}
use lightwalletd_rs.Tests.CacheTests.{b7, two_blocks, sample_cache, sample_cache-IsChain}
use lightwalletd_rs.Tests.Codecs.{sample_codec, sample_codec-IsCodec, sample_hex, sample_block}

-- The node is one block ahead of the cache.
abbrev ahead : Result NodeError GetBlockchainInfo
ahead = ok (record { chain = []; blocks = 9; bestblockhash = sample_hex.encode (3 ∷ []) })

abbrev fetches : ℕ → Joined
fetches height = joined (ok (sample_block height (3 ∷ []) (2 ∷ [])))

fetches_in_place :
    (height : ℕ) (b : CompactBlock) → fetches height ≡ joined (ok b) → b.height ≡ height
fetches_in_place height b h =
    let same : sample_block height (3 ∷ []) (2 ∷ []) ≡ b = cc in rw (← same) refl

ahead-lt-u64_max : (info : GetBlockchainInfo) → ahead ≡ ok info → info.blocks < u64_max
ahead-lt-u64_max info h =
    let same : record { chain = []; blocks = 9; bestblockhash = sample_hex.encode (3 ∷ []) }
        ≡ info =
      cc in
    rw (← same) (omega arith)

step-IsLinkedChain_example :
    IsLinkedChain sample_codec (step sample_codec sample_hex 7 64 sample_cache ahead fetches).0
step-IsLinkedChain_example =
    step-IsLinkedChain sample_codec sample_codec-IsCodec sample_hex 7 64 sample_cache ahead fetches
      fetches_in_place ahead-lt-u64_max (7, two_blocks, sample_cache-IsChain, (refl, tt))

-- Seven requests in seven nanoseconds.
granted-le-max_repairs_per_window_example :
    granted (new_budget 0) (1 ∷ 2 ∷ 3 ∷ 4 ∷ 5 ∷ 6 ∷ 7 ∷ []) + 0 ≤ max_repairs_per_window
granted-le-max_repairs_per_window_example =
    granted-le-max_repairs_per_window (new_budget 0) (1 ∷ 2 ∷ 3 ∷ 4 ∷ 5 ∷ 6 ∷ 7 ∷ []) (omega arith)
      (omega arith)

-- The same answers at every moment.
abbrev world : Surroundings
world = record { now = λ moment. moment; answer = λ moment. ahead; tasks = λ moment. fetches }

-- A round on the cache, with a report of height 8 before it.
abbrev reported_loop : Loop
reported_loop = started sample_cache (record { lowest = 8 }) 0

abbrev repaired_loop : Loop
repaired_loop = repair_half reported_loop 7 3

abbrev after_round : Loop
after_round = (step_half sample_codec sample_hex 7 64 repaired_loop ahead fetches).0

one_round :
    Reachable sample_codec sample_hex 7 64 world (at_repair reported_loop) (at_repair after_round)
one_round =
    next (at_step repaired_loop) (at_repair after_round)
      (next (at_repair reported_loop) (at_step repaired_loop) here (repairs reported_loop 3))
      (steps repaired_loop 4)

Reachable-IsSound_example : IsSound sample_codec after_round
Reachable-IsSound_example =
    Reachable-IsSound sample_codec sample_codec-IsCodec sample_hex 7 64 world
      (λ moment. fetches_in_place) (λ moment. ahead-lt-u64_max) (at_repair reported_loop)
      (at_repair after_round) one_round
      (record { linked = (7, two_blocks, sample_cache-IsChain, (refl, tt)); bounded = omega arith })

-- A cache whose highest row does not decode.
abbrev corrupt_cache : Cache
corrupt_cache = record sample_cache { blocks = (7, sample_codec.encode b7) ∷ (8, []) ∷ [] }

abbrev corrupt_outcome : Cache × Result StepError Progress
corrupt_outcome = (corrupt_cache, err (cache_failed decode))

failing_rounds_sleep_example :
    any sleeps (pauses sample_codec 3 (corrupt_outcome ∷ corrupt_outcome ∷ corrupt_outcome ∷ []))
    ≡ true
failing_rounds_sleep_example =
    failing_rounds_sleep sample_codec 3 (corrupt_outcome ∷ corrupt_outcome ∷ corrupt_outcome ∷ [])
      (
        (cache_failed decode, refl),
        ((cache_failed decode, refl), ((cache_failed decode, refl), tt)),
      )
      (omega arith) (omega arith)

recovers : (recover sample_codec corrupt_cache).1 ≡ ok tt
unfolding recover decode_base_height
recovers = refl

alternating_never_sleeps_example :
    any sleeps (
      pauses sample_codec 0
        (alternating sample_codec 100 (cache_failed decode) corrupt_cache sample_cache))
    ≡ false
alternating_never_sleeps_example =
    alternating_never_sleeps sample_codec 100 (cache_failed decode) corrupt_cache sample_cache refl
      recovers
