-- ===== src/Ingestor/Loop/Pauses.antt =====
-- When the loop of src/ingestor.rs sleeps.
use lightwalletd_rs.Base.{
  ℕ, zero, suc, ◌+◌, ◌≤◌, ◌<◌, ◌≡◌, refl, Bool, true, false, Bool-cases, ◌⊎◌, inl, inr, List, [],
  ◌∷◌, Result, ok, err, any, All, length, arith,
}
use lightwalletd_rs.Cache.{Cache, CacheError}
use lightwalletd_rs.Ingestor.Loop.{Pause, at_once, idle_poll, error_backoff, after_recovery, settle}
use lightwalletd_rs.Ingestor.{
  Progress, advanced, StepError, is_corruption, should_recover, recover, max_consecutive_recoveries,
}
use lightwalletd_rs.Proto.{Codec}

-- The step failed.
abbrev pub Failed : Cache × Result StepError Progress → Type 0
Failed (c, result) = (e : StepError) × (result ≡ err e)

abbrev pub sleeps : Pause → Bool
sleeps at_once = false
sleeps idle_poll = true
sleeps error_backoff = true

module _ (codec : Codec) where
  -- The pauses of rounds whose steps end so, one after the other.
  abbrev pub pauses : ℕ → List (Cache × Result StepError Progress) → List Pause
  pauses recoveries [] = []
  pauses recoveries (outcome ∷ outcomes) =
      (settle codec recoveries outcome).2 ∷ pauses (settle codec recoveries outcome).1 outcomes

  after_recovery_cases :
      (p : Cache × Result CacheError (Unit {0})) (n : ℕ) → (after_recovery p n).1 ≡ suc n
  after_recovery_cases (c, ok u) n = refl
  after_recovery_cases (c, err e) n = refl

  settle_failed :
      (n : ℕ) (c : Cache) (e : StepError)
      → (sleeps (settle codec n (c, err e)).2 ≡ true)
        ⊎ ((n < max_consecutive_recoveries) × ((settle codec n (c, err e)).1 ≡ suc n))
  unfolding settle should_recover
  settle_failed n c e = elim (Bool-cases (should_recover e n)) [
    | inr given_up ↦ rw (settle, given_up) (inl refl)
    | inl recovers ↦
        rw (settle, recovers) (inr (ground arith, after_recovery_cases (recover codec c) n))
  ]

  -- Six rounds in a row whose steps fail do not all go on at once: one of them sleeps. So a cache whose
  -- every step finds corruption does not spin.
  pub failing_rounds_sleep :
      (n : ℕ) (outcomes : List (Cache × Result StepError Progress))
      → All Failed outcomes
      → max_consecutive_recoveries < n + length outcomes
      → n ≤ max_consecutive_recoveries
      → any sleeps (pauses n outcomes) ≡ true
  failing_rounds_sleep n [] failed many low = absurd (omega arith)
  failing_rounds_sleep n ((c, result) ∷ outcomes) ((e, is), failed) many low =
      rw is (elim (settle_failed n c e) [
        | inl asleep ↦ rw asleep refl
        | inr (below, counted) ↦
            let later = failing_rounds_sleep (suc n) outcomes failed (omega arith) (omega arith) in
            elim (Bool-cases (sleeps (settle codec n (c, err e)).2)) [
              | inl asleep ↦ rw asleep refl
              | inr awake ↦ rw awake (rw counted later)
            ]
      ])

  -- Rounds that fail with corruption and rounds that advance, in turn.
  abbrev pub alternating : ℕ → StepError → Cache → Cache → List (Cache × Result StepError Progress)
  alternating zero e c c' = []
  alternating (suc k) e c c' = (c, err e) ∷ (c', ok advanced) ∷ alternating k e c c'

  recovered_at_once :
      (c : Cache) (e : StepError)
      → is_corruption e ≡ true
      → (recover codec c).1 ≡ ok tt
      → (settle codec 0 (c, err e)).2 ≡ at_once
  unfolding settle should_recover
  recovered_at_once c e corrupt recovers =
      rw (settle, should_recover, corrupt) (at_once_of (recover codec c) recovers)
    where
      at_once_of :
          (p : Cache × Result CacheError (Unit {0}))
          → p.1 ≡ ok tt
          → (after_recovery p 0).2 ≡ at_once
      at_once_of (c', ok u) h = refl
      at_once_of (c', err e') h = cc

  -- The limit counts failures in a row only, and a step that appends resets it: when a corruption that
  -- is recovered from and a step that advances take turns, no round of any such run sleeps.
  pub alternating_never_sleeps :
      (k : ℕ) (e : StepError) (c c' : Cache)
      → is_corruption e ≡ true
      → (recover codec c).1 ≡ ok tt
      → any sleeps (pauses 0 (alternating k e c c')) ≡ false
  unfolding settle
  alternating_never_sleeps zero e c c' corrupt recovers = refl
  alternating_never_sleeps (suc k) e c c' corrupt recovers =
      rw (recovered_at_once c e corrupt recovers)
        (alternating_never_sleeps k e c c' corrupt recovers)
