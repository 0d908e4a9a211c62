-- ===== src/Snapshot/Peer/Attempts.antt =====
-- The attempts of the source over HTTP (src/snapshot/import.rs), and the cap on what it holds.
use lightwalletd_rs.Base.{
  ℕ, zero, suc, ◌+◌, ◌-◌, ◌*◌, ◌≤◌, ◌<◌, ◌≡◌, refl, sym, List, [], ◌∷◌, ◌++◌, true, false, not,
  ◌||◌, some, ltb, leb, Bool-cases, inl, inr, ◌⊎◌, Result, ok, err, Result-cases, length,
  length-append, arith,
}
use lightwalletd_rs.Base.Bytes.{Bytes}
use lightwalletd_rs.Snapshot.Failure.{SnapshotError}
use lightwalletd_rs.Snapshot.Peer.{
  Chunk, Reply, is_worth_retrying, read_capped, get_capped, Ended, attempts_from,
}

read_capped-le :
    (max_bytes : ℕ) (too_long : SnapshotError) (chunks : List Chunk) (held body : Bytes)
    → length held ≤ max_bytes
    → read_capped max_bytes too_long chunks held ≡ ok body
    → length body ≤ max_bytes
unfolding read_capped
read_capped-le max_bytes too_long [] held body low h =
    let same : held ≡ body = cc in rw (← same) low
read_capped-le max_bytes too_long (err status ∷ chunks) held body low h = cc
read_capped-le max_bytes too_long (ok chunk ∷ chunks) held body low h =
    elim (Bool-cases (ltb max_bytes (length held + length chunk))) [
      | inl past ↦ absurd (cc (rw (read_capped, past) at h))
      | inr within ↦
          read_capped-le max_bytes too_long chunks (held ++ chunk) body
            (ground (arith, length-append held chunk)) (rw (read_capped, within) at h)
    ]

-- What a request yields is never longer than the cap, whatever the peer sends.
pub get_capped-le :
    (max_bytes : ℕ) (too_long : SnapshotError) (reply : Reply) (body : Bytes)
    → get_capped max_bytes too_long reply ≡ ok body
    → length body ≤ max_bytes
unfolding get_capped
get_capped-le max_bytes too_long (err status) body h = cc
get_capped-le max_bytes too_long (ok chunks) body h =
    read_capped-le max_bytes too_long chunks [] body (omega arith) h

-- The attempt that decides: the first, from `attempt` on, that is not followed by another.
pub record Decided (fetch : ℕ → Result SnapshotError Bytes) (attempts attempt : ℕ) (e : Ended)
    : Type 0 where
  pub last : ℕ
  pub from_first : attempt ≤ last
  pub within : last ≤ attempts
  pub result_is : e.result ≡ fetch last
  pub final :
      ((body : Bytes) × (fetch last ≡ ok body))
      ⊎ ((error : SnapshotError) × (fetch last ≡ err error)
          × ((last ≡ attempts) ⊎ (is_worth_retrying error ≡ false)))
  pub before :
      (j : ℕ)
      → attempt ≤ j
      → j < last
      → (error : SnapshotError) × (fetch j ≡ err error) × (is_worth_retrying error ≡ true)
  pub pauses : length e.slept ≡ last - attempt

-- With fuel for every attempt left, the loop ends, and the attempt that decides is the first that
-- succeeds, that fails for good, or that is the last allowed; each one before it failed in a way that
-- is worth retrying, and was followed by one pause.
pub attempts_from-Decided :
    (fetch : ℕ → Result SnapshotError Bytes) (attempts fuel attempt delay : ℕ)
    → attempts < fuel + attempt
    → attempt ≤ attempts
    → (e : Ended) × (attempts_from fetch attempts fuel attempt delay ≡ some e)
      × Decided fetch attempts attempt e
unfolding attempts_from
attempts_from-Decided fetch attempts zero attempt delay enough low = absurd (omega arith)
attempts_from-Decided fetch attempts (suc fuel) attempt delay enough low =
    elim (Result-cases (fetch attempt)) [
      | inl (body, got) ↦ (
        record { result = ok body; slept = [] },
        rw (attempts_from, got) refl,
        record {
          last = attempt;
          from_first = omega arith;
          within = low;
          result_is = sym got;
          final = inl (body, got);
          before = λ j from below. absurd (omega arith);
          pauses = omega arith;
        },
      )
      | inr (error, got) ↦
          elim (Bool-cases (leb attempts attempt || not (is_worth_retrying error))) [
            | inl over ↦
                let why : (attempt ≡ attempts) ⊎ (is_worth_retrying error ≡ false) = ground arith in
                (
                  record { result = err error; slept = [] },
                  rw (attempts_from, got) (rw over refl),
                  record {
                    last = attempt;
                    from_first = omega arith;
                    within = low;
                    result_is = sym got;
                    final = inr (error, got, why);
                    before = λ j from below. absurd (omega arith);
                    pauses = omega arith;
                  },
                )
            | inr again ↦
                let more : attempt + 1 ≤ attempts = ground arith in
                let worth : is_worth_retrying error ≡ true = ground arith in
                let (e, later, d) =
                  attempts_from-Decided fetch attempts fuel (attempt + 1) (delay * 2) (omega arith)
                    more in
                (
                  record e { slept = delay ∷ e.slept },
                  rw (attempts_from, got) (rw again (rw later refl)),
                  record {
                    last = d.last;
                    from_first = omega (arith, d.from_first);
                    within = d.within;
                    result_is = d.result_is;
                    final = d.final;
                    before = λ j from below. elim (Bool-cases (ltb attempt j)) [
                      | inl after ↦ d.before j (ground arith) below
                      | inr same ↦
                          let at : attempt ≡ j = ground arith in (error, rw (← at) got, worth)
                    ];
                    pauses = omega (arith, d.pauses, d.from_first);
                  },
                )
          ]
    ]
