-- ===== src/Snapshot/Peer.antt =====
-- The source of epochs over HTTP (src/snapshot/import.rs). What a peer replies to a request is a
-- parameter: an error with the status, if there is one, or the chunks of the body, of which any may
-- fail to arrive.
pub mod Attempts
use lightwalletd_rs.Base.{
  ℕ, zero, suc, ◌+◌, ◌*◌, List, [], ◌∷◌, ◌++◌, Bool, true, false, not, ◌||◌, ◌&&◌, Option, none,
  some, ltb, leb, ◌==◌, if◌then◌else◌, Result, ok, err, ◌>>=◌, ok_or, length,
}
use lightwalletd_rs.Base.Bytes.{Bytes}
use lightwalletd_rs.Snapshot.Failure.{
  SnapshotError, http, malformed_manifest, epoch_rejected, length_check,
}
use lightwalletd_rs.Snapshot.Import.{EpochSource}
use lightwalletd_rs.Snapshot.Manifest.{Manifest}

abbrev pub Chunk : Type 0
Chunk = Result (Option ℕ) Bytes

abbrev pub Reply : Type 0
Reply = Result (Option ℕ) (List Chunk)

abbrev pub max_manifest_bytes : ℕ
max_manifest_bytes = 8 * 1024 * 1024

abbrev pub fetch_attempts : ℕ
fetch_attempts = 3

-- In seconds.
abbrev pub retry_backoff : ℕ
retry_backoff = 2

abbrev pub is_server_error : ℕ → Bool
is_server_error status = leb 500 status && ltb status 600

unfoldable pub is_worth_retrying : SnapshotError → Bool
is_worth_retrying (http (some status)) = is_server_error status || (status == 429)
is_worth_retrying (http none) = true
is_worth_retrying _ = false

-- The loop over the chunks.
unfoldable pub read_capped : ℕ → SnapshotError → List Chunk → Bytes → Result SnapshotError Bytes
read_capped max_bytes too_long [] body = ok body
read_capped max_bytes too_long (err status ∷ chunks) body = err (http status)
read_capped max_bytes too_long (ok chunk ∷ chunks) body =
    let rest = read_capped max_bytes too_long chunks (body ++ chunk) in
    if ltb max_bytes (length body + length chunk) then err too_long else rest

unfoldable pub get_capped : ℕ → SnapshotError → Reply → Result SnapshotError Bytes
unfolding read_capped
get_capped max_bytes too_long (err status) = err (http status)
get_capped max_bytes too_long (ok chunks) = read_capped max_bytes too_long chunks []

unfoldable pub fetch_epoch : ℕ → ℕ → Reply → Result SnapshotError Bytes
unfolding get_capped
fetch_epoch index max_bytes reply = get_capped max_bytes (epoch_rejected index length_check) reply

-- How the loop of `epoch` ends, and the seconds it slept before each further attempt.
pub record Ended : Type 0 where
  pub result : Result SnapshotError Bytes
  pub slept : List ℕ

abbrev pub slept_before : ℕ → Option Ended → Option Ended
slept_before delay none = none
slept_before delay (some e) = some (record e { slept = delay ∷ e.slept })

-- The loop, on fuel for its attempts; `fetch` is what each attempt yields.
unfoldable pub attempts_from : (ℕ → Result SnapshotError Bytes) → ℕ → ℕ → ℕ → ℕ → Option Ended
unfolding is_worth_retrying
attempts_from fetch attempts zero attempt delay = none
attempts_from fetch attempts (suc fuel) attempt delay =
    let later = attempts_from fetch attempts fuel (attempt + 1) (delay * 2) in
    elim (fetch attempt) [
      | ok body ↦ some (record { result = ok body; slept = [] })
      | err e ↦
          if leb attempts attempt || not (is_worth_retrying e)
          then some (record { result = err e; slept = [] })
          else slept_before delay later
    ]

abbrev pub result_of : Option Ended → Result SnapshotError Bytes
result_of none = err (http none)
result_of (some e) = e.result

-- The source over HTTP. `parse` is `serde_json::from_slice`.
unfoldable pub http_source : (Bytes → Option Manifest) → Reply → (ℕ → ℕ → Reply) → EpochSource
unfolding get_capped fetch_epoch attempts_from
http_source parse manifest_reply epoch_reply = record {
  manifest = do
    body ← get_capped max_manifest_bytes malformed_manifest manifest_reply
    ok_or malformed_manifest (parse body);
  epoch = λ index max_bytes. result_of (
      attempts_from (λ attempt. fetch_epoch index max_bytes (epoch_reply index attempt))
        fetch_attempts fetch_attempts 1 retry_backoff);
}
