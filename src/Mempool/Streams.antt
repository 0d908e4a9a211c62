-- ===== src/Mempool/Streams.antt =====
-- What the stream of src/service/mempool.rs sends while the monitor appends to its entries.
use mathlib.Core.List.{map-append}
use lightwalletd_rs.Base.{
  ℕ, ◌≡◌, refl, ap, sym, ◌∙◌, List, [], ◌∷◌, ◌++◌, append-nil, append_assoc, map, false, Bool-cases,
  inl, inr, ◌⊎◌, not, ◌&&◌, is_empty, none, ◌=ᵇ◌, =ᵇ-refl, if◌then◌else◌, ok, length, drop,
  drop_append, arith,
}
use lightwalletd_rs.Encoding.{Text}
use lightwalletd_rs.Mempool.{
  MempoolEntry, MempoolSnapshot, is_stale, as_raw, check_stale, stream_from, get_mempool_stream,
}

-- The snapshots that the wakes find are fresh and of one interval, each with the entries of the one
-- before it and others behind them.
abbrev pub Grows : Text → MempoolSnapshot → List (MempoolSnapshot × ℕ) → Type 0
Grows tip snapshot [] = snapshot.tip_hash ≡ tip
Grows tip snapshot ((found, now) ∷ wakes) =
    (snapshot.tip_hash ≡ tip)
    × (is_stale found now ≡ false)
    × ((added : List MempoolEntry) × (found.entries ≡ snapshot.entries ++ added))
    × Grows tip found wakes

abbrev pub last_found : MempoolSnapshot → List (MempoolSnapshot × ℕ) → MempoolSnapshot
last_found snapshot [] = snapshot
last_found snapshot ((found, now) ∷ wakes) = last_found found wakes

-- The entries of the last snapshot are those that were sent and others behind them.
last_found-grown :
    (tip : Text) (snapshot : MempoolSnapshot) (wakes : List (MempoolSnapshot × ℕ))
    → Grows tip snapshot wakes
    → (added : List MempoolEntry) × ((last_found snapshot wakes).entries
        ≡ snapshot.entries ++ added)
last_found-grown tip snapshot [] h = ([], sym (append-nil snapshot.entries))
last_found-grown tip snapshot ((found, now) ∷ wakes) (same, fresh, (added, is), rest) =
    let (later, last) = last_found-grown tip found wakes rest in
    (added ++ later, last ∙ ap (λ es. es ++ later) is ∙ append_assoc snapshot.entries added later)

goes_on :
    (start tip : Text) (snapshot : MempoolSnapshot)
    → snapshot.tip_hash ≡ tip
    → ((start ≡ []) ⊎ (start ≡ tip))
    → (not (is_empty start) && not (snapshot.tip_hash =ᵇ start)) ≡ false
goes_on start tip snapshot same (inl none_yet) = rw none_yet refl
goes_on start tip snapshot same (inr known) = rw (known, same, =ᵇ-refl tip) (ground arith)

stream_from-Grows :
    (start tip : Text) (sent before : List MempoolEntry) (snapshot : MempoolSnapshot)
    (wakes : List (MempoolSnapshot × ℕ))
    → ((start ≡ []) ⊎ (start ≡ tip))
    → snapshot.entries ≡ sent ++ before
    → Grows tip snapshot wakes
    → (added : List MempoolEntry) × ((last_found snapshot wakes).entries ≡ sent ++ added)
      × (stream_from start (length sent) snapshot wakes
          ≡ record { messages = map as_raw added; failure = none })
unfolding stream_from
stream_from-Grows start tip sent before snapshot [] known is same =
    let on = goes_on start tip snapshot same known in
    let behind : drop (length sent) snapshot.entries ≡ before = rw is (drop_append sent before) in
    (before, is, rw on (rw behind refl))
stream_from-Grows start tip sent before snapshot ((found, now) ∷ wakes) known is
      (same, fresh, (more, grown), rest) =
    let on = goes_on start tip snapshot same known in
    let behind : drop (length sent) snapshot.entries ≡ before = rw is (drop_append sent before) in
    let tip_is : (if is_empty start then snapshot.tip_hash else start) ≡ tip = known_tip known in
    let (added, last, later) =
      stream_from-Grows tip tip snapshot.entries more found wakes (inr refl) grown rest in
    let checked : check_stale found now ≡ ok tt = unfold check_stale in rw fresh refl in
    (
      before ++ added,
      last ∙ ap (λ es. es ++ added) is ∙ append_assoc sent before added,
      rw (stream_from, on)
          (rw (checked, tip_is)
            (rw (behind, later)
              (ap (λ ms. record { messages = ms; failure = none })
                (sym (map-append as_raw before added))))),
    )
  where
    known_tip :
        ((start ≡ []) ⊎ (start ≡ tip)) → (if is_empty start then snapshot.tip_hash else start) ≡ tip
    known_tip (inl none_yet) = rw none_yet same
    known_tip (inr is_tip) = elim (Bool-cases (is_empty start)) [
      | inl e ↦ rw e same
      | inr e ↦ rw e is_tip
    ]

-- While the monitor appends to the entries of one block interval and its snapshots are fresh, the
-- stream goes on, and what it has sent after any number of wakes is exactly the entries of the last
-- snapshot that it found, each once and in their order.
pub get_mempool_stream-Grows :
    (tip : Text) (snapshot : MempoolSnapshot) (now : ℕ) (wakes : List (MempoolSnapshot × ℕ))
    → is_stale snapshot now ≡ false
    → Grows tip snapshot wakes
    → get_mempool_stream snapshot now wakes
      ≡ record { messages = map as_raw (last_found snapshot wakes).entries; failure = none }
unfolding get_mempool_stream
get_mempool_stream-Grows tip snapshot now wakes fresh grows =
    let checked : check_stale snapshot now ≡ ok tt = unfold check_stale in rw fresh refl in
    let (added, last, sends) =
      stream_from-Grows [] tip [] snapshot.entries snapshot wakes (inl refl) refl grows in
    rw (get_mempool_stream, checked)
      (sends ∙ ap (λ es. record { messages = map as_raw es; failure = none }) (sym last))
