-- ===== src/Ingestor/Steps.antt =====
-- What a step of the ingestor (`step` of src/ingestor.rs) does to the cache: it stays a run of blocks
-- at consecutive heights, each of which names the hash of the one below it.
use lightwalletd_rs.Base.{
  ℕ, suc, ◌+◌, ◌-◌, ◌<◌, ◌≡◌, refl, ap, sym, ◌∙◌, Bool, none, some, List, [], ◌∷◌, ◌++◌, length,
  ltb, ◌==◌, ◌=ᵇ◌, Result, ok, err, Result-cases, Bool-cases, inl, inr, ◌⊎◌, min, u64_max, arith,
  append-nil, get_last?, add64, sat_add64,
}
use lightwalletd_rs.Base.Bytes.{Bytes}
use lightwalletd_rs.Cache.Append.{append-IsChain, origin}
use lightwalletd_rs.Cache.Chain.{IsChain, last_height-rows, Consecutive-last_lt}
use lightwalletd_rs.Cache.Read.{latest_hash-IsChain}
use lightwalletd_rs.Cache.{Cache, CacheError, latest_height, latest_hash, get, add_batch}
use lightwalletd_rs.Encoding.{Hex, display_hex_to_wire}
use lightwalletd_rs.Ingestor.{
  StepError, Progress, Joined, joined, Kept, reorged, kept, reorg_to_floor, fetch_window,
  commit_window, ingest_from, compare_tip, compare_behind, step, rolled_back, is_hash, with_hash,
}
use lightwalletd_rs.Node.{NodeError, GetBlockchainInfo}
use lightwalletd_rs.Proto.{CompactBlock, Codec, IsCodec}
use lightwalletd_rs.Ingestor.Chains.{
  HashLinked, last_hash, IsLinkedChain, reorg_to_floor-IsLinkedChain,
}
use lightwalletd_rs.Ingestor.Window.{KeepsLinked, keep_prefix-KeepsLinked, fetch_window-Placed}

rolled_back-fst : (r : Cache × Result CacheError (Unit {0})) → (rolled_back r).0 ≡ r.0
rolled_back-fst (c, ok u) = refl
rolled_back-fst (c, err e) = refl

last_hash-get_last? :
    (bs : List CompactBlock) (l : CompactBlock) → get_last? bs ≡ some l → last_hash bs ≡ some l.hash
last_hash-get_last? [] l h = cc
last_hash-get_last? (b ∷ []) l h = cc
last_hash-get_last? (b ∷ b' ∷ bs) l h = last_hash-get_last? (b' ∷ bs) l h

module _ (codec : Codec) (lawful : IsCodec codec) (hex : Hex) (start_height window : ℕ) where
  latest_hash-last_hash :
      (c : Cache) (from : ℕ) (bs : List CompactBlock)
      → IsChain codec c from bs
      → latest_hash codec c ≡ ok (last_hash bs)
  unfolding latest_hash
  latest_hash-last_hash c from [] chain = rw chain.rows_are refl
  latest_hash-last_hash c from (b ∷ bs) chain =
      let (l, last, held) = latest_hash-IsChain codec lawful c from b bs chain in
      held ∙ ap ok (sym (last_hash-get_last? (b ∷ bs) l last))

  commit_window-IsLinkedChain :
      (c : Cache) (from next : ℕ) (bs : List CompactBlock) (window_kept : Kept)
      (any_panicked : Bool)
      → IsChain codec c from bs
      → HashLinked bs
      → (bs ≡ []) ⊎ (next ≡ from + length bs)
      → KeepsLinked bs next window_kept
      → IsLinkedChain codec
          (commit_window codec hex start_height window c next window_kept any_panicked).0
  unfolding commit_window add_batch
  commit_window-IsLinkedChain c from next bs reorged any_panicked chain linked joins keeps =
      rw (rolled_back-fst (reorg_to_floor c (next - 2) start_height))
        (reorg_to_floor-IsLinkedChain codec c (next - 2) start_height (from, bs, chain, linked))
  commit_window-IsLinkedChain c from next bs (kept [] failure) any_panicked chain linked joins
        keeps =
      (from, bs, chain, linked)
  commit_window-IsLinkedChain c from next bs (kept (b ∷ ns) failure) any_panicked chain linked joins
        keeps =
      rw (rolled_back-fst (add_batch codec c (b ∷ ns))) (
        origin codec from bs next,
        bs ++ b ∷ ns,
        (append-IsChain codec c from next bs b ns none chain keeps.1 joins).1,
        keeps.0,
      )

  ingest_from-IsLinkedChain :
      (c : Cache) (tasks : ℕ → Joined) (from next tip_height : ℕ) (bs : List CompactBlock)
      → ((height : ℕ) (b : CompactBlock) → tasks height ≡ joined (ok b) → b.height ≡ height)
      → tip_height < u64_max
      → IsChain codec c from bs
      → HashLinked bs
      → (bs ≡ []) ⊎ (next ≡ from + length bs)
      → IsLinkedChain codec (ingest_from codec hex start_height window c tasks next tip_height).0
  unfolding ingest_from
  ingest_from-IsLinkedChain c tasks from next tip_height bs placed top chain linked joins =
      elim (Bool-cases (ltb tip_height next)) [
        | inl done ↦ rw (ingest_from, done) (from, bs, chain, linked)
        | inr more ↦
            let last = min tip_height (sat_add64 next (window - 1)) in
            let fetched = fetch_window-Placed tasks next (suc last - next) placed (ground arith) in
            let held = latest_hash-last_hash c from bs chain in
            rw (ingest_from, more)
              (rw held (
                commit_window-IsLinkedChain c from next bs _ _ chain linked joins (
                  keep_prefix-KeepsLinked bs next next (fetch_window tasks next (suc last - next)).0
                    (last_hash bs) [] fetched (ap last_hash (sym (append-nil bs)))
                    (rw (append-nil bs) linked) tt (omega arith))))
      ]

  compare_tip-IsLinkedChain :
      (c : Cache) (tip_hash : Bytes) (latest : ℕ)
      → IsLinkedChain codec c
      → IsLinkedChain codec (compare_tip codec hex start_height window c tip_hash latest).0
  unfolding compare_tip
  compare_tip-IsLinkedChain c tip_hash latest (from, bs, chain, linked) =
      let held = latest_hash-last_hash c from bs chain in
      elim (Bool-cases (is_hash codec hex start_height window (last_hash bs) tip_hash)) [
        | inl same ↦ rw (compare_tip, held) (rw same (from, bs, chain, linked))
        | inr other ↦
            rw (compare_tip, held)
              (rw other (
                rw (rolled_back-fst (reorg_to_floor c (latest - 1) start_height)) (
                  reorg_to_floor-IsLinkedChain codec c (latest - 1) start_height
                    (from, bs, chain, linked))))
      ]

  compare_behind-IsLinkedChain :
      (c : Cache) (tip_hash : Bytes) (tip_height latest : ℕ)
      → IsLinkedChain codec c
      → IsLinkedChain codec
          (compare_behind codec hex start_height window c tip_hash tip_height latest).0
  unfolding compare_behind
  compare_behind-IsLinkedChain c tip_hash tip_height latest h =
      elim (Result-cases (get codec c tip_height)) [
        | inr (e, failed_at) ↦ rw (compare_behind, failed_at) h
        | inl (none, missing) ↦ rw (compare_behind, missing) h
        | inl (some cached, held) ↦ elim (Bool-cases (cached.hash =ᵇ tip_hash)) [
          | inl same ↦ rw (compare_behind, held) (rw same h)
          | inr other ↦
              rw (compare_behind, held)
                (rw other (
                  rw (rolled_back-fst (reorg_to_floor c (latest - 1) start_height))
                    (reorg_to_floor-IsLinkedChain codec c (latest - 1) start_height h)))
        ]
      ]

  -- What comes after the tip hash is decoded keeps the chain, and so does failing to decode it.
  with_hash-IsLinkedChain :
      (c : Cache) (info : GetBlockchainInfo) (next : Bytes → Cache × Result StepError Progress)
      → IsLinkedChain codec c
      → ((tip_hash : Bytes) → IsLinkedChain codec (next tip_hash).0)
      → IsLinkedChain codec (with_hash codec hex start_height window c info next).0
  with_hash-IsLinkedChain c info next h all =
      elim (Result-cases (display_hex_to_wire hex info.bestblockhash)) [
        | inl (tip_hash, read) ↦ rw (with_hash, read) (all tip_hash)
        | inr (e, bad) ↦ rw (with_hash, bad) h
      ]

  step-at :
      (c : Cache) (info : GetBlockchainInfo) (tasks : ℕ → Joined) (from : ℕ)
      (bs : List CompactBlock)
      → ((height : ℕ) (b : CompactBlock) → tasks height ≡ joined (ok b) → b.height ≡ height)
      → info.blocks < u64_max
      → IsChain codec c from bs
      → HashLinked bs
      → IsLinkedChain codec (step codec hex start_height window c (ok info) tasks).0
  unfolding step
  step-at c info tasks from [] placed top chain linked =
      let empty_cache : latest_height c ≡ none = rw chain.rows_are refl in
      rw (step, empty_cache)
        (ingest_from-IsLinkedChain c tasks from start_height info.blocks [] placed top chain linked
          (inl refl))
  step-at c info tasks from (b ∷ bs) placed top chain linked =
      let tip = from + length bs in
      let at : latest_height c ≡ some tip =
        rw chain.rows_are (last_height-rows codec from b bs chain.run) in
      let here : IsLinkedChain codec c = (from, b ∷ bs, chain, linked) in
      rw (step, at)
        (elim (Bool-cases (tip == info.blocks)) [
          | inl same ↦ rw same (
              with_hash-IsLinkedChain c info _ here
                (λ tip_hash. compare_tip-IsLinkedChain c tip_hash tip here))
          | inr other ↦ elim (Bool-cases (ltb info.blocks tip)) [
            | inl behind ↦ rw other (
                rw behind (
                  with_hash-IsLinkedChain c info _ here
                    (λ tip_hash. compare_behind-IsLinkedChain c tip_hash info.blocks tip here)))
            | inr ahead ↦
                let next : add64 tip 1 ≡ from + suc (length bs) =
                  ground (arith, Consecutive-last_lt from b bs chain.run) in
                rw other (
                  rw ahead (
                    ingest_from-IsLinkedChain c tasks from (add64 tip 1) info.blocks (b ∷ bs) placed
                      top chain linked (inr next)))
          ]
        ])

  -- Where the fetch of each height yields a block of that height, the node's tip is below `u64::MAX`
  -- and the codec reads back what it writes, a step of the ingestor keeps the cache a run of blocks at
  -- consecutive heights, each naming the hash of the one below it: whether the step appends a window
  -- or a part of it, rolls back, empties the cache, idles or fails.
  pub step-IsLinkedChain :
      (c : Cache) (answer : Result NodeError GetBlockchainInfo) (tasks : ℕ → Joined)
      → ((height : ℕ) (b : CompactBlock) → tasks height ≡ joined (ok b) → b.height ≡ height)
      → ((info : GetBlockchainInfo) → answer ≡ ok info → info.blocks < u64_max)
      → IsLinkedChain codec c
      → IsLinkedChain codec (step codec hex start_height window c answer tasks).0
  unfolding step
  step-IsLinkedChain c (err e) tasks placed top h = h
  step-IsLinkedChain c (ok info) tasks placed top (from, bs, chain, linked) =
      step-at c info tasks from bs placed (top info refl) chain linked
