-- ===== src/Cache/Read.antt =====
-- Reading a cache that holds a chain (`get`, `latest_hash`, `hashes_at`, `range` and
-- `validate_light` of src/cache.rs).
use lightwalletd_rs.Base.{
  ℕ, suc, ◌+◌, ◌≤◌, ◌<◌, ◌≡◌, ◌≢◌, refl, ap, none, some, List, [], ◌∷◌, ok, length, arith, ◌==◌,
  get_last?, true, inl, inr, Bool-cases, ==_iff, Option-cases,
}
use lightwalletd_rs.Base.Bytes.{Bytes}
use lightwalletd_rs.Base.Table.{Table, lookup, AscendsFrom, AscendsFrom-mono}
use lightwalletd_rs.Cache.Chain.{
  Consecutive, Consecutive-last_lt, block_at, rows, IsChain, lookup-rows_hit, lookup-rows_miss,
  last_height-rows, last_value-rows, rows-AscendsFrom,
}
use lightwalletd_rs.Cache.Check.Verdict.{validate_light_iff}
use lightwalletd_rs.Cache.Check.{validate_light, is_good}
use lightwalletd_rs.Cache.{Cache, get, latest_hash, range}
use lightwalletd_rs.Proto.{CompactBlock, Codec, IsCodec}

-- The block at a height of the run is there, and has that height.
pub block_at-run :
    (from height : ℕ) (bs : List CompactBlock)
    → Consecutive from bs
    → from ≤ height
    → height < from + length bs
    → (b : CompactBlock) × (block_at height bs ≡ some b) × (b.height ≡ height)
block_at-run from height [] run ge lt = absurd (omega arith)
block_at-run from height (b ∷ bs) run ge lt = elim (Bool-cases (b.height == height)) [
  | inl e ↦ (b, rw e, (==_iff b.height height).0 e)
  | inr e ↦
      let next : suc from ≤ height = ground arith in
      let (b', found, at) = block_at-run (suc from) height bs run.2 next (omega arith) in
      (b', rw e found, at)
]

module _ (codec : Codec) (lawful : IsCodec codec) where
  -- The block that `get` returns is the chain's at that height, and none where the chain has none.
  pub get-IsChain :
      (c : Cache) (from height : ℕ) (bs : List CompactBlock)
      → IsChain codec c from bs
      → get codec c height ≡ ok (block_at height bs)
  unfolding get
  get-IsChain c from height bs chain = elim (Option-cases (block_at height bs)) [
    | inl missing ↦ rw (chain.rows_are, lookup-rows_miss codec height bs missing, missing)
    | inr (b, found) ↦
        rw (chain.rows_are, lookup-rows_hit codec height b bs found, found, lawful.decode-encode b)
  ]

  get_last_cons :
      (b : CompactBlock) (bs : List CompactBlock)
      → (l : CompactBlock) × (get_last? (b ∷ bs) ≡ some l)
  get_last_cons b [] = (b, refl)
  get_last_cons b (b' ∷ bs) = get_last_cons b' bs

  -- The tip hash is the hash of the chain's last block.
  pub latest_hash-IsChain :
      (c : Cache) (from : ℕ) (b : CompactBlock) (bs : List CompactBlock)
      → IsChain codec c from (b ∷ bs)
      → (l : CompactBlock) × (get_last? (b ∷ bs) ≡ some l)
        × (latest_hash codec c ≡ ok (some l.hash))
  unfolding latest_hash
  latest_hash-IsChain c from b bs chain =
      let (l, last) = get_last_cons b bs in
      (l, last, rw (chain.rows_are, last_value-rows codec b l bs last, lawful.decode-encode l))

  good_block :
      (from height : ℕ) (bs : List CompactBlock) (m : Table Bytes)
      → m ≡ rows codec bs
      → Consecutive from bs
      → from ≤ height
      → height < from + length bs
      → (lookup height m ≢ none) × (is_good codec m height ≡ true)
  good_block from height bs m same run ge lt =
      let (b, found, at) = block_at-run from height bs run ge lt in
      let row : lookup height m ≡ some (codec.encode b) =
        rw same (lookup-rows_hit codec height b bs found) in
      let decoded = lawful.decode-encode b in
      (λ n. cc (row, n), rw (row, decoded) ((==_iff b.height height).1 at))

  -- A chain passes the consistency check.
  pub validate_light-IsChain :
      (c : Cache) (from : ℕ) (b : CompactBlock) (bs : List CompactBlock)
      → IsChain codec c from (b ∷ bs)
      → validate_light codec c ≡ ok tt
  validate_light-IsChain c from b bs chain =
      let sorted : AscendsFrom 0 c.blocks = rw chain.rows_are (
        AscendsFrom-mono 0 from (rows codec (b ∷ bs))
          (rows-AscendsFrom codec from (b ∷ bs) chain.run) (omega arith)) in
      let top = Consecutive-last_lt from b bs chain.run in
      (validate_light_iff codec c from (from + length bs) sorted
          (rw chain.rows_are (ap some chain.run.0))
          (rw chain.rows_are (last_height-rows codec from b bs chain.run)) top).1
        (
          λ k ge le.
              (good_block from k (b ∷ bs) c.blocks chain.rows_are chain.run ge (omega arith)).0,
          (good_block from (from + length bs) (b ∷ bs) c.blocks chain.rows_are chain.run
              (omega arith) (omega arith)).1,
        )

-- The range of a chain is from its first height to its last.
pub range-IsChain :
    (codec : Codec) (c : Cache) (from : ℕ) (b : CompactBlock) (bs : List CompactBlock)
    → IsChain codec c from (b ∷ bs)
    → range c ≡ some (from, from + length bs)
unfolding range
range-IsChain codec c from b bs chain =
    rw (chain.rows_are, last_height-rows codec from b bs chain.run) (ground (arith, chain.run.0))
