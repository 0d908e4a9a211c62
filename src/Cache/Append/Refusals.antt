-- ===== src/Cache/Append/Refusals.antt =====
-- What `append` of src/cache.rs refuses, and with which error.
use lightwalletd_rs.Base.{
  ℕ, suc, ◌+◌, ◌<◌, List, [], ◌∷◌, ◌++◌, ◌≡◌, ◌≢◌, refl, ap, sym, ◌∙◌, map, length, Option, none,
  some, arith, u64_max, true, false, Result, ok, err, ◌⊎◌, add64,
}
use lightwalletd_rs.Base.Bytes.{Bytes}
use lightwalletd_rs.Base.Table.{Table, insert}
use lightwalletd_rs.Cache.Chain.{Consecutive, Consecutive-last_lt, IsChain, last_height-rows}
use lightwalletd_rs.Cache.{
  Cache, CacheError, append_loop, commit_append, append, corruption, not_consecutive, check_height,
  last_height,
}
use lightwalletd_rs.Proto.{CompactBlock, Codec}
use lightwalletd_rs.Cache.Append.{append_loop_step, check_height_next}

module _ (codec : Codec) where
  -- What refuses an input where the block of height `at` is due: its own failure to decode, or another
  -- height.
  abbrev pub Breaks : ℕ → Result CacheError CompactBlock → CacheError → Type 0
  Breaks at (err failure) e = e ≡ failure
  Breaks at (ok b) e = (b.height ≢ at) × (e ≡ corruption at (not_consecutive at b.height))

  check_height-Breaks :
      (tip : Option ℕ) (next height : ℕ)
      → height ≢ next
      → check_height tip (some next) height ≡ err (corruption next (not_consecutive next height))
  unfolding check_height
  check_height-Breaks none next height h = ground arith
  check_height-Breaks (some t) next height h = ground arith

  append_loop-Breaks :
      (tip : Option ℕ) (next : ℕ) (ns : List CompactBlock) (x : Result CacheError CompactBlock)
      (rest : List (Result CacheError CompactBlock)) (table : Table Bytes) (e : CacheError)
      → Consecutive next ns
      → Breaks (next + length ns) x e
      → append_loop codec tip (some next) (map ok ns ++ x ∷ rest) table true ≡ err e
  append_loop-Breaks tip next [] (err failure) rest table e run broken =
      unfold append_loop in ap err (sym broken)
  append_loop-Breaks tip next [] (ok b) rest table e run broken =
      let at : next + 0 ≡ next = omega arith in
      let (other, is) : (b.height ≢ next) × (e ≡ corruption next (not_consecutive next b.height)) =
        rw at at broken in
      unfold append_loop in rw (check_height-Breaks tip next b.height other) (ap err (sym is))
  append_loop-Breaks tip next (b ∷ ns) x rest table e run broken =
      let moved : add64 b.height 1 ≡ suc next = omega arith in
      let shift : next + suc (length ns) ≡ suc next + length ns = omega arith in
      append_loop_step codec tip (some next) b (map ok ns ++ x ∷ rest) table true
        (check_height_next tip next b.height run.0)
      ∙ rw moved (
          append_loop-Breaks tip (suc next) ns x rest (insert b.height (codec.encode b) table) e
            run.2 (rw shift at broken))

  -- A batch for a cache that is a chain, which goes on as it should for one block or more, and then
  -- has an input that does not decode or a block at another height than the next, is refused for
  -- that input, whatever follows it: the error is that of the decoding, or names the height that
  -- was due and the one that was found. Nothing of the batch is in the cache, and neither is its
  -- snapshot base.
  pub append-Breaks :
      (c : Cache) (from next : ℕ) (bs : List CompactBlock) (b : CompactBlock)
      (ns : List CompactBlock) (x : Result CacheError CompactBlock)
      (rest : List (Result CacheError CompactBlock)) (base : Option ℕ) (e : CacheError)
      → IsChain codec c from bs
      → Consecutive next (b ∷ ns)
      → (bs ≡ []) ⊎ (next ≡ from + length bs)
      → Breaks (next + length (b ∷ ns)) x e
      → append codec c (map ok (b ∷ ns) ++ x ∷ rest) base ≡ (c, err e)
  unfolding append
  append-Breaks c from next bs b ns x rest base e chain run joins broken =
      let moved : add64 b.height 1 ≡ suc next = omega arith in
      let shift : next + suc (length ns) ≡ suc next + length ns = omega arith in
      let stops : append_loop codec (last_height c.blocks) none (map ok (b ∷ ns) ++ x ∷ rest)
            c.blocks false
          ≡ err e =
        append_loop_step codec (last_height c.blocks) none b (map ok ns ++ x ∷ rest) c.blocks false
          (first_passes c from next bs b.height chain run.0 joins)
        ∙ rw moved (
            append_loop-Breaks (last_height c.blocks) (suc next) ns x rest
              (insert b.height (codec.encode b) c.blocks) e run.2 (rw shift at broken)) in
      rw stops (unfold commit_append in refl)
    where
      first_passes :
          (c : Cache) (from next : ℕ) (bs : List CompactBlock) (height : ℕ)
          → IsChain codec c from bs
          → height ≡ next
          → (bs ≡ []) ⊎ (next ≡ from + length bs)
          → check_height (last_height c.blocks) none height ≡ ok tt
      first_passes c from next [] height chain at joins =
          rw chain.rows_are (unfold check_height in refl)
      first_passes c from next (b' ∷ bs) height chain at joins =
          let below : from + length bs < u64_max = Consecutive-last_lt from b' bs chain.run in
          rw (chain.rows_are, last_height-rows codec from b' bs chain.run)
            (unfold check_height in ground arith)
