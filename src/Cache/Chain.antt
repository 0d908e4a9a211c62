-- ===== src/Cache/Chain.antt =====
-- The abstract view of the cache: a run of compact blocks at consecutive heights. `IsChain` says
-- that the stored rows are that run.
use lightwalletd_rs.Base.{
  ℕ, suc, ◌+◌, ◌<◌, List, [], ◌∷◌, ◌++◌, ◌≡◌, refl, ap, ◌∙◌, length, Option, none, some, arith,
  u64_max, get_last?, ◌==◌, if◌then◌else◌,
}
use lightwalletd_rs.Base.Bytes.{Bytes}
use lightwalletd_rs.Base.Table.{Table, Below, Below-mono, AscendsFrom, lookup}
use lightwalletd_rs.Cache.{Cache, last_height, last_value}
use lightwalletd_rs.Proto.{CompactBlock, Codec}

-- The heights run on from `from`, each low enough that its successor is a `u64`.
abbrev pub Consecutive : ℕ → List CompactBlock → Type 0
Consecutive from [] = Unit
Consecutive from (b ∷ bs) = (b.height ≡ from) × (from < u64_max) × Consecutive (suc from) bs

pub Consecutive-append :
    (from : ℕ) (bs ns : List CompactBlock)
    → Consecutive from bs
    → Consecutive (from + length bs) ns
    → Consecutive from (bs ++ ns)
Consecutive-append from [] ns hb hn = let e : from + 0 ≡ from = omega arith in rw e at hn
Consecutive-append from (b ∷ bs) ns hb hn =
    let e : from + suc (length bs) ≡ suc from + length bs = omega arith in
    (hb.0, hb.1, Consecutive-append (suc from) bs ns hb.2 (rw e at hn))

-- The last height of a run has a successor.
pub Consecutive-last_lt :
    (from : ℕ) (b : CompactBlock) (bs : List CompactBlock)
    → Consecutive from (b ∷ bs)
    → from + length bs < u64_max
Consecutive-last_lt from b [] h = omega arith
Consecutive-last_lt from b (b' ∷ bs) h = omega (arith, Consecutive-last_lt (suc from) b' bs h.2)

-- The block at `height`, if the run reaches it.
abbrev pub block_at : ℕ → List CompactBlock → Option CompactBlock
block_at height [] = none
block_at height (b ∷ bs) = if b.height == height then some b else block_at height bs

module _ (codec : Codec) where
  abbrev pub rows : List CompactBlock → Table Bytes
  rows [] = []
  rows (b ∷ bs) = (b.height, codec.encode b) ∷ rows bs

  pub record IsChain (c : Cache) (from : ℕ) (bs : List CompactBlock) : Type 0 where
    pub rows_are : c.blocks ≡ rows bs
    pub run : Consecutive from bs

  pub rows-append : (bs ns : List CompactBlock) → rows (bs ++ ns) ≡ rows bs ++ rows ns
  rows-append [] ns = refl
  rows-append (b ∷ bs) ns = ap (◌∷◌ (b.height, codec.encode b)) (rows-append bs ns)

  pub rows-Below :
      (from : ℕ) (bs : List CompactBlock) → Consecutive from bs → Below (from + length bs) (rows bs)
  rows-Below from [] h = tt
  rows-Below from (b ∷ bs) h =
      (omega arith, Below-mono _ _ (rows bs) (rows-Below (suc from) bs h.2) (omega arith))

  pub rows-AscendsFrom :
      (from : ℕ) (bs : List CompactBlock) → Consecutive from bs → AscendsFrom from (rows bs)
  rows-AscendsFrom from [] h = tt
  rows-AscendsFrom from (b ∷ bs) h = (omega arith, rw h.0 (rows-AscendsFrom (suc from) bs h.2))

  pub last_height-rows :
      (from : ℕ) (b : CompactBlock) (bs : List CompactBlock)
      → Consecutive from (b ∷ bs)
      → last_height (rows (b ∷ bs)) ≡ some (from + length bs)
  last_height-rows from b [] h = ground arith
  last_height-rows from b (b' ∷ bs) h =
      last_height-rows (suc from) b' bs h.2 ∙ ap some (omega arith)

  pub last_value-rows :
      (b l : CompactBlock) (bs : List CompactBlock)
      → get_last? (b ∷ bs) ≡ some l
      → last_value (rows (b ∷ bs)) ≡ some (codec.encode l)
  last_value-rows b l [] h = ground arith
  last_value-rows b l (b' ∷ bs) h = last_value-rows b' l bs h

  pub lookup-rows_hit :
      (height : ℕ) (b : CompactBlock) (bs : List CompactBlock)
      → block_at height bs ≡ some b
      → lookup height (rows bs) ≡ some (codec.encode b)
  lookup-rows_hit height b [] h = cc
  lookup-rows_hit height b (b' ∷ bs) h = ground (arith, lookup-rows_hit height b bs)

  pub lookup-rows_miss :
      (height : ℕ) (bs : List CompactBlock)
      → block_at height bs ≡ none
      → lookup height (rows bs) ≡ none
  lookup-rows_miss height [] h = refl
  lookup-rows_miss height (b' ∷ bs) h = ground (arith, lookup-rows_miss height bs)
