-- ===== src/Snapshot/Import/Junction.antt =====
-- The seam between the cache and an arriving epoch (`check_junction` of src/snapshot/import.rs).
use lightwalletd_rs.Base.{
  ℕ, suc, ◌+◌, ◌≡◌, refl, ap, sym, ◌∙◌, List, [], ◌∷◌, none, some, ok, >>=-eq-ok, length, arith,
  add64, ◌==◌, false,
}
use lightwalletd_rs.Base.Bytes.{Bytes}
use lightwalletd_rs.Cache.Chain.{Consecutive, block_at, IsChain, last_height-rows}
use lightwalletd_rs.Cache.Read.{get-IsChain}
use lightwalletd_rs.Cache.{Cache, get, latest_height}
use lightwalletd_rs.Proto.{CompactBlock, Codec, IsCodec}
use lightwalletd_rs.Snapshot.Import.Arrivals.{last_or}
use lightwalletd_rs.Snapshot.Import.{junction, junction_at, check_junction}
use lightwalletd_rs.Snapshot.Verify.Layers.{Joins, JoinedTo, check_joins_iff}
use lightwalletd_rs.Snapshot.Verify.Records.{decode_block-eq-ok}
use lightwalletd_rs.Snapshot.Verify.{decode_block, check_joins}

block_at-last :
    (from height : ℕ) (b : CompactBlock) (bs : List CompactBlock)
    → Consecutive from (b ∷ bs)
    → height ≡ from + length bs
    → block_at height (b ∷ bs) ≡ last_or (some b) bs
block_at-last from height b [] run h = ground (arith, run.0)
block_at-last from height b (b' ∷ bs) run h =
    let other : (b.height == height) ≡ false = ground (arith, run.0) in
    rw other (block_at-last (suc from) height b' bs run.2 (omega arith))

last_or-some :
    (b : CompactBlock) (bs : List CompactBlock)
    → (l : CompactBlock) × (last_or (some b) bs ≡ some l)
last_or-some b [] = (b, refl)
last_or-some b (b' ∷ bs) = last_or-some b' bs

pub latest_height-IsChain :
    (codec : Codec) (c : Cache) (from : ℕ) (b : CompactBlock) (bs : List CompactBlock)
    → IsChain codec c from (b ∷ bs)
    → latest_height c ≡ some (from + length bs)
latest_height-IsChain codec c from b bs chain =
    rw chain.rows_are (last_height-rows codec from b bs chain.run)

module _ (codec : Codec) (lawful : IsCodec codec) where
  Joins-of_junction :
      (epoch tip_height : ℕ) (raw : Bytes) (l b : CompactBlock)
      → junction codec epoch tip_height raw (some l) ≡ ok tt
      → codec.decode raw ≡ some b
      → Joins l b
  Joins-of_junction epoch tip_height raw l b h decoded =
      let (first, read, h₁) = >>=-eq-ok (decode_block codec epoch (add64 tip_height 1) raw) _ h in
      let (decoded', at) = decode_block-eq-ok codec epoch (add64 tip_height 1) raw first read in
      let same_block : some first ≡ some b = sym decoded' ∙ decoded in
      let same : first ≡ b = cc in
      rw (← same) ((check_joins_iff epoch l first).0 (unfold check_joins in h₁))

  -- What the junction lets pass joins the last block of the cache, if it has one.
  pub check_junction-JoinedTo :
      (c : Cache) (from epoch : ℕ) (bs : List CompactBlock) (raw : Bytes) (b : CompactBlock)
      (ns : List CompactBlock)
      → IsChain codec c from bs
      → check_junction codec c epoch (some raw) ≡ ok tt
      → codec.decode raw ≡ some b
      → JoinedTo none (b ∷ ns)
      → JoinedTo (last_or none bs) (b ∷ ns)
  unfolding check_junction
  check_junction-JoinedTo c from epoch [] raw b ns chain h decoded joined = joined
  check_junction-JoinedTo c from epoch (b' ∷ bs) raw b ns chain h decoded joined =
      let (l, last) = last_or-some b' bs in
      let h' : junction_at codec c epoch raw (some (from + length bs)) ≡ ok tt =
        rw (latest_height-IsChain codec c from b' bs chain) at h in
      let held : get codec c (from + length bs) ≡ ok (some l) =
        get-IsChain codec lawful c from (from + length bs) (b' ∷ bs) chain
        ∙ ap ok (block_at-last from (from + length bs) b' bs chain.run refl ∙ last) in
      let passes : junction codec epoch (from + length bs) raw (some l) ≡ ok tt = rw held at h' in
      rw last (Joins-of_junction epoch (from + length bs) raw l b passes decoded, joined)
