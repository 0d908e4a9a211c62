-- ===== src/Snapshot/Verify/Records.antt =====
-- What the pass of src/snapshot/import.rs over the records of an epoch establishes.
use lightwalletd_rs.Base.{
  ℕ, suc, ◌+◌, ◌≤◌, ◌≡◌, refl, ap, sym, ◌∙◌, List, [], ◌∷◌, map, Option, none, some, ◌==◌, not, ok,
  >>=-eq-ok, then_iff, guard_ok, ok_injective, ok_or, ok_or-eq-ok, length, arith, u64_max,
}
use lightwalletd_rs.Base.Bytes.{Bytes}
use lightwalletd_rs.Cache.Chain.{Consecutive}
use lightwalletd_rs.Proto.{CompactBlock, Codec}
use lightwalletd_rs.Snapshot.Failure.{block_rejected, decode_check}
use lightwalletd_rs.Snapshot.Verify.{check_joins, decode_block, check_records}
use lightwalletd_rs.Snapshot.Verify.Layers.{JoinedTo, check_joins_iff}

-- The heights run on from `from`.
abbrev pub HeightsFrom : ℕ → List CompactBlock → Type 0
HeightsFrom from [] = Unit
HeightsFrom from (b ∷ bs) = (b.height ≡ from) × HeightsFrom (suc from) bs

pub HeightsFrom-Consecutive :
    (from : ℕ) (bs : List CompactBlock)
    → HeightsFrom from bs
    → from + length bs ≤ u64_max
    → Consecutive from bs
HeightsFrom-Consecutive from [] h bound = tt
HeightsFrom-Consecutive from (b ∷ bs) h bound =
    (h.0, omega arith, HeightsFrom-Consecutive (suc from) bs h.1 (omega arith))

-- The hashes of the blocks.
abbrev pub hashes_of : List CompactBlock → List Bytes
hashes_of bs = map (λ b. b.hash) bs

module _ (codec : Codec) where
  pub decode_block-eq-ok :
      (epoch height : ℕ) (record' : Bytes) (b : CompactBlock)
      → decode_block codec epoch height record' ≡ ok b
      → (codec.decode record' ≡ some b) × (b.height ≡ height)
  unfolding decode_block
  decode_block-eq-ok epoch height record' b h =
      let rejected = block_rejected epoch height decode_check in
      let (block, decoded, h₁) = >>=-eq-ok (ok_or rejected (codec.decode record')) _ h in
      let (at, h₂) = guard_ok (not (block.height == height)) _ _ b h₁ in
      let same = ok_injective block b h₂ in
      (
        ok_or-eq-ok rejected (codec.decode record') block decoded ∙ ap some same,
        rw (← same) (ground arith),
      )

  -- What the pass leaves behind: the decoded blocks.
  pub record Decoded (height : ℕ) (records hashes : List Bytes) (previous : Option CompactBlock)
      : Type 0 where
    pub blocks : List CompactBlock
    pub decoded : map codec.decode records ≡ map some blocks
    pub heights : HeightsFrom height blocks
    pub joined : JoinedTo previous blocks
    pub hashes_are : hashes ≡ hashes_of blocks

  joins_first :
      (epoch : ℕ) (previous : Option CompactBlock) (b : CompactBlock) (bs : List CompactBlock)
      → check_joins epoch previous b ≡ ok tt
      → JoinedTo (some b) bs
      → JoinedTo previous (b ∷ bs)
  joins_first epoch none b bs h joined = joined
  joins_first epoch (some p) b bs h joined = ((check_joins_iff epoch p b).0 h, joined)

  pub check_records-eq-ok :
      (epoch height : ℕ) (records hashes : List Bytes) (previous : Option CompactBlock)
      → check_records codec epoch height records previous ≡ ok hashes
      → Decoded height records hashes previous
  unfolding check_records
  check_records-eq-ok epoch height [] hashes previous h = record {
    blocks = [];
    decoded = refl;
    heights = tt;
    joined = tt;
    hashes_are = sym (ok_injective [] hashes h);
  }
  check_records-eq-ok epoch height (record' ∷ records) hashes previous h =
      let (b, read, h₁) = >>=-eq-ok (decode_block codec epoch height record') _ h in
      let (joins, h₂) = (then_iff (check_joins epoch previous b) _ hashes).0 h₁ in
      let (hashes', others, h₃) =
        >>=-eq-ok (check_records codec epoch (suc height) records (some b)) _ h₂ in
      let (decoded, at) = decode_block-eq-ok epoch height record' b read in
      let rest = check_records-eq-ok epoch (suc height) records hashes' (some b) others in
      record {
        blocks = b ∷ rest.blocks;
        decoded = rw decoded (ap (◌∷◌ (some b)) rest.decoded);
        heights = (at, rest.heights);
        joined = joins_first epoch previous b rest.blocks joins rest.joined;
        hashes_are =
            sym (ok_injective (b.hash ∷ hashes') hashes h₃) ∙ ap (◌∷◌ b.hash) rest.hashes_are;
      }
