-- ===== src/Ingestor/Chains.antt =====
-- What rolling back (`reorg_to_floor` of src/ingestor.rs) does to a cache whose blocks are linked by
-- their hashes.
use lightwalletd_rs.Base.{
  ℕ, zero, suc, ◌-◌, ◌≡◌, refl, sym, false, ◌||◌, Option, none, some, List, [], ◌∷◌, ◌++◌, take,
  take_nil, ltb, eq_of_=ᵇ, Result-cases, Bool-cases, inl, inr, arith, sat_add64,
}
use lightwalletd_rs.Base.Bytes.{Bytes}
use lightwalletd_rs.Cache.Chain.{IsChain}
use lightwalletd_rs.Cache.Truncate.{
  remove_from, remove_from-IsChain, remove_from-unreadable, reorg, truncate_from,
}
use lightwalletd_rs.Cache.{Cache, latest_height, snapshot_base_height, decode_base_height}
use lightwalletd_rs.Ingestor.{reorg_to_floor, mismatches, would_not_lower_tip}
use lightwalletd_rs.Proto.{CompactBlock, Codec}

-- Each block names the hash of the one before it.
abbrev pub HashLinked : List CompactBlock → Type 0
HashLinked [] = Unit
HashLinked (b ∷ []) = Unit
HashLinked (b ∷ b' ∷ bs) = (b'.prev_hash ≡ b.hash) × HashLinked (b' ∷ bs)

-- The hash that the next block has to name.
abbrev pub last_hash : List CompactBlock → Option Bytes
last_hash [] = none
last_hash (b ∷ []) = some b.hash
last_hash (b ∷ b' ∷ bs) = last_hash (b' ∷ bs)

-- The cache holds a run of blocks at consecutive heights that are linked by their hashes.
abbrev pub IsLinkedChain : Codec → Cache → Type 0
IsLinkedChain codec c =
    (from : ℕ) × (bs : List CompactBlock) × IsChain codec c from bs × HashLinked bs

HashLinked-take : (n : ℕ) (bs : List CompactBlock) → HashLinked bs → HashLinked (take n bs)
HashLinked-take zero bs h = tt
HashLinked-take (suc n) [] h = tt
HashLinked-take (suc n) (b ∷ []) h = rw (take_nil {A = CompactBlock} n) tt
HashLinked-take (suc zero) (b ∷ b' ∷ bs) h = tt
HashLinked-take (suc (suc n)) (b ∷ b' ∷ bs) h = (h.0, HashLinked-take (suc n) (b' ∷ bs) h.1)

pub last_hash-append :
    (bs : List CompactBlock) (b : CompactBlock) → last_hash (bs ++ b ∷ []) ≡ some b.hash
last_hash-append [] b = refl
last_hash-append (c ∷ []) b = refl
last_hash-append (c ∷ d ∷ bs) b = last_hash-append (d ∷ bs) b

pub HashLinked-append :
    (bs : List CompactBlock) (b : CompactBlock)
    → HashLinked bs
    → mismatches (last_hash bs) b ≡ false
    → HashLinked (bs ++ b ∷ [])
HashLinked-append [] b h ok' = tt
HashLinked-append (c ∷ []) b h ok' = (sym (eq_of_=ᵇ c.hash b.prev_hash (ground arith)), tt)
HashLinked-append (c ∷ d ∷ bs) b h ok' = (h.0, HashLinked-append (d ∷ bs) b h.1 ok')

module _ (codec : Codec) where
  remove_from-IsLinkedChain :
      (c : Cache) (height : ℕ)
      → IsLinkedChain codec c
      → IsLinkedChain codec (remove_from c height).0
  unfolding snapshot_base_height
  remove_from-IsLinkedChain c height (from, bs, chain, linked) =
      elim (Result-cases (decode_base_height c.base_row)) [
        | inl (base, readable) ↦ (
          from,
          take (height - from) bs,
          (remove_from-IsChain codec c from height bs base chain readable).1,
          HashLinked-take (height - from) bs linked,
        )
        | inr (e, unreadable) ↦
            rw (remove_from-unreadable c height e unreadable) (from, bs, chain, linked)
      ]

  pub reorg-IsLinkedChain :
      (c : Cache) (target : ℕ) → IsLinkedChain codec c → IsLinkedChain codec (reorg c target).0
  unfolding reorg
  reorg-IsLinkedChain c target h = remove_from-IsLinkedChain c (sat_add64 target 1) h

  pub reorg_to_floor-IsLinkedChain :
      (c : Cache) (target start_height : ℕ)
      → IsLinkedChain codec c
      → IsLinkedChain codec (reorg_to_floor c target start_height).0
  unfolding reorg_to_floor truncate_from reorg
  reorg_to_floor-IsLinkedChain c target start_height h =
      elim (Bool-cases (ltb target start_height || would_not_lower_tip target (latest_height c))) [
        | inl floor ↦ rw (reorg_to_floor, floor) (remove_from-IsLinkedChain c 0 h)
        | inr above ↦
            rw (reorg_to_floor, above) (remove_from-IsLinkedChain c (sat_add64 target 1) h)
      ]
