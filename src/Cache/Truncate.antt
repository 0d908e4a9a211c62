-- ===== src/Cache/Truncate.antt =====
-- Truncating the cache, and the metadata that goes with the blocks (`remove_from`, `reorg`,
-- `truncate_from` and the epoch digests of src/cache.rs).
use lightwalletd_rs.Base.{
  ℕ, suc, ◌-◌, List, [], ◌∷◌, ◌≡◌, refl, ap, ◌∙◌, Option, none, some, arith, Bool, true, false,
  Result, ok, err, sat_add64, ltb, leb, if◌then◌else◌, take, sym, zero, dec_lt, lt→ltb, le→ltb, ◌<◌,
  ◌≤◌, ◌⊎◌, inl, inr, u64_max, take_nil,
}
use lightwalletd_rs.Base.Bytes.{Bytes}
use lightwalletd_rs.Base.Table.{Table, lookup, insert, retain_keys, lookup-retain_keys}
use lightwalletd_rs.Cache.Chain.{Consecutive, rows, IsChain}
use lightwalletd_rs.Cache.{Cache, CacheError, decode_base_height, snapshot_base_height, empty}
use lightwalletd_rs.Proto.{CompactBlock, Codec}
use lightwalletd_rs.Snapshot.Epoch.{epoch_index, epoch_last_height, epoch_first_height}

-- Whether the truncation removes the base block of an imported snapshot.
abbrev pub drops_base : ℕ → Option ℕ → Bool
drops_base height none = false
drops_base height (some base) = leb height base

commit_removal : Cache → ℕ → Result CacheError (Option ℕ) → Cache × Result CacheError (Unit {0})
commit_removal c height (err e) = (c, err e)
commit_removal c height (ok base) = (
  record {
    blocks = retain_keys (λ k. ltb k height) c.blocks;
    base_row = if drops_base height base then none else c.base_row;
    digests = retain_keys (λ index. ltb index (epoch_index height)) c.digests;
  },
  ok tt,
)

unfoldable pub remove_from : Cache → ℕ → Cache × Result CacheError (Unit {0})
unfolding commit_removal
remove_from c height = commit_removal c height (decode_base_height c.base_row)

unfoldable pub reorg : Cache → ℕ → Cache × Result CacheError (Unit {0})
unfolding remove_from
reorg c height = remove_from c (sat_add64 height 1)

unfoldable pub truncate_from : Cache → ℕ → Cache × Result CacheError (Unit {0})
unfolding remove_from
truncate_from c height = remove_from c height

unfoldable pub epoch_digest : Cache → ℕ → Option Bytes
epoch_digest c index = lookup index c.digests

unfoldable pub set_epoch_digest : Cache → ℕ → Bytes → Cache
set_epoch_digest c index value = record c { digests = insert index value c.digests }

unfoldable pub epoch_digests : Cache → List (ℕ × Bytes)
epoch_digests c = c.digests

-- A cache whose base row reads as `base`: what `remove_from` makes of it.
removed :
    (c : Cache) (height : ℕ) (base : Option ℕ)
    → decode_base_height c.base_row ≡ ok base
    → remove_from c height ≡ commit_removal c height (ok base)
unfolding remove_from
removed c height base h = rw h

module _ (codec : Codec) where
  retain_keys-rows :
      (from height : ℕ) (bs : List CompactBlock)
      → Consecutive from bs
      → retain_keys (λ k. ltb k height) (rows codec bs) ≡ rows codec (take (height - from) bs)
  retain_keys-rows from height [] run = ap (rows codec) (sym (take_nil (height - from)))
  retain_keys-rows from height (b ∷ bs) run = elim (dec_lt from height) [
    | yes p ↦
        let more : height - from ≡ suc (height - suc from) = omega arith in
        rw (more, lt→ltb b.height height (omega arith))
          (ap (◌∷◌ (b.height, codec.encode b)) (retain_keys-rows (suc from) height bs run.2))
    | no p ↦
        let none_left : height - from ≡ 0 = omega arith in
        let none_after : height - suc from ≡ 0 = omega arith in
        rw (none_left, le→ltb b.height height (omega arith))
          (rw none_after at (retain_keys-rows (suc from) height bs run.2))
  ]

  take-Consecutive :
      (from n : ℕ) (bs : List CompactBlock) → Consecutive from bs → Consecutive from (take n bs)
  take-Consecutive from zero bs run = tt
  take-Consecutive from (suc n) [] run = tt
  take-Consecutive from (suc n) (b ∷ bs) run =
      (run.0, run.1, take-Consecutive (suc from) n bs run.2)

  -- `remove_from` on a chain whose base row is readable succeeds and keeps exactly the blocks below
  -- `height`: the cache is then the chain's prefix of `height - from` blocks.
  pub remove_from-IsChain :
      (c : Cache) (from height : ℕ) (bs : List CompactBlock) (base : Option ℕ)
      → IsChain codec c from bs
      → decode_base_height c.base_row ≡ ok base
      → ((remove_from c height).1 ≡ ok tt)
        × IsChain codec (remove_from c height).0 from (take (height - from) bs)
  remove_from-IsChain c from height bs base chain readable = rw (removed c height base readable) (
      unfold commit_removal in
      (
        refl,
        record {
          rows_are = rw chain.rows_are (retain_keys-rows from height bs chain.run);
          run = take-Consecutive from (height - from) bs chain.run;
        },
      ))

-- What is left of the base height by a truncation at `height`.
abbrev pub BaseLeft : ℕ → Option ℕ → Result CacheError (Option ℕ) → Type 0
BaseLeft height none after = after ≡ ok none
BaseLeft height (some base) after =
    ((base < height) × (after ≡ ok (some base))) ⊎ ((height ≤ base) × (after ≡ ok none))

base_left :
    (row : Option Bytes) (height : ℕ) (base : Option ℕ)
    → decode_base_height row ≡ ok base
    → BaseLeft height base (decode_base_height (if drops_base height base then none else row))
unfolding decode_base_height
base_left row height none readable = readable
base_left row height (some base) readable = elim (dec_lt base height) [
  | yes below ↦ let test : leb height base ≡ false = ground arith in rw test (inl (below, readable))
  | no above ↦
      let reached : height ≤ base = omega arith in
      let test : leb height base ≡ true = ground arith in rw test (inr (reached, refl))
]

-- What is left of the digest of an epoch by a truncation at `height`: all of it or nothing.
abbrev pub DigestLeft : ℕ → ℕ → Option Bytes → Option Bytes → Type 0
DigestLeft height index before after =
    ((epoch_last_height index < height) × (after ≡ before))
    ⊎ ((height ≤ epoch_last_height index) × (after ≡ none))

digest_left :
    (height index : ℕ) (before : Option Bytes)
    → height ≤ u64_max
    → DigestLeft height index before (if ltb index (epoch_index height) then before else none)
unfolding epoch_last_height epoch_first_height
digest_left height index before top = elim (dec_lt index (epoch_index height)) [
  | yes earlier ↦ rw (lt→ltb index (epoch_index height) earlier) (inl (ground arith, refl))
  | no late ↦ rw (le→ltb index (epoch_index height) (omega arith)) (inr (ground arith, refl))
]

-- The metadata that is left describes blocks that are left. After `remove_from c height`, at a
-- `u64` height and on a cache whose base height can be read, it can be read again: it is the old
-- one if that lies below `height`, and none otherwise; a digest is the old one if the last height
-- of its epoch lies below `height`, and absent otherwise.
pub remove_from-metadata :
    (c : Cache) (height : ℕ) (base : Option ℕ)
    → height ≤ u64_max
    → snapshot_base_height c ≡ ok base
    → BaseLeft height base (snapshot_base_height (remove_from c height).0)
      × ((index : ℕ)
          → DigestLeft height index
              (epoch_digest c index)
              (epoch_digest (remove_from c height).0 index))
unfolding snapshot_base_height epoch_digest
remove_from-metadata c height base top readable = rw (removed c height base readable) (
    unfold commit_removal in
    (
      base_left c.base_row height base readable,
      λ index.
          rw (lookup-retain_keys (λ i. ltb i (epoch_index height)) index c.digests)
            (digest_left height index (lookup index c.digests) top),
    ))

retain_keys_below_zero : (m : Table Bytes) → retain_keys (λ k. ltb k 0) m ≡ []
retain_keys_below_zero [] = refl
retain_keys_below_zero ((k, v) ∷ m) = rw (le→ltb k 0 (omega arith)) (retain_keys_below_zero m)

no_row : (row : Option Bytes) → decode_base_height row ≡ ok none → row ≡ none
unfolding decode_base_height
no_row none h = refl
no_row (some bytes) h = ground arith

base_row_dropped :
    (row : Option Bytes) (base : Option ℕ)
    → decode_base_height row ≡ ok base
    → (if drops_base 0 base then none else row) ≡ none
base_row_dropped row none h = no_row row h
base_row_dropped row (some base) h = ground arith

-- `truncate_from 0`, which `--redownload` runs, leaves the cache as new if the base row is readable.
pub truncate_from-zero :
    (c : Cache) (base : Option ℕ)
    → snapshot_base_height c ≡ ok base
    → truncate_from c 0 ≡ (empty, ok tt)
unfolding truncate_from snapshot_base_height
truncate_from-zero c base readable =
    removed c 0 base readable
    ∙ (unfold commit_removal in
        rw (
          retain_keys_below_zero c.blocks,
          retain_keys_below_zero c.digests,
          base_row_dropped c.base_row base readable,
        ))

-- A row that is not eight bytes long stops the truncation, and nothing is removed.
pub remove_from-unreadable :
    (c : Cache) (height : ℕ) (e : CacheError)
    → snapshot_base_height c ≡ err e
    → remove_from c height ≡ (c, err e)
unfolding remove_from snapshot_base_height
remove_from-unreadable c height e unreadable = rw unreadable
