-- ===== src/Blocks/Sources.antt =====
-- Where a block of the range stream of src/service/blocks.rs comes from: the cache, in the read
-- transaction of its chunk, or else the node.
use mathlib.Core.List.{reverse-append}
use mathlib.Core.Path.{subst}
use lightwalletd_rs.Base.{
  ℕ, zero, suc, ◌+◌, ◌-◌, ◌≤◌, ◌<◌, List, [], ◌∷◌, ◌++◌, ◌≡◌, refl, ap, sym, ◌∙◌, none, some, arith,
  Bool, true, false, not, ◌&&◌, leb, ◌==◌, Result, ok, err, Option-cases, Result-cases, inl, inr,
  reverse, All, All-reverse, All-map, u64_max,
}
use lightwalletd_rs.Base.Bytes.{Bytes}
use lightwalletd_rs.Base.Table.{Table, lookup, lookup-retain_keys, AscendsFrom}
use lightwalletd_rs.Blocks.{
  up, heights, Sent, sent_at, BlockSource, from_cache, from_node, resolve, remove, chunk_from,
  next_cursor, cache_read_chunk_bytes,
}
use lightwalletd_rs.Blocks.Heights.{up_split}
use lightwalletd_rs.Blocks.Steps.{chunk_of}
use lightwalletd_rs.Cache.{Cache, decode}
use lightwalletd_rs.Cache.Chunk.Coverage.{read_chunk-exact}
use lightwalletd_rs.Errors.{from_cache_error, block_fetch_to_status}
use lightwalletd_rs.Fetch.{FetchError}
use lightwalletd_rs.Proto.{CompactBlock, Codec}
use lightwalletd_rs.Status.{Status}

abbrev pub Distinct : List ℕ → Type 0
Distinct [] = Unit
Distinct (h ∷ hs) = All (λ k. (k == h) ≡ false) hs × Distinct hs

up-range : (from n : ℕ) → All (λ k. (from ≤ k) × (k < from + n)) (up from n)
up-range from zero = tt
up-range from (suc n) = (
  (omega arith, omega arith),
  All-map (λ k h. (omega arith, omega arith)) (up (suc from) n) (up-range (suc from) n),
)

up-Distinct : (from n : ℕ) → Distinct (up from n)
up-Distinct from zero = tt
up-Distinct from (suc n) = (
  All-map (λ k h. ground arith) (up (suc from) n) (up-range (suc from) n),
  up-Distinct (suc from) n,
)

reverse-up : (from n : ℕ) → reverse (up from (suc n)) ≡ (from + n) ∷ reverse (up from n)
reverse-up from n =
    let e : n + 1 ≡ suc n = omega arith in
    ap (λ m. reverse (up from m)) (sym e)
    ∙ ap reverse (up_split from n 1)
    ∙ reverse-append (up from n) ((from + n) ∷ [])

reverse-up-Distinct : (from n : ℕ) → Distinct (reverse (up from n))
reverse-up-Distinct from zero = tt
reverse-up-Distinct from (suc n) = rw (reverse-up from n) (
  All-map (λ k h. ground arith) _
      (All-reverse (λ k. (from ≤ k) × (k < from + n)) (up from n) (up-range from n)),
  reverse-up-Distinct from n,
)

pub heights-Distinct : (covered : ℕ × ℕ) (d : Bool) → Distinct (heights covered d)
heights-Distinct (first, last) true = reverse-up-Distinct first (suc last - first)
heights-Distinct (first, last) false = up-Distinct first (suc last - first)

pub heights-range :
    (covered : ℕ × ℕ) (d : Bool)
    → All (λ k. (leb covered.0 k && leb k covered.1) ≡ true) (heights covered d)
heights-range (first, last) false =
    All-map (λ k h. ground arith) _ (up-range first (suc last - first))
heights-range (first, last) true =
    All-reverse (λ k. (leb first k && leb k last) ≡ true) (up first (suc last - first))
      (All-map (λ k h. ground arith) _ (up-range first (suc last - first)))

-- At the given heights the blocks left of a chunk are those of the cache.
abbrev pub Agrees : Cache → Table Bytes → List ℕ → Type 0
Agrees c cached hs = All (λ h. lookup h cached ≡ lookup h c.blocks) hs

pub remove-Agrees :
    (c : Cache) (cached : Table Bytes) (h : ℕ) (hs : List ℕ)
    → Distinct (h ∷ hs)
    → Agrees c cached (h ∷ hs)
    → Agrees c (remove h cached) hs
remove-Agrees c cached h hs distinct agrees = tail hs distinct.0 agrees.1
  where
    tail :
        (ks : List ℕ)
        → All (λ k. (k == h) ≡ false) ks
        → Agrees c cached ks
        → Agrees c (remove h cached) ks
    tail [] others held = tt
    tail (k ∷ ks) others held = (
      lookup-retain_keys (λ j. not (j == h)) k cached ∙ rw others.0 held.0,
      tail ks others.1 held.1,
    )

chunk_from_top :
    (low high cursor : ℕ) (d : Bool)
    → high ≤ u64_max
    → cursor ≤ u64_max
    → (chunk_from cursor low high d).1 ≤ u64_max
unfolding chunk_from
chunk_from_top low high cursor true top top' = top'
chunk_from_top low high cursor false top top' = omega arith

-- The window of a chunk is made of `u64`s, and so is the next cursor.
pub chunk_of-Agrees :
    (caches : ℕ → Cache) (low high : ℕ) (d : Bool) (round cursor : ℕ)
    → ((n : ℕ) → AscendsFrom 0 (caches n).blocks)
    → high ≤ u64_max
    → cursor ≤ u64_max
    → (let chunk = chunk_of caches low high d round cursor in
        Agrees (caches round) chunk.blocks (heights chunk.covered d))
chunk_of-Agrees caches low high d round cursor sorted top top' =
    let window = chunk_from cursor low high d in
    All-map
      (λ k inside.
        read_chunk-exact (caches round) window.0 window.1 d cache_read_chunk_bytes (sorted round)
          (chunk_from_top low high cursor d top top') k
        ∙ rw inside refl)
      (heights (chunk_of caches low high d round cursor).covered d)
      (heights-range (chunk_of caches low high d round cursor).covered d)

-- Where `s` comes from: the cache holds it, or lacks its height and the node answers it.
abbrev pub ComesFrom : Codec → (ℕ → Result FetchError CompactBlock) → Cache → Sent → Type 0
ComesFrom codec fetch c s = elim s.source [
  | from_cache ↦
      (bytes : Bytes) × (lookup s.height c.blocks ≡ some bytes)
      × (codec.decode bytes ≡ some s.block)
  | from_node ↦ (lookup s.height c.blocks ≡ none) × (fetch s.height ≡ ok s.block)
]

-- The same with the cache that one of the read transactions sees.
abbrev pub Comes : Codec → (ℕ → Result FetchError CompactBlock) → (ℕ → Cache) → Sent → Type 0
Comes codec fetch caches s = (n : ℕ) × ComesFrom codec fetch (caches n) s

pub resolve-ComesFrom :
    (codec : Codec) (fetch : ℕ → Result FetchError CompactBlock) (c : Cache) (cached : Table Bytes)
    (h : ℕ) (b : CompactBlock × BlockSource)
    → lookup h cached ≡ lookup h c.blocks
    → resolve codec fetch cached h ≡ ok b
    → ComesFrom codec fetch c (sent_at h b)
unfolding resolve
resolve-ComesFrom codec fetch c cached h b agrees found = elim (Option-cases (lookup h cached)) [
  | inl missing ↦ elim (Result-cases (fetch h)) [
    | inl (block, got) ↦
        let same : ◌≡◌ {A = Result Status (CompactBlock × BlockSource)} (ok (block, from_node))
            (ok b) =
          rw (resolve, missing, got) at found in
        let is_b : (block, from_node) ≡ b = cc in
        subst (λ x. ComesFrom codec fetch c (sent_at h x)) is_b (sym agrees ∙ missing, got)
    | inr (e, lost) ↦
        let never : err (block_fetch_to_status e h) ≡ ok b = rw (resolve, missing, lost) at found in
        cc
  ]
  | inr (bytes, held) ↦ elim (Option-cases (codec.decode bytes)) [
    | inl bad ↦
        let never : err (from_cache_error decode) ≡ ok b = rw (resolve, held, bad) at found in cc
    | inr (block, decoded) ↦
        let same : ◌≡◌ {A = Result Status (CompactBlock × BlockSource)} (ok (block, from_cache))
            (ok b) =
          rw (resolve, held, decoded) at found in
        let is_b : (block, from_cache) ≡ b = cc in
        subst (λ x. ComesFrom codec fetch c (sent_at h x)) is_b (bytes, sym agrees ∙ held, decoded)
  ]
]

-- A block of the chunk that the round reads at its cursor.
abbrev pub OfChunk :
    Codec
    → (ℕ → Result FetchError CompactBlock)
    → (ℕ → Cache)
    → ℕ
    → ℕ
    → Bool
    → ℕ
    → ℕ
    → Sent
    → Type 0
OfChunk codec fetch caches low high d round cursor s =
    let covered = (chunk_of caches low high d round cursor).covered in
    ComesFrom codec fetch (caches round) s × (covered.0 ≤ s.height) × (s.height ≤ covered.1)

-- What the stream yields from a round on, with the cursor of that round: the blocks of one chunk after
-- another, each chunk read in the transaction of its round.
pub data InChunks (codec : Codec) (fetch : ℕ → Result FetchError CompactBlock) (caches : ℕ → Cache)
    (low high : ℕ) (d : Bool) : ℕ → ℕ → List Sent → Type 0 where
  last_chunk :
      {round cursor : ℕ} (sent : List Sent)
      → All (OfChunk codec fetch caches low high d round cursor) sent
      → InChunks codec fetch caches low high d round cursor sent
  next_chunk :
      {round cursor : ℕ} (sent : List Sent) {rest : List Sent}
      → All (OfChunk codec fetch caches low high d round cursor) sent
      → InChunks codec fetch caches low high d
          (suc round)
          (next_cursor (chunk_of caches low high d round cursor).covered d)
          rest
      → InChunks codec fetch caches low high d round cursor (sent ++ rest)
