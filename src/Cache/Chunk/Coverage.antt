-- ===== src/Cache/Chunk/Coverage.antt =====
-- What one bounded read of src/cache.rs returns (`read_chunk`, `CachedChunk`).
use lightwalletd_rs.Base.{
  ℕ, ◌+◌, ◌≤◌, ◌<◌, [], ◌∷◌, ◌≡◌, refl, ◌∙◌, length, Option, none, some, arith, u64_max, Bool, true,
  false, not, ◌&&◌, ltb, leb, if◌then◌else◌, All, Bool-cases, inl, inr, ◌⊎◌, is_empty, reverse,
  All-reverse,
}
use lightwalletd_rs.Base.Bytes.{Bytes}
use lightwalletd_rs.Base.Table.{
  Table, lookup, insert, or_else, AscendsFrom, retain_keys-AscendsFrom, retain_keys-All,
  lookup-retain_keys,
}
use lightwalletd_rs.Cache.Chunk.Directions.{
  gtb, ltb-IsStrictOrder, gtb-IsStrictOrder, Ordered-ascending, Ordered-descending, lookup-reverse,
}
use lightwalletd_rs.Cache.Chunk.{Ordered, reached, fill-lookup, fill_stops-After}
use lightwalletd_rs.Cache.{Cache, fill, in_range, covered_range, read_chunk}

-- The loop stops at the key of an entry.
fill_stop-All :
    (P : ℕ → Type 0) (max_bytes held : ℕ) (blocks entries : Table Bytes) (stop : ℕ)
    → All (λ e. P e.0) entries
    → (fill max_bytes held blocks entries).1 ≡ some stop
    → P stop
unfolding fill
fill_stop-All P max_bytes held blocks [] stop h e = cc
fill_stop-All P max_bytes held blocks ((j, v) ∷ entries) stop h e =
    elim (Bool-cases (not (is_empty blocks) && ltb max_bytes (held + length v))) [
      | inl full ↦
          let at : some j ≡ some stop = rw full at e in let same : j ≡ stop = cc in rw (← same) h.0
      | inr room ↦
          fill_stop-All P max_bytes (held + length v) (insert j v blocks) entries stop h.1
            (rw room at e)
    ]

-- The first entry is taken whatever its size, so the loop stops after it.
fill_stop_later :
    (lt : ℕ → ℕ → Bool) (max_bytes : ℕ) (entries : Table Bytes) (stop : ℕ)
    → Ordered lt entries
    → (fill max_bytes 0 [] entries).1 ≡ some stop
    → (first : ℕ) × (v : Bytes) × (rest : Table Bytes) × (entries ≡ (first, v) ∷ rest)
      × (lt first stop ≡ true)
unfolding fill
fill_stop_later lt max_bytes [] stop ordered e = cc
fill_stop_later lt max_bytes ((j, v) ∷ entries) stop ordered e = (
  j,
  v,
  entries,
  refl,
  fill_stops-After lt max_bytes (0 + length v) (insert j v []) entries j stop ordered.0 e,
)

-- Where the loop stopped, if it did: at a key of the range, and past the side that it began at.
abbrev StopsInside : Bool → ℕ → ℕ → Option ℕ → Type 0
StopsInside descending low high none = Unit
StopsInside false low high (some stop) = (low < stop) × (stop ≤ high)
StopsInside true low high (some stop) = (low ≤ stop) × (stop < high)

abbrev entries_of : Cache → ℕ → ℕ → Bool → Table Bytes
entries_of c low high descending =
    if descending then reverse (in_range low high c.blocks) else in_range low high c.blocks

abbrev order_of : Bool → ℕ → ℕ → Bool
order_of false = ltb
order_of true = gtb

module _ (c : Cache) (low high : ℕ) (sorted : AscendsFrom 0 c.blocks) where
  in_range-Ordered : Ordered ltb (in_range low high c.blocks)
  in_range-Ordered =
      Ordered-ascending 0 (in_range low high c.blocks)
        (retain_keys-AscendsFrom (λ k. leb low k && leb k high) 0 c.blocks sorted)

  entries-Ordered : (d : Bool) → Ordered (order_of d) (entries_of c low high d)
  entries-Ordered false = in_range-Ordered
  entries-Ordered true = Ordered-descending (in_range low high c.blocks) in_range-Ordered

  entries-InRange :
      (d : Bool) → All (λ e. (leb low e.0 && leb e.0 high) ≡ true) (entries_of c low high d)
  entries-InRange false = retain_keys-All (λ k. leb low k && leb k high) c.blocks
  entries-InRange true =
      All-reverse (λ e. (leb low e.0 && leb e.0 high) ≡ true) (in_range low high c.blocks)
        (retain_keys-All (λ k. leb low k && leb k high) c.blocks)

  lookup-entries :
      (d : Bool) (k : ℕ)
      → lookup k (entries_of c low high d)
        ≡ (if leb low k && leb k high then lookup k c.blocks else none)
  lookup-entries false k = lookup-retain_keys (λ k. leb low k && leb k high) k c.blocks
  lookup-entries true k =
      lookup-reverse k (in_range low high c.blocks) in_range-Ordered
      ∙ lookup-retain_keys (λ k. leb low k && leb k high) k c.blocks

  stop_range :
      (d : Bool) (max_bytes stop : ℕ)
      → (fill max_bytes 0 [] (entries_of c low high d)).1 ≡ some stop
      → ((leb low stop && leb stop high) ≡ true)
        × (first : ℕ) × ((leb low first && leb first high) ≡ true)
        × (order_of d first stop ≡ true)
  stop_range d max_bytes stop e =
      let (first, v, rest, starts, later) =
        fill_stop_later (order_of d) max_bytes (entries_of c low high d) stop (entries-Ordered d)
          e in
      (
        fill_stop-All (λ k. (leb low k && leb k high) ≡ true) max_bytes 0 []
            (entries_of c low high d) stop (entries-InRange d) e,
        first,
        (rw starts at (entries-InRange d)).0,
        later,
      )

  fill-StopsInside :
      (d : Bool) (max_bytes : ℕ)
      → StopsInside d low high (fill max_bytes 0 [] (entries_of c low high d)).1
  fill-StopsInside d max_bytes =
      stops d (fill max_bytes 0 [] (entries_of c low high d)).1 (stop_range d max_bytes)
    where
      stops :
          (d : Bool) (stop : Option ℕ)
          → ((s : ℕ)
              → stop ≡ some s
              → ((leb low s && leb s high) ≡ true)
                × (first : ℕ) × ((leb low first && leb first high) ≡ true)
                × (order_of d first s ≡ true))
          → StopsInside d low high stop
      stops false none h = tt
      stops true none h = tt
      stops false (some s) h = let (inside, first, first_in, later) = h s refl in ground arith
      stops true (some s) h = let (inside, first, first_in, later) = h s refl in ground arith

-- The covered range is a part of the request, not empty, and begins at the side that is served first.
abbrev pub CoversPart : ℕ → ℕ → Bool → ℕ × ℕ → Type 0
CoversPart low high false (first, last) = (first ≡ low) × (low ≤ last) × (last ≤ high)
CoversPart low high true (first, last) = (low ≤ first) × (first ≤ high) × (last ≡ high)

covered_range-CoversPart :
    (d : Bool) (low high : ℕ) (stop : Option ℕ)
    → low ≤ high
    → high ≤ u64_max
    → StopsInside d low high stop
    → CoversPart low high d (covered_range low high d stop)
covered_range-CoversPart false low high none le top h = omega arith
covered_range-CoversPart true low high none le top h = omega arith
covered_range-CoversPart false low high (some s) le top h = omega arith
covered_range-CoversPart true low high (some s) le top h = ground arith

-- The keys that the loop reached are those of the covered range.
covered_range-reached :
    (d : Bool) (low high : ℕ) (stop : Option ℕ) (k : ℕ)
    → high ≤ u64_max
    → StopsInside d low high stop
    → (leb (covered_range low high d stop).0 k && leb k (covered_range low high d stop).1)
      ≡ (reached (order_of d) stop k && (leb low k && leb k high))
covered_range-reached false low high none k top h = refl
covered_range-reached true low high none k top h = refl
covered_range-reached false low high (some s) k top h = ground arith
covered_range-reached true low high (some s) k top h = ground arith

module _ (c : Cache) (low high : ℕ) (descending : Bool) (max_bytes : ℕ) where
  abbrev filled : Table Bytes × Option ℕ
  filled = fill max_bytes 0 [] (entries_of c low high descending)

  -- Where a range is asked for in either direction and the table is sorted, the covered range is not
  -- empty, lies in the request, and begins at the side that is served first.
  pub read_chunk-CoversPart :
      AscendsFrom 0 c.blocks
      → low ≤ high
      → high ≤ u64_max
      → CoversPart low high descending (read_chunk c (low, high) descending max_bytes).covered
  unfolding read_chunk
  read_chunk-CoversPart sorted le top =
      covered_range-CoversPart descending low high filled.1 le top
        (fill-StopsInside c low high sorted descending max_bytes)

  -- Inside the covered range the chunk is the cache, height by height, so that a height which it lacks
  -- is one which the cache lacks; outside the covered range it holds nothing.
  pub read_chunk-exact :
      AscendsFrom 0 c.blocks
      → high ≤ u64_max
      → (k : ℕ)
      → lookup k (read_chunk c (low, high) descending max_bytes).blocks ≡ (
          if leb (read_chunk c (low, high) descending max_bytes).covered.0 k
            && leb k (read_chunk c (low, high) descending max_bytes).covered.1
          then lookup k c.blocks
          else none)
  unfolding read_chunk
  read_chunk-exact sorted top k =
      taken descending (entries-Ordered c low high sorted descending)
      ∙ rw
          (
            covered_range-reached descending low high filled.1 k top
                (fill-StopsInside c low high sorted descending max_bytes),
            lookup-entries c low high sorted descending k,
          )
          (both (reached (order_of descending) filled.1 k) (leb low k && leb k high))
    where
      taken :
          (d : Bool)
          → Ordered (order_of d) (entries_of c low high d)
          → lookup k (fill max_bytes 0 [] (entries_of c low high d)).0 ≡ (
              if reached (order_of d) (fill max_bytes 0 [] (entries_of c low high d)).1 k
              then or_else (lookup k (entries_of c low high d)) none
              else none)
      taken false = fill-lookup ltb ltb-IsStrictOrder max_bytes 0 [] _ k
      taken true = fill-lookup gtb gtb-IsStrictOrder max_bytes 0 [] _ k

      both :
          (a b : Bool)
          → (if a then or_else (if b then lookup k c.blocks else none) none else none)
            ≡ (if a && b then lookup k c.blocks else none)
      both false b = refl
      both true false = refl
      both true true = keep (lookup k c.blocks)
        where
          keep : (o : Option Bytes) → or_else o none ≡ o
          keep none = refl
          keep (some x) = refl

-- The bytes that a table of blocks holds.
abbrev pub total_bytes : Table Bytes → ℕ
total_bytes [] = 0
total_bytes ((k, v) ∷ m) = length v + total_bytes m

total_bytes-insert :
    (k : ℕ) (v : Bytes) (m : Table Bytes) → total_bytes (insert k v m) ≤ total_bytes m + length v
total_bytes-insert k v [] = omega arith
total_bytes-insert k v ((j, w) ∷ m) = ground (arith, total_bytes-insert k v m)

fill-budget :
    (max_bytes held : ℕ) (blocks entries : Table Bytes)
    → total_bytes blocks ≤ held
    → (held ≤ max_bytes) ⊎ (length blocks ≤ 1)
    → (total_bytes (fill max_bytes held blocks entries).0 ≤ max_bytes)
      ⊎ (length (fill max_bytes held blocks entries).0 ≤ 1)
unfolding fill
fill-budget max_bytes held blocks [] fits small = ground arith
fill-budget max_bytes held [] ((j, v) ∷ entries) fits small =
    fill-budget max_bytes (held + length v) ((j, v) ∷ []) entries (omega arith) (inr (omega arith))
fill-budget max_bytes held (b ∷ blocks) ((j, v) ∷ entries) fits small =
    elim (Bool-cases (ltb max_bytes (held + length v))) [
      | inl full ↦ rw full (ground arith)
      | inr room ↦ rw room (
          fill-budget max_bytes (held + length v) (insert j v (b ∷ blocks)) entries
            (omega (arith, total_bytes-insert j v (b ∷ blocks))) (inl (ground arith)))
    ]

-- A chunk holds at most the budget of bytes, unless it is a single block.
pub read_chunk-budget :
    (c : Cache) (low high : ℕ) (descending : Bool) (max_bytes : ℕ)
    → (total_bytes (read_chunk c (low, high) descending max_bytes).blocks ≤ max_bytes)
      ⊎ (length (read_chunk c (low, high) descending max_bytes).blocks ≤ 1)
unfolding read_chunk
read_chunk-budget c low high descending max_bytes =
    fill-budget max_bytes 0 [] (entries_of c low high descending) (omega arith) (inl (omega arith))
