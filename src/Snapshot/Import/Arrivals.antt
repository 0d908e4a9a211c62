-- ===== src/Snapshot/Import/Arrivals.antt =====
-- The blocks of a verified epoch that the cache does not hold yet (src/snapshot/import.rs).
use lightwalletd_rs.Base.{
  ℕ, zero, suc, ◌+◌, ◌≡◌, refl, ap, ◌∙◌, List, [], ◌∷◌, ◌++◌, map, Option, none, some, ok, drop,
  All, arith, head?,
}
use lightwalletd_rs.Base.Bytes.{Bytes}
use lightwalletd_rs.Encoding.{Text, Hex, display_hex_to_wire}
use lightwalletd_rs.Proto.{CompactBlock, Codec}
use lightwalletd_rs.Snapshot.Import.{arriving_blocks}
use lightwalletd_rs.Snapshot.Verify.Anchor.{HeldFrom}
use lightwalletd_rs.Snapshot.Verify.Layers.{JoinedTo}
use lightwalletd_rs.Snapshot.Verify.Records.{HeightsFrom, hashes_of}

-- The block has the hash that the node has at its height.
abbrev pub Anchored : Hex → (ℕ → Text) → CompactBlock → Type 0
Anchored hex hash_of b = display_hex_to_wire hex (hash_of b.height) ≡ ok b.hash

pub HeldFrom-Anchored :
    (hex : Hex) (hash_of : ℕ → Text) (from : ℕ) (bs : List CompactBlock)
    → HeightsFrom from bs
    → HeldFrom hex hash_of from (hashes_of bs)
    → All (Anchored hex hash_of) bs
HeldFrom-Anchored hex hash_of from [] heights held = tt
HeldFrom-Anchored hex hash_of from (b ∷ bs) heights held =
    (rw heights.0 held.0, HeldFrom-Anchored hex hash_of (suc from) bs heights.1 held.1)

pub All-drop {ℓ κ} :
    {A : Type ℓ} (P : A → Type κ) (n : ℕ) (xs : List A) → All P xs → All P (drop n xs)
All-drop P zero xs h = h
All-drop P (suc n) [] h = h
All-drop P (suc n) (x ∷ xs) h = All-drop P n xs h.1

pub HeightsFrom-drop :
    (n from : ℕ) (bs : List CompactBlock) → HeightsFrom from bs → HeightsFrom (from + n) (drop n bs)
HeightsFrom-drop zero from bs h = let e : from + 0 ≡ from = omega arith in rw e h
HeightsFrom-drop (suc n) from [] h = tt
HeightsFrom-drop (suc n) from (b ∷ bs) h =
    let e : from + suc n ≡ suc from + n = omega arith in rw e (HeightsFrom-drop n (suc from) bs h.1)

JoinedTo-none :
    (b : CompactBlock) (bs : List CompactBlock) → JoinedTo (some b) bs → JoinedTo none bs
JoinedTo-none b [] h = tt
JoinedTo-none b (b' ∷ bs) h = h.1

pub JoinedTo-drop : (n : ℕ) (bs : List CompactBlock) → JoinedTo none bs → JoinedTo none (drop n bs)
JoinedTo-drop zero bs h = h
JoinedTo-drop (suc n) [] h = tt
JoinedTo-drop (suc n) (b ∷ bs) h = JoinedTo-drop n bs (JoinedTo-none b bs h)

-- The last block of a run, or what stands before it.
abbrev pub last_or : Option CompactBlock → List CompactBlock → Option CompactBlock
last_or previous [] = previous
last_or previous (b ∷ bs) = last_or (some b) bs

pub last_or-append :
    (previous : Option CompactBlock) (bs ns : List CompactBlock)
    → last_or previous (bs ++ ns) ≡ last_or (last_or previous bs) ns
last_or-append previous [] ns = refl
last_or-append previous (b ∷ bs) ns = last_or-append (some b) bs ns

pub JoinedTo-append :
    (previous : Option CompactBlock) (bs ns : List CompactBlock)
    → JoinedTo previous bs
    → JoinedTo (last_or previous bs) ns
    → JoinedTo previous (bs ++ ns)
JoinedTo-append previous [] ns h h' = h'
JoinedTo-append none (b ∷ bs) ns h h' = JoinedTo-append (some b) bs ns h h'
JoinedTo-append (some p) (b ∷ bs) ns h h' = (h.0, JoinedTo-append (some b) bs ns h.1 h')

decoded_drop :
    (codec : Codec) (n : ℕ) (records : List Bytes) (bs : List CompactBlock)
    → map codec.decode records ≡ map some bs
    → map codec.decode (drop n records) ≡ map some (drop n bs)
decoded_drop codec zero records bs h = h
decoded_drop codec (suc n) [] [] h = refl
decoded_drop codec (suc n) [] (b ∷ bs) h = cc
decoded_drop codec (suc n) (r ∷ records) [] h = cc
decoded_drop codec (suc n) (r ∷ records) (b ∷ bs) h = decoded_drop codec n records bs (cc h)

arriving_blocks_decoded :
    (codec : Codec) (records : List Bytes) (bs : List CompactBlock)
    → map codec.decode records ≡ map some bs
    → arriving_blocks codec records ≡ map ok bs
arriving_blocks_decoded codec [] [] h = refl
arriving_blocks_decoded codec [] (b ∷ bs) h = cc
arriving_blocks_decoded codec (r ∷ records) [] h = cc
arriving_blocks_decoded codec (r ∷ records) (b ∷ bs) h =
    let first : codec.decode r ≡ some b = cc h in
    rw first (ap (◌∷◌ (ok b)) (arriving_blocks_decoded codec records bs (cc h)))

pub arriving_blocks-drop :
    (codec : Codec) (n : ℕ) (records : List Bytes) (bs : List CompactBlock)
    → map codec.decode records ≡ map some bs
    → arriving_blocks codec (drop n records) ≡ map ok (drop n bs)
arriving_blocks-drop codec n records bs h =
    arriving_blocks_decoded codec (drop n records) (drop n bs) (decoded_drop codec n records bs h)

pub head?-drop_decoded :
    (codec : Codec) (n : ℕ) (records : List Bytes) (bs : List CompactBlock) (b : CompactBlock)
    (rest : List CompactBlock)
    → map codec.decode records ≡ map some bs
    → drop n bs ≡ b ∷ rest
    → (raw : Bytes) × (head? (drop n records) ≡ some raw) × (codec.decode raw ≡ some b)
head?-drop_decoded codec n records bs b rest h e =
    first (drop n records) (decoded_drop codec n records bs h ∙ ap (map some) e)
  where
    first :
        (raws : List Bytes)
        → map codec.decode raws ≡ map some (b ∷ rest)
        → (raw : Bytes) × (head? raws ≡ some raw) × (codec.decode raw ≡ some b)
    first [] h = cc
    first (raw ∷ raws) h = (raw, refl, cc h)
