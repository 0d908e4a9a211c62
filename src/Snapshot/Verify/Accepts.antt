-- ===== src/Snapshot/Verify/Accepts.antt =====
-- What src/snapshot/import.rs accepts: blocks of the node's own chain pass the layers.
use lightwalletd_rs.Base.{
  ℕ, zero, suc, ◌+◌, ◌-◌, ◌≤◌, ◌<◌, ◌≡◌, refl, ap, sym, ◌∙◌, List, [], ◌∷◌, ◌++◌, append_assoc,
  append-nil, map, false, Option, none, some, ◌==◌, =ᵇ-refl, not, Bool-cases, inl, inr, ok, length,
  length-map, length-drop, take, drop, take-append-drop, arith,
}
use lightwalletd_rs.Base.Bytes.{Bytes}
use lightwalletd_rs.Base.Table.{Table, insert, lookup, lookup-insert}
use lightwalletd_rs.Encoding.{Text, Hex}
use lightwalletd_rs.Node.{Node}
use lightwalletd_rs.Proto.{CompactBlock, Codec, IsCodec}
use lightwalletd_rs.Snapshot.Manifest.{EpochEntry}
use lightwalletd_rs.Snapshot.Verify.Anchor.{HeldFrom, anchored_bytes}
use lightwalletd_rs.Snapshot.Verify.Layers.{JoinedTo, check_joins_iff}
use lightwalletd_rs.Snapshot.Verify.Records.{HeightsFrom, hashes_of}
use lightwalletd_rs.Snapshot.Verify.{
  check_joins, decode_block, check_records, fetch_batches, fetch_block_hashes, compare_hashes,
  verify_anchor, extend, anchor_bytes, chunks, heights_from,
}

-- The node answers every batch, with the hash of each height in the order of the batch.
pub record AnswersAll (node : Node) (hash_of : ℕ → Text) : Type 0 where
  pub always : (heights : List ℕ) → node.get_block_hashes heights ≡ ok (map hash_of heights)

module _ (hash_of : ℕ → Text) where
  extend-append :
      (xs ys : List ℕ) (found : Table Text)
      → extend (xs ++ ys) (map hash_of (xs ++ ys)) found
        ≡ extend ys (map hash_of ys) (extend xs (map hash_of xs) found)
  extend-append [] ys found = refl
  extend-append (x ∷ xs) ys found = extend-append xs ys (insert x (hash_of x) found)

  -- All heights are looked up, whatever the batches are.
  fetch_batches-chunks :
      (node : Node) (epoch size fuel : ℕ) (heights : List ℕ) (found : Table Text)
      → AnswersAll node hash_of
      → length heights ≤ fuel
      → fetch_batches node epoch (chunks (suc size) fuel heights) found
        ≡ ok (extend heights (map hash_of heights) found)
  unfolding fetch_batches
  fetch_batches-chunks node epoch size zero [] found answers enough = refl
  fetch_batches-chunks node epoch size zero (h ∷ heights) found answers enough =
      absurd (omega arith)
  fetch_batches-chunks node epoch size (suc fuel) [] found answers enough = refl
  fetch_batches-chunks node epoch size (suc fuel) (h ∷ heights) found answers enough =
      let batch = h ∷ take size heights in
      let rest = drop size heights in
      let complete : not (length (map hash_of batch) == length batch) ≡ false =
        ground (arith, length-map hash_of batch) in
      let later =
        fetch_batches-chunks node epoch size fuel rest (extend batch (map hash_of batch) found)
          answers (omega (arith, length-drop size heights)) in
      rw (fetch_batches, answers.always batch) (rw complete later)
      ∙ ap ok (
          sym (extend-append batch rest found)
          ∙ ap (λ hs. extend (h ∷ hs) (map hash_of (h ∷ hs)) found) (take-append-drop size heights))

  lookup-extend_below :
      (height start n : ℕ) (found : Table Text)
      → height < start
      → lookup height (extend (heights_from start n) (map hash_of (heights_from start n)) found)
        ≡ lookup height found
  lookup-extend_below height start zero found lt = refl
  lookup-extend_below height start (suc n) found lt =
      let other : (start == height) ≡ false = ground arith in
      lookup-extend_below height (suc start) n (insert start (hash_of start) found) (omega arith)
      ∙ lookup-insert height start (hash_of start) found
      ∙ rw other refl

  lookup-extend :
      (height start n : ℕ) (found : Table Text)
      → start ≤ height
      → height < start + n
      → lookup height (extend (heights_from start n) (map hash_of (heights_from start n)) found)
        ≡ some (hash_of height)
  lookup-extend height start zero found low high = absurd (omega arith)
  lookup-extend height start (suc n) found low high = elim (Bool-cases (start == height)) [
    | inl same ↦
        let at : start ≡ height = ground arith in
        let here : lookup height (insert start (hash_of start) found) ≡ some (hash_of height) =
          lookup-insert height start (hash_of start) found
          ∙ rw same (ap (λ h. some (hash_of h)) at) in
        lookup-extend_below height (suc start) n (insert start (hash_of start) found) (omega arith)
        ∙ here
    | inr other ↦
        lookup-extend height (suc start) n (insert start (hash_of start) found) (ground arith)
          (omega arith)
  ]

  length-heights_from : (start n : ℕ) → length (heights_from start n) ≡ n
  length-heights_from start zero = refl
  length-heights_from start (suc n) = ap suc (length-heights_from (suc start) n)

  module _ (hex : Hex) where
    compare_hashes-HeldFrom :
        (epoch : ℕ) (table : Table Text) (height : ℕ) (hashes : List Bytes) (hashed : Bytes)
        → ((h : ℕ) → height ≤ h → h < height + length hashes → lookup h table ≡ some (hash_of h))
        → HeldFrom hex hash_of height hashes
        → compare_hashes hex epoch table height hashes hashed
          ≡ ok (hashed ++ anchored_bytes height hashes)
    unfolding compare_hashes
    compare_hashes-HeldFrom epoch table height [] hashed found held =
        ap ok (sym (append-nil hashed))
    compare_hashes-HeldFrom epoch table height (hash ∷ hashes) hashed found held =
        let later =
          compare_hashes-HeldFrom epoch table (suc height) hashes
            (hashed ++ anchor_bytes height hash) (λ h low high. found h (omega arith) (omega arith))
            held.1 in
        rw (compare_hashes, found height (omega arith) (omega arith))
          (rw (held.0) (rw (=ᵇ-refl hash) later))
        ∙ ap ok
            (append_assoc hashed (anchor_bytes height hash) (anchored_bytes (suc height) hashes))

    pub verify_anchor-HeldFrom :
        (sha256 : Bytes → Bytes) (node : Node) (entry : EpochEntry) (hashes : List Bytes)
        → AnswersAll node hash_of
        → HeldFrom hex hash_of entry.start hashes
        → entry.start + length hashes ≡ suc entry.end
        → hex.encode (sha256 (anchored_bytes entry.start hashes)) ≡ entry.anchor
        → verify_anchor hex sha256 node entry hashes ≡ ok tt
    unfolding verify_anchor fetch_block_hashes
    verify_anchor-HeldFrom sha256 node entry hashes answers held spans anchored =
        let count = suc entry.end - entry.start in
        let heights = heights_from entry.start count in
        let table = extend heights (map hash_of heights) [] in
        let fetched =
          fetch_batches-chunks node entry.index 249 count heights [] answers
            (omega (arith, length-heights_from entry.start count)) in
        let compared =
          compare_hashes-HeldFrom entry.index table entry.start hashes []
            (λ h low high. lookup-extend h entry.start count [] low (omega arith)) held in
        rw (verify_anchor, fetch_block_hashes, fetched)
          (rw compared (rw (anchored, =ᵇ-refl entry.anchor) refl))

module _ (codec : Codec) (lawful : IsCodec codec) where
  pub check_records-JoinedTo :
      (epoch height : ℕ) (bs : List CompactBlock) (previous : Option CompactBlock)
      → HeightsFrom height bs
      → JoinedTo previous bs
      → check_records codec epoch height (map codec.encode bs) previous ≡ ok (hashes_of bs)
  unfolding check_records decode_block
  check_records-JoinedTo epoch height [] previous heights joined = refl
  check_records-JoinedTo epoch height (b ∷ bs) previous heights joined =
      let at : not (b.height == height) ≡ false = ground (arith, heights.0) in
      let (joins, rest) = split previous joined in
      let later = check_records-JoinedTo epoch (suc height) bs (some b) heights.1 rest in
      rw (check_records, lawful.decode-encode b) (rw at (rw joins (rw later refl)))
    where
      split :
          (p : Option CompactBlock)
          → JoinedTo p (b ∷ bs)
          → (check_joins epoch p b ≡ ok tt) × JoinedTo (some b) bs
      split none j = (unfold check_joins in refl, j)
      split (some p) j = ((check_joins_iff epoch p b).1 j.0, j.1)
