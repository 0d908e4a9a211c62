-- ===== src/Snapshot/Verify/Anchor.antt =====
-- What the anchor of src/snapshot/import.rs ties a snapshot to: the hashes that the node answers.
use lightwalletd_rs.Base.{
  ℕ, suc, ◌≡◌, ap, sym, ◌∙◌, List, [], ◌∷◌, ◌++◌, append-nil, append_assoc, map, some, ◌==◌, ◌=ᵇ◌,
  eq_of_=ᵇ, not, ok, >>=-eq-ok, guard_ok, ok_injective, ok_or, ok_or-eq-ok, map_err, map_err-eq-ok,
  length, arith, Bool-cases, inl, inr,
}
use lightwalletd_rs.Base.Bytes.{Bytes}
use lightwalletd_rs.Base.Table.{Table, insert, lookup, lookup-insert}
use lightwalletd_rs.Encoding.{Text, Hex, display_hex_to_wire}
use lightwalletd_rs.Node.{Node}
use lightwalletd_rs.Snapshot.Failure.{block_rejected, node_lookup, anchor_check}
use lightwalletd_rs.Snapshot.Manifest.{EpochEntry}
use lightwalletd_rs.Snapshot.Verify.{
  fetch_batches, fetch_block_hashes, compare_hashes, verify_anchor, extend, anchor_bytes, first_of,
}

-- The node answers a batch with the hash of each height, in the order of the batch.
pub record AnswersBy (node : Node) (hash_of : ℕ → Text) : Type 0 where
  pub in_order :
      (heights : List ℕ) (hashes : List Text)
      → node.get_block_hashes heights ≡ ok hashes
      → hashes ≡ map hash_of heights

-- The node has these hashes, from `height` on.
abbrev pub HeldFrom : Hex → (ℕ → Text) → ℕ → List Bytes → Type 0
HeldFrom hex hash_of height [] = Unit
HeldFrom hex hash_of height (hash ∷ hashes) =
    (display_hex_to_wire hex (hash_of height) ≡ ok hash) × HeldFrom hex hash_of (suc height) hashes

-- The pairs of height and hash that an anchor covers.
abbrev pub anchored_bytes : ℕ → List Bytes → Bytes
anchored_bytes height [] = []
anchored_bytes height (hash ∷ hashes) =
    anchor_bytes height hash ++ anchored_bytes (suc height) hashes

abbrev Truthful : (ℕ → Text) → Table Text → Type 0
Truthful hash_of table =
    (height : ℕ) (text : Text) → lookup height table ≡ some text → text ≡ hash_of height

extend-Truthful :
    (hash_of : ℕ → Text) (batch : List ℕ) (found : Table Text)
    → Truthful hash_of found
    → Truthful hash_of (extend batch (map hash_of batch) found)
extend-Truthful hash_of [] found h = h
extend-Truthful hash_of (b ∷ batch) found h =
    extend-Truthful hash_of batch (insert b (hash_of b) found) (λ height text e.
      elim (Bool-cases (b == height)) [
        | inl same ↦
            let e' : some (hash_of b) ≡ some text =
              rw (lookup-insert height b (hash_of b) found, same) at e in
            let at : b ≡ height = ground arith in
            let same_text : hash_of b ≡ text = cc in sym same_text ∙ ap hash_of at
        | inr other ↦ h height text (rw (lookup-insert height b (hash_of b) found, other) at e)
      ])

module _ (hex : Hex) (sha256 : Bytes → Bytes) where
  fetch_batches-Truthful :
      (node : Node) (hash_of : ℕ → Text) (epoch : ℕ) (batches : List (List ℕ))
      (found table : Table Text)
      → AnswersBy node hash_of
      → Truthful hash_of found
      → fetch_batches node epoch batches found ≡ ok table
      → Truthful hash_of table
  unfolding fetch_batches
  fetch_batches-Truthful node hash_of epoch [] found table answers h done =
      rw (← ok_injective found table done) h
  fetch_batches-Truthful node hash_of epoch (batch ∷ batches) found table answers h done =
      let (hashes, answered, h₁) =
        >>=-eq-ok (map_err (node_lookup (first_of batch)) (node.get_block_hashes batch)) _ done in
      let (complete, h₂) = guard_ok (not (length hashes == length batch)) _ _ table h₁ in
      let same =
        answers.in_order batch hashes
          (map_err-eq-ok (node_lookup (first_of batch)) (node.get_block_hashes batch) answered) in
      fetch_batches-Truthful node hash_of epoch batches (extend batch hashes found) table answers
        (rw same (extend-Truthful hash_of batch found h)) h₂

  compare_hashes-eq-ok :
      (hash_of : ℕ → Text) (epoch : ℕ) (table : Table Text) (height : ℕ) (hashes : List Bytes)
      (hashed hashed' : Bytes)
      → Truthful hash_of table
      → compare_hashes hex epoch table height hashes hashed ≡ ok hashed'
      → HeldFrom hex hash_of height hashes × (hashed' ≡ hashed ++ anchored_bytes height hashes)
  unfolding compare_hashes
  compare_hashes-eq-ok hash_of epoch table height [] hashed hashed' h done =
      (tt, sym (ok_injective hashed hashed' done) ∙ sym (append-nil hashed))
  compare_hashes-eq-ok hash_of epoch table height (claimed ∷ hashes) hashed hashed' h done =
      let rejected = block_rejected epoch height anchor_check in
      let (display, found, h₁) = >>=-eq-ok (ok_or rejected (lookup height table)) _ done in
      let (wire, read, h₂) =
        >>=-eq-ok (map_err (λ _. rejected) (display_hex_to_wire hex display)) _ h₁ in
      let (equal, h₃) = guard_ok (not (wire =ᵇ claimed)) _ _ hashed' h₂ in
      let wire_is : wire ≡ claimed = eq_of_=ᵇ wire claimed (ground arith) in
      let display_is =
        h height display (ok_or-eq-ok rejected (lookup height table) display found) in
      let (held, rest) =
        compare_hashes-eq-ok hash_of epoch table (suc height) hashes
          (hashed ++ anchor_bytes height wire) hashed' h h₃ in
      (
        (
          rw (display_is, wire_is) at
              (map_err-eq-ok (λ _. rejected) (display_hex_to_wire hex display) read),
          held,
        ),
        rest
            ∙ rw wire_is (
                append_assoc hashed (anchor_bytes height claimed)
                  (anchored_bytes (suc height) hashes)),
      )

  -- An anchor that is accepted is over hashes that are the node's own, height by height, and is their
  -- digest.
  pub verify_anchor-eq-ok :
      (node : Node) (hash_of : ℕ → Text) (entry : EpochEntry) (hashes : List Bytes)
      → AnswersBy node hash_of
      → verify_anchor hex sha256 node entry hashes ≡ ok tt
      → HeldFrom hex hash_of entry.start hashes
        × (hex.encode (sha256 (anchored_bytes entry.start hashes)) ≡ entry.anchor)
  unfolding verify_anchor fetch_block_hashes
  verify_anchor-eq-ok node hash_of entry hashes answers h =
      let (table, fetched, h₁) =
        >>=-eq-ok (fetch_block_hashes node entry.index entry.start entry.end) _ h in
      let (hashed, compared, h₂) =
        >>=-eq-ok (compare_hashes hex entry.index table entry.start hashes []) _ h₁ in
      let truthful =
        fetch_batches-Truthful node hash_of entry.index _ [] table answers (λ height text e. cc)
          fetched in
      let (held, hashed_is) =
        compare_hashes-eq-ok hash_of entry.index table entry.start hashes [] hashed truthful
          compared in
      (
        held,
        rw (← hashed_is) (eq_of_=ᵇ (hex.encode (sha256 hashed)) entry.anchor (ground (arith, h₂))),
      )
