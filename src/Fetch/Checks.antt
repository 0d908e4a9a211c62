-- ===== src/Fetch/Checks.antt =====
-- What a block that src/fetch.rs accepts has been checked for.
use lightwalletd_rs.Base.{
  ℕ, ◌+◌, ◌≡◌, refl, List, [], ◌∷◌, map, ◌==◌, ==_iff, ◌=ᵇ◌, eq_of_=ᵇ, Result, ok, >>=-eq-ok,
  map_err, map_err-eq-ok, length, arith, ◌⊎◌, inl, inr, Bool-cases,
}
use lightwalletd_rs.Base.Bytes.{Bytes}
use lightwalletd_rs.Encoding.{Text, Hex, wire_to_display_hex}
use lightwalletd_rs.Fetch.{
  ParseError, check_txids, check_tx_list, check_height_and_hash, compact_block, set_sizes, parse,
  node,
}
use lightwalletd_rs.Node.{Node, GetBlockVerbose}
use lightwalletd_rs.Proto.{CompactBlock, CompactTx}

module _ (hex : Hex) where
  -- What the node said of the block agrees with what was parsed.
  pub record IsChecked (n : Node) (height : ℕ) (block : CompactBlock) : Type 0 where
    pub verbose : GetBlockVerbose
    pub answered : n.get_block_verbose height ≡ ok verbose
    pub height_is : block.height ≡ height
    pub hash_is : wire_to_display_hex hex block.hash ≡ verbose.hash
    pub txids_are :
        (verbose.tx ≡ []) ⊎ (map (λ tx. wire_to_display_hex hex tx.txid) block.vtx ≡ verbose.tx)

  check_txids_sound :
      (height index : ℕ) (txs : List CompactTx) (txids : List Text)
      → length txids ≡ length txs
      → check_txids hex height index txs txids ≡ ok tt
      → map (λ tx. wire_to_display_hex hex tx.txid) txs ≡ txids
  unfolding check_txids
  check_txids_sound height index [] [] same h = refl
  check_txids_sound height index [] (t ∷ ts) same h = absurd (omega arith)
  check_txids_sound height index (tx ∷ txs) [] same h = absurd (omega arith)
  check_txids_sound height index (tx ∷ txs) (t ∷ ts) same h =
      elim (Bool-cases (wire_to_display_hex hex tx.txid =ᵇ t)) [
        | inl e ↦
            let here : wire_to_display_hex hex tx.txid ≡ t =
              eq_of_=ᵇ (wire_to_display_hex hex tx.txid) t e in
            let rest = check_txids_sound height (index + 1) txs ts (omega arith) (rw e at h) in
            cc (here, rest)
        | inr e ↦ absurd (cc (rw e at h))
      ]

  check_tx_list_sound :
      (height : ℕ) (vtx : List CompactTx) (txids : List Text)
      → check_tx_list hex height vtx txids ≡ ok tt
      → (txids ≡ []) ⊎ (map (λ tx. wire_to_display_hex hex tx.txid) vtx ≡ txids)
  unfolding check_tx_list
  check_tx_list_sound height vtx [] h = inl refl
  check_tx_list_sound height vtx (t ∷ ts) h = elim (Bool-cases (length (t ∷ ts) == length vtx)) [
    | inl e ↦ inr (check_txids_sound height 0 vtx (t ∷ ts) ((==_iff _ _).0 e) (rw e at h))
    | inr e ↦ absurd (cc (rw e at h))
  ]

  check_height_and_hash_sound :
      (height : ℕ) (hash : Text) (block : CompactBlock)
      → check_height_and_hash hex height hash block ≡ ok tt
      → (block.height ≡ height) × (wire_to_display_hex hex block.hash ≡ hash)
  unfolding check_height_and_hash
  check_height_and_hash_sound height hash block h =
      ground (arith, eq_of_=ᵇ (wire_to_display_hex hex block.hash) hash)

  -- A block that is fetched has the height that was asked for, hashes to what the node said of that
  -- height, and, where the node lists the block's txids, has exactly those, in that order.
  pub compact_block-IsChecked :
      (parser : Bytes → Result ParseError CompactBlock) (n : Node) (height : ℕ)
      (block : CompactBlock)
      → compact_block hex parser n height ≡ ok block
      → IsChecked n height block
  unfolding compact_block
  compact_block-IsChecked parser n height block h =
      let (verbose, answered, h₁) = >>=-eq-ok (map_err node (n.get_block_verbose height)) _ h in
      let (raw, fetched, h₂) = >>=-eq-ok (map_err node (n.get_block_raw verbose.hash)) _ h₁ in
      let (parsed, read, h₃) = >>=-eq-ok (map_err parse (parser raw)) _ h₂ in
      let (u, named, h₄) = >>=-eq-ok (check_height_and_hash hex height verbose.hash parsed) _ h₃ in
      let (u', listed, h₅) = >>=-eq-ok (check_tx_list hex height parsed.vtx verbose.tx) _ h₄ in
      let (at, hashed) = check_height_and_hash_sound height verbose.hash parsed named in
      let same : record parsed { chain_metadata = set_sizes verbose.trees parsed.chain_metadata }
          ≡ block =
        cc h₅ in
      rw (← same) (record {
        verbose = verbose;
        answered = map_err-eq-ok node (n.get_block_verbose height) answered;
        height_is = at;
        hash_is = hashed;
        txids_are = check_tx_list_sound height parsed.vtx verbose.tx listed;
      })
