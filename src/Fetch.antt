-- ===== src/Fetch.antt =====
-- src/fetch.rs: fetching one block from the node and checking it. The parser of raw blocks is a
-- parameter here.
pub mod Checks
use lightwalletd_rs.Base.{
  ℕ, suc, ◌+◌, Bool, not, Option, none, some, List, [], ◌∷◌, ◌==◌, ◌=ᵇ◌, if◌then◌else◌, Result, ok,
  err, ◌>>=◌, ◌>>◌, map_err, length, is_empty,
}
use lightwalletd_rs.Base.Bytes.{Bytes}
use lightwalletd_rs.Encoding.{Text, Hex, wire_to_display_hex}
use lightwalletd_rs.Node.{NodeError, Node, Trees}
use lightwalletd_rs.Proto.{CompactBlock, CompactTx, ChainMetadata}

pub data ParseError : Type 0 where
  truncated io no_height trailing_data : ParseError

pub data FetchError : Type 0 where
  node : NodeError → FetchError
  parse : ParseError → FetchError
  unexpected_height : ℕ → ℕ → FetchError
  hash_mismatch : Text → Text → FetchError
  txid_mismatch : ℕ → ℕ → Text → Text → FetchError
  tx_count_mismatch : ℕ → ℕ → ℕ → FetchError
  parse_task window_closed : FetchError

abbrev pub set_sizes : Trees → Option ChainMetadata → Option ChainMetadata
set_sizes trees none = none
set_sizes trees (some m) = some (record {
  sapling_commitment_tree_size = trees.sapling;
  orchard_commitment_tree_size = trees.orchard;
  ironwood_commitment_tree_size = trees.ironwood;
})

module _ (hex : Hex) where
  -- The loop over `block.vtx` and the node's txids, from the transaction at `index` on.
  unfoldable pub check_txids : ℕ → ℕ → List CompactTx → List Text → Result FetchError (Unit {0})
  check_txids height index (tx ∷ txs) (node_txid ∷ txids) =
      let rest = check_txids height (index + 1) txs txids in
      if not (wire_to_display_hex hex tx.txid =ᵇ node_txid)
      then err (txid_mismatch height index node_txid (wire_to_display_hex hex tx.txid))
      else rest
  check_txids height index txs txids = ok tt

  unfoldable pub check_tx_list : ℕ → List CompactTx → List Text → Result FetchError (Unit {0})
  unfolding check_txids
  check_tx_list height vtx txids =
      if is_empty txids
      then ok tt
      else if not (length txids == length vtx)
      then err (tx_count_mismatch height (length txids) (length vtx))
      else check_txids height 0 vtx txids

  unfoldable pub check_height_and_hash : ℕ → Text → CompactBlock → Result FetchError (Unit {0})
  check_height_and_hash height hash block =
      if not (block.height == height)
      then err (unexpected_height height block.height)
      else if not (wire_to_display_hex hex block.hash =ᵇ hash)
      then err (hash_mismatch hash (wire_to_display_hex hex block.hash))
      else ok tt

  -- `parser` is `compact::to_compact_block`.
  unfoldable pub compact_block :
      (Bytes → Result ParseError CompactBlock) → Node → ℕ → Result FetchError CompactBlock
  unfolding check_height_and_hash check_tx_list
  compact_block parser n height = do
    verbose ← map_err node (n.get_block_verbose height)
    raw ← map_err node (n.get_block_raw verbose.hash)
    block ← map_err parse (parser raw)
    check_height_and_hash height verbose.hash block
    check_tx_list height block.vtx verbose.tx
    ok (record block { chain_metadata = set_sizes verbose.trees block.chain_metadata })
