-- ===== src/Node.antt =====
-- The backend node as the server sees it: the answers of src/node/types.rs that are modelled, the
-- errors of src/node/mod.rs, and the calls of the trait `NodeRpc`. The node itself is a parameter:
-- what it answers to each call that one request makes.
use lightwalletd_rs.Base.{ℕ, List, Result}
use lightwalletd_rs.Base.Bytes.{Bytes}
use lightwalletd_rs.Base.Int.{ℤ}
use lightwalletd_rs.Encoding.{Text}

-- The pool whose permits ran out.
pub data Class : Type 0 where
  scan_class general_class : Class

pub data NodeError : Type 0 where
  http node_decode node_hex response_too_large empty_result task state : NodeError
  rpc : ℤ → Text → NodeError
  overloaded : Class → NodeError

-- The fields of `GetBlockchainInfo` that the ingestor and the snapshot import read.
pub record GetBlockchainInfo : Type 0 where
  pub chain : Text
  pub blocks : ℕ
  pub bestblockhash : Text

pub record Trees : Type 0 where
  pub sapling : ℕ
  pub orchard : ℕ
  pub ironwood : ℕ

pub record GetBlockVerbose : Type 0 where
  pub hash : Text
  pub tx : List Text
  pub trees : Trees

pub record Node : Type 0 where
  pub get_blockchain_info : Result NodeError GetBlockchainInfo
  pub get_block_verbose : ℕ → Result NodeError GetBlockVerbose
  pub get_block_raw : Text → Result NodeError Bytes
  pub get_block_hashes : List ℕ → Result NodeError (List Text)
