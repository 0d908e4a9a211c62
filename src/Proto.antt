-- ===== src/Proto.antt =====
-- The messages of proto/compact_formats.proto that the server stores and serves, and the encoding
-- of a compact block, which the generated prost code (not under version control) implements.
use lightwalletd_rs.Base.{ℕ, List, Option, ◌≡◌, some}
use lightwalletd_rs.Base.Bytes.{Bytes}

pub record ChainMetadata : Type 0 where
  pub sapling_commitment_tree_size : ℕ
  pub orchard_commitment_tree_size : ℕ
  pub ironwood_commitment_tree_size : ℕ

pub record CompactSaplingSpend : Type 0 where
  pub nf : Bytes

pub record CompactSaplingOutput : Type 0 where
  pub cmu : Bytes
  pub ephemeral_key : Bytes
  pub ciphertext : Bytes

pub record CompactOrchardAction : Type 0 where
  pub nullifier : Bytes
  pub cmx : Bytes
  pub ephemeral_key : Bytes
  pub ciphertext : Bytes

pub record CompactTxIn : Type 0 where
  pub prevout_txid : Bytes
  pub prevout_index : ℕ

pub record TxOut : Type 0 where
  pub value : ℕ
  pub script_pub_key : Bytes

pub record CompactTx : Type 0 where
  pub index : ℕ
  pub txid : Bytes
  pub fee : ℕ
  pub spends : List CompactSaplingSpend
  pub outputs : List CompactSaplingOutput
  pub actions : List CompactOrchardAction
  pub ironwood_actions : List CompactOrchardAction
  pub vin : List CompactTxIn
  pub vout : List TxOut

pub record CompactBlock : Type 0 where
  pub height : ℕ
  pub hash : Bytes
  pub prev_hash : Bytes
  pub time : ℕ
  pub header : Bytes
  pub vtx : List CompactTx
  pub chain_metadata : Option ChainMetadata

-- `CompactBlock::encode_to_vec`, `CompactBlock::decode`, and `StoredBlockHash::decode`, which reads
-- the same bytes down to the `hash` field. `none` is a `DecodeError`.
pub record Codec : Type 0 where
  pub encode : CompactBlock → Bytes
  pub decode : Bytes → Option CompactBlock
  pub decode_hash : Bytes → Option Bytes

-- What protobuf promises of an encoded message: it decodes to itself, and a message that declares
-- fewer fields skips the others.
pub record IsCodec (codec : Codec) : Type 0 where
  pub decode-encode : (b : CompactBlock) → codec.decode (codec.encode b) ≡ some b
  pub decode_hash-encode : (b : CompactBlock) → codec.decode_hash (codec.encode b) ≡ some b.hash
