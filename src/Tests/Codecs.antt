-- ===== src/Tests/Codecs.antt =====
-- A concrete block codec and a concrete hex coding.
use lightwalletd_rs.Base.{
  ℕ, ◌+◌, ◌-◌, ◌*◌, ◌/◌, ◌%◌, ◌∷◌, arith, ◌≡◌, refl, ap, Option, none, some, [],
}
use lightwalletd_rs.Base.Bytes.{Bytes}
use lightwalletd_rs.Encoding.{Hex, IsHex}
use lightwalletd_rs.Proto.{
  ChainMetadata, CompactSaplingSpend, CompactSaplingOutput, CompactOrchardAction, CompactTxIn,
  TxOut, CompactTx, CompactBlock, Codec, IsCodec,
}
use lightwalletd_rs.Tests.Serial.{Serial, number, pair, list, option, via}

abbrev bytes : Serial Bytes
bytes = list number

abbrev metadata : Serial ChainMetadata
metadata =
    via
      (λ m. (
        m.sapling_commitment_tree_size,
        (m.orchard_commitment_tree_size, m.ironwood_commitment_tree_size),
      ))
      (λ t. record {
        sapling_commitment_tree_size = t.0;
        orchard_commitment_tree_size = t.1.0;
        ironwood_commitment_tree_size = t.1.1;
      })
      (λ m. refl) (pair number (pair number number))

abbrev spend : Serial CompactSaplingSpend
spend = via (λ s. s.nf) (λ b. record { nf = b }) (λ s. refl) bytes

abbrev output : Serial CompactSaplingOutput
output =
    via (λ o. (o.cmu, (o.ephemeral_key, o.ciphertext)))
      (λ t. record { cmu = t.0; ephemeral_key = t.1.0; ciphertext = t.1.1 }) (λ o. refl)
      (pair bytes (pair bytes bytes))

abbrev action : Serial CompactOrchardAction
action =
    via (λ a. (a.nullifier, (a.cmx, (a.ephemeral_key, a.ciphertext))))
      (λ t. record { nullifier = t.0; cmx = t.1.0; ephemeral_key = t.1.1.0; ciphertext = t.1.1.1 })
      (λ a. refl) (pair bytes (pair bytes (pair bytes bytes)))

abbrev tx_in : Serial CompactTxIn
tx_in =
    via (λ i. (i.prevout_txid, i.prevout_index))
      (λ t. record { prevout_txid = t.0; prevout_index = t.1 }) (λ i. refl) (pair bytes number)

abbrev tx_out : Serial TxOut
tx_out =
    via (λ o. (o.value, o.script_pub_key)) (λ t. record { value = t.0; script_pub_key = t.1 })
      (λ o. refl) (pair number bytes)

abbrev tx : Serial CompactTx
tx =
    via
      (λ x. (
        x.index,
        (
          x.txid,
          (x.fee, (x.spends, (x.outputs, (x.actions, (x.ironwood_actions, (x.vin, x.vout)))))),
        ),
      ))
      (λ t. record {
        index = t.0;
        txid = t.1.0;
        fee = t.1.1.0;
        spends = t.1.1.1.0;
        outputs = t.1.1.1.1.0;
        actions = t.1.1.1.1.1.0;
        ironwood_actions = t.1.1.1.1.1.1.0;
        vin = t.1.1.1.1.1.1.1.0;
        vout = t.1.1.1.1.1.1.1.1;
      })
      (λ x. refl)
      (pair number (
        pair bytes (
          pair number (
            pair (list spend) (
              pair (list output)
                (pair (list action) (pair (list action) (pair (list tx_in) (list tx_out)))))))))

abbrev block : Serial CompactBlock
block =
    via (λ b. (b.height, (b.hash, (b.prev_hash, (b.time, (b.header, (b.vtx, b.chain_metadata)))))))
      (λ t. record {
        height = t.0;
        hash = t.1.0;
        prev_hash = t.1.1.0;
        time = t.1.1.1.0;
        header = t.1.1.1.1.0;
        vtx = t.1.1.1.1.1.0;
        chain_metadata = t.1.1.1.1.1.1;
      })
      (λ b. refl)
      (pair number
        (pair bytes (pair bytes (pair number (pair bytes (pair (list tx) (option metadata)))))))

abbrev whole {ℓ} : {A : Type ℓ} → Option (A × Bytes) → Option A
whole none = none
whole (some (a, rest)) = some a

abbrev hash_of : Option CompactBlock → Option Bytes
hash_of none = none
hash_of (some b) = some b.hash

abbrev pub sample_codec : Codec
sample_codec = record {
  encode = λ b. block.put b [];
  decode = λ raw. whole (block.get raw);
  decode_hash = λ raw. hash_of (whole (block.get raw));
}

pub sample_codec-IsCodec : IsCodec sample_codec
sample_codec-IsCodec = record {
  decode-encode = λ b. ap whole (block.get-put b []);
  decode_hash-encode = λ b. ap (λ o. hash_of (whole o)) (block.get-put b []);
}

-- Two characters to a byte, from the digit's code on.
abbrev digits : Bytes → Bytes
digits [] = []
digits (b ∷ bs) = (b / 16 + 48) ∷ (b % 16 + 48) ∷ digits bs

abbrev undigits : Bytes → Option Bytes
undigits [] = some []
undigits (c ∷ []) = none
undigits (c ∷ d ∷ cs) = elim (undigits cs) [
  | none ↦ none
  | some bs ↦ some ((16 * (c - 48) + (d - 48)) ∷ bs)
]

undigits-digits : (bs : Bytes) → undigits (digits bs) ≡ some bs
undigits-digits [] = refl
undigits-digits (b ∷ bs) =
    let same : 16 * (b / 16 + 48 - 48) + (b % 16 + 48 - 48) ≡ b = omega arith in
    rw (undigits-digits bs) (ap (λ n. some (n ∷ bs)) same)

abbrev pub sample_hex : Hex
sample_hex = record { encode = digits; decode = undigits }

pub sample_hex-IsHex : IsHex sample_hex
sample_hex-IsHex = record { decode-encode = undigits-digits }

abbrev pub sample_block : ℕ → Bytes → Bytes → CompactBlock
sample_block height hash prev_hash = record {
  height = height;
  hash = hash;
  prev_hash = prev_hash;
  time = 0;
  header = [];
  vtx = [];
  chain_metadata = none;
}
