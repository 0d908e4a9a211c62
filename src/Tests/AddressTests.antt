-- ===== src/Tests/AddressTests.antt =====
-- The theorems about the transparent-address methods (src/service/address.rs) and about the source of
-- epochs over HTTP (src/snapshot/import.rs) at concrete replies.
use lightwalletd_rs.Base.{
  ℕ, ◌≡◌, refl, List, [], ◌∷◌, replicate, Result, ok, err, ◌>>=◌, length, take, some, none, arith,
  ◌==◌, if◌then◌else◌,
}
use lightwalletd_rs.Addresses.{
  AddressNode, AddressUtxo, GetAddressUtxosArg, check_taddress, check_taddresses, collect_utxos,
  get_taddress_balance, get_taddress_balance_stream,
}
use lightwalletd_rs.Addresses.Pages.{wanted, page_limit, page_end, reply_all, collect_utxos-page}
use lightwalletd_rs.Addresses.Streams.{get_taddress_balance_stream-eq}
use lightwalletd_rs.Base.Bytes.{Bytes}
use lightwalletd_rs.Base.Int.{pos}
use lightwalletd_rs.Encoding.{Text}
use lightwalletd_rs.Node.{empty_result}
use lightwalletd_rs.Snapshot.Failure.{SnapshotError, http}
use lightwalletd_rs.Snapshot.Peer.{Ended, attempts_from}
use lightwalletd_rs.Snapshot.Peer.Attempts.{Decided, attempts_from-Decided}
use lightwalletd_rs.Tests.Codecs.{sample_hex}

abbrev taddress : Text
taddress = 116 ∷ replicate 34 97

abbrev utxo_at : ℕ → AddressUtxo
utxo_at height = record {
  address = taddress;
  txid = sample_hex.encode (1 ∷ 2 ∷ []);
  output_index = pos 0;
  script = sample_hex.encode (3 ∷ []);
  satoshis = 5;
  height = height;
}

abbrev three_utxos : List AddressUtxo
three_utxos = utxo_at 6 ∷ utxo_at 7 ∷ utxo_at 8 ∷ []

abbrev index_node : AddressNode
index_node = record {
  get_address_balance = λ addresses. ok (pos 15);
  get_address_utxos = λ addresses. ok three_utxos;
  get_address_txids = λ addresses start end. none;
  get_raw_transaction = λ txid. none;
  get_blockchain_info = err empty_result;
}

-- One output from height 7 on.
abbrev one_from_seven : GetAddressUtxosArg
one_from_seven = record { addresses = taddress ∷ []; start_height = 7; max_entries = 1 }

taddress_valid : check_taddress taddress ≡ ok tt
unfolding check_taddress
taddress_valid = refl

taddresses_valid : check_taddresses (taddress ∷ []) ≡ ok tt
unfolding check_taddresses
taddresses_valid = refl

collect_utxos-page_example : collect_utxos sample_hex index_node one_from_seven ≡ (
    reply_all sample_hex (take (page_limit 1) (wanted 7 three_utxos))
    >>= page_end sample_hex 1 (length (wanted 7 three_utxos)) [])
collect_utxos-page_example =
    collect_utxos-page sample_hex index_node one_from_seven three_utxos (omega arith)
      taddresses_valid refl

get_taddress_balance_stream-eq_example :
    get_taddress_balance_stream sample_hex index_node (ok taddress ∷ ok taddress ∷ [])
    ≡ get_taddress_balance sample_hex index_node (taddress ∷ taddress ∷ [])
get_taddress_balance_stream-eq_example =
    get_taddress_balance_stream-eq sample_hex index_node (taddress ∷ taddress ∷ [])
      (taddress_valid, (taddress_valid, tt))

-- A peer that is busy once.
abbrev busy_once : ℕ → Result SnapshotError Bytes
busy_once attempt = if attempt == 1 then err (http (some 503)) else ok (1 ∷ [])

attempts_from-Decided_example :
    (e : Ended) × (attempts_from busy_once 3 3 1 2 ≡ some e) × Decided busy_once 3 1 e
attempts_from-Decided_example = attempts_from-Decided busy_once 3 3 1 2 (omega arith) (omega arith)
