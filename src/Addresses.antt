-- ===== src/Addresses.antt =====
-- src/service/address.rs: the transparent-address methods. The node's answers to the calls that one
-- request makes are a parameter; a call under a deadline has no answer if the deadline passes. Status
-- codes come without their texts.
pub mod Pages
pub mod Streams
use lightwalletd_rs.Base.{
  ℕ, zero, suc, ◌+◌, ◌-◌, ◌*◌, ◌/◌, ◌%◌, ◌^◌, List, [], ◌∷◌, ◌++◌, Bool, true, false, not, ◌&&◌,
  ◌||◌, Option, none, some, ltb, leb, ◌==◌, if◌then◌else◌, Result, ok, err, ◌>>=◌, ◌>>◌, ok_or,
  map_err, length, all, u64_max,
}
use lightwalletd_rs.Base.Bytes.{Bytes}
use lightwalletd_rs.Base.Int.{ℤ, pos, negsuc}
use lightwalletd_rs.Encoding.{Text, Hex, display_hex_to_wire}
use lightwalletd_rs.Errors.{from_node_error, address_query_to_status, transaction_lookup_to_status}
use lightwalletd_rs.Framing.{Stream, coalesce}
use lightwalletd_rs.Node.{NodeError, GetBlockchainInfo}
use lightwalletd_rs.Status.{
  Status, invalid_argument, deadline_exceeded, resource_exhausted, internal,
}

abbrev pub max_streamed_addresses : ℕ
max_streamed_addresses = 10000

abbrev pub max_taddress_txids : ℕ
max_taddress_txids = 10000

abbrev pub max_address_utxos : ℕ
max_address_utxos = 100000

abbrev pub max_indexed_outputs_per_block : ℕ
max_indexed_outputs_per_block = 2000000 / 32

abbrev pub max_taddress_block_span : ℕ
max_taddress_block_span = 10000000

pub record AddressUtxo : Type 0 where
  pub address : Text
  pub txid : Text
  pub output_index : ℤ
  pub script : Text
  pub satoshis : ℕ
  pub height : ℕ

pub record GetAddressUtxosArg : Type 0 where
  pub addresses : List Text
  pub start_height : ℕ
  pub max_entries : ℕ

pub record GetAddressUtxosReply : Type 0 where
  pub address : Text
  pub txid : Bytes
  pub index : ℤ
  pub script : Bytes
  pub value_zat : ℤ
  pub height : ℕ

pub record GetRawTransaction : Type 0 where
  pub hex : Text
  pub height : ℤ

pub record RawTransaction : Type 0 where
  pub data_bytes : Bytes
  pub height : ℕ

pub record TransparentAddressBlockFilter : Type 0 where
  pub address : Text
  pub range : Option (Option ℕ × Option ℕ)

-- The calls that the methods make; `none` is a deadline that passed.
pub record AddressNode : Type 0 where
  pub get_address_balance : List Text → Result NodeError ℤ
  pub get_address_utxos : List Text → Result NodeError (List AddressUtxo)
  pub get_address_txids : List Text → ℕ → ℕ → Option (Result NodeError (List Text))
  pub get_raw_transaction : Text → Option (Result NodeError GetRawTransaction)
  pub get_blockchain_info : Result NodeError GetBlockchainInfo

unfoldable pub push_bounded : List Text → Text → Result Status (List Text)
push_bounded addresses address =
    if leb max_streamed_addresses (length addresses)
    then err resource_exhausted
    else ok (addresses ++ address ∷ [])

abbrev pub is_ascii_alphanumeric : ℕ → Bool
is_ascii_alphanumeric c =
    (leb 48 c && leb c 57) || (leb 65 c && leb c 90) || (leb 97 c && leb c 122)

abbrev pub starts_with_t : Text → Bool
starts_with_t [] = false
starts_with_t (c ∷ cs) = (c == 116) && all is_ascii_alphanumeric cs

unfoldable pub check_taddress : Text → Result Status (Unit {0})
check_taddress address =
    if not ((length address == 35) && starts_with_t address) then err invalid_argument else ok tt

unfoldable pub check_taddresses : List Text → Result Status (Unit {0})
unfolding check_taddress
check_taddresses [] = ok tt
check_taddresses (address ∷ addresses) = do check_taddress address; check_taddresses addresses

-- The loop over what the client streams in.
unfoldable pub collect_streamed_from :
    List (Result Status Text) → List Text → Result Status (List Text)
unfolding check_taddress push_bounded
collect_streamed_from [] addresses = ok addresses
collect_streamed_from (item ∷ incoming) addresses = do
  address ← item
  check_taddress address
  more ← push_bounded addresses address
  collect_streamed_from incoming more

unfoldable pub collect_streamed_addresses : List (Result Status Text) → Result Status (List Text)
unfolding collect_streamed_from
collect_streamed_addresses incoming = collect_streamed_from incoming []

-- `as i32` and `as i64`.
abbrev pub as_i32 : ℤ → ℤ
as_i32 (pos n) =
    let low = n % 2 ^ 32 in if ltb low (2 ^ 31) then pos low else negsuc (2 ^ 32 - 1 - low)
as_i32 (negsuc n) =
    let low = n % 2 ^ 32 in if ltb low (2 ^ 31) then negsuc low else pos (2 ^ 32 - 1 - low)

abbrev pub as_i64 : ℕ → ℤ
as_i64 n = if ltb n (2 ^ 63) then pos n else negsuc (2 ^ 64 - 1 - n)

unfoldable pub mined_height : ℤ → ℕ
mined_height (negsuc n) = u64_max
mined_height (pos n) = n

module _ (hex : Hex) where
  unfoldable pub decode_hex : Text → Result Status Bytes
  decode_hex text = ok_or internal (hex.decode text)

  unfoldable pub utxo_reply : AddressUtxo → Result Status GetAddressUtxosReply
  unfolding display_hex_to_wire decode_hex
  utxo_reply utxo = do
    txid ← map_err (λ e. internal) (display_hex_to_wire hex utxo.txid)
    script ← decode_hex utxo.script
    ok (record {
      address = utxo.address;
      txid = txid;
      index = as_i32 utxo.output_index;
      script = script;
      value_zat = as_i64 utxo.satoshis;
      height = utxo.height;
    })

  -- The request's own bound is reached; the length is cast to `u32`.
  abbrev pub is_full : ℕ → List GetAddressUtxosReply → Bool
  is_full max_entries replies = ltb 0 max_entries && leb max_entries (length replies % 2 ^ 32)

  -- The loop over the node's outputs.
  unfoldable pub collect_from :
      ℕ
      → ℕ
      → List AddressUtxo
      → List GetAddressUtxosReply
      → Result Status (List GetAddressUtxosReply)
  unfolding utxo_reply
  collect_from start_height max_entries [] replies = ok replies
  collect_from start_height max_entries (utxo ∷ utxos) replies =
      elim (ltb utxo.height start_height) [
        | true ↦ collect_from start_height max_entries utxos replies
        | false ↦ elim (is_full max_entries replies) [
          | true ↦ ok replies
          | false ↦ do
            if leb max_address_utxos (length replies) then err resource_exhausted else ok tt
            reply ← utxo_reply utxo
            collect_from start_height max_entries utxos (replies ++ reply ∷ [])
        ]
      ]

  module _ (node : AddressNode) where
    unfoldable pub collect_utxos : GetAddressUtxosArg → Result Status (List GetAddressUtxosReply)
    unfolding check_taddresses address_query_to_status collect_from
    collect_utxos arg = do
      if ltb max_streamed_addresses (length arg.addresses) then err resource_exhausted else ok tt
      check_taddresses arg.addresses
      utxos ← map_err address_query_to_status (node.get_address_utxos arg.addresses)
      collect_from arg.start_height arg.max_entries utxos []

    abbrev pub get_address_utxos : GetAddressUtxosArg → Result Status (List GetAddressUtxosReply)
    get_address_utxos arg = collect_utxos arg

    unfoldable pub get_address_utxos_stream :
        GetAddressUtxosArg → Result Status (Stream GetAddressUtxosReply)
    unfolding collect_utxos
    get_address_utxos_stream arg = do
      replies ← collect_utxos arg
      ok (record { messages = replies; failure = none })

    abbrev query_balance : List Text → Result Status ℤ
    query_balance addresses = map_err address_query_to_status (node.get_address_balance addresses)

    unfoldable pub get_taddress_balance : List Text → Result Status ℤ
    unfolding check_taddresses address_query_to_status
    get_taddress_balance addresses = do
      if ltb max_streamed_addresses (length addresses) then err resource_exhausted else ok tt
      check_taddresses addresses
      map_err address_query_to_status (node.get_address_balance addresses)

    unfoldable pub get_taddress_balance_stream : List (Result Status Text) → Result Status ℤ
    unfolding collect_streamed_addresses address_query_to_status
    get_taddress_balance_stream incoming = do
      addresses ← collect_streamed_addresses incoming
      map_err address_query_to_status (node.get_address_balance addresses)

    abbrev pub with_deadline {ℓ} : {A : Type ℓ} → Option A → Result Status A
    with_deadline answer = ok_or deadline_exceeded answer

    abbrev pub named_end : Option ℕ → Option ℕ
    named_end (some (suc end)) = some (suc end)
    named_end _ = none

    abbrev pub pinned_end : Option ℕ → Result Status ℕ
    pinned_end (some end) = ok end
    pinned_end none = do info ← map_err from_node_error node.get_blockchain_info; ok info.blocks

    unfoldable pub resolve_range_end : Option ℕ → ℕ → Result Status ℕ
    unfolding from_node_error
    resolve_range_end requested_end start = do
      end ← pinned_end (named_end requested_end)
      if ltb start end && ltb max_taddress_block_span (end - start)
          then err invalid_argument
          else ok tt
      ok end

    unfoldable pub raw_transaction : Text → Result Status RawTransaction
    unfolding decode_hex mined_height transaction_lookup_to_status
    raw_transaction txid = do
      answer ← with_deadline (node.get_raw_transaction txid)
      raw ← map_err transaction_lookup_to_status answer
      bytes ← decode_hex raw.hex
      ok (record { data_bytes = bytes; height = mined_height raw.height })

    -- The stream over the transactions, up to the first that fails.
    unfoldable pub transactions : List Text → Stream RawTransaction
    unfolding raw_transaction
    transactions [] = record { messages = []; failure = none }
    transactions (txid ∷ txids) =
        let rest = transactions txids in
        elim (raw_transaction txid) [
          | err e ↦ record { messages = []; failure = some e }
          | ok raw ↦ record { messages = raw ∷ rest.messages; failure = rest.failure }
        ]

    abbrev pub start_of : Option ℕ × Option ℕ → Result Status ℕ
    start_of (start, end) = ok_or invalid_argument start

    unfoldable pub taddress_transactions :
        (RawTransaction → ℕ)
        → TransparentAddressBlockFilter
        → Result Status (List (List RawTransaction) × Option Status)
    unfolding check_taddress resolve_range_end transactions address_query_to_status coalesce
    taddress_transactions encoded_len filter = do
      check_taddress filter.address
      range ← ok_or invalid_argument filter.range
      start ← start_of range
      end ← resolve_range_end range.1 start
      answer ← with_deadline (node.get_address_txids (filter.address ∷ []) start end)
      txids ← map_err address_query_to_status answer
      if ltb max_taddress_txids (length txids) then err resource_exhausted else ok tt
      ok (coalesce encoded_len (transactions txids))
