-- ===== src/Tests/MempoolTests.antt =====
-- The theorems about the mempool (src/service/mempool_monitor.rs, src/service/mempool.rs) at a mempool
-- of two transactions.
use lightwalletd_rs.Base.{ℕ, ◌≡◌, refl, [], ◌∷◌, map, Result, ok, none, some, false}
use lightwalletd_rs.Base.Bytes.{Bytes}
use lightwalletd_rs.Base.Int.{pos}
use lightwalletd_rs.Encoding.{Text}
use lightwalletd_rs.Fetch.{ParseError}
use lightwalletd_rs.Mempool.{
  MempoolEntry, MempoolSnapshot, MempoolNode, empty_state, refresh, is_stale, as_raw,
  get_mempool_stream,
}
use lightwalletd_rs.Mempool.Entries.{IsDeduplicated}
use lightwalletd_rs.Mempool.Monitor.{KeepsInterval, refresh-KeepsInterval}
use lightwalletd_rs.Mempool.Streams.{get_mempool_stream-Grows}
use lightwalletd_rs.Proto.{CompactTx}
use lightwalletd_rs.Tests.Codecs.{sample_hex}

abbrev bare : ℕ → CompactTx
bare index = record {
  index = index;
  txid = [];
  fee = 0;
  spends = [];
  outputs = [];
  actions = [];
  ironwood_actions = [];
  vin = [];
  vout = [];
}

abbrev parses : ℕ → Bytes → Result ParseError CompactTx
parses index bytes = ok (bare index)

abbrev one_txid : Text
one_txid = sample_hex.encode (1 ∷ [])

-- The node lists one transaction twice.
abbrev listing_node : MempoolNode
listing_node = record {
  get_blockchain_info = ok (record { chain = []; blocks = 9; bestblockhash = 7 ∷ [] });
  get_raw_mempool = ok (one_txid ∷ one_txid ∷ sample_hex.encode (2 ∷ []) ∷ []);
  get_raw_transaction = λ txid. ok (record { hex = txid; height = pos 0 });
}

empty_state-IsDeduplicated : IsDeduplicated empty_state
empty_state-IsDeduplicated = record { distinct = tt; all_seen = tt }

refresh-KeepsInterval_example :
    KeepsInterval sample_hex parses listing_node empty_state
      (refresh sample_hex parses listing_node empty_state 5).0
    × IsDeduplicated (refresh sample_hex parses listing_node empty_state 5).0
refresh-KeepsInterval_example =
    refresh-KeepsInterval sample_hex parses listing_node empty_state 5 empty_state-IsDeduplicated

abbrev entry_of : ℕ → MempoolEntry
entry_of n = record {
  txid_display = sample_hex.encode (n ∷ []);
  wire_txid = n ∷ [];
  raw = n ∷ [];
  compact = bare n;
}

abbrev first_found : MempoolSnapshot
first_found = record { tip_hash = 7 ∷ []; entries = entry_of 1 ∷ []; refreshed_at = some 3 }

abbrev then_found : MempoolSnapshot
then_found = record {
  tip_hash = 7 ∷ [];
  entries = entry_of 1 ∷ entry_of 2 ∷ [];
  refreshed_at = some 5;
}

first_found_fresh : is_stale first_found 4 ≡ false
unfolding is_stale
first_found_fresh = refl

then_found_fresh : is_stale then_found 6 ≡ false
unfolding is_stale
then_found_fresh = refl

get_mempool_stream-Grows_example :
    get_mempool_stream first_found 4 ((then_found, 6) ∷ [])
    ≡ record { messages = map as_raw (entry_of 1 ∷ entry_of 2 ∷ []); failure = none }
get_mempool_stream-Grows_example =
    get_mempool_stream-Grows (7 ∷ []) first_found 4 ((then_found, 6) ∷ []) first_found_fresh
      (refl, then_found_fresh, (entry_of 2 ∷ [], refl), refl)
