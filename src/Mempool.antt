-- ===== src/Mempool.antt =====
-- src/service/mempool_monitor.rs and src/service/mempool.rs: the shared snapshot of the node's mempool
-- and the stream of its transactions. The node's answers and the parser of a transaction are
-- parameters. Times are in nanoseconds.
pub mod Entries
pub mod Monitor
pub mod Streams
use lightwalletd_rs.Base.{
  ℕ, zero, suc, ◌+◌, ◌-◌, ◌*◌, List, [], ◌∷◌, ◌++◌, map, Bool, true, false, not, ◌&&◌, ◌||◌, Option,
  none, some, ltb, ◌==◌, ◌=ᵇ◌, if◌then◌else◌, Result, ok, err, ◌>>=◌, ok_or, map_err, length, drop,
  any, is_empty,
}
use lightwalletd_rs.Addresses.{GetRawTransaction, RawTransaction}
use lightwalletd_rs.Base.Bytes.{Bytes}
use lightwalletd_rs.Base.Int.{ℤ, pos, ◌=ℤ◌}
use lightwalletd_rs.Encoding.{Text, Hex, display_hex_to_wire}
use lightwalletd_rs.Fetch.{ParseError}
use lightwalletd_rs.Framing.{Stream}
use lightwalletd_rs.Node.{NodeError, GetBlockchainInfo}
use lightwalletd_rs.Proto.{CompactTx}
use lightwalletd_rs.Status.{Status, unavailable}

abbrev pub staleness_cutoff : ℕ
staleness_cutoff = 60 * 1000000000

pub record MempoolEntry : Type 0 where
  pub txid_display : Text
  pub wire_txid : Bytes
  pub raw : Bytes
  pub compact : CompactTx

pub record MempoolSnapshot : Type 0 where
  pub tip_hash : Text
  pub entries : List MempoolEntry
  pub refreshed_at : Option ℕ

-- `duration_since` stops at 0.
unfoldable pub is_stale : MempoolSnapshot → ℕ → Bool
is_stale snapshot now = elim snapshot.refreshed_at [
  | none ↦ true
  | some at ↦ ltb staleness_cutoff (now - at)
]

pub data RefreshError : Type 0 where
  refresh_node : NodeError → RefreshError
  refresh_hex : RefreshError
  refresh_parse : ParseError → RefreshError

pub record MonitorState : Type 0 where
  pub tip_hash : Text
  pub seen : List Text
  pub entries : List MempoolEntry

abbrev pub empty_state : MonitorState
empty_state = record { tip_hash = []; seen = []; entries = [] }

-- What the node answers during one refresh.
pub record MempoolNode : Type 0 where
  pub get_blockchain_info : Result NodeError GetBlockchainInfo
  pub get_raw_mempool : Result NodeError (List Text)
  pub get_raw_transaction : Text → Result NodeError GetRawTransaction

abbrev pub has_seen : List Text → Text → Bool
has_seen seen txid = any (λ t. t =ᵇ txid) seen

-- A new block starts a new interval.
abbrev pub start_interval : MonitorState → Text → MonitorState
start_interval st tip =
    if tip =ᵇ st.tip_hash then st else record { tip_hash = tip; seen = []; entries = [] }

module _ (hex : Hex) (parse : ℕ → Bytes → Result ParseError CompactTx) where
  unfoldable pub build_entry : ℕ → Text → GetRawTransaction → Result RefreshError MempoolEntry
  unfolding display_hex_to_wire
  build_entry index txid raw = do
    bytes ← ok_or refresh_hex (hex.decode raw.hex)
    wire_txid ← map_err (λ e. refresh_hex) (display_hex_to_wire hex txid)
    compact ← map_err refresh_parse (parse index bytes)
    ok (record { txid_display = txid; wire_txid = wire_txid; raw = bytes; compact = compact })

  abbrev pub push_entry :
      MonitorState
      → Result RefreshError MempoolEntry
      → MonitorState × Result RefreshError (Unit {0})
  push_entry st (err e) = (st, err e)
  push_entry st (ok entry) = (record st { entries = st.entries ++ entry ∷ [] }, ok tt)

  -- The rest of the loop's body for a fetched transaction, which is marked as seen.
  unfoldable pub add_fetched :
      MonitorState → Text → GetRawTransaction → MonitorState × Result RefreshError (Unit {0})
  unfolding build_entry
  add_fetched st txid raw =
      let marked : MonitorState = record st { seen = txid ∷ st.seen } in
      if not (raw.height =ℤ pos 0)
      then (marked, ok tt)
      else push_entry marked (build_entry (length st.entries) txid raw)

  unfoldable pub fetch_one :
      MempoolNode → MonitorState → Text → MonitorState × Result RefreshError (Unit {0})
  unfolding add_fetched
  fetch_one node st txid = elim (has_seen st.seen txid) [
    | true ↦ (st, ok tt)
    | false ↦ elim (node.get_raw_transaction txid) [
      | err e ↦ (st, ok tt)
      | ok raw ↦ add_fetched st txid raw
    ]
  ]

  -- The loop over the node's mempool; what it changed stays when a transaction fails it.
  unfoldable pub fetch_all :
      MempoolNode → List Text → MonitorState → MonitorState × Result RefreshError (Unit {0})
  unfolding fetch_one
  fetch_all node [] st = (st, ok tt)
  fetch_all node (txid ∷ txids) st = elim (fetch_one node st txid).1 [
    | err e ↦ ((fetch_one node st txid).0, err e)
    | ok u ↦ fetch_all node txids (fetch_one node st txid).0
  ]

  abbrev pub snapshot_of :
      ℕ
      → MonitorState × Result RefreshError (Unit {0})
      → MonitorState × Result RefreshError MempoolSnapshot
  snapshot_of now (st, err e) = (st, err e)
  snapshot_of now (st, ok u) =
      (st, ok (record { tip_hash = st.tip_hash; entries = st.entries; refreshed_at = some now }))

  abbrev pub list_mempool :
      MempoolNode
      → ℕ
      → MonitorState
      → Result NodeError (List Text)
      → MonitorState × Result RefreshError MempoolSnapshot
  list_mempool node now st (err e) = (st, err (refresh_node e))
  list_mempool node now st (ok txids) = snapshot_of now (fetch_all node txids st)

  unfoldable pub refresh :
      MempoolNode → MonitorState → ℕ → MonitorState × Result RefreshError MempoolSnapshot
  unfolding fetch_all
  refresh node st now = elim node.get_blockchain_info [
    | err e ↦ (st, err (refresh_node e))
    | ok info ↦ list_mempool node now (start_interval st info.bestblockhash) node.get_raw_mempool
  ]

-- A mempool transaction is reported with height 0.
abbrev pub as_raw : MempoolEntry → RawTransaction
as_raw entry = record { data_bytes = entry.raw; height = 0 }

unfoldable pub check_stale : MempoolSnapshot → ℕ → Result Status (Unit {0})
unfolding is_stale
check_stale snapshot now = if is_stale snapshot now then err unavailable else ok tt

-- The loop of the stream, over the snapshots that its wakes find and the times of the wakes. The stream
-- goes on for as long as its client stays, so what is modelled is what it has sent after these wakes.
unfoldable pub stream_from :
    Text → ℕ → MempoolSnapshot → List (MempoolSnapshot × ℕ) → Stream RawTransaction
unfolding check_stale
stream_from start_tip sent snapshot [] =
    if not (is_empty start_tip) && not (snapshot.tip_hash =ᵇ start_tip)
    then record { messages = []; failure = none }
    else record { messages = map as_raw (drop sent snapshot.entries); failure = none }
stream_from start_tip sent snapshot ((found, now) ∷ wakes) =
    let tip = if is_empty start_tip then snapshot.tip_hash else start_tip in
    let messages = map as_raw (drop sent snapshot.entries) in
    let rest = stream_from tip (length snapshot.entries) found wakes in
    if not (is_empty start_tip) && not (snapshot.tip_hash =ᵇ start_tip)
    then record { messages = []; failure = none }
    else elim (check_stale found now) [
      | err e ↦ record { messages = messages; failure = some e }
      | ok u ↦ record { messages = messages ++ rest.messages; failure = rest.failure }
    ]

unfoldable pub get_mempool_stream :
    MempoolSnapshot → ℕ → List (MempoolSnapshot × ℕ) → Stream RawTransaction
unfolding check_stale stream_from
get_mempool_stream snapshot now wakes = elim (check_stale snapshot now) [
  | err e ↦ record { messages = []; failure = some e }
  | ok u ↦ stream_from [] 0 snapshot wakes
]
