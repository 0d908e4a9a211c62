-- ===== src/Errors.antt =====
-- src/service/errors.rs: which gRPC status a failure of the node, of a fetch or of the cache becomes.
use Prim.Native.Char.{code}
use lightwalletd_rs.Base.{ℕ, String, Bool, true, false, ◌&&◌, ◌||◌, [], ◌∷◌, ◌==◌, if◌then◌else◌}
use lightwalletd_rs.Base.Int.{ℤ, negsuc, ◌=ℤ◌}
use lightwalletd_rs.Cache.{CacheError}
use lightwalletd_rs.Encoding.{Text}
use lightwalletd_rs.Fetch.{
  FetchError, node, parse, unexpected_height, hash_mismatch, txid_mismatch, tx_count_mismatch,
  parse_task, window_closed,
}
use lightwalletd_rs.Node.{NodeError, overloaded, task, rpc}
use lightwalletd_rs.Status.{
  Status, unavailable, resource_exhausted, internal, out_of_range, not_found, invalid_argument,
}

abbrev pub codes : String → Text
codes String.[] = []
codes (String.◌∷◌ c s) = code c ∷ codes s

-- -8 and -5.
abbrev pub rpc_invalid_parameter : ℤ
rpc_invalid_parameter = negsuc 7

abbrev pub rpc_invalid_address_or_key : ℤ
rpc_invalid_address_or_key = negsuc 4

abbrev pub is_prefix : Text → Text → Bool
is_prefix [] text = true
is_prefix (c ∷ cs) [] = false
is_prefix (c ∷ cs) (d ∷ ds) = (c == d) && is_prefix cs ds

-- `str::contains`.
abbrev pub contains_text : Text → Text → Bool
contains_text [] pattern' = is_prefix pattern' []
contains_text (c ∷ text) pattern' = is_prefix pattern' (c ∷ text) || contains_text text pattern'

unfoldable pub from_node_error : NodeError → Status
from_node_error (overloaded class) = resource_exhausted
from_node_error task = internal
from_node_error _ = unavailable

unfoldable pub from_fetch_error : FetchError → Status
unfolding from_node_error
from_fetch_error (node e) = from_node_error e
from_fetch_error (parse e) = internal
from_fetch_error (unexpected_height requested got) = unavailable
from_fetch_error (hash_mismatch requested computed) = unavailable
from_fetch_error (txid_mismatch height index n computed) = internal
from_fetch_error (tx_count_mismatch height n computed) = internal
from_fetch_error parse_task = internal
from_fetch_error window_closed = internal

unfoldable pub from_cache_error : CacheError → Status
from_cache_error e = internal

unfoldable pub block_fetch_to_status : FetchError → ℕ → Status
unfolding from_fetch_error
block_fetch_to_status (node (rpc c message)) height =
    if c =ℤ rpc_invalid_parameter then out_of_range else from_fetch_error (node (rpc c message))
block_fetch_to_status e height = from_fetch_error e

unfoldable pub transaction_lookup_to_status : NodeError → Status
unfolding from_node_error
transaction_lookup_to_status (rpc c message) =
    if c =ℤ rpc_invalid_address_or_key then not_found else from_node_error (rpc c message)
transaction_lookup_to_status e = from_node_error e

unfoldable pub address_query_to_status : NodeError → Status
unfolding from_node_error
address_query_to_status (rpc c message) =
    if c =ℤ rpc_invalid_address_or_key
    then (if contains_text message (codes "No information available")
        then not_found
        else invalid_argument)
    else from_node_error (rpc c message)
address_query_to_status e = from_node_error e
