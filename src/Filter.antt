-- ===== src/Filter.antt =====
-- src/filter.rs: pruning a compact block to the requested value pools, and to nullifiers.
pub mod Requests
pub mod Blocks
pub mod Nullifiers
use lightwalletd_rs.Base.{
  ℕ, Bool, true, false, not, ◌&&◌, ◌||◌, Option, none, some, List, [], ◌∷◌, map, ltb, if◌then◌else◌,
  Result, ok, err, length, is_empty, any, all, filter,
}
use lightwalletd_rs.Base.Int.{ℤ, pos, ◌=ℤ◌}
use lightwalletd_rs.Proto.{ChainMetadata, CompactTx, CompactBlock, CompactOrchardAction}
use lightwalletd_rs.Status.{Status, resource_exhausted, invalid_argument}

-- The values of `PoolType`, an open protobuf enum: a request may carry any `i32`.
abbrev pub pool_invalid : ℤ
pool_invalid = pos 0

abbrev pub pool_transparent : ℤ
pool_transparent = pos 1

abbrev pub pool_sapling : ℤ
pool_sapling = pos 2

abbrev pub pool_orchard : ℤ
pool_orchard = pos 3

abbrev pub pool_ironwood : ℤ
pool_ironwood = pos 4

pub record Pools : Type 0 where
  pub transparent : Bool
  pub sapling : Bool
  pub orchard : Bool
  pub ironwood : Bool

abbrev pub contains : List ℤ → ℤ → Bool
contains pool_types p = any (λ q. q =ℤ p) pool_types

unfoldable pub resolve : List ℤ → Bool → Bool → Pools
resolve pool_types transparent defaults_to_shielded = record {
  transparent = transparent;
  sapling = defaults_to_shielded || contains pool_types pool_sapling;
  orchard = defaults_to_shielded || contains pool_types pool_orchard;
  ironwood = defaults_to_shielded || contains pool_types pool_ironwood;
}

unfoldable pub from_pool_types : List ℤ → Pools
unfolding resolve
from_pool_types pool_types =
    resolve pool_types (contains pool_types pool_transparent) (is_empty pool_types)

unfoldable pub from_pool_types_dropping_transparent : List ℤ → Pools
unfolding resolve
from_pool_types_dropping_transparent pool_types =
    resolve pool_types false (all (λ q. q =ℤ pool_transparent) pool_types)

abbrev pub max_pool_types : ℕ
max_pool_types = 16

unfoldable pub validate_pool_types : List ℤ → Result Status (Unit {0})
validate_pool_types pool_types =
    if ltb max_pool_types (length pool_types)
    then err resource_exhausted
    else if contains pool_types pool_invalid
    then err invalid_argument
    else ok tt

abbrev pub clear_unless {ℓ} : {A : Type ℓ} → Bool → List A → List A
clear_unless keep l = if not keep then [] else l

unfoldable pub filter_tx_to_pools : CompactTx → Pools → CompactTx
filter_tx_to_pools tx pools = record tx {
  spends = clear_unless pools.sapling tx.spends;
  outputs = clear_unless pools.sapling tx.outputs;
  actions = clear_unless pools.orchard tx.actions;
  ironwood_actions = clear_unless pools.ironwood tx.ironwood_actions;
  vin = clear_unless pools.transparent tx.vin;
  vout = clear_unless pools.transparent tx.vout;
}

-- The test of `retain`.
abbrev pub has_components : CompactTx → Bool
has_components tx =
    not (is_empty tx.spends)
    || not (is_empty tx.outputs)
    || not (is_empty tx.actions)
    || not (is_empty tx.ironwood_actions)
    || not (is_empty tx.vin)
    || not (is_empty tx.vout)

unfoldable pub filter_block_to_pools : CompactBlock → Pools → CompactBlock
unfolding filter_tx_to_pools
filter_block_to_pools block pools = record block {
  vtx = filter has_components (map (λ tx. filter_tx_to_pools tx pools) block.vtx);
}

abbrev pub bare_action : CompactOrchardAction → CompactOrchardAction
bare_action action = record action { cmx = []; ephemeral_key = []; ciphertext = [] }

abbrev pub bare_tx : CompactTx → CompactTx
bare_tx tx = record tx {
  outputs = [];
  vin = [];
  vout = [];
  actions = map bare_action tx.actions;
  ironwood_actions = map bare_action tx.ironwood_actions;
}

abbrev pub zero_sizes : Option ChainMetadata → Option ChainMetadata
zero_sizes none = none
zero_sizes (some m) = some (record {
  sapling_commitment_tree_size = 0;
  orchard_commitment_tree_size = 0;
  ironwood_commitment_tree_size = 0;
})

unfoldable pub nullifiers_only : CompactBlock → CompactBlock
nullifiers_only block = record block {
  chain_metadata = zero_sizes block.chain_metadata;
  vtx = map bare_tx block.vtx;
}

unfoldable pub filter_block_to_pools_nullifiers_only : CompactBlock → Pools → CompactBlock
unfolding filter_block_to_pools nullifiers_only
filter_block_to_pools_nullifiers_only block pools =
    nullifiers_only (filter_block_to_pools block pools)
