-- ===== src/Filter/Nullifiers.antt =====
-- What the nullifier variant of src/filter.rs leaves of a block.
use lightwalletd_rs.Base.{ℕ, ◌≡◌, refl, ap, List, [], ◌∷◌, map, All}
use lightwalletd_rs.Base.Bytes.{Bytes}
use lightwalletd_rs.Filter.{
  Pools, filter_block_to_pools, bare_action, bare_tx, filter_block_to_pools_nullifiers_only,
}
use lightwalletd_rs.Proto.{CompactTx, CompactBlock, CompactOrchardAction}

-- What a wallet scans for: the nullifiers of a transaction, by pool.
abbrev pub nullifiers : CompactTx → List Bytes × List Bytes × List Bytes
nullifiers tx = (
  map (λ s. s.nf) tx.spends,
  map (λ a. a.nullifier) tx.actions,
  map (λ a. a.nullifier) tx.ironwood_actions,
)

-- An action with its nullifier alone.
abbrev pub IsBare : CompactOrchardAction → Type 0
IsBare a = (a.cmx ≡ []) × (a.ephemeral_key ≡ []) × (a.ciphertext ≡ [])

-- A transaction with nothing but nullifiers.
pub record IsBareTx (tx : CompactTx) : Type 0 where
  pub no_outputs : tx.outputs ≡ []
  pub no_vin : tx.vin ≡ []
  pub no_vout : tx.vout ≡ []
  pub bare_actions : All IsBare tx.actions
  pub bare_ironwood_actions : All IsBare tx.ironwood_actions

IsBare-list : (l : List CompactOrchardAction) → All IsBare (map bare_action l)
IsBare-list [] = tt
IsBare-list (a ∷ l) = ((refl, refl, refl), IsBare-list l)

bare_nullifiers :
    (l : List CompactOrchardAction)
    → map (λ a. a.nullifier) (map bare_action l) ≡ map (λ a. a.nullifier) l
bare_nullifiers [] = refl
bare_nullifiers (a ∷ l) = ap (◌∷◌ a.nullifier) (bare_nullifiers l)

bare_txs : (txs : List CompactTx) → All IsBareTx (map bare_tx txs)
bare_txs [] = tt
bare_txs (tx ∷ txs) = (
  record {
    no_outputs = refl;
    no_vin = refl;
    no_vout = refl;
    bare_actions = IsBare-list tx.actions;
    bare_ironwood_actions = IsBare-list tx.ironwood_actions;
  },
  bare_txs txs,
)

-- What names a transaction: its index, its txid and its fee.
abbrev pub identity : CompactTx → ℕ × Bytes × ℕ
identity tx = (tx.index, tx.txid, tx.fee)

bare_txs-identity : (txs : List CompactTx) → map identity (map bare_tx txs) ≡ map identity txs
bare_txs-identity [] = refl
bare_txs-identity (tx ∷ txs) = ap (◌∷◌ (identity tx)) (bare_txs-identity txs)

bare_txs-nullifiers : (txs : List CompactTx) → map nullifiers (map bare_tx txs) ≡ map nullifiers txs
bare_txs-nullifiers [] = refl
bare_txs-nullifiers (tx ∷ txs) = λ i.
    ((
      map (λ s. s.nf) tx.spends,
      bare_nullifiers tx.actions i,
      bare_nullifiers tx.ironwood_actions i,
    )
      ∷ bare_txs-nullifiers txs i)

-- The nullifier variant of the range call leaves the same transactions as the plain one, in the same
-- order: each has the index, the txid, the fee and the nullifiers that it has there, no outputs and no
-- transparent part, and of its actions nothing but the nullifiers. The block keeps its height, hashes
-- and time.
pub nullifiers_only_exact :
    (block : CompactBlock) (pools : Pools)
    → (map identity (filter_block_to_pools_nullifiers_only block pools).vtx
        ≡ map identity (filter_block_to_pools block pools).vtx)
      × (map nullifiers (filter_block_to_pools_nullifiers_only block pools).vtx
          ≡ map nullifiers (filter_block_to_pools block pools).vtx)
      × All IsBareTx (filter_block_to_pools_nullifiers_only block pools).vtx
      × ((filter_block_to_pools_nullifiers_only block pools).height ≡ block.height)
      × ((filter_block_to_pools_nullifiers_only block pools).hash ≡ block.hash)
      × ((filter_block_to_pools_nullifiers_only block pools).prev_hash ≡ block.prev_hash)
      × ((filter_block_to_pools_nullifiers_only block pools).time ≡ block.time)
unfolding filter_block_to_pools_nullifiers_only
nullifiers_only_exact block pools =
    (bare_txs-identity _, bare_txs-nullifiers _, bare_txs _, refl, refl, refl, refl)
