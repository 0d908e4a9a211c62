-- ===== src/Filter/Blocks.antt =====
-- What is left of a block after the filters of src/filter.rs.
use lightwalletd_rs.Base.{
  ◌≡◌, ◌≢◌, refl, ap, sym, ◌∙◌, Bool, true, false, not, ◌||◌, List, [], ◌∷◌, map, filter, is_empty,
  arith, Bool-cases, inl, inr, All, ◌⊎◌,
}
use lightwalletd_rs.Filter.{
  Pools, clear_unless, filter_tx_to_pools, has_components, filter_block_to_pools,
}
use lightwalletd_rs.Proto.{CompactTx, CompactBlock}

-- A transaction has nothing of the pools that were not asked for.
pub record IsPruned (pools : Pools) (tx : CompactTx) : Type 0 where
  pub sapling_part : (pools.sapling ≡ true) ⊎ ((tx.spends ≡ []) × (tx.outputs ≡ []))
  pub orchard_part : (pools.orchard ≡ true) ⊎ (tx.actions ≡ [])
  pub ironwood_part : (pools.ironwood ≡ true) ⊎ (tx.ironwood_actions ≡ [])
  pub transparent_part : (pools.transparent ≡ true) ⊎ ((tx.vin ≡ []) × (tx.vout ≡ []))

cleared {ℓ} : {A : Type ℓ} (keep : Bool) (l : List A) → (keep ≡ true) ⊎ (clear_unless keep l ≡ [])
cleared true l = inl refl
cleared false l = inr refl

both_cleared {ℓ κ} :
    {A : Type ℓ} {B : Type κ} (keep : Bool) (l : List A) (m : List B)
    → (keep ≡ true) ⊎ ((clear_unless keep l ≡ []) × (clear_unless keep m ≡ []))
both_cleared true l m = inl refl
both_cleared false l m = inr (refl, refl)

filter_tx_to_pools-IsPruned :
    (tx : CompactTx) (pools : Pools) → IsPruned pools (filter_tx_to_pools tx pools)
unfolding filter_tx_to_pools
filter_tx_to_pools-IsPruned tx pools = record {
  sapling_part = both_cleared pools.sapling tx.spends tx.outputs;
  orchard_part = cleared pools.orchard tx.actions;
  ironwood_part = cleared pools.ironwood tx.ironwood_actions;
  transparent_part = both_cleared pools.transparent tx.vin tx.vout;
}

-- A transaction has a component left.
abbrev pub HasSome : CompactTx → Type 0
HasSome tx =
    (tx.spends ≢ [])
    ⊎ ((tx.outputs ≢ [])
        ⊎ ((tx.actions ≢ []) ⊎ ((tx.ironwood_actions ≢ []) ⊎ ((tx.vin ≢ []) ⊎ (tx.vout ≢ [])))))

-- A list of an asked pool is kept, and one of another pool is emptied.
abbrev pub Kept {ℓ} : {A : Type ℓ} → Bool → List A → List A → Type ℓ
Kept true before after = after ≡ before
Kept false before after = after ≡ []

-- The second transaction is the first with the lists of the asked pools alone.
pub record Restricts (pools : Pools) (tx tx' : CompactTx) : Type 0 where
  pub same_index : tx'.index ≡ tx.index
  pub same_txid : tx'.txid ≡ tx.txid
  pub same_fee : tx'.fee ≡ tx.fee
  pub spends_kept : Kept pools.sapling tx.spends tx'.spends
  pub outputs_kept : Kept pools.sapling tx.outputs tx'.outputs
  pub actions_kept : Kept pools.orchard tx.actions tx'.actions
  pub ironwood_actions_kept : Kept pools.ironwood tx.ironwood_actions tx'.ironwood_actions
  pub vin_kept : Kept pools.transparent tx.vin tx'.vin
  pub vout_kept : Kept pools.transparent tx.vout tx'.vout

-- The second list has, in order, the restrictions of the first's transactions, without those that have
-- nothing left.
pub data Prunes (pools : Pools) : List CompactTx → List CompactTx → Type 0 where
  none_left : Prunes pools [] []
  keeps :
      {tx tx' : CompactTx} {txs txs' : List CompactTx}
      → Restricts pools tx tx'
      → HasSome tx'
      → Prunes pools txs txs'
      → Prunes pools (tx ∷ txs) (tx' ∷ txs')
  drops :
      {tx tx' : CompactTx} {txs txs' : List CompactTx}
      → Restricts pools tx tx'
      → (HasSome tx' → ⊥)
      → Prunes pools txs txs'
      → Prunes pools (tx ∷ txs) txs'

clear_unless-Kept {ℓ} : {A : Type ℓ} (keep : Bool) (l : List A) → Kept keep l (clear_unless keep l)
clear_unless-Kept true l = refl
clear_unless-Kept false l = refl

filter_tx_to_pools-Restricts :
    (tx : CompactTx) (pools : Pools) → Restricts pools tx (filter_tx_to_pools tx pools)
unfolding filter_tx_to_pools
filter_tx_to_pools-Restricts tx pools = record {
  same_index = refl;
  same_txid = refl;
  same_fee = refl;
  spends_kept = clear_unless-Kept pools.sapling tx.spends;
  outputs_kept = clear_unless-Kept pools.sapling tx.outputs;
  actions_kept = clear_unless-Kept pools.orchard tx.actions;
  ironwood_actions_kept = clear_unless-Kept pools.ironwood tx.ironwood_actions;
  vin_kept = clear_unless-Kept pools.transparent tx.vin;
  vout_kept = clear_unless-Kept pools.transparent tx.vout;
}

is_empty_nil {ℓ} : {A : Type ℓ} (l : List A) → is_empty l ≡ true → l ≡ []
is_empty_nil [] h = refl
is_empty_nil (x ∷ l) h = cc

-- A test on whether there is an element, with what is known if there is none.
or_else {ℓ κ} :
    {A : Type ℓ} {P : Type κ} (l : List A) (rest : Bool)
    → (rest ≡ true → P)
    → (not (is_empty l) || rest) ≡ true
    → (l ≢ []) ⊎ P
or_else [] rest more h = inr (more h)
or_else (x ∷ l) rest more h = inl (λ e. cc)

not_empty {ℓ} : {A : Type ℓ} (l : List A) → not (is_empty l) ≡ true → l ≢ []
not_empty [] h = cc
not_empty (x ∷ l) h = λ e. cc

nor_else {ℓ} :
    {A : Type ℓ} (l : List A) (rest : Bool)
    → (not (is_empty l) || rest) ≡ false
    → (l ≡ []) × (rest ≡ false)
nor_else [] rest h = (refl, h)
nor_else (x ∷ l) rest h = cc

-- The tests of `has_components`, read from the left.
nested : (a b c d e f : Bool) → (a || b || c || d || e || f) ≡ (a || (b || (c || (d || (e || f)))))
nested true b c d e f = refl
nested false true c d e f = refl
nested false false true d e f = refl
nested false false false true e f = refl
nested false false false false e f = refl

components_nested :
    (tx : CompactTx)
    → has_components tx ≡ (
        not (is_empty tx.spends)
        || (not (is_empty tx.outputs)
            || (not (is_empty tx.actions)
                || (not (is_empty tx.ironwood_actions)
                    || (not (is_empty tx.vin) || not (is_empty tx.vout))))))
components_nested tx =
    nested (not (is_empty tx.spends)) (not (is_empty tx.outputs)) (not (is_empty tx.actions))
      (not (is_empty tx.ironwood_actions)) (not (is_empty tx.vin)) (not (is_empty tx.vout))

has_components-HasSome : (tx : CompactTx) → has_components tx ≡ true → HasSome tx
has_components-HasSome tx h =
    or_else tx.spends _
      (or_else tx.outputs _ (
        or_else tx.actions _
          (or_else tx.ironwood_actions _ (or_else tx.vin _ (not_empty tx.vout)))))
      (sym (components_nested tx) ∙ h)

no_components : (tx : CompactTx) → has_components tx ≡ false → HasSome tx → ⊥
no_components tx h some_left =
    let (spends, h1) = nor_else tx.spends _ (sym (components_nested tx) ∙ h) in
    let (outputs, h2) = nor_else tx.outputs _ h1 in
    let (actions, h3) = nor_else tx.actions _ h2 in
    let (ironwood, h4) = nor_else tx.ironwood_actions _ h3 in
    let (vin, h5) = nor_else tx.vin _ h4 in
    let vout : tx.vout ≡ [] = is_empty_nil tx.vout (ground arith) in
    ground (arith, spends, outputs, actions, ironwood, vin, vout, some_left)

IsPruned-list :
    (pools : Pools) (txs : List CompactTx)
    → (let left = filter has_components (map (λ tx. filter_tx_to_pools tx pools) txs) in
        All (λ tx. IsPruned pools tx × HasSome tx) left × Prunes pools txs left)
IsPruned-list pools [] = (tt, none_left)
IsPruned-list pools (tx ∷ txs) =
    let tx' = filter_tx_to_pools tx pools in
    let (all, prunes) = IsPruned-list pools txs in
    let restricts = filter_tx_to_pools-Restricts tx pools in
    elim (Bool-cases (has_components tx')) [
      | inl kept ↦
          let some_left = has_components-HasSome tx' kept in
          rw kept (
            ((filter_tx_to_pools-IsPruned tx pools, some_left), all),
            keeps restricts some_left prunes,
          )
      | inr dropped ↦ rw dropped (all, drops restricts (no_components tx' dropped) prunes)
    ]

-- Every transaction that the filter leaves holds nothing of a pool that was not asked for, and has at
-- least one component. What is left is, in the order of the block, every transaction of the block with
-- its components of the asked pools and its index, txid and fee, except for those that have none of
-- these components.
pub filter_block_to_pools-IsPruned :
    (block : CompactBlock) (pools : Pools)
    → All (λ tx. IsPruned pools tx × HasSome tx) (filter_block_to_pools block pools).vtx
      × Prunes pools block.vtx (filter_block_to_pools block pools).vtx
unfolding filter_block_to_pools
filter_block_to_pools-IsPruned block pools = IsPruned-list pools block.vtx

filter_tx_to_pools_idem :
    (tx : CompactTx) (pools : Pools)
    → filter_tx_to_pools (filter_tx_to_pools tx pools) pools ≡ filter_tx_to_pools tx pools
unfolding filter_tx_to_pools
filter_tx_to_pools_idem tx pools = λ i. record tx {
  spends = clear_twice pools.sapling tx.spends i;
  outputs = clear_twice pools.sapling tx.outputs i;
  actions = clear_twice pools.orchard tx.actions i;
  ironwood_actions = clear_twice pools.ironwood tx.ironwood_actions i;
  vin = clear_twice pools.transparent tx.vin i;
  vout = clear_twice pools.transparent tx.vout i;
}
  where
    clear_twice :
        {A : Type 0} (keep : Bool) (l : List A)
        → clear_unless keep (clear_unless keep l) ≡ clear_unless keep l
    clear_twice true l = refl
    clear_twice false l = refl

filter_list_idem :
    (pools : Pools) (txs : List CompactTx)
    → filter has_components (
        map
          (λ tx. filter_tx_to_pools tx pools)
          (filter has_components (map (λ tx. filter_tx_to_pools tx pools) txs)))
      ≡ filter has_components (map (λ tx. filter_tx_to_pools tx pools) txs)
filter_list_idem pools [] = refl
filter_list_idem pools (tx ∷ txs) =
    elim (Bool-cases (has_components (filter_tx_to_pools tx pools))) [
      | inl kept ↦ rw kept (
          rw (filter_tx_to_pools_idem tx pools, kept)
            (ap (◌∷◌ (filter_tx_to_pools tx pools)) (filter_list_idem pools txs)))
      | inr dropped ↦ rw dropped (filter_list_idem pools txs)
    ]

-- Filtering a filtered block for the same pools changes nothing.
pub filter_block_to_pools_idem :
    (block : CompactBlock) (pools : Pools)
    → filter_block_to_pools (filter_block_to_pools block pools) pools
      ≡ filter_block_to_pools block pools
unfolding filter_block_to_pools
filter_block_to_pools_idem block pools =
    λ i. record block { vtx = filter_list_idem pools block.vtx i }
