-- ===== src/Snapshot/Verify/Layers.antt =====
-- What each layer of src/snapshot/import.rs establishes when it passes.
use lightwalletd_rs.Base.{
  ℕ, ◌+◌, ◌≡◌, refl, ◌↔◌, List, [], ◌∷◌, Option, none, some, eq_of_=ᵇ, =ᵇ-refl, Result, ok, err,
  ◌>>◌, >>=-eq-ok, then_iff, ok_or, ok_or-eq-ok, length, arith,
}
use lightwalletd_rs.Proto.{CompactBlock, ChainMetadata}
use lightwalletd_rs.Snapshot.Failure.{SnapshotError, block_rejected, tree_size_check}
use lightwalletd_rs.Snapshot.Verify.{
  check_linkage, check_pool, check_pools, check_tree_sizes, check_joins, sum_of,
}

-- Each pool's cumulative tree size grows by exactly what the later block carries.
pub record TreesGrow (earlier later : CompactBlock) : Type 0 where
  pub before : ChainMetadata
  pub after : ChainMetadata
  pub before_is : earlier.chain_metadata ≡ some before
  pub after_is : later.chain_metadata ≡ some after
  pub sapling :
      after.sapling_commitment_tree_size
      ≡ before.sapling_commitment_tree_size + sum_of (λ tx. length tx.outputs) later.vtx
  pub orchard :
      after.orchard_commitment_tree_size
      ≡ before.orchard_commitment_tree_size + sum_of (λ tx. length tx.actions) later.vtx
  pub ironwood :
      after.ironwood_commitment_tree_size
      ≡ before.ironwood_commitment_tree_size + sum_of (λ tx. length tx.ironwood_actions) later.vtx

-- The later block names the earlier one, and its trees extend the earlier one's.
pub record Joins (earlier later : CompactBlock) : Type 0 where
  pub linked : later.prev_hash ≡ earlier.hash
  pub grown : TreesGrow earlier later

-- Each block joins the one before it, the first one `previous`, if there is one.
abbrev pub JoinedTo : Option CompactBlock → List CompactBlock → Type 0
JoinedTo previous [] = Unit
JoinedTo none (b ∷ bs) = JoinedTo (some b) bs
JoinedTo (some previous) (b ∷ bs) = Joins previous b × JoinedTo (some b) bs

check_pool_iff :
    (rejected : SnapshotError) (before after carried : ℕ)
    → (check_pool rejected before after carried ≡ ok tt) ↔ (after ≡ before + carried)
unfolding check_pool
check_pool_iff rejected before after carried = ground arith

-- Three checks in a row.
three_iff :
    (a b c : Result SnapshotError (Unit {0}))
    → ((a >> (b >> c)) ≡ ok tt) ↔ ((a ≡ ok tt) × (b ≡ ok tt) × (c ≡ ok tt))
three_iff (ok u) (ok v) c = (λ h. (refl, refl, h), λ (x, y, z). z)
three_iff (ok u) (err e) c = (λ h. cc, λ (x, y, z). cc)
three_iff (err e) b c = (λ h. cc, λ (x, y, z). cc)

module _ (rejected : SnapshotError) (before after : ChainMetadata) (later : CompactBlock) where
  abbrev sapling_check : Result SnapshotError (Unit {0})
  sapling_check =
      check_pool rejected before.sapling_commitment_tree_size after.sapling_commitment_tree_size
        (sum_of (λ tx. length tx.outputs) later.vtx)

  abbrev orchard_check : Result SnapshotError (Unit {0})
  orchard_check =
      check_pool rejected before.orchard_commitment_tree_size after.orchard_commitment_tree_size
        (sum_of (λ tx. length tx.actions) later.vtx)

  abbrev ironwood_check : Result SnapshotError (Unit {0})
  ironwood_check =
      check_pool rejected before.ironwood_commitment_tree_size after.ironwood_commitment_tree_size
        (sum_of (λ tx. length tx.ironwood_actions) later.vtx)

  check_pools_iff :
      (check_pools rejected before after later ≡ ok tt)
      ↔ ((sapling_check ≡ ok tt) × (orchard_check ≡ ok tt) × (ironwood_check ≡ ok tt))
  unfolding check_pools
  check_pools_iff = three_iff sapling_check orchard_check ironwood_check

pub check_tree_sizes_iff :
    (epoch : ℕ) (earlier later : CompactBlock)
    → (check_tree_sizes epoch earlier later ≡ ok tt) ↔ TreesGrow earlier later
unfolding check_tree_sizes
check_tree_sizes_iff epoch earlier later =
    let rejected = block_rejected epoch later.height tree_size_check in
    (
      λ h.
          let (before, before_is, h₁) = >>=-eq-ok (ok_or rejected earlier.chain_metadata) _ h in
          let (after, after_is, h₂) = >>=-eq-ok (ok_or rejected later.chain_metadata) _ h₁ in
          let (sapling, orchard, ironwood) = (check_pools_iff rejected before after later).0 h₂ in
          record {
            before = before;
            after = after;
            before_is = ok_or-eq-ok rejected earlier.chain_metadata before before_is;
            after_is = ok_or-eq-ok rejected later.chain_metadata after after_is;
            sapling = (check_pool_iff rejected _ _ _).0 sapling;
            orchard = (check_pool_iff rejected _ _ _).0 orchard;
            ironwood = (check_pool_iff rejected _ _ _).0 ironwood;
          },
      λ t.
          rw (check_tree_sizes, t.before_is, t.after_is)
            ((check_pools_iff rejected t.before t.after later).1 (
              (check_pool_iff rejected _ _ _).1 t.sapling,
              (check_pool_iff rejected _ _ _).1 t.orchard,
              (check_pool_iff rejected _ _ _).1 t.ironwood,
            )),
    )

check_linkage_iff :
    (epoch : ℕ) (earlier later : CompactBlock)
    → (check_linkage epoch earlier later ≡ ok tt) ↔ (later.prev_hash ≡ earlier.hash)
unfolding check_linkage
check_linkage_iff epoch earlier later = (
  λ h. eq_of_=ᵇ later.prev_hash earlier.hash (ground arith),
  λ same. rw same (rw (=ᵇ-refl earlier.hash) refl),
)

pub check_joins_iff :
    (epoch : ℕ) (earlier later : CompactBlock)
    → (check_joins epoch (some earlier) later ≡ ok tt) ↔ Joins earlier later
unfolding check_joins
check_joins_iff epoch earlier later =
    let both =
      then_iff (check_linkage epoch earlier later) (check_tree_sizes epoch earlier later) tt in
    (
      λ h.
          let (linked, grown) = both.0 h in
          record {
            linked = (check_linkage_iff epoch earlier later).0 linked;
            grown = (check_tree_sizes_iff epoch earlier later).0 grown;
          },
      λ j. both.1 (
        (check_linkage_iff epoch earlier later).1 j.linked,
        (check_tree_sizes_iff epoch earlier later).1 j.grown,
      ),
    )
