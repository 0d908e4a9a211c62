-- ===== src/Snapshot/Import/Chains.antt =====
-- What an import (`import` of src/snapshot/import.rs) does to a cache that holds a chain.
use mathlib.Core.Path.{subst}
use lightwalletd_rs.Base.{
  ℕ, ◌+◌, ◌<◌, ◌≡◌, refl, ap, sym, ◌⊎◌, List, [], ◌∷◌, ◌++◌, append_assoc, append-nil, Bool, Option,
  none, some, Result, ok, err, length, All-append, arith, u64_max, inl, inr, Result-cases,
  >>=-eq-ok, then_iff, ok_injective, map_err, map_err-eq-ok,
}
use lightwalletd_rs.Base.Bytes.{Bytes}
use lightwalletd_rs.Cache.Chain.{IsChain, Consecutive-last_lt}
use lightwalletd_rs.Cache.{Cache, latest_height}
use lightwalletd_rs.Encoding.{Text, Hex}
use lightwalletd_rs.Node.{Node, GetBlockchainInfo}
use lightwalletd_rs.Proto.{CompactBlock, Codec, IsCodec}
use lightwalletd_rs.Snapshot.Failure.{SnapshotError, gap, node_error}
use lightwalletd_rs.Snapshot.Import.Arrivals.{Anchored, JoinedTo-append, last_or, last_or-append}
use lightwalletd_rs.Snapshot.Import.Epochs.{Extends, turn-arrives, import_epoch-Extends}
use lightwalletd_rs.Snapshot.Import.Junction.{latest_height-IsChain}
use lightwalletd_rs.Snapshot.Import.{
  EpochSource, Turn, held, leaves_gap, beyond_node, arrives, next_height, turn, import_epoch,
  import_epochs, prepare, import_snapshot,
}
use lightwalletd_rs.Snapshot.Manifest.{EpochEntry, Manifest, validate_manifest}
use lightwalletd_rs.Snapshot.Verify.Anchor.{AnswersBy}

module _ (codec : Codec) (hex : Hex) (hash_of : ℕ → Text) where
  Extends-refl :
      (c : Cache) (from : ℕ) (bs : List CompactBlock)
      → IsChain codec c from bs
      → Extends codec hex hash_of bs c
  Extends-refl c from bs chain = record {
    from = from;
    added = [];
    chain = rw (append-nil bs) chain;
    joined = tt;
    anchored = tt;
  }

  Extends-trans :
      (c c' : Cache) (bs : List CompactBlock) (first : Extends codec hex hash_of bs c)
      → Extends codec hex hash_of (bs ++ first.added) c'
      → Extends codec hex hash_of bs c'
  Extends-trans c c' bs first second = record {
    from = second.from;
    added = first.added ++ second.added;
    chain = rw (append_assoc bs first.added second.added) at second.chain;
    joined =
        JoinedTo-append (last_or none bs) first.added second.added first.joined
          (rw (last_or-append none bs first.added) at second.joined);
    anchored =
        All-append (Anchored hex hash_of) first.added second.added first.anchored second.anchored;
  }

-- What is returned, unless it is an error, is how far the cache reaches afterwards.
abbrev pub Reports : Cache × Result SnapshotError (Option ℕ) → Type 0
Reports (c, result) = ((e : SnapshotError) × (result ≡ err e)) ⊎ (result ≡ ok (latest_height c))

-- The height after the tip of a chain.
next_of_tip :
    (codec : Codec) (c : Cache) (from : ℕ) (bs : List CompactBlock) (entry : EpochEntry)
    → IsChain codec c from bs
    → (bs ≡ []) ⊎ (next_height (latest_height c) entry ≡ from + length bs)
next_of_tip codec c from [] entry chain = inl refl
next_of_tip codec c from (b ∷ bs) entry chain =
    let tip = latest_height-IsChain codec c from b bs chain in
    let low = Consecutive-last_lt from b bs chain.run in inr (rw tip (omega arith))

module _ (codec : Codec) (lawful : IsCodec codec) (hex : Hex) (sha256 : Bytes → Bytes)
    (is_utf8 : Bytes → Bool) (source : EpochSource) (node : Node) (hash_of : ℕ → Text)
    (answers : AnswersBy node hash_of) where
  import_epochs-Extends :
      (entries : List EpochEntry) (c : Cache) (from node_blocks : ℕ) (bs : List CompactBlock)
      (chain_name : Text) (tip : Option ℕ)
      → IsChain codec c from bs
      → latest_height c ≡ tip
      → node_blocks < u64_max
      → Extends codec hex hash_of bs
          (import_epochs codec hex sha256 is_utf8 source node c chain_name node_blocks tip
            entries).0
        × Reports (
            import_epochs codec hex sha256 is_utf8 source node c chain_name node_blocks tip entries)
  unfolding import_epochs
  import_epochs-Extends [] c from node_blocks bs chain_name tip chain at_tip bound =
      (Extends-refl codec hex hash_of c from bs chain, inr (ap ok (sym at_tip)))
  import_epochs-Extends (entry ∷ entries) c from node_blocks bs chain_name tip chain at_tip bound =
      elim (turn-cases (turn tip node_blocks entry)) [
        | inl (inl is) ↦
            rw (import_epochs, is)
              (import_epochs-Extends entries c from node_blocks bs chain_name tip chain at_tip
                bound)
        | inl (inr is) ↦
            rw (import_epochs, is)
              (Extends-refl codec hex hash_of c from bs chain, inl (gap tip entry.start, refl))
        | inr (inl is) ↦
            rw (import_epochs, is)
              (Extends-refl codec hex hash_of c from bs chain, inr (ap ok (sym at_tip)))
        | inr (inr (next, is)) ↦
            let (next_is, low, high, within) = turn-arrives tip node_blocks next entry is in
            let joins : (bs ≡ []) ⊎ (next ≡ from + length bs) =
              rw (at_tip, sym next_is) at (next_of_tip codec c from bs entry chain) in
            elim (import_epoch-Extends codec lawful hex sha256 is_utf8 source node hash_of answers c
              from next bs chain_name tip entry chain joins low high (omega arith)) [
                | inl (e, failed) ↦
                    let result_is = ap (λ p. p.1) failed in
                    let cache_is = ap (λ p. p.0) failed in
                    rw (import_epochs, is)
                      (rw result_is (
                        subst (Extends codec hex hash_of bs) (sym cache_is)
                            (Extends-refl codec hex hash_of c from bs chain),
                        inl (e, refl),
                      ))
                | inr (fine, more, tip_is) ↦
                    let (rest, reported) =
                      import_epochs-Extends entries
                        (import_epoch codec hex sha256 is_utf8 source node c chain_name tip entry
                          next).0
                        more.from node_blocks (bs ++ more.added) chain_name (some entry.end)
                        more.chain tip_is bound in
                    rw (import_epochs, is)
                      (rw fine (Extends-trans codec hex hash_of _ _ bs more rest, reported))
              ]
      ]
    where
      turn-cases :
          (t : Turn)
          → ((t ≡ held) ⊎ (t ≡ leaves_gap))
            ⊎ ((t ≡ beyond_node) ⊎ ((next : ℕ) × (t ≡ arrives next)))
      turn-cases held = inl (inl refl)
      turn-cases leaves_gap = inl (inr refl)
      turn-cases beyond_node = inr (inl refl)
      turn-cases (arrives next) = inr (inr (next, refl))

  -- An import into a cache that holds a chain, from any source and with any outcome, leaves behind the
  -- same blocks and behind them a run of others: the run continues the chain's heights, each block of
  -- it names the hash of the one before it and grows the commitment trees by exactly what it carries,
  -- and each has the hash that the node has at its height. What the import returns, unless it is an
  -- error, is the height of the cache's last block. The node answers each height with its hash, and its
  -- own height is below `u64::MAX`.
  pub import_snapshot-Extends :
      (c : Cache) (from : ℕ) (bs : List CompactBlock)
      → IsChain codec c from bs
      → ((info : GetBlockchainInfo) → node.get_blockchain_info ≡ ok info → info.blocks < u64_max)
      → Extends codec hex hash_of bs (import_snapshot codec hex sha256 is_utf8 source node c).0
        × Reports (import_snapshot codec hex sha256 is_utf8 source node c)
  unfolding import_snapshot prepare
  import_snapshot-Extends c from bs chain bound =
      elim (Result-cases (prepare codec hex sha256 is_utf8 source node)) [
        | inl ((manifest, info), prepared) ↦
            rw (import_snapshot, prepared)
              (import_epochs-Extends manifest.epochs c from info.blocks bs manifest.chain
                (latest_height c) chain refl (bound info (prepare-info manifest info prepared)))
        | inr (e, failed) ↦
            rw (import_snapshot, failed)
              (Extends-refl codec hex hash_of c from bs chain, inl (e, refl))
      ]
    where
      prepare-info :
          (manifest : Manifest) (info : GetBlockchainInfo)
          → prepare codec hex sha256 is_utf8 source node ≡ ok (manifest, info)
          → node.get_blockchain_info ≡ ok info
      prepare-info manifest info h =
          let (manifest', first, h₁) = >>=-eq-ok source.manifest _ h in
          let (info', asked, h₂) = >>=-eq-ok (map_err node_error node.get_blockchain_info) _ h₁ in
          let (valid, h₃) =
            (then_iff (validate_manifest manifest' info'.chain) _ (manifest, info)).0 h₂ in
          let same = ap (λ p. p.1) (ok_injective (manifest', info') (manifest, info) h₃) in
          rw (← same) (map_err-eq-ok node_error node.get_blockchain_info asked)
