-- ===== src/Mempool/Monitor.antt =====
-- What a refresh of src/service/mempool_monitor.rs does to the entries of its interval.
use lightwalletd_rs.Base.{
  ℕ, ◌≡◌, ◌≢◌, refl, ap, sym, ◌∙◌, List, [], ◌∷◌, ◌++◌, append-nil, append_assoc, true, false,
  Bool-cases, inl, inr, ◌⊎◌, not, ◌=ᵇ◌, =ᵇ-refl, eq_of_=ᵇ, Result, ok, err, Result-cases, >>=-eq-ok,
  ok_injective, ok_or, ok_or-eq-ok, map_err, map_err-eq-ok, some, length, All, All-append, arith,
}
use lightwalletd_rs.Addresses.{GetRawTransaction}
use lightwalletd_rs.Base.Bytes.{Bytes}
use lightwalletd_rs.Base.Int.{pos, ◌=ℤ◌}
use lightwalletd_rs.Encoding.{Text, Hex, display_hex_to_wire}
use lightwalletd_rs.Fetch.{ParseError}
use lightwalletd_rs.Mempool.Entries.{
  IsDeduplicated, HasDistinct-append, unseen_differs, IsListed, all-IsListed, not_mined,
}
use lightwalletd_rs.Mempool.{
  MempoolEntry, MonitorState, MempoolNode, RefreshError, refresh_node, refresh_hex, refresh_parse,
  has_seen, start_interval, build_entry, add_fetched, fetch_one, fetch_all, snapshot_of,
  list_mempool, refresh,
}
use lightwalletd_rs.Node.{NodeError, GetBlockchainInfo}
use lightwalletd_rs.Proto.{CompactTx}

module _ (hex : Hex) (parse : ℕ → Bytes → Result ParseError CompactTx) where
  -- The entry was made in the refresh that has this node: its txid is one of the node's mempool, and its
  -- bytes are those of the transaction that the node gives for it, one that is not mined.
  pub record IsFetched (node : MempoolNode) (entry : MempoolEntry) : Type 0 where
    pub transaction : GetRawTransaction
    pub listed : IsListed node entry.txid_display
    pub given : node.get_raw_transaction entry.txid_display ≡ ok transaction
    pub pending : transaction.height ≡ pos 0
    pub same_bytes : hex.decode transaction.hex ≡ some entry.raw
    pub same_txid : display_hex_to_wire hex entry.txid_display ≡ ok entry.wire_txid

  -- The second state is of the same interval as the first, one refresh later: its entries are appended
  -- to the first's, each made in that refresh, and what it has newly seen is of the node's mempool.
  pub record Follows (node : MempoolNode) (st st' : MonitorState) : Type 0 where
    pub added : List MempoolEntry
    pub marked : List Text
    pub same_tip : st'.tip_hash ≡ st.tip_hash
    pub entries_are : st'.entries ≡ st.entries ++ added
    pub seen_are : st'.seen ≡ marked ++ st.seen
    pub added_fetched : All (IsFetched node) added
    pub marked_listed : All (IsListed node) marked

  Follows-refl : (node : MempoolNode) (st : MonitorState) → Follows node st st
  Follows-refl node st = record {
    added = [];
    marked = [];
    same_tip = refl;
    entries_are = sym (append-nil st.entries);
    seen_are = refl;
    added_fetched = tt;
    marked_listed = tt;
  }

  Follows-trans :
      (node : MempoolNode) (a b c : MonitorState)
      → Follows node a b
      → Follows node b c
      → Follows node a c
  Follows-trans node a b c first second = record {
    added = first.added ++ second.added;
    marked = second.marked ++ first.marked;
    same_tip = second.same_tip ∙ first.same_tip;
    entries_are =
        second.entries_are
        ∙ ap (λ es. es ++ second.added) first.entries_are
        ∙ append_assoc a.entries first.added second.added;
    seen_are =
        second.seen_are
        ∙ ap (λ seen. second.marked ++ seen) first.seen_are
        ∙ sym (append_assoc second.marked first.marked a.seen);
    added_fetched =
        All-append (IsFetched node) first.added second.added first.added_fetched
          second.added_fetched;
    marked_listed =
        All-append (IsListed node) second.marked first.marked second.marked_listed
          first.marked_listed;
  }

  -- A txid is marked, and no entry is added for it.
  Follows-marked :
      (node : MempoolNode) (st : MonitorState) (txid : Text)
      → IsListed node txid
      → Follows node st (record st { seen = txid ∷ st.seen })
  Follows-marked node st txid listed = record {
    added = [];
    marked = txid ∷ [];
    same_tip = refl;
    entries_are = sym (append-nil st.entries);
    seen_are = refl;
    added_fetched = tt;
    marked_listed = (listed, tt);
  }

  build_entry-parts :
      (index : ℕ) (txid : Text) (raw : GetRawTransaction) (entry : MempoolEntry)
      → build_entry hex parse index txid raw ≡ ok entry
      → (entry.txid_display ≡ txid)
        × (hex.decode raw.hex ≡ some entry.raw)
        × (display_hex_to_wire hex txid ≡ ok entry.wire_txid)
  unfolding build_entry
  build_entry-parts index txid raw entry h =
      let (bytes, decoded, h₁) = >>=-eq-ok (ok_or refresh_hex (hex.decode raw.hex)) _ h in
      let (wire_txid, read, h₂) =
        >>=-eq-ok (map_err (λ e. refresh_hex) (display_hex_to_wire hex txid)) _ h₁ in
      let (compact, parsed, h₃) = >>=-eq-ok (map_err refresh_parse (parse index bytes)) _ h₂ in
      let is = ok_injective _ entry h₃ in
      (
        sym (ap (λ e. e.txid_display) is),
        ok_or-eq-ok refresh_hex (hex.decode raw.hex) bytes decoded ∙ ap (λ e. some e.raw) is,
        map_err-eq-ok (λ e. refresh_hex) (display_hex_to_wire hex txid) read
            ∙ ap (λ e. ok e.wire_txid) is,
      )

  seen_more :
      (seen : List Text) (txid : Text) (es : List MempoolEntry)
      → All (λ e. has_seen seen e.txid_display ≡ true) es
      → All (λ e. has_seen (txid ∷ seen) e.txid_display ≡ true) es
  seen_more seen txid [] h = tt
  seen_more seen txid (e ∷ es) h = (ground (arith, h.0), seen_more seen txid es h.1)

  add_fetched-keeps :
      (node : MempoolNode) (st : MonitorState) (txid : Text) (raw : GetRawTransaction)
      → IsListed node txid
      → node.get_raw_transaction txid ≡ ok raw
      → has_seen st.seen txid ≡ false
      → IsDeduplicated st
      → Follows node st (add_fetched hex parse st txid raw).0
        × IsDeduplicated (add_fetched hex parse st txid raw).0
  unfolding add_fetched
  add_fetched-keeps node st txid raw listed given unseen h =
      let more = seen_more st.seen txid st.entries h.all_seen in
      elim (Bool-cases (not (raw.height =ℤ pos 0))) [
        | inl mined ↦
            rw (add_fetched, mined)
              (
                Follows-marked node st txid listed,
                record { distinct = h.distinct; all_seen = more },
              )
        | inr pending ↦ elim (Result-cases (build_entry hex parse (length st.entries) txid raw)) [
          | inr (e, failed) ↦
              rw (add_fetched, pending)
                (rw failed (
                  Follows-marked node st txid listed,
                  record { distinct = h.distinct; all_seen = more },
                ))
          | inl (entry, built) ↦
              let (named, bytes, wire) =
                build_entry-parts (length st.entries) txid raw entry built in
              let is_pending : raw.height ≡ pos 0 = not_mined raw.height pending in
              let new : All (λ e'. (entry.txid_display =ᵇ e'.txid_display) ≡ false) st.entries =
                rw named (unseen_differs st.seen txid st.entries unseen h.all_seen) in
              let here : has_seen (txid ∷ st.seen) entry.txid_display ≡ true =
                rw named (ground (arith, =ᵇ-refl txid)) in
              rw (add_fetched, pending)
                (rw built (
                  record {
                    added = entry ∷ [];
                    marked = txid ∷ [];
                    same_tip = refl;
                    entries_are = refl;
                    seen_are = refl;
                    added_fetched = (
                      record {
                        transaction = raw;
                        listed = rw named listed;
                        given = rw named given;
                        pending = is_pending;
                        same_bytes = bytes;
                        same_txid = rw named wire;
                      },
                      tt,
                    );
                    marked_listed = (listed, tt);
                  },
                  record {
                    distinct = HasDistinct-append st.entries entry h.distinct new;
                    all_seen = All-append _ st.entries (entry ∷ []) more (here, tt);
                  },
                ))
        ]
      ]

  fetch_one-keeps :
      (node : MempoolNode) (st : MonitorState) (txid : Text)
      → IsListed node txid
      → IsDeduplicated st
      → Follows node st (fetch_one hex parse node st txid).0
        × IsDeduplicated (fetch_one hex parse node st txid).0
  unfolding fetch_one
  fetch_one-keeps node st txid listed h = elim (Bool-cases (has_seen st.seen txid)) [
    | inl seen ↦ rw (fetch_one, seen) (Follows-refl node st, h)
    | inr unseen ↦ elim (Result-cases (node.get_raw_transaction txid)) [
      | inr (e, failed) ↦ rw (fetch_one, unseen) (rw failed (Follows-refl node st, h))
      | inl (raw, got) ↦
          rw (fetch_one, unseen) (rw got (add_fetched-keeps node st txid raw listed got unseen h))
    ]
  ]

  fetch_all-keeps :
      (node : MempoolNode) (txids : List Text) (st : MonitorState)
      → All (IsListed node) txids
      → IsDeduplicated st
      → Follows node st (fetch_all hex parse node txids st).0
        × IsDeduplicated (fetch_all hex parse node txids st).0
  unfolding fetch_all
  fetch_all-keeps node [] st listed h = (Follows-refl node st, h)
  fetch_all-keeps node (txid ∷ txids) st listed h =
      let (follows, clean) = fetch_one-keeps node st txid listed.0 h in
      elim (Result-cases (fetch_one hex parse node st txid).1) [
        | inr (e, failed) ↦ rw (fetch_all, failed) (follows, clean)
        | inl (u, fine) ↦
            let (more, clean') =
              fetch_all-keeps node txids (fetch_one hex parse node st txid).0 listed.1 clean in
            rw (fetch_all, fine)
              (
                Follows-trans node st (fetch_one hex parse node st txid).0
                    (fetch_all hex parse node txids (fetch_one hex parse node st txid).0).0 follows
                    more,
                clean',
              )
      ]

  -- The node answers with the tip of the interval, or does not answer.
  abbrev pub HasTip : MempoolNode → MonitorState → Type 0
  HasTip node st =
      ((e : NodeError) × (node.get_blockchain_info ≡ err e))
      ⊎ ((info : GetBlockchainInfo) × (node.get_blockchain_info ≡ ok info)
          × (info.bestblockhash ≡ st.tip_hash))

  -- The state stays in its interval and its entries are appended to, or the node has another tip, and a
  -- new interval begins there with no entries but those that this refresh makes.
  abbrev pub KeepsInterval : MempoolNode → MonitorState → MonitorState → Type 0
  KeepsInterval node st st' =
      (HasTip node st × Follows node st st')
      ⊎ ((info : GetBlockchainInfo) × (node.get_blockchain_info ≡ ok info)
          × (info.bestblockhash ≢ st.tip_hash)
          × (st'.tip_hash ≡ info.bestblockhash)
          × All (IsFetched node) st'.entries
          × All (IsListed node) st'.seen)

  -- What follows on the start of an interval is of the refresh alone.
  Follows-fresh :
      (node : MempoolNode) (st st' : MonitorState) (info : GetBlockchainInfo)
      → node.get_blockchain_info ≡ ok info
      → (info.bestblockhash =ᵇ st.tip_hash) ≡ false
      → Follows node (record { tip_hash = info.bestblockhash; seen = []; entries = [] }) st'
      → KeepsInterval node st st'
  Follows-fresh node st st' info got other follows = inr (
    info,
    got,
    (λ same.
        let refuted : (st.tip_hash =ᵇ st.tip_hash) ≡ false = rw same at other in
        cc (refuted, =ᵇ-refl st.tip_hash)),
    follows.same_tip,
    rw (follows.entries_are) follows.added_fetched,
    rw (follows.seen_are, append-nil) follows.marked_listed,
  )

  snapshot_of-fst :
      (now : ℕ) (p : MonitorState × Result RefreshError (Unit {0}))
      → (snapshot_of hex parse now p).0 ≡ p.0
  snapshot_of-fst now (st, err e) = refl
  snapshot_of-fst now (st, ok u) = refl

  refreshed :
      (node : MempoolNode) (st started : MonitorState) (now : ℕ)
      → IsDeduplicated started
      → ((st' : MonitorState) → Follows node started st' → KeepsInterval node st st')
      → (mempool : Result NodeError (List Text)) → node.get_raw_mempool ≡ mempool
      → KeepsInterval node st (list_mempool hex parse node now started mempool).0
        × IsDeduplicated (list_mempool hex parse node now started mempool).0
  refreshed node st started now clean keeps (err e) is =
      (keeps started (Follows-refl node started), clean)
  refreshed node st started now clean keeps (ok txids) is =
      let (follows, clean') =
        fetch_all-keeps node txids started (all-IsListed node txids is) clean in
      rw (snapshot_of-fst now (fetch_all hex parse node txids started))
        (keeps (fetch_all hex parse node txids started).0 follows, clean')

  -- However a refresh ends, the entries stay free of duplicates: no two have one txid, and each txid is
  -- marked as seen. While the node has the tip of the interval, or does not answer, the entries are only
  -- appended to, so that a running index into them stays good, and each entry that is added has a txid that the node lists and the
  -- bytes of the unmined transaction that it gives for it. If the node has another tip, that is
  -- the tip of the state, all entries are of that kind and all txids marked as seen are listed: none is left of
  -- the old interval.
  pub refresh-KeepsInterval :
      (node : MempoolNode) (st : MonitorState) (now : ℕ)
      → IsDeduplicated st
      → KeepsInterval node st (refresh hex parse node st now).0
        × IsDeduplicated (refresh hex parse node st now).0
  unfolding refresh
  refresh-KeepsInterval node st now h = elim (Result-cases node.get_blockchain_info) [
    | inr (e, failed) ↦
        let ends : refresh hex parse node st now ≡ (st, err (refresh_node e)) =
          rw (refresh, failed) refl in
        rw ends (inl (inl (e, failed), Follows-refl node st), h)
    | inl (info, got) ↦ elim (Bool-cases (info.bestblockhash =ᵇ st.tip_hash)) [
      | inl same ↦
          let started : start_interval st info.bestblockhash ≡ st = rw same refl in
          let ends : refresh hex parse node st now
              ≡ list_mempool hex parse node now st node.get_raw_mempool =
            rw (refresh, got) (rw started refl) in
          rw ends (
            refreshed node st st now h
              (λ st' follows.
                inl (inr (info, got, eq_of_=ᵇ info.bestblockhash st.tip_hash same), follows))
              node.get_raw_mempool refl)
      | inr other ↦
          let fresh : MonitorState = record {
            tip_hash = info.bestblockhash;
            seen = [];
            entries = [];
          } in
          let started : start_interval st info.bestblockhash ≡ fresh = rw other refl in
          let ends : refresh hex parse node st now
              ≡ list_mempool hex parse node now fresh node.get_raw_mempool =
            rw (refresh, got) (rw started refl) in
          rw ends (
            refreshed node st fresh now (record { distinct = tt; all_seen = tt })
              (λ st' follows. Follows-fresh node st st' info got other follows) node.get_raw_mempool
              refl)
    ]
  ]
