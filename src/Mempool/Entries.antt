-- ===== src/Mempool/Entries.antt =====
-- The entries and the marks of an interval of src/service/mempool_monitor.rs: what is free of
-- duplicates, and what the node lists.
use lightwalletd_rs.Base.{
  ◌≡◌, ap, sym, ◌∙◌, List, [], ◌∷◌, ◌++◌, append_assoc, true, false, Bool-cases, inl, inr, not,
  ◌=ᵇ◌, eq_of_=ᵇ, ok, All, All-append, arith,
}
use lightwalletd_rs.Base.Int.{ℤ, pos, ◌=ℤ◌}
use lightwalletd_rs.Encoding.{Text}
use lightwalletd_rs.Mempool.{MempoolEntry, MonitorState, MempoolNode, has_seen}

-- Each entry was seen, and no two entries have one txid.
abbrev pub HasDistinct : List MempoolEntry → Type 0
HasDistinct [] = Unit
HasDistinct (e ∷ es) = All (λ e'. (e'.txid_display =ᵇ e.txid_display) ≡ false) es × HasDistinct es

pub record IsDeduplicated (st : MonitorState) : Type 0 where
  pub distinct : HasDistinct st.entries
  pub all_seen : All (λ e. has_seen st.seen e.txid_display ≡ true) st.entries

pub HasDistinct-append :
    (es : List MempoolEntry) (e : MempoolEntry)
    → HasDistinct es
    → All (λ e'. (e.txid_display =ᵇ e'.txid_display) ≡ false) es
    → HasDistinct (es ++ e ∷ [])
HasDistinct-append [] e distinct new = (tt, tt)
HasDistinct-append (e' ∷ es) e distinct new =
    (All-append _ es (e ∷ []) distinct.0 (new.0, tt), HasDistinct-append es e distinct.1 new.1)

-- A txid that was not seen is that of no entry.
pub unseen_differs :
    (seen : List Text) (txid : Text) (es : List MempoolEntry)
    → has_seen seen txid ≡ false
    → All (λ e. has_seen seen e.txid_display ≡ true) es
    → All (λ e. (txid =ᵇ e.txid_display) ≡ false) es
unseen_differs seen txid [] unseen held = tt
unseen_differs seen txid (e ∷ es) unseen held = (
  elim (Bool-cases (txid =ᵇ e.txid_display)) [
    | inr other ↦ other
    | inl same ↦
        let is : txid ≡ e.txid_display = eq_of_=ᵇ txid e.txid_display same in
        absurd (cc (unseen, rw (← is) at held.0))
  ],
  unseen_differs seen txid es unseen held.1,
)

-- The txid is one of the mempool that the node lists.
abbrev pub IsListed : MempoolNode → Text → Type 0
IsListed node txid =
    (before : List Text) × (after : List Text) × (node.get_raw_mempool
      ≡ ok (before ++ txid ∷ after))

IsListed-from :
    (node : MempoolNode) (before txids : List Text)
    → node.get_raw_mempool ≡ ok (before ++ txids)
    → All (IsListed node) txids
IsListed-from node before [] is = tt
IsListed-from node before (txid ∷ txids) is = (
  (before, txids, is),
  IsListed-from node (before ++ txid ∷ []) txids
      (is ∙ ap ok (sym (append_assoc before (txid ∷ []) txids))),
)

pub all-IsListed :
    (node : MempoolNode) (txids : List Text)
    → node.get_raw_mempool ≡ ok txids
    → All (IsListed node) txids
all-IsListed node txids is = IsListed-from node [] txids is

pub not_mined : (height : ℤ) → not (height =ℤ pos 0) ≡ false → height ≡ pos 0
not_mined height h = ground arith
