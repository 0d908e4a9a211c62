-- ===== src/Blocks/Links.antt =====
-- How consecutive blocks of the range stream of src/service/blocks.rs connect, and what a
-- discontinuity reports to the ingestor.
use lightwalletd_rs.Base.{
  ℕ, List, [], ◌∷◌, ◌++◌, ◌≡◌, ◌≢◌, refl, sym, Option, none, some, arith, Bool, true, false, ◌||◌,
  min, if◌then◌else◌, Result, ok, err, Result-cases, Bool-cases, ◌⊎◌, inl, inr, =ᵇ-refl, eq_of_=ᵇ,
  get_last?,
}
use lightwalletd_rs.Base.Bytes.{Bytes}
use lightwalletd_rs.Base.Table.{Table}
use lightwalletd_rs.Blocks.{
  Sent, ChainLink, resolve, check_link, check, connects, after, is_cache, report_to,
}
use lightwalletd_rs.Errors.{
  block_fetch_to_status, from_fetch_error, from_node_error, from_cache_error,
}
use lightwalletd_rs.Fetch.{FetchError, node}
use lightwalletd_rs.Node.{NodeError}
use lightwalletd_rs.Proto.{CompactBlock, Codec}
use lightwalletd_rs.Repair.{RepairSignal}
use lightwalletd_rs.Status.{Status, aborted}

-- `b` is what follows `a` in the direction of the stream.
abbrev pub Joined : Bool → Sent → Sent → Type 0
Joined true a b = b.block.hash ≡ a.block.prev_hash
Joined false a b = b.block.prev_hash ≡ a.block.hash

abbrev pub Linked : Bool → List Sent → Type 0
Linked d [] = Unit
Linked d (a ∷ []) = Unit
Linked d (a ∷ b ∷ bs) = Joined d a b × Linked d (b ∷ bs)

abbrev pub link_of : Bool → Sent → ChainLink
link_of d s = after s.height s.block d s.source

abbrev pub Connected : Bool → Option ChainLink → Sent → Type 0
Connected d none s = Unit
Connected d (some p) s = connects p s.block d ≡ true

-- From one link to the next, over the blocks between them.
abbrev pub Chained : Bool → Option ChainLink → List Sent → Option ChainLink → Type 0
Chained d l [] l' = l ≡ l'
Chained d l (s ∷ ss) l' = Connected d l s × Chained d (some (link_of d s)) ss l'

pub Chained-append :
    (d : Bool) (l m n : Option ChainLink) (xs ys : List Sent)
    → Chained d l xs m
    → Chained d m ys n
    → Chained d l (xs ++ ys) n
Chained-append d l m n [] ys h k = rw (sym h) at k
Chained-append d l m n (x ∷ xs) ys h k = (h.0, Chained-append d _ m n xs ys h.1 k)

connects-Joined : (d : Bool) (a b : Sent) → connects (link_of d a) b.block d ≡ true → Joined d a b
connects-Joined true a b h = eq_of_=ᵇ _ _ h
connects-Joined false a b h = eq_of_=ᵇ _ _ h

pub Joined-connects :
    (d : Bool) (a b : Sent) → Joined d a b → connects (link_of d a) b.block d ≡ true
Joined-connects true a b h = rw h (=ᵇ-refl a.block.prev_hash)
Joined-connects false a b h = rw h (=ᵇ-refl a.block.hash)

pub Chained-Linked :
    (d : Bool) (l m : Option ChainLink) (ss : List Sent) → Chained d l ss m → Linked d ss
Chained-Linked d l m [] h = tt
Chained-Linked d l m (a ∷ []) h = tt
Chained-Linked d l m (a ∷ b ∷ bs) h =
    (connects-Joined d a b h.1.0, Chained-Linked d (some (link_of d a)) m (b ∷ bs) h.1)

pub Chained-last :
    (d : Bool) (l : Option ChainLink) (s : Sent) (ss : List Sent) (p : ChainLink)
    → Chained d l (s ∷ ss) (some p)
    → (a : Sent) × (get_last? (s ∷ ss) ≡ some a) × (p ≡ link_of d a)
Chained-last d l s [] p h = (s, refl, cc)
Chained-last d l s (s' ∷ ss) p h = Chained-last d (some (link_of d s)) s' ss p h.1

-- What an error says of the link before it, and of the repair slot before and after it.
abbrev pub Blamed :
    (Sent → Type 0)
    → Bool
    → Option ChainLink
    → Option RepairSignal
    → Option RepairSignal
    → Status
    → Type 0
Blamed P d l r r' e =
    ((e ≢ aborted) × (r' ≡ r))
    ⊎ ((e ≡ aborted)
        × (p : ChainLink) × (b : Sent) × P b
        × (l ≡ some p)
        × (connects p b.block d ≡ false)
        × (r' ≡ (
            if is_cache p.source || is_cache b.source
            then report_to r (min b.height p.height)
            else r)))

module _ (p : ChainLink) (s : Sent) (d : Bool) (r : Option RepairSignal) where
  check-connected : connects p s.block d ≡ true → check p s.block s.height d s.source r ≡ (ok tt, r)
  unfolding check
  check-connected h = rw (check, h) refl

  check-broken :
      connects p s.block d ≡ false
      → check p s.block s.height d s.source r ≡ (
        err aborted,
        if is_cache p.source || is_cache s.source then report_to r (min s.height p.height) else r,
      )
  unfolding check
  check-broken h = elim (Bool-cases (is_cache p.source || is_cache s.source)) [
    | inl implicated ↦ rw (check, h) (rw implicated refl)
    | inr node_only ↦ rw (check, h) (rw node_only refl)
  ]

pub check_link-err :
    (P : Sent → Type 0) (d : Bool) (l : Option ChainLink) (s : Sent) (r : Option RepairSignal)
    (e : Status)
    → (check_link l s.block s.height d s.source r).0 ≡ err e
    → P s
    → Blamed P d l r (check_link l s.block s.height d s.source r).1 e
unfolding check_link
check_link-err P d none s r e h comes = cc
check_link-err P d (some p) s r e h comes = elim (Bool-cases (connects p s.block d)) [
  | inl connected ↦ let bad : ok tt ≡ err e = rw (check-connected p s d r connected) at h in cc
  | inr broken ↦
      let same : err aborted ≡ err e = rw (check-broken p s d r broken) at h in
      rw (check-broken p s d r broken) (inr (cc, p, s, comes, refl, broken, refl))
]

pub check_link-ok :
    (d : Bool) (l : Option ChainLink) (s : Sent) (r : Option RepairSignal) (u : Unit {0})
    → (check_link l s.block s.height d s.source r).0 ≡ ok u
    → Connected d l s × ((check_link l s.block s.height d s.source r).1 ≡ r)
unfolding check_link
check_link-ok d none s r u h = (tt, refl)
check_link-ok d (some p) s r u h = elim (Bool-cases (connects p s.block d)) [
  | inl connected ↦ rw (check-connected p s d r connected) (connected, refl)
  | inr broken ↦ let bad : err aborted ≡ ok u = rw (check-broken p s d r broken) at h in cc
]

from_node_error-not_aborted : (e : NodeError) → from_node_error e ≢ aborted
unfolding from_node_error
from_node_error-not_aborted e = ground arith

from_fetch_error-not_aborted : (e : FetchError) → from_fetch_error e ≢ aborted
unfolding from_fetch_error
from_fetch_error-not_aborted (node e) = from_node_error-not_aborted e
from_fetch_error-not_aborted e = ground arith

block_fetch_to_status-not_aborted :
    (e : FetchError) (height : ℕ) → block_fetch_to_status e height ≢ aborted
unfolding block_fetch_to_status
block_fetch_to_status-not_aborted e height = ground (arith, from_fetch_error-not_aborted e)

pub resolve-not_aborted :
    (codec : Codec) (fetch : ℕ → Result FetchError CompactBlock) (cached : Table Bytes) (height : ℕ)
    (e : Status)
    → resolve codec fetch cached height ≡ err e
    → e ≢ aborted
unfolding resolve from_cache_error
resolve-not_aborted codec fetch cached height e h = elim (Result-cases (fetch height)) [
  | inl (b, got) ↦ ground (arith, got)
  | inr (f, failed_at) ↦ ground (arith, failed_at, block_fetch_to_status-not_aborted f height)
]
