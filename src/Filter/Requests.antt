-- ===== src/Filter/Requests.antt =====
-- Which pools a request of src/filter.rs names (`Pools`, `validate_pool_types`).
use lightwalletd_rs.Base.{
  ◌≤◌, ◌≡◌, refl, ap, ◌↔◌, false, not, ◌||◌, List, [], ◌∷◌, ok, length, is_empty, all, filter,
  arith, Bool-cases, inl, inr,
}
use lightwalletd_rs.Base.Int.{ℤ, ◌=ℤ◌, =ℤ_iff}
use lightwalletd_rs.Filter.{
  contains, from_pool_types, from_pool_types_dropping_transparent, pool_transparent, pool_sapling,
  pool_orchard, pool_ironwood, pool_invalid, validate_pool_types, max_pool_types,
}

-- The request with every `Transparent` entry removed.
abbrev pub drop_transparent : List ℤ → List ℤ
drop_transparent = filter (λ q. not (q =ℤ pool_transparent))

contains-drop_transparent :
    (p : ℤ) (l : List ℤ)
    → (pool_transparent =ℤ p) ≡ false
    → contains (drop_transparent l) p ≡ contains l p
contains-drop_transparent p [] ne = refl
contains-drop_transparent p (q ∷ l) ne = elim (Bool-cases (q =ℤ pool_transparent)) [
  | inl e ↦
      let same : q ≡ pool_transparent = (=ℤ_iff q pool_transparent).0 e in
      let other : (q =ℤ p) ≡ false = rw same ne in rw (e, other) (contains-drop_transparent p l ne)
  | inr e ↦ rw e (ap (λ b. (q =ℤ p) || b) (contains-drop_transparent p l ne))
]

is_empty-drop_transparent :
    (l : List ℤ) → is_empty (drop_transparent l) ≡ all (λ q. q =ℤ pool_transparent) l
is_empty-drop_transparent [] = refl
is_empty-drop_transparent (q ∷ l) = ground (arith, is_empty-drop_transparent l)

no_transparent : (l : List ℤ) → contains (drop_transparent l) pool_transparent ≡ false
no_transparent [] = refl
no_transparent (q ∷ l) = ground (arith, no_transparent l)

-- Dropping transparent from a request is the same as resolving the request with every `Transparent`
-- entry removed: a request that names nothing else falls back to the shielded default.
pub dropping_transparent-eq :
    (pool_types : List ℤ)
    → from_pool_types_dropping_transparent pool_types
      ≡ from_pool_types (drop_transparent pool_types)
unfolding from_pool_types from_pool_types_dropping_transparent
dropping_transparent-eq l = rw (
  contains-drop_transparent pool_sapling l refl,
  contains-drop_transparent pool_orchard l refl,
  contains-drop_transparent pool_ironwood l refl,
  is_empty-drop_transparent l,
  no_transparent l,
)

-- An accepted request has at most 16 entries, none of them `Invalid`, and every such request is
-- accepted.
pub validate_pool_types_iff :
    (pool_types : List ℤ)
    → (validate_pool_types pool_types ≡ ok tt)
      ↔ ((length pool_types ≤ max_pool_types) × (contains pool_types pool_invalid ≡ false))
unfolding validate_pool_types
validate_pool_types_iff l = (λ h. ground arith, λ h. ground arith)
