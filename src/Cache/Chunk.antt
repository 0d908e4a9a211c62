-- ===== src/Cache/Chunk.antt =====
-- The loop of `read_chunk` of src/cache.rs, over entries in either direction.
pub mod Directions
pub mod Coverage
use lightwalletd_rs.Base.{
  ℕ, zero, suc, ◌+◌, ◌-◌, ◌≤◌, ◌<◌, List, [], ◌∷◌, ◌++◌, ◌≡◌, refl, ap, sym, ◌∙◌, length, Option,
  none, some, arith, u64_max, Bool, true, false, not, ◌&&◌, ltb, leb, ◌==◌, if◌then◌else◌, All,
  All-map, Bool-cases, inl, inr, is_empty, ==_iff, ◌⊎◌,
}
use lightwalletd_rs.Base.Bytes.{Bytes}
use lightwalletd_rs.Base.Table.{Table, lookup, insert, lookup-insert, or_else}
use lightwalletd_rs.Cache.{fill}

-- The loop of `read_chunk` takes its entries in ascending or in descending key order: `lt` is the
-- order, as a test.
module _ (lt : ℕ → ℕ → Bool) where
  -- Every key comes after `k`.
  abbrev pub After {ℓ} : {V : Type ℓ} → ℕ → Table V → Type 0
  After k = All (λ e. lt k e.0 ≡ true)

  abbrev pub Ordered {ℓ} : {V : Type ℓ} → Table V → Type 0
  Ordered [] = Unit
  Ordered ((k, v) ∷ m) = After k m × Ordered m

  -- The keys before the one that the loop stopped at.
  abbrev pub reached : Option ℕ → ℕ → Bool
  reached none k = true
  reached (some stop) k = lt k stop

  pub fill_stops-After :
      (max_bytes held : ℕ) (blocks entries : Table Bytes) (p stop : ℕ)
      → After p entries
      → (fill max_bytes held blocks entries).1 ≡ some stop
      → lt p stop ≡ true
  unfolding fill
  fill_stops-After max_bytes held blocks [] p stop h e = cc
  fill_stops-After max_bytes held blocks ((j, v) ∷ entries) p stop h e =
      elim (Bool-cases (not (is_empty blocks) && ltb max_bytes (held + length v))) [
        | inl full ↦
            let at : some j ≡ some stop = rw full at e in
            let same : j ≡ stop = cc in rw (← same) h.0
        | inr room ↦
            fill_stops-After max_bytes (held + length v) (insert j v blocks) entries p stop h.1
              (rw room at e)
      ]

pub record IsStrictOrder (lt : ℕ → ℕ → Bool) : Type 0 where
  pub irreflexive : (a : ℕ) → lt a a ≡ false
  pub transitive : (a b c : ℕ) → lt a b ≡ true → lt b c ≡ true → lt a c ≡ true

module _ (lt : ℕ → ℕ → Bool) (order : IsStrictOrder lt) where
  pub lookup-After {ℓ} : {V : Type ℓ} (k : ℕ) (m : Table V) → After lt k m → lookup k m ≡ none
  lookup-After k [] h = refl
  lookup-After k ((j, v) ∷ m) h = elim (Bool-cases (j == k)) [
    | inl e ↦
        let same : j ≡ k = (==_iff j k).0 e in
        let loop : lt k k ≡ true = rw same at h.0 in absurd (cc (order.irreflexive k, loop))
    | inr e ↦ rw e (lookup-After k m h.1)
  ]

  After-trans {ℓ} :
      {V : Type ℓ} (i j : ℕ) (m : Table V) → lt i j ≡ true → After lt j m → After lt i m
  After-trans i j m h = All-map (λ e. order.transitive i j e.0 h) m

  -- What a chunk holds of the entries: those before the stop, beside what it held before.
  pub fill-lookup :
      (max_bytes held : ℕ) (blocks entries : Table Bytes) (k : ℕ)
      → Ordered lt entries
      → lookup k (fill max_bytes held blocks entries).0 ≡ (
          if reached lt (fill max_bytes held blocks entries).1 k
          then or_else (lookup k entries) (lookup k blocks)
          else lookup k blocks)
  unfolding fill
  fill-lookup max_bytes held blocks [] k ordered = refl
  fill-lookup max_bytes held blocks ((j, v) ∷ entries) k ordered =
      elim (Bool-cases (not (is_empty blocks) && ltb max_bytes (held + length v))) [
        | inl full ↦ rw full (at_stop (Bool-cases (lt k j)))
        | inr room ↦ rw room (
            one_more (fill max_bytes (held + length v) (insert j v blocks) entries)
              (fill-lookup max_bytes (held + length v) (insert j v blocks) entries k ordered.1)
              (λ stop.
                fill_stops-After lt max_bytes (held + length v) (insert j v blocks) entries j stop
                  ordered.0)
              (Bool-cases (j == k)))
      ]
    where
      all_reached :
          (stop : Option ℕ) → ((s : ℕ) → stop ≡ some s → lt j s ≡ true) → reached lt stop j ≡ true
      all_reached none later = refl
      all_reached (some s) later = later s refl

      one_more :
          (r : Table Bytes × Option ℕ)
          → lookup k r.0 ≡ (
              if reached lt r.1 k
              then or_else (lookup k entries) (lookup k (insert j v blocks))
              else lookup k (insert j v blocks))
          → ((s : ℕ) → r.1 ≡ some s → lt j s ≡ true)
          → ((j == k) ≡ true) ⊎ ((j == k) ≡ false)
          → lookup k r.0 ≡ (
              if reached lt r.1 k
              then or_else (lookup k ((j, v) ∷ entries)) (lookup k blocks)
              else lookup k blocks)
      one_more r rest later (inl e) =
          let same : j ≡ k = (==_iff j k).0 e in
          let here : reached lt r.1 k ≡ true = rw same at (all_reached r.1 later) in
          let found : lookup k (insert j v blocks) ≡ some v = lookup-insert k j v blocks ∙ rw e in
          let gone : lookup k entries ≡ none = lookup-After k entries (rw same at ordered.0) in
          rest ∙ rw (here, found, gone, e)
      one_more r rest later (inr e) =
          let same : lookup k (insert j v blocks) ≡ lookup k blocks =
            lookup-insert k j v blocks ∙ rw e in
          rest ∙ rw (same, e)

      at_stop :
          (lt k j ≡ true) ⊎ (lt k j ≡ false)
          → lookup k blocks ≡ (
              if lt k j
              then or_else (lookup k ((j, v) ∷ entries)) (lookup k blocks)
              else lookup k blocks)
      at_stop (inl before) = rw (
        before,
        lookup-After k ((j, v) ∷ entries) (before, After-trans k j entries before ordered.0),
      )
      at_stop (inr after) = rw after
