-- ===== src/Cache/Chunk/Directions.antt =====
-- The two directions in which `read_chunk` of src/cache.rs takes the entries of a range.
use mathlib.Core.List.{reverse-cons}
use lightwalletd_rs.Base.{
  ℕ, suc, [], ◌∷◌, ◌++◌, ◌≡◌, refl, ◌∙◌, Option, none, some, arith, Bool, true, false, ltb, ◌==◌,
  All, All-append, All-reverse, Bool-cases, inl, inr, ◌⊎◌, ==_iff, reverse,
}
use lightwalletd_rs.Base.Table.{
  Table, lookup, AscendsFrom, AscendsFrom-mono, lookup-append, or_else,
}
use lightwalletd_rs.Cache.Chunk.{After, Ordered, IsStrictOrder, lookup-After}

abbrev pub gtb : ℕ → ℕ → Bool
gtb a b = ltb b a

pub ltb-IsStrictOrder : IsStrictOrder ltb
ltb-IsStrictOrder = record {
  irreflexive = λ a. ground arith;
  transitive = λ a b c h k. ground arith;
}

pub gtb-IsStrictOrder : IsStrictOrder gtb
gtb-IsStrictOrder = record {
  irreflexive = λ a. ground arith;
  transitive = λ a b c h k. ground arith;
}

module _ {ℓ} {V : Type ℓ} where
  After-ascending : (k : ℕ) (m : Table V) → AscendsFrom (suc k) m → After ltb k m
  After-ascending k [] h = tt
  After-ascending k ((j, v) ∷ m) h = (
    ground (arith, h.0),
    After-ascending k m (AscendsFrom-mono (suc k) (suc j) m h.1 (omega arith)),
  )

  pub Ordered-ascending : (low : ℕ) (m : Table V) → AscendsFrom low m → Ordered ltb m
  Ordered-ascending low [] h = tt
  Ordered-ascending low ((j, v) ∷ m) h = (After-ascending j m h.1, Ordered-ascending (suc j) m h.1)

  Ordered-append :
      (k : ℕ) (v : V) (m : Table V)
      → Ordered gtb m
      → All (λ e. ltb k e.0 ≡ true) m
      → Ordered gtb (m ++ (k, v) ∷ [])
  Ordered-append k v [] h below = (tt, tt)
  Ordered-append k v ((j, w) ∷ m) h below = (
    All-append (λ e. gtb j e.0 ≡ true) m ((k, v) ∷ []) h.0 (below.0, tt),
    Ordered-append k v m h.1 below.1,
  )

  pub Ordered-descending : (m : Table V) → Ordered ltb m → Ordered gtb (reverse m)
  Ordered-descending [] h = tt
  Ordered-descending ((k, v) ∷ m) h = rw reverse-cons (
      Ordered-append k v (reverse m) (Ordered-descending m h.1)
        (All-reverse (λ e. ltb k e.0 ≡ true) m h.0))

  -- In strictly ordered entries each key stands once, so either direction finds the same.
  pub lookup-reverse : (k : ℕ) (m : Table V) → Ordered ltb m → lookup k (reverse m) ≡ lookup k m
  lookup-reverse k [] h = refl
  lookup-reverse k ((j, v) ∷ m) h = rw reverse-cons (
      lookup-append k (reverse m) ((j, v) ∷ [])
      ∙ rw (lookup-reverse k m h.1) (last (Bool-cases (j == k))))
    where
      last :
          ((j == k) ≡ true) ⊎ ((j == k) ≡ false)
          → or_else (lookup k m) (lookup k ((j, v) ∷ [])) ≡ lookup k ((j, v) ∷ m)
      last (inl e) =
          let same : j ≡ k = (==_iff j k).0 e in
          let gone : lookup k m ≡ none = lookup-After ltb ltb-IsStrictOrder k m (rw same at h.0) in
          rw (gone, e)
      last (inr e) = rw e (keep (lookup k m))
        where
          keep : (o : Option V) → or_else o none ≡ o
          keep none = refl
          keep (some x) = refl
