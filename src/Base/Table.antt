-- ===== src/Base/Table.antt =====
-- An ordered map keyed by a number, as its entries in ascending key order: the contents of a
-- `BTreeMap<u64, V>` and of a redb table.
use Prim.Native.Nat.{ℕ, suc, ◌≤◌, ◌<◌}
use mathlib.Core.Path.{◌≡◌, refl}
use mathlib.Core.Bool.{Bool, true}
use mathlib.Core.Logic.{inl, inr}
use mathlib.Core.Option.{Option, none, some}
use mathlib.Core.List.{List, [], ◌∷◌, ◌++◌}
use native.Mathlib.Omega.{arith}
use lightwalletd_rs.Base.Lists.{filter, All}
use lightwalletd_rs.Base.Tests.{Bool-cases, ltb, ◌==◌, if◌then◌else◌}

abbrev pub or_else {ℓ} : {A : Type ℓ} → Option A → Option A → Option A
or_else none o = o
or_else (some a) o = some a

abbrev pub Table {ℓ} : Type ℓ → Type ℓ
Table V = List (ℕ × V)

module _ {ℓ} {V : Type ℓ} where
  abbrev pub lookup : ℕ → Table V → Option V
  lookup k [] = none
  lookup k ((j, old) ∷ entries) = if j == k then some old else lookup k entries

  abbrev pub insert : ℕ → V → Table V → Table V
  insert k v [] = (k, v) ∷ []
  insert k v ((j, old) ∷ entries) =
      if ltb k j
      then (k, v) ∷ (j, old) ∷ entries
      else if k == j
      then (k, v) ∷ entries
      else (j, old) ∷ insert k v entries

  abbrev pub retain_keys : (ℕ → Bool) → Table V → Table V
  retain_keys p = filter (λ e. p e.0)

  -- Every key is at least `low`, and the keys ascend.
  abbrev pub AscendsFrom : ℕ → Table V → Type 0
  AscendsFrom low [] = Unit
  AscendsFrom low ((k, v) ∷ entries) = (low ≤ k) × AscendsFrom (suc k) entries

  -- Every key is below `high`.
  abbrev pub Below : ℕ → Table V → Type 0
  Below high [] = Unit
  Below high ((k, v) ∷ entries) = (k < high) × Below high entries

  -- A key above all others goes to the end.
  pub insert_above :
      (k : ℕ) (v : V) (entries : Table V)
      → Below k entries
      → insert k v entries ≡ entries ++ (k, v) ∷ []
  insert_above k v [] h = refl
  insert_above k v ((j, old) ∷ entries) h = ground (arith, insert_above k v entries h.1)

  pub Below-append :
      (high k : ℕ) (v : V) (entries : Table V)
      → Below high entries
      → k < high
      → Below high (entries ++ (k, v) ∷ [])
  Below-append high k v [] h hk = (hk, tt)
  Below-append high k v ((j, old) ∷ entries) h hk = (h.0, Below-append high k v entries h.1 hk)

  pub Below-mono : (a b : ℕ) (entries : Table V) → Below a entries → a ≤ b → Below b entries
  Below-mono a b [] h le = tt
  Below-mono a b ((j, old) ∷ entries) h le = (omega arith, Below-mono a b entries h.1 le)

  pub lookup-insert :
      (k j : ℕ) (v : V) (entries : Table V)
      → lookup k (insert j v entries) ≡ (if j == k then some v else lookup k entries)
  lookup-insert k j v [] = refl
  lookup-insert k j v ((i, w) ∷ entries) = ground (arith, lookup-insert k j v entries)

  -- A key below all others is not there.
  pub lookup_below :
      (k low : ℕ) (entries : Table V) → AscendsFrom low entries → k < low → lookup k entries ≡ none
  lookup_below k low [] h lt = refl
  lookup_below k low ((j, old) ∷ entries) h lt = ground (arith, lookup_below k (suc j) entries h.1)

  pub lookup-retain_keys :
      (p : ℕ → Bool) (k : ℕ) (entries : Table V)
      → lookup k (retain_keys p entries) ≡ (if p k then lookup k entries else none)
  lookup-retain_keys p k [] = ground arith
  lookup-retain_keys p k ((j, old) ∷ entries) = ground (arith, lookup-retain_keys p k entries)

  pub AscendsFrom-mono :
      (a b : ℕ) (entries : Table V) → AscendsFrom b entries → a ≤ b → AscendsFrom a entries
  AscendsFrom-mono a b [] h le = tt
  AscendsFrom-mono a b ((j, old) ∷ entries) h le = (omega arith, h.1)

  pub retain_keys-AscendsFrom :
      (p : ℕ → Bool) (low : ℕ) (entries : Table V)
      → AscendsFrom low entries
      → AscendsFrom low (retain_keys p entries)
  retain_keys-AscendsFrom p low [] h = tt
  retain_keys-AscendsFrom p low ((j, old) ∷ entries) h = elim (Bool-cases (p j)) [
    | inl kept ↦ rw kept (h.0, retain_keys-AscendsFrom p (suc j) entries h.1)
    | inr dropped ↦ rw dropped (
        AscendsFrom-mono low (suc j) (retain_keys p entries)
          (retain_keys-AscendsFrom p (suc j) entries h.1) (omega arith))
  ]

  pub retain_keys-All :
      (p : ℕ → Bool) (entries : Table V) → All (λ e. p e.0 ≡ true) (retain_keys p entries)
  retain_keys-All p [] = tt
  retain_keys-All p ((j, old) ∷ entries) = elim (Bool-cases (p j)) [
    | inl kept ↦ rw kept (kept, retain_keys-All p entries)
    | inr dropped ↦ rw dropped (retain_keys-All p entries)
  ]

  pub lookup-append :
      (k : ℕ) (xs ys : Table V) → lookup k (xs ++ ys) ≡ or_else (lookup k xs) (lookup k ys)
  lookup-append k [] ys = refl
  lookup-append k ((j, old) ∷ xs) ys = ground (arith, lookup-append k xs ys)
