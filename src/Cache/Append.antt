-- ===== src/Cache/Append.antt =====
-- Appending to the cache (`append`, `add_batch`, `add_decoded_batch`, `add` of src/cache.rs).
pub mod Refusals
use lightwalletd_rs.Base.{
  ℕ, suc, ◌+◌, ◌<◌, List, [], ◌∷◌, ◌++◌, ◌≡◌, ◌≢◌, refl, ap, sym, ◌∙◌, map, length, Option, none,
  some, arith, u64_max, Bool, true, false, Result, ok, err, ◌⊎◌, inl, inr, append-nil, append_assoc,
  add64, >>=-eq-ok, All,
}
use lightwalletd_rs.Base.Bytes.{Bytes}
use lightwalletd_rs.Base.Table.{Table, Below, Below-append, Below-mono, insert, insert_above}
use lightwalletd_rs.Cache.Chain.{
  Consecutive, Consecutive-append, Consecutive-last_lt, rows, IsChain, rows-append, rows-Below,
  last_height-rows,
}
use lightwalletd_rs.Cache.{
  Cache, CacheError, append_loop, commit_append, append, corruption, not_consecutive, check_height,
  last_height, write_base,
}
use lightwalletd_rs.Proto.{CompactBlock, Codec}

-- The guard passes at the expected height.
pub check_height_next :
    (tip : Option ℕ) (next height : ℕ) → height ≡ next → check_height tip (some next) height ≡ ok tt
unfolding check_height
check_height_next none next height h = ground arith
check_height_next (some t) next height h = ground arith

module _ (codec : Codec) where
  pub append_loop_step :
      (tip expected : Option ℕ) (b : CompactBlock) (rest : List (Result CacheError CompactBlock))
      (table : Table Bytes) (appended : Bool)
      → check_height tip expected b.height ≡ ok tt
      → append_loop codec tip expected (ok b ∷ rest) table appended
        ≡ append_loop codec tip
            (some (add64 b.height 1))
            rest
            (insert b.height (codec.encode b) table)
            true
  unfolding append_loop
  append_loop_step tip expected b rest table appended h = rw h

  -- A consecutive run goes to the end of the table.
  append_loop-run :
      (tip : Option ℕ) (next : ℕ) (ns : List CompactBlock) (table : Table Bytes)
      → Consecutive next ns
      → Below next table
      → append_loop codec tip (some next) (map ok ns) table true ≡ ok (table ++ rows codec ns, true)
  append_loop-run tip next [] table run below = unfold append_loop in rw append-nil
  append_loop-run tip next (b ∷ ns) table run below =
      let e : add64 b.height 1 ≡ suc next = omega arith in
      append_loop_step tip (some next) b (map ok ns) table true
        (check_height_next tip next b.height run.0)
      ∙ rw (e, insert_above b.height (codec.encode b) table (rw run.0 below))
          (append_loop-run tip (suc next) ns (table ++ (b.height, codec.encode b) ∷ []) run.2 (
              Below-append (suc next) b.height (codec.encode b) table
                (Below-mono next (suc next) table below (omega arith)) (omega arith))
            ∙ rw append_assoc)

  -- The first block may have any height on an empty table, and only the next on any other.
  append_loop-first :
      (tip : Option ℕ) (next : ℕ) (b : CompactBlock) (ns : List CompactBlock) (table : Table Bytes)
      → Consecutive next (b ∷ ns)
      → Below next table
      → check_height tip none b.height ≡ ok tt
      → append_loop codec tip none (map ok (b ∷ ns)) table false
        ≡ ok (table ++ rows codec (b ∷ ns), true)
  append_loop-first tip next b ns table run below passes =
      let e : add64 b.height 1 ≡ suc next = omega arith in
      append_loop_step tip none b (map ok ns) table false passes
      ∙ rw (e, insert_above b.height (codec.encode b) table (rw run.0 below))
          (append_loop-run tip (suc next) ns (table ++ (b.height, codec.encode b) ∷ []) run.2 (
              Below-append (suc next) b.height (codec.encode b) table
                (Below-mono next (suc next) table below (omega arith)) (omega arith))
            ∙ rw append_assoc)

  -- The height at which the run of the extended cache begins.
  abbrev pub origin : ℕ → List CompactBlock → ℕ → ℕ
  origin from [] next = next
  origin from (b ∷ bs) next = from

  append_loop-chain :
      (c : Cache) (from next : ℕ) (bs : List CompactBlock) (b : CompactBlock)
      (ns : List CompactBlock)
      → IsChain codec c from bs
      → Consecutive next (b ∷ ns)
      → (bs ≡ []) ⊎ (next ≡ from + length bs)
      → append_loop codec (last_height c.blocks) none (map ok (b ∷ ns)) c.blocks false
        ≡ ok (rows codec (bs ++ b ∷ ns), true)
  append_loop-chain c from next [] b ns chain run joins =
      rw chain.rows_are (append_loop-first none next b ns [] run tt (unfold check_height in refl))
  append_loop-chain c from next (b' ∷ bs) b ns chain run joins =
      let at_end : next ≡ from + suc (length bs) = ground arith in
      rw (chain.rows_are, last_height-rows codec from b' bs chain.run)
        (append_loop-first (some (from + length bs)) next b ns (rows codec (b' ∷ bs)) run
            (Below-mono _ _ (rows codec (b' ∷ bs)) (rows-Below codec from (b' ∷ bs) chain.run)
              (omega arith))
            (unfold check_height in ground arith)
          ∙ ap (λ t. ok (t, true)) (sym (rows-append codec (b' ∷ bs) (b ∷ ns))))

  origin-Consecutive :
      (from next : ℕ) (bs ns : List CompactBlock)
      → Consecutive from bs
      → Consecutive next ns
      → (bs ≡ []) ⊎ (next ≡ from + length bs)
      → Consecutive (origin from bs next) (bs ++ ns)
  origin-Consecutive from next [] ns run more joins = more
  origin-Consecutive from next (b' ∷ bs) ns run more joins =
      let at_end : next ≡ from + suc (length bs) = ground arith in
      Consecutive-append from (b' ∷ bs) ns run (rw at_end at more)

  -- A non-empty run of decoded blocks that starts at the height after the tip (at any height, if the
  -- cache is empty) is appended whole: the call succeeds, the cache is then the chain with the run
  -- behind it, the snapshot base is recorded if one is given, and the digests stay.
  pub append-IsChain :
      (c : Cache) (from next : ℕ) (bs : List CompactBlock) (b : CompactBlock)
      (ns : List CompactBlock) (base : Option ℕ)
      → IsChain codec c from bs
      → Consecutive next (b ∷ ns)
      → (bs ≡ []) ⊎ (next ≡ from + length bs)
      → ((append codec c (map ok (b ∷ ns)) base).1 ≡ ok tt)
        × IsChain codec
            (append codec c (map ok (b ∷ ns)) base).0
            (origin from bs next)
            (bs ++ b ∷ ns)
        × ((append codec c (map ok (b ∷ ns)) base).0.base_row ≡ write_base base c.base_row)
        × ((append codec c (map ok (b ∷ ns)) base).0.digests ≡ c.digests)
  append-IsChain c from next bs b ns base chain run joins = rw (append_eq) (
    refl,
    record { rows_are = refl; run = origin-Consecutive from next bs (b ∷ ns) chain.run run joins },
    refl,
    refl,
  )
    where
      append_eq : append codec c (map ok (b ∷ ns)) base ≡ (
        record c { blocks = rows codec (bs ++ b ∷ ns); base_row = write_base base c.base_row },
        ok tt,
      )
      append_eq =
          unfold append in
          ap (commit_append codec c base) (append_loop-chain c from next bs b ns chain run joins)

check_height_sound :
    (tip : Option ℕ) (next height : ℕ) → check_height tip (some next) height ≡ ok tt → height ≡ next
unfolding check_height
check_height_sound none next height h = ground arith
check_height_sound (some t) next height h = ground arith

-- A decoded block whose height has a successor.
abbrev pub Bounded : Result CacheError CompactBlock → Type 0
Bounded (ok b) = b.height < u64_max
Bounded (err e) = Unit

module _ (codec : Codec) where
  append_loop_checked :
      (tip expected : Option ℕ) (b : CompactBlock) (rest : List (Result CacheError CompactBlock))
      (table : Table Bytes) (appended : Bool) {r : Table Bytes × Bool}
      → append_loop codec tip expected (ok b ∷ rest) table appended ≡ ok r
      → (check_height tip expected b.height ≡ ok tt)
        × (append_loop codec tip
              (some (add64 b.height 1))
              rest
              (insert b.height (codec.encode b) table)
              true
            ≡ ok r)
  unfolding append_loop
  append_loop_checked tip expected b rest table appended h =
      let (u, passes, more) =
        >>=-eq-ok (check_height tip expected b.height)
          (λ _.
            append_loop codec tip (some (add64 b.height 1)) rest
              (insert b.height (codec.encode b) table) true)
          h in
      (passes, more)

  append_loop_sound :
      (tip : Option ℕ) (next : ℕ) (inputs : List (Result CacheError CompactBlock))
      (table : Table Bytes) {r : Table Bytes × Bool}
      → append_loop codec tip (some next) inputs table true ≡ ok r
      → All Bounded inputs
      → (ns : List CompactBlock) × (inputs ≡ map ok ns) × Consecutive next ns
  append_loop_sound tip next [] table h bounded = ([], refl, tt)
  append_loop_sound tip next (err e ∷ rest) table h bounded = unfold append_loop in cc
  append_loop_sound tip next (ok b ∷ rest) table h bounded =
      let (passes, more) = append_loop_checked tip (some next) b rest table true h in
      let at : b.height ≡ next = check_height_sound tip next b.height passes in
      let e : add64 b.height 1 ≡ suc next = omega arith in
      let (ns, same, run) =
        append_loop_sound tip (suc next) rest (insert b.height (codec.encode b) table)
          (rw e at more) bounded.1 in
      (b ∷ ns, ap (◌∷◌ (ok b)) same, (at, omega arith, run))

  joins_of_check :
      (c : Cache) (from height : ℕ) (bs : List CompactBlock)
      → IsChain codec c from bs
      → check_height (last_height c.blocks) none height ≡ ok tt
      → (bs ≡ []) ⊎ (height ≡ from + length bs)
  joins_of_check c from height [] chain h = inl refl
  joins_of_check c from height (b ∷ bs) chain h =
      let h' : check_height (some (from + length bs)) none height ≡ ok tt =
        rw (chain.rows_are, last_height-rows codec from b bs chain.run) at h in
      let below : from + length bs < u64_max = Consecutive-last_lt from b bs chain.run in
      inr (unfold check_height in ground arith)

  -- `append` succeeds only on a run that continues the cache: if it returns `ok` on inputs whose
  -- heights are below `u64::MAX`, then every input decoded, the decoded heights are consecutive, and
  -- unless there is no input or the cache is empty, they begin at the height after the tip.
  pub append-eq-ok :
      (c : Cache) (from : ℕ) (bs : List CompactBlock)
      (inputs : List (Result CacheError CompactBlock)) (base : Option ℕ)
      → IsChain codec c from bs
      → All Bounded inputs
      → (append codec c inputs base).1 ≡ ok tt
      → (ns : List CompactBlock) × (inputs ≡ map ok ns)
        × (next : ℕ) × Consecutive next ns
        × ((ns ≡ []) ⊎ ((bs ≡ []) ⊎ (next ≡ from + length bs)))
  unfolding append commit_append
  append-eq-ok c from bs [] base chain bounded h = ([], refl, 0, tt, inl refl)
  append-eq-ok c from bs (err e ∷ rest) base chain bounded h = unfold append_loop in cc
  append-eq-ok c from bs (ok b ∷ rest) base chain bounded h =
      let (r, run) =
        committed (append_loop codec (last_height c.blocks) none (ok b ∷ rest) c.blocks false) h in
      let (passes, more) =
        append_loop_checked (last_height c.blocks) none b rest c.blocks false run in
      let e : add64 b.height 1 ≡ suc b.height = omega arith in
      let (ns, same, consecutive) =
        append_loop_sound (last_height c.blocks) (suc b.height) rest
          (insert b.height (codec.encode b) c.blocks) (rw e at more) bounded.1 in
      (
        b ∷ ns,
        ap (◌∷◌ (ok b)) same,
        b.height,
        (refl, bounded.0, consecutive),
        inr (joins_of_check c from b.height bs chain passes),
      )
    where
      committed :
          (r : Result CacheError (Table Bytes × Bool))
          → (commit_append codec c base r).1 ≡ ok tt
          → (t : Table Bytes × Bool) × (r ≡ ok t)
      committed (ok t) h = (t, refl)
      committed (err e) h = unfold commit_append in cc
