-- ===== src/Snapshot/Body/Position.antt =====
-- A cursor of src/snapshot/format.rs as the bytes that are still ahead of it.
use lightwalletd_rs.Base.{
  ℕ, zero, suc, ◌+◌, ◌≤◌, ◌≡◌, refl, ap, sym, ◌∙◌, List, [], ◌∷◌, ◌++◌, length, take, drop, ltb,
  ◌||◌, false, Result, ok, Bool-cases, inl, inr, u64_max, arith, take_append, drop_append,
  take-append-drop, length-append, length-take, length-drop,
}
use lightwalletd_rs.Base.Bytes.{Bytes}
use lightwalletd_rs.Snapshot.Body.{Cursor, take_bytes}
use lightwalletd_rs.Snapshot.Failure.{SnapshotError}

-- What lies ahead of the cursor; a body is a slice, so its length is a `usize`.
pub record Ahead (c : Cursor) (rest : Bytes) : Type 0 where
  pub suffix : drop c.offset c.body ≡ rest
  pub room : c.offset + length rest ≡ length c.body
  pub fits : length c.body ≤ u64_max

pub start-Ahead :
    (body rest : Bytes)
    → body ≡ rest
    → length body ≤ u64_max
    → Ahead (record { body = body; offset = 0 }) rest
start-Ahead body rest same fits = record {
  suffix = same;
  room = omega (arith, ap length same);
  fits = fits;
}

drop_nil {ℓ} : {A : Type ℓ} (n : ℕ) → drop {A = A} n [] ≡ []
drop_nil zero = refl
drop_nil (suc n) = refl

drop-drop {ℓ} : {A : Type ℓ} (m n : ℕ) (xs : List A) → drop n (drop m xs) ≡ drop (m + n) xs
drop-drop zero n xs = let e : 0 + n ≡ n = omega arith in rw e refl
drop-drop (suc m) n [] = let e : suc m + n ≡ suc (m + n) = omega arith in rw e (drop_nil n)
drop-drop (suc m) n (x ∷ xs) =
    let e : suc m + n ≡ suc (m + n) = omega arith in rw e (drop-drop m n xs)

pub take_bytes-Ahead :
    (c : Cursor) (part rest : Bytes) (n : ℕ)
    → Ahead c (part ++ rest)
    → length part ≡ n
    → (take_bytes c n ≡ ok (part, record c { offset = c.offset + n }))
      × Ahead (record c { offset = c.offset + n }) rest
unfolding take_bytes
take_bytes-Ahead c part rest n ahead len =
    let both = length-append part rest in
    let within : (ltb u64_max (c.offset + n) || ltb (length c.body) (c.offset + n)) ≡ false =
      ground (arith, both, ahead.room, ahead.fits) in
    (
      rw within (
          ap (λ part'. ok (part', record c { offset = c.offset + n }))
            (rw (ahead.suffix, sym len) (take_append part rest))),
      record {
        suffix =
            sym (drop-drop c.offset n c.body) ∙ rw (ahead.suffix, sym len) (drop_append part rest);
        room = omega (arith, both, ahead.room);
        fits = ahead.fits;
      },
    )

-- A read that succeeds takes a part of what lies ahead.
pub take_bytes-eq-ok :
    (c c' : Cursor) (rest part : Bytes) (n : ℕ)
    → Ahead c rest
    → take_bytes c n ≡ ok (part, c')
    → (rest ≡ part ++ drop n rest) × (length part ≡ n) × Ahead c' (drop n rest)
unfolding take_bytes
take_bytes-eq-ok c c' rest part n ahead h =
    elim (Bool-cases (ltb u64_max (c.offset + n) || ltb (length c.body) (c.offset + n))) [
      | inl beyond ↦ absurd (cc (rw beyond at h))
      | inr within ↦
          let read : ◌≡◌ {A = Result SnapshotError (Bytes × Cursor)}
              (ok (take n (drop c.offset c.body), record c { offset = c.offset + n }))
              (ok (part, c')) =
            rw within at h in
          let taken : take n (drop c.offset c.body) ≡ part = cc in
          let moved : record c { offset = c.offset + n } ≡ c' = cc in
          let part_is : take n rest ≡ part = rw ahead.suffix at taken in
          (
            sym (rw part_is at (take-append-drop n rest)),
            sym (ap length part_is) ∙ length-take n rest ∙ ground (arith, ahead.room, ahead.fits),
            rw (sym moved) (record {
              suffix = sym (drop-drop c.offset n c.body) ∙ ap (drop n) ahead.suffix;
              room = ground (arith, ahead.room, length-drop n rest);
              fits = ahead.fits;
            }),
          )
    ]
