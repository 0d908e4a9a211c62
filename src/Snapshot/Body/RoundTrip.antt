-- ===== src/Snapshot/Body/RoundTrip.antt =====
-- What src/snapshot/format.rs writes as an epoch body, it parses again.
use lightwalletd_rs.Base.{
  ℕ, ◌+◌, ◌≤◌, ◌≡◌, refl, sym, ◌∙◌, List, [], ◌∷◌, ◌++◌, length, append_assoc, append-nil, ltb,
  ◌==◌, not, true, false, ◌||◌, is_empty, ok, >>=-eq-ok, Bool, Bool-cases, inl, inr, u64_max,
  u32_max, arith, All,
}
use lightwalletd_rs.Base.Bytes.{Bytes, le_bytes, from_le_bytes-le_bytes}
use lightwalletd_rs.Snapshot.Body.{
  Cursor, magic, write_header, write_record, write_records, parse_records, parse_header,
  parse_epoch, is_ascii,
}
use lightwalletd_rs.Snapshot.Body.Position.{Ahead, start-Ahead, take_bytes-Ahead}

-- The records of a body, each behind its length.
abbrev pub framed : List Bytes → Bytes
framed [] = []
framed (block ∷ blocks) = (le_bytes 4 (length block) ++ block) ++ framed blocks

-- The header of a body.
abbrev pub header_bytes : Bytes → ℕ → ℕ → Bytes
header_bytes chain start count =
    magic ++ (length chain ∷ (chain ++ (le_bytes 8 start ++ le_bytes 4 count)))

write_record-eq-ok :
    (block out : Bytes)
    → write_record block ≡ ok out
    → (out ≡ le_bytes 4 (length block) ++ block) × (length block ≤ u32_max)
unfolding write_record
write_record-eq-ok block out h = elim (Bool-cases (ltb u32_max (length block))) [
  | inl long ↦ absurd (cc (rw long at h))
  | inr short ↦ (cc (rw short at h), ground arith)
]

pub write_records-eq-ok :
    (blocks : List Bytes) (out : Bytes)
    → write_records blocks ≡ ok out
    → (out ≡ framed blocks) × All (λ b. length b ≤ u32_max) blocks
unfolding write_records
write_records-eq-ok [] out h = (cc, tt)
write_records-eq-ok (block ∷ blocks) out h =
    let (first, wrote, h₁) = >>=-eq-ok (write_record block) _ h in
    let (rest, wrote', h₂) = >>=-eq-ok (write_records blocks) _ h₁ in
    let (is, short) = write_record-eq-ok block first wrote in
    let (are, all_short) = write_records-eq-ok blocks rest wrote' in
    let out_is : first ++ rest ≡ out = cc in (sym out_is ∙ rw (is, are) refl, (short, all_short))

parse_records-Ahead :
    (blocks : List Bytes) (c : Cursor) (rest : Bytes)
    → Ahead c (framed blocks ++ rest)
    → All (λ b. length b ≤ u32_max) blocks
    → (c' : Cursor) × (parse_records (length blocks) c ≡ ok (blocks, c')) × Ahead c' rest
unfolding parse_records
parse_records-Ahead [] c rest ahead small = (c, refl, ahead)
parse_records-Ahead (block ∷ blocks) c rest ahead small =
    let split =
      append_assoc (le_bytes 4 (length block) ++ block) (framed blocks) rest
      ∙ append_assoc (le_bytes 4 (length block)) block (framed blocks ++ rest) in
    let (width_read, ahead₁) =
      take_bytes-Ahead c (le_bytes 4 (length block)) (block ++ (framed blocks ++ rest)) 4
        (rw split at ahead) refl in
    let value = from_le_bytes-le_bytes 4 (length block) (omega (arith, small.0)) in
    let (block_read, ahead₂) =
      take_bytes-Ahead (record c { offset = c.offset + 4 }) block (framed blocks ++ rest)
        (length block) ahead₁ refl in
    let (c', others, ahead₃) =
      parse_records-Ahead blocks (record c { offset = c.offset + 4 + length block }) rest ahead₂
        small.1 in
    (c', rw (parse_records, width_read) (rw value (rw block_read (rw others refl))), ahead₃)

write_header-eq-ok :
    (chain head : Bytes) (start count : ℕ)
    → write_header chain start count ≡ ok head
    → (head ≡ header_bytes chain start count) × (is_ascii chain ≡ true) × (length chain ≤ 255)
unfolding write_header
write_header-eq-ok chain head start count h =
    elim (Bool-cases (is_empty chain || not (is_ascii chain) || ltb 255 (length chain))) [
      | inl bad ↦ absurd (cc (rw bad at h))
      | inr good ↦ (sym (cc (rw good at h)), ground arith, ground arith)
    ]

module _ (is_utf8 : Bytes → Bool) where
  parse_header-Ahead :
      (c : Cursor) (chain rest : Bytes) (start count : ℕ)
      → Ahead c (header_bytes chain start count ++ rest)
      → is_utf8 chain ≡ true
      → start ≤ u64_max
      → count ≤ u32_max
      → (c' : Cursor) × (parse_header is_utf8 c
          ≡ ok (record { chain = chain; start = start; count = count }, c'))
        × Ahead c' rest
  unfolding parse_header
  parse_header-Ahead c chain rest start count ahead valid fits fits' =
      let split = append_assoc chain (le_bytes 8 start ++ le_bytes 4 count) rest in
      let fields = le_bytes 8 start ++ (le_bytes 4 count ++ rest) in
      let (magic_read, ahead₁) =
        take_bytes-Ahead c magic
          (length chain ∷ ((chain ++ (le_bytes 8 start ++ le_bytes 4 count)) ++ rest)) 8 ahead
          refl in
      let (width_read, ahead₂) =
        take_bytes-Ahead _ (length chain ∷ []) (chain ++ fields) 1 (rw split at ahead₁) refl in
      let (chain_read, ahead₃) = take_bytes-Ahead _ chain fields (length chain) ahead₂ refl in
      let (start_read, ahead₄) =
        take_bytes-Ahead _ (le_bytes 8 start) (le_bytes 4 count ++ rest) 8 ahead₃ refl in
      let (count_read, ahead₅) = take_bytes-Ahead _ (le_bytes 4 count) rest 4 ahead₄ refl in
      let start_is = from_le_bytes-le_bytes 8 start (omega arith) in
      let count_is = from_le_bytes-le_bytes 4 count (omega arith) in
      (
        _,
        rw (parse_header, magic_read)
            (rw width_read (
              rw chain_read
                (rw valid (rw start_read (rw count_read (rw (start_is, count_is) refl)))))),
        ahead₅,
      )

  -- A body that is written, of a chain name that the header can carry and of at most `u32::MAX` blocks
  -- in less than `u64::MAX` bytes, parses as what was written: the header and the blocks in their
  -- order. ASCII is UTF-8.
  pub parse_epoch-write_records :
      ((text : Bytes) → is_ascii text ≡ true → is_utf8 text ≡ true)
      → (chain head tail : Bytes) (start : ℕ) (blocks : List Bytes)
      → write_header chain start (length blocks) ≡ ok head
      → write_records blocks ≡ ok tail
      → start ≤ u64_max
      → length blocks ≤ u32_max
      → length (head ++ tail) ≤ u64_max
      → parse_epoch is_utf8 (head ++ tail)
        ≡ ok (record { chain = chain; start = start; count = length blocks }, blocks)
  unfolding parse_epoch
  parse_epoch-write_records ascii chain head tail start blocks wrote wrote' fits few small =
      let (head_is, plain, short) = write_header-eq-ok chain head start (length blocks) wrote in
      let (tail_is, all_short) = write_records-eq-ok blocks tail wrote' in
      let body = head ++ tail in
      let body_is : body ≡ header_bytes chain start (length blocks) ++ framed blocks =
        rw (head_is, tail_is) refl in
      let ahead =
        start-Ahead body (header_bytes chain start (length blocks) ++ framed blocks) body_is
          small in
      let (c₁, header_read, ahead₁) =
        parse_header-Ahead (record { body = body; offset = 0 }) chain (framed blocks) start
          (length blocks) ahead (ascii chain plain) fits few in
      let (c₂, records_read, ahead₂) =
        parse_records-Ahead blocks c₁ [] (rw (sym (append-nil (framed blocks))) at ahead₁)
          all_short in
      let done : not (c₂.offset == length c₂.body) ≡ false = ground (arith, ahead₂.room) in
      rw (parse_epoch, header_read) (rw records_read (rw done refl))
