-- ===== src/Snapshot/Body/Canonical.antt =====
-- What src/snapshot/format.rs parses as an epoch body is what it would write for what it read.
use mathlib.Core.Path.{subst}
use lightwalletd_rs.Base.{
  ℕ, zero, suc, ◌≤◌, ◌≡◌, refl, ap, sym, ◌∙◌, List, [], ◌∷◌, ◌++◌, length, drop, append_assoc,
  append-nil, ◌==◌, not, true, ◌=ᵇ◌, eq_of_=ᵇ, ok, ok_injective, guard_ok, >>=-eq-ok, Bool,
  Bool-cases, inl, inr, u64_max, arith, All, All-split, All-append,
}
use lightwalletd_rs.Base.Bytes.{Bytes, le_bytes, from_le_bytes, le_bytes-from_le_bytes, IsByte}
use lightwalletd_rs.Snapshot.Body.{
  Cursor, take_bytes, EpochHeader, magic, parse_records, parse_header, parse_epoch, first_byte,
  at_end,
}
use lightwalletd_rs.Snapshot.Body.Position.{Ahead, start-Ahead, take_bytes-eq-ok}
use lightwalletd_rs.Snapshot.Body.RoundTrip.{framed, header_bytes}
use lightwalletd_rs.Snapshot.Failure.{malformed}

-- What lies ahead of a cursor is `part` and then `post`, with the cursor moved to `post`.
record Read (rest part post : Bytes) (c' : Cursor) : Type 0 where
  parts : rest ≡ part ++ post
  ahead : Ahead c' post
  bytes : All IsByte part
  more_bytes : All IsByte post

take_bytes-Read :
    (c c' : Cursor) (rest part : Bytes) (n : ℕ)
    → Ahead c rest
    → All IsByte rest
    → take_bytes c n ≡ ok (part, c')
    → (length part ≡ n) × Read rest part (drop n rest) c'
take_bytes-Read c c' rest part n ahead bytes h =
    let (parts, len, ahead') = take_bytes-eq-ok c c' rest part n ahead h in
    let (here, there) = All-split IsByte part (drop n rest) (rw parts at bytes) in
    (len, record { parts = parts; ahead = ahead'; bytes = here; more_bytes = there })

join_Read :
    (rest part part' middle post : Bytes) (c c' : Cursor)
    → Read rest part middle c
    → Read middle part' post c'
    → Read rest (part ++ part') post c'
join_Read rest part part' middle post c c' first second = record {
  parts = first.parts ∙ ap (λ p. part ++ p) second.parts ∙ sym (append_assoc part part' post);
  ahead = second.ahead;
  bytes = All-append IsByte part part' first.bytes second.bytes;
  more_bytes = second.more_bytes;
}

parse_records-Read :
    (n : ℕ) (c c' : Cursor) (rest : Bytes) (blocks : List Bytes)
    → Ahead c rest
    → All IsByte rest
    → parse_records n c ≡ ok (blocks, c')
    → (length blocks ≡ n) × (post : Bytes) × Read rest (framed blocks) post c'
unfolding parse_records
parse_records-Read zero c c' rest blocks ahead bytes h =
    let same = ok_injective ([], c) (blocks, c') h in
    subst (λ p. (length p.0 ≡ 0) × (post : Bytes) × Read rest (framed p.0) post p.1) same
      (refl, rest, record { parts = refl; ahead = ahead; bytes = tt; more_bytes = bytes })
parse_records-Read (suc n) c c' rest blocks ahead bytes h =
    let ((width, c₁), read₁, h₁) = >>=-eq-ok (take_bytes c 4) _ h in
    let ((block, c₂), read₂, h₂) = >>=-eq-ok (take_bytes c₁ (from_le_bytes width)) _ h₁ in
    let ((blocks', c₃), read₃, h₃) = >>=-eq-ok (parse_records n c₂) _ h₂ in
    let (len₁, part₁) = take_bytes-Read c c₁ rest width 4 ahead bytes read₁ in
    let middle = drop 4 rest in
    let (len₂, part₂) =
      take_bytes-Read c₁ c₂ middle block (from_le_bytes width) part₁.ahead part₁.more_bytes read₂ in
    let behind = drop (from_le_bytes width) middle in
    let (len₃, post, part₃) =
      parse_records-Read n c₂ c₃ behind blocks' part₂.ahead part₂.more_bytes read₃ in
    let same = ok_injective (block ∷ blocks', c₃) (blocks, c') h₃ in
    let width_is : le_bytes 4 (length block) ≡ width =
      ap (le_bytes 4) len₂ ∙ le_bytes-from_le_bytes 4 width part₁.bytes len₁ in
    let framed_part =
      join_Read rest (width ++ block) (framed blocks') behind post c₂ c₃
        (join_Read rest width block middle behind c₁ c₂ part₁ part₂) part₃ in
    subst (λ p. (length p.0 ≡ suc n) × (post' : Bytes) × Read rest (framed p.0) post' p.1) same
      (
        omega (arith, len₃),
        post,
        subst (λ w. Read rest ((w ++ block) ++ framed blocks') post c₃) (sym width_is) framed_part,
      )

pub parse_records-count :
    (n : ℕ) (c c' : Cursor) (blocks : List Bytes)
    → parse_records n c ≡ ok (blocks, c')
    → length blocks ≡ n
unfolding parse_records
parse_records-count zero c c' blocks h =
    ap (λ p. length p.0) (sym (ok_injective ([], c) (blocks, c') h))
parse_records-count (suc n) c c' blocks h =
    let ((width, c₁), read₁, h₁) = >>=-eq-ok (take_bytes c 4) _ h in
    let ((block, c₂), read₂, h₂) = >>=-eq-ok (take_bytes c₁ (from_le_bytes width)) _ h₁ in
    let ((blocks', c₃), read₃, h₃) = >>=-eq-ok (parse_records n c₂) _ h₂ in
    ap (λ p. length p.0) (sym (ok_injective (block ∷ blocks', c₃) (blocks, c') h₃))
    ∙ ap suc (parse_records-count n c₂ c₃ blocks' read₃)

eq_nil {ℓ} : {A : Type ℓ} (xs : List A) → length xs ≡ 0 → xs ≡ []
eq_nil [] h = refl
eq_nil (x ∷ xs) h = absurd (omega arith)

first_byte_is : (width : Bytes) → length width ≡ 1 → width ≡ first_byte width ∷ []
first_byte_is [] h = absurd (omega arith)
first_byte_is (b ∷ []) h = refl
first_byte_is (b ∷ b' ∷ bs) h = absurd (omega arith)

header_parts :
    (magic' width chain start count : Bytes) (n m : ℕ)
    → magic' ≡ magic
    → width ≡ length chain ∷ []
    → le_bytes 8 n ≡ start
    → le_bytes 4 m ≡ count
    → magic' ++ (width ++ (chain ++ (start ++ count))) ≡ header_bytes chain n m
header_parts magic' width chain start count n m magic_is width_is start_is count_is =
    rw (magic_is, width_is, sym start_is, sym count_is) refl

module _ (is_utf8 : Bytes → Bool) where
  parse_header-Read :
      (c c' : Cursor) (rest : Bytes) (header : EpochHeader)
      → Ahead c rest
      → All IsByte rest
      → parse_header is_utf8 c ≡ ok (header, c')
      → (is_utf8 header.chain ≡ true)
        × (post : Bytes) × Read rest (header_bytes header.chain header.start header.count) post c'
  unfolding parse_header
  parse_header-Read c c' rest header ahead bytes h =
      let ((magic', c₁), read₁, h₁) = >>=-eq-ok (take_bytes c (length magic)) _ h in
      let (same_magic, h₁') = guard_ok (not (magic' =ᵇ magic)) malformed _ _ h₁ in
      let ((width, c₂), read₂, h₂) = >>=-eq-ok (take_bytes c₁ 1) _ h₁' in
      let ((chain, c₃), read₃, h₃) = >>=-eq-ok (take_bytes c₂ (first_byte width)) _ h₂ in
      let (valid, h₃') = guard_ok (not (is_utf8 chain)) malformed _ _ h₃ in
      let ((start, c₄), read₄, h₄) = >>=-eq-ok (take_bytes c₃ 8) _ h₃' in
      let ((count, c₅), read₅, h₅) = >>=-eq-ok (take_bytes c₄ 4) _ h₄ in
      let (len₁, part₁) = take_bytes-Read c c₁ rest magic' 8 ahead bytes read₁ in
      let rest₁ = drop 8 rest in
      let (len₂, part₂) = take_bytes-Read c₁ c₂ rest₁ width 1 part₁.ahead part₁.more_bytes read₂ in
      let rest₂ = drop 1 rest₁ in
      let (len₃, part₃) =
        take_bytes-Read c₂ c₃ rest₂ chain (first_byte width) part₂.ahead part₂.more_bytes read₃ in
      let rest₃ = drop (first_byte width) rest₂ in
      let (len₄, part₄) = take_bytes-Read c₃ c₄ rest₃ start 8 part₃.ahead part₃.more_bytes read₄ in
      let rest₄ = drop 8 rest₃ in
      let (len₅, part₅) = take_bytes-Read c₄ c₅ rest₄ count 4 part₄.ahead part₄.more_bytes read₅ in
      let rest₅ = drop 4 rest₄ in
      let whole =
        join_Read rest magic' (width ++ (chain ++ (start ++ count))) rest₁ rest₅ c₁ c₅ part₁ (
          join_Read rest₁ width (chain ++ (start ++ count)) rest₂ rest₅ c₂ c₅ part₂ (
            join_Read rest₂ chain (start ++ count) rest₃ rest₅ c₃ c₅ part₃
              (join_Read rest₃ start count rest₄ rest₅ c₄ c₅ part₄ part₅))) in
      let magic_is : magic' ≡ magic = eq_of_=ᵇ magic' magic (ground arith) in
      let width_is : width ≡ length chain ∷ [] = rw len₃ (first_byte_is width len₂) in
      let start_is = le_bytes-from_le_bytes 8 start part₄.bytes len₄ in
      let count_is = le_bytes-from_le_bytes 4 count part₅.bytes len₅ in
      let read_header : EpochHeader = record {
        chain = chain;
        start = from_le_bytes start;
        count = from_le_bytes count;
      } in
      let same = ok_injective (read_header, c₅) (header, c') h₅ in
      let parts_are : magic' ++ (width ++ (chain ++ (start ++ count)))
          ≡ header_bytes chain (from_le_bytes start) (from_le_bytes count) =
        header_parts magic' width chain start count _ _ magic_is width_is start_is count_is in
      subst
        (λ p.
          (is_utf8 p.0.chain ≡ true)
          × (post : Bytes) × Read rest (header_bytes p.0.chain p.0.start p.0.count) post p.1)
        same (ground arith, rest₅, subst (λ part. Read rest part rest₅ c₅) parts_are whole)

  pub at_end-eq-ok :
      (header header' : EpochHeader) (records blocks : List Bytes) (c : Cursor)
      → at_end header (records, c) ≡ ok (header', blocks)
      → (header ≡ header') × (records ≡ blocks) × (c.offset ≡ length c.body)
  at_end-eq-ok header header' records blocks c h =
      elim (Bool-cases (not (c.offset == length c.body))) [
        | inl more ↦ absurd (cc (rw more at h))
        | inr over ↦
            let same = ok_injective (header, records) (header', blocks) (rw over at h) in
            (ap (λ p. p.0) same, ap (λ p. p.1) same, ground arith)
      ]

  -- A body of bytes that parses is, byte for byte, the header that was read and behind it the records
  -- that were read, each behind its length; there are as many of them as the header says, and the
  -- chain name is UTF-8. So two bodies that parse alike are the same bytes.
  pub parse_epoch-canonical :
      (body : Bytes) (header : EpochHeader) (records : List Bytes)
      → All IsByte body
      → length body ≤ u64_max
      → parse_epoch is_utf8 body ≡ ok (header, records)
      → (body ≡ header_bytes header.chain header.start header.count ++ framed records)
        × (length records ≡ header.count)
        × (is_utf8 header.chain ≡ true)
  unfolding parse_epoch
  parse_epoch-canonical body header records bytes small h =
      let ((header', c₁), read₁, h₁) =
        >>=-eq-ok (parse_header is_utf8 (record { body = body; offset = 0 })) _ h in
      let ((records', c₂), read₂, h₂) = >>=-eq-ok (parse_records header'.count c₁) _ h₁ in
      let (same_header, same_records, over) = at_end-eq-ok header' header records' records c₂ h₂ in
      let (valid, rest, head) =
        parse_header-Read (record { body = body; offset = 0 }) c₁ body header'
          (start-Ahead body body refl small) bytes read₁ in
      let (len, post, tail) =
        parse_records-Read header'.count c₁ c₂ rest records' head.ahead head.more_bytes read₂ in
      let nothing_left : length post ≡ 0 = omega (arith, tail.ahead.room, over) in
      let body_is : body
          ≡ header_bytes header'.chain header'.start header'.count ++ framed records' =
        head.parts
        ∙ ap (λ p. header_bytes header'.chain header'.start header'.count ++ p)
            (tail.parts
              ∙ ap (λ p. framed records' ++ p) (eq_nil post nothing_left)
              ∙ append-nil (framed records')) in
      (
        rw (sym same_header, sym same_records) body_is,
        rw (sym same_header, sym same_records) len,
        rw (sym same_header) valid,
      )
