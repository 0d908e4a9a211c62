-- ===== src/Snapshot/Export/Bodies.antt =====
-- The bodies that src/snapshot/export.rs serves are those that it computed the digests of.
use lightwalletd_rs.Base.{
  ℕ, suc, ◌≤◌, ◌≡◌, refl, ap, [], ◌∷◌, ◌++◌, Bool-cases, inl, inr, Option, some, ltb, ◌==◌, not,
  ◌||◌, Result, ok, >>=-eq-ok, guard_ok, ok_injective, length, max, u64_max, arith, Option-cases,
}
use lightwalletd_rs.Base.Bytes.{Bytes}
use lightwalletd_rs.Base.Table.{Table}
use lightwalletd_rs.Cache.Truncate.{epoch_digest}
use lightwalletd_rs.Cache.{Cache, range, in_range}
use lightwalletd_rs.Encoding.{Text}
use lightwalletd_rs.Proto.{Codec}
use lightwalletd_rs.Snapshot.Body.{write_header, write_record}
use lightwalletd_rs.Snapshot.Digest
use lightwalletd_rs.Snapshot.Digest.{EpochDigest}
use lightwalletd_rs.Snapshot.Epoch.{epoch_first_height, epoch_last_height}
use lightwalletd_rs.Snapshot.Failure.{SnapshotError}
use lightwalletd_rs.Snapshot.Export.{
  Written, visit_block, visit_rows, for_each_raw, body_count, write_body, no_anchor, write_epoch,
  complete_epoch_bounds, anchor_block, digest_of, compute_epoch_digest,
}

abbrev state : Bytes → Bytes → ℕ → Written
state out anchored written = record { out = out; anchored = anchored; written = written }

-- What is written does not depend on what else the visitor does.
visit_rows_out :
    (on_block : ℕ → Bytes → Bytes → Result SnapshotError Bytes) (rows : Table Bytes)
    (out anchored anchored' : Bytes) (written : ℕ) (s : Written)
    → visit_rows (visit_block on_block) (state out anchored written) rows ≡ ok s
    → visit_rows (visit_block no_anchor) (state out anchored' written) rows
      ≡ ok (state s.out anchored' s.written)
unfolding visit_rows visit_block
visit_rows_out on_block [] out anchored anchored' written s h =
    let same = ok_injective (state out anchored written) s h in
    ap (λ t. ok (state t.out anchored' t.written)) same
visit_rows_out on_block ((height, raw) ∷ rows) out anchored anchored' written s h =
    let (s', visited, h₁) =
      >>=-eq-ok (visit_block on_block (state out anchored written) height raw) _ h in
    let (framed, wrote, h₂) = >>=-eq-ok (write_record raw) _ visited in
    let (anchored₁, fed, h₃) = >>=-eq-ok (on_block height raw anchored) _ h₂ in
    let same = ok_injective (state (out ++ framed) anchored₁ (suc written)) s' h₃ in
    rw (visit_rows, visit_block, wrote)
      (visit_rows_out on_block rows (out ++ framed) anchored₁ anchored' (suc written) s
        (rw (← same) at h₁))

write_body_out :
    (on_block : ℕ → Bytes → Bytes → Result SnapshotError Bytes) (c c' : Cache) (chain : Text)
    (start end : ℕ) (out anchored : Bytes)
    → write_body c chain start end on_block ≡ ok (out, anchored)
    → in_range start end c'.blocks ≡ in_range start end c.blocks
    → write_body c' chain start end no_anchor ≡ ok (out, [])
unfolding write_body
write_body_out on_block c c' chain start end out anchored h same_rows =
    let (count, counted, h₁) = >>=-eq-ok (body_count start end) _ h in
    let (head, headed, h₂) = >>=-eq-ok (write_header chain start count) _ h₁ in
    let (s, visited, h₃) =
      >>=-eq-ok (for_each_raw c start end (visit_block on_block) (state head [] 0)) _ h₂ in
    let (complete, h₄) = guard_ok (not (s.written == count)) _ _ (out, anchored) h₃ in
    let out_is = ap (λ p. p.0) (ok_injective (s.out, s.anchored) (out, anchored) h₄) in
    let again = visit_rows_out on_block (in_range start end c.blocks) head [] [] 0 s visited in
    rw (write_body, counted)
      (rw (headed, same_rows) (rw again (rw complete (ap (λ o. ok (o, [])) out_is))))

complete_epoch_bounds-le :
    (c : Cache) (index start end : ℕ)
    → complete_epoch_bounds c index ≡ some (start, end)
    → (start ≤ u64_max) × (end ≤ u64_max)
unfolding complete_epoch_bounds epoch_last_height
complete_epoch_bounds-le c index start end h = elim (Option-cases (range c)) [
  | inl e ↦ absurd (cc (rw (complete_epoch_bounds, e) at h))
  | inr ((base, tip), e) ↦
      elim (Bool-cases (
        ltb (epoch_last_height index) (max (epoch_first_height index) base)
        || not (ltb (epoch_last_height index) tip))) [
          | inl out ↦ absurd (cc (rw out at (rw (complete_epoch_bounds, e) at h)))
          | inr inside ↦
              let same : ◌≡◌ {A = Option (ℕ × ℕ)}
                  (some (max (epoch_first_height index) base, epoch_last_height index))
                  (some (start, end)) =
                rw inside at (rw (complete_epoch_bounds, e) at h) in
              let start_is : max (epoch_first_height index) base ≡ start = cc in
              let end_is : epoch_last_height index ≡ end = cc in (ground arith, ground arith)
        ]
]

module _ (codec : Codec) (sha256 : Bytes → Bytes) where
  -- What a digest was computed from.
  pub record Computed (c : Cache) (chain : Text) (d : EpochDigest) : Type 0 where
    pub out : Bytes
    pub anchored : Bytes
    pub wrote : write_body c chain d.start d.end (anchor_block codec sha256) ≡ ok (out, anchored)
    pub start_le : d.start ≤ u64_max
    pub end_le : d.end ≤ u64_max
    pub bytes_are : length out ≡ d.bytes
    pub content_is : sha256 out ≡ d.content
    pub anchor_is : sha256 anchored ≡ d.anchor

  pub compute_epoch_digest-Computed :
      (c c' : Cache) (chain : Text) (index : ℕ) (d : EpochDigest)
      → compute_epoch_digest codec sha256 c c' chain index ≡ ok (some d)
      → Computed c' chain d
  unfolding compute_epoch_digest
  compute_epoch_digest-Computed c c' chain index d h =
      elim (Option-cases (complete_epoch_bounds c index)) [
        | inl e ↦ absurd (cc (rw (compute_epoch_digest, e) at h))
        | inr ((start, end), e) ↦
            let h' = rw (compute_epoch_digest, e) at h in
            let ((out, anchored), wrote, h₁) =
              >>=-eq-ok (write_body c' chain start end (anchor_block codec sha256)) _ h' in
            let some_is =
              ok_injective (some (digest_of codec sha256 start end (out, anchored))) (some d) h₁ in
            let d_is : digest_of codec sha256 start end (out, anchored) ≡ d = cc in
            let (start_le, end_le) = complete_epoch_bounds-le c index start end e in
            let start_is : start ≡ d.start = ap (λ x. x.start) d_is in
            let end_is : end ≡ d.end = ap (λ x. x.end) d_is in
            record {
              out = out;
              anchored = anchored;
              wrote = rw (start_is, end_is) at wrote;
              start_le = omega arith;
              end_le = omega arith;
              bytes_are = ap (λ x. x.bytes) d_is;
              content_is = ap (λ x. x.content) d_is;
              anchor_is = ap (λ x. x.anchor) d_is;
            }
      ]

  pub write_epoch-Computed :
      (c c' : Cache) (chain : Text) (index : ℕ) (d : EpochDigest) (computed : Computed c chain d)
      → epoch_digest c' index ≡ some (Digest.encode d)
      → in_range d.start d.end c'.blocks ≡ in_range d.start d.end c.blocks
      → ((b : Bytes) → length (sha256 b) ≡ 32)
      → d.bytes ≤ u64_max
      → write_epoch c' chain index ≡ ok computed.out
  unfolding write_epoch
  write_epoch-Computed c c' chain index d computed stored same_rows wide fits =
      let row_read =
        Digest.decode-encode d computed.start_le computed.end_le fits
          (rw computed.content_is at (wide computed.out))
          (rw computed.anchor_is at (wide computed.anchored)) in
      let again =
        write_body_out (anchor_block codec sha256) c c' chain d.start d.end computed.out
          computed.anchored computed.wrote same_rows in
      rw (write_epoch, stored) (rw row_read (rw again refl))

  -- Once an epoch's digest was computed, and stored as its row, a cache that still holds the same rows
  -- in the digest's bounds serves a body whose SHA-256 and length are the stored ones. SHA-256 has 32
  -- bytes, and the length of the body is a `u64`.
  pub write_epoch-served :
      (c c' c'' : Cache) (chain : Text) (index : ℕ) (d : EpochDigest)
      → compute_epoch_digest codec sha256 c c' chain index ≡ ok (some d)
      → epoch_digest c'' index ≡ some (Digest.encode d)
      → in_range d.start d.end c''.blocks ≡ in_range d.start d.end c'.blocks
      → ((b : Bytes) → length (sha256 b) ≡ 32)
      → d.bytes ≤ u64_max
      → (body : Bytes) × (write_epoch c'' chain index ≡ ok body)
        × (sha256 body ≡ d.content)
        × (length body ≡ d.bytes)
  write_epoch-served c c' c'' chain index d h stored same_rows wide fits =
      let computed = compute_epoch_digest-Computed c c' chain index d h in
      (
        computed.out,
        write_epoch-Computed c' c'' chain index d computed stored same_rows wide fits,
        computed.content_is,
        computed.bytes_are,
      )
