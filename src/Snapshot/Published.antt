-- ===== src/Snapshot/Published.antt =====
-- Export and import together: what src/snapshot/export.rs publishes of the node's own chain,
-- src/snapshot/import.rs accepts.
use mathlib.Core.Path.{subst}
use lightwalletd_rs.Base.{
  ℕ, suc, ◌+◌, ◌-◌, ◌≤◌, ◌≡◌, refl, ap, sym, ◌∙◌, List, [], ◌∷◌, ◌++◌, append_assoc, append-nil,
  map, Bool, true, false, none, some, ltb, ◌==◌, =ᵇ-refl, not, ◌||◌, Bool-cases, inl, inr, ok,
  >>=-eq-ok, guard_ok, ok_injective, ok_or, ok_or-eq-ok, length, length-map, arith, u64_max,
  u32_max, add64, sub64,
}
use lightwalletd_rs.Base.Bytes.{Bytes}
use lightwalletd_rs.Cache.Truncate.{epoch_digest}
use lightwalletd_rs.Cache.Chain.{rows}
use lightwalletd_rs.Cache.{Cache, in_range, decode}
use lightwalletd_rs.Encoding.{Text, Hex}
use lightwalletd_rs.Node.{Node}
use lightwalletd_rs.Proto.{CompactBlock, Codec, IsCodec}
use lightwalletd_rs.Snapshot.Body.{write_header, write_record, write_records, is_ascii}
use lightwalletd_rs.Snapshot.Body.RoundTrip.{parse_epoch-write_records}
use lightwalletd_rs.Snapshot.Digest
use lightwalletd_rs.Snapshot.Digest.{EpochDigest}
use lightwalletd_rs.Snapshot.Failure.{cache_error}
use lightwalletd_rs.Snapshot.Export.{
  Written, visit_block, visit_rows, for_each_raw, body_count, write_body, write_epoch, anchor_block,
  compute_epoch_digest,
}
use lightwalletd_rs.Snapshot.Export.Bodies.{compute_epoch_digest-Computed, write_epoch-Computed}
use lightwalletd_rs.Snapshot.Manifest.{entry}
use lightwalletd_rs.Snapshot.Verify.Accepts.{
  AnswersAll, verify_anchor-HeldFrom, check_records-JoinedTo,
}
use lightwalletd_rs.Snapshot.Verify.Anchor.{HeldFrom, anchored_bytes}
use lightwalletd_rs.Snapshot.Verify.Layers.{JoinedTo}
use lightwalletd_rs.Snapshot.Verify.Records.{HeightsFrom, hashes_of}
use lightwalletd_rs.Snapshot.Verify.{anchor_bytes, open_epoch, verify_epoch}

write_records_cons :
    (block framed tail : Bytes) (blocks : List Bytes)
    → write_record block ≡ ok framed
    → write_records blocks ≡ ok tail
    → write_records (block ∷ blocks) ≡ ok (framed ++ tail)
unfolding write_records
write_records_cons block framed tail blocks wrote others =
    rw (write_records, wrote) (rw others refl)

module _ (codec : Codec) (lawful : IsCodec codec) (sha256 : Bytes → Bytes) where
  anchor_block-eq-ok :
      (height : ℕ) (b : CompactBlock) (anchored anchored' : Bytes)
      → anchor_block codec sha256 height (codec.encode b) anchored ≡ ok anchored'
      → anchored' ≡ anchored ++ anchor_bytes height b.hash
  unfolding anchor_block
  anchor_block-eq-ok height b anchored anchored' h =
      let (b', read, h₁) =
        >>=-eq-ok (ok_or (cache_error decode) (codec.decode (codec.encode b))) _ h in
      let (at, h₂) = guard_ok (not (b'.height == height)) _ _ anchored' h₁ in
      let same_block : some b' ≡ some b =
        sym (ok_or-eq-ok (cache_error decode) (codec.decode (codec.encode b)) b' read)
        ∙ lawful.decode-encode b in
      let same : b' ≡ b = cc in
      sym (ok_injective _ anchored' h₂) ∙ ap (λ x. anchored ++ anchor_bytes height x.hash) same

  visit_rows_chain :
      (height : ℕ) (bs : List CompactBlock) (out anchored : Bytes) (written : ℕ) (s : Written)
      → HeightsFrom height bs
      → visit_rows
          (visit_block (anchor_block codec sha256))
          (record { out = out; anchored = anchored; written = written })
          (rows codec bs)
        ≡ ok s
      → (tail : Bytes) × (write_records (map codec.encode bs) ≡ ok tail)
        × (s.out ≡ out ++ tail)
        × (s.anchored ≡ anchored ++ anchored_bytes height (hashes_of bs))
        × (s.written ≡ written + length bs)
  unfolding visit_rows visit_block write_records
  visit_rows_chain height [] out anchored written s heights h =
      let same = ok_injective (record { out = out; anchored = anchored; written = written }) s h in
      (
        [],
        refl,
        sym (ap (λ x. x.out) same) ∙ sym (append-nil out),
        sym (ap (λ x. x.anchored) same) ∙ sym (append-nil anchored),
        omega (arith, ap (λ x. x.written) same),
      )
  visit_rows_chain height (b ∷ bs) out anchored written s heights h =
      let (s', visited, h₁) =
        >>=-eq-ok
          (visit_block (anchor_block codec sha256)
            (record { out = out; anchored = anchored; written = written }) b.height
            (codec.encode b))
          _ h in
      let (framed, wrote, h₂) = >>=-eq-ok (write_record (codec.encode b)) _ visited in
      let (anchored₁, fed, h₃) =
        >>=-eq-ok (anchor_block codec sha256 b.height (codec.encode b) anchored) _ h₂ in
      let same =
        ok_injective (record { out = out ++ framed; anchored = anchored₁; written = suc written })
          s' h₃ in
      let (tail, others, out_is, anchored_is, written_is) =
        visit_rows_chain (suc height) bs (out ++ framed) anchored₁ (suc written) s heights.1
          (rw (← same) at h₁) in
      let fed_is = anchor_block-eq-ok b.height b anchored anchored₁ fed in
      (
        framed ++ tail,
        write_records_cons (codec.encode b) framed tail (map codec.encode bs) wrote others,
        out_is ∙ append_assoc out framed tail,
        anchored_is
            ∙ ap (λ x. x ++ anchored_bytes (suc height) (hashes_of bs)) fed_is
            ∙ append_assoc anchored (anchor_bytes b.height b.hash)
                (anchored_bytes (suc height) (hashes_of bs))
            ∙ ap
                (λ x.
                  anchored ++ (anchor_bytes x b.hash ++ anchored_bytes (suc height) (hashes_of bs)))
                heights.0,
        omega arith,
      )

  -- A written body of these blocks.
  record Wrote (chain out anchored : Bytes) (start end : ℕ) (bs : List CompactBlock) : Type 0 where
    head : Bytes
    tail : Bytes
    headed : write_header chain start (length (map codec.encode bs)) ≡ ok head
    records_are : write_records (map codec.encode bs) ≡ ok tail
    out_is : out ≡ head ++ tail
    anchored_is : anchored ≡ anchored_bytes start (hashes_of bs)
    spans : start + length bs ≡ suc end
    few : length bs ≤ u32_max

  body_count-eq-ok :
      (start end count : ℕ)
      → body_count start end ≡ ok count
      → (start ≤ end) × (count ≡ suc end - start) × (count ≤ u32_max)
  body_count-eq-ok start end count h =
      elim (Bool-cases (ltb end start || ltb u32_max (suc end - start))) [
        | inl bad ↦ absurd (cc (rw bad at h))
        | inr good ↦
            let same = ok_injective (suc end - start) count (rw good at h) in
            (ground arith, sym same, ground (arith, same))
      ]

  write_body-Wrote :
      (c : Cache) (chain : Text) (start end : ℕ) (out anchored : Bytes) (bs : List CompactBlock)
      → in_range start end c.blocks ≡ rows codec bs
      → HeightsFrom start bs
      → write_body c chain start end (anchor_block codec sha256) ≡ ok (out, anchored)
      → Wrote chain out anchored start end bs
  unfolding write_body
  write_body-Wrote c chain start end out anchored bs rows_are heights h =
      let (count, counted, h₁) = >>=-eq-ok (body_count start end) _ h in
      let (head, headed, h₂) = >>=-eq-ok (write_header chain start count) _ h₁ in
      let (s, visited, h₃) =
        >>=-eq-ok
          (for_each_raw c start end (visit_block (anchor_block codec sha256))
            (record { out = head; anchored = []; written = 0 }))
          _ h₂ in
      let (complete, h₄) = guard_ok (not (s.written == count)) _ _ (out, anchored) h₃ in
      let same = ok_injective (s.out, s.anchored) (out, anchored) h₄ in
      let (ordered, count_is, few) = body_count-eq-ok start end count counted in
      let (tail, others, out_is, anchored_is, written_is) =
        visit_rows_chain start bs head [] 0 s heights (
          subst
            (λ rs.
              visit_rows (visit_block (anchor_block codec sha256))
                (record { out = head; anchored = []; written = 0 }) rs
              ≡ ok s)
            rows_are visited) in
      let all : count ≡ length (map codec.encode bs) = ground (arith, length-map codec.encode bs) in
      record {
        head = head;
        tail = tail;
        headed = subst (λ n. write_header chain start n ≡ ok head) all headed;
        records_are = others;
        out_is = sym (ap (λ p. p.0) same) ∙ out_is;
        anchored_is = sym (ap (λ p. p.1) same) ∙ anchored_is;
        spans = omega (arith, length-map codec.encode bs);
        few = omega (arith, length-map codec.encode bs);
      }

  module _ (hex : Hex) (is_utf8 : Bytes → Bool) where
    open_epoch-Wrote :
        (chain : Text) (index : ℕ) (d : EpochDigest) (out anchored : Bytes) (bs : List CompactBlock)
        → ((text : Bytes) → is_ascii text ≡ true → is_utf8 text ≡ true)
        → Wrote chain out anchored d.start d.end bs
        → sha256 out ≡ d.content
        → d.start ≤ u64_max
        → d.end ≤ u64_max
        → length out ≤ u64_max
        → open_epoch hex sha256 is_utf8 out (entry hex d index) chain ≡ ok (map codec.encode bs)
    unfolding open_epoch entry
    open_epoch-Wrote chain index d out anchored bs ascii w content_is start_le end_le small =
        let records = map codec.encode bs in
        let many = length-map codec.encode bs in
        let parsed =
          parse_epoch-write_records is_utf8 ascii chain w.head w.tail d.start records w.headed
            w.records_are start_le (omega (arith, many, w.few)) (rw w.out_is at small) in
        let bounds : (not (d.start == d.start)
              || not (length records == add64 (sub64 d.end d.start) 1))
            ≡ false =
          ground (arith, many, w.spans, w.few) in
        rw (open_epoch, content_is, =ᵇ-refl (hex.encode d.content))
          (rw w.out_is (rw parsed (rw (=ᵇ-refl chain) (rw bounds refl))))

    -- What a server publishes of the node's own chain, an importer accepts. Suppose a digest was computed
    -- for an epoch whose rows are those of blocks at consecutive heights, each joined to the one before it in
    -- hash and tree sizes and each with the hash that the node has, and it was stored as its row in a cache
    -- that still holds the same rows. Then the epoch is served, and the served body, checked against the
    -- manifest entry of the digest and a node that answers every batch, passes every layer and yields the
    -- blocks' stored bytes. ASCII is UTF-8, SHA-256 has 32 bytes, and the length of the body is a `u64`.
    pub verify_epoch-write_epoch :
        (node : Node) (hash_of : ℕ → Text) (c c' c'' : Cache) (chain : Text) (index : ℕ)
        (d : EpochDigest) (bs : List CompactBlock)
        → ((text : Bytes) → is_ascii text ≡ true → is_utf8 text ≡ true)
        → ((b : Bytes) → length (sha256 b) ≡ 32)
        → AnswersAll node hash_of
        → compute_epoch_digest codec sha256 c c' chain index ≡ ok (some d)
        → in_range d.start d.end c'.blocks ≡ rows codec bs
        → HeightsFrom d.start bs
        → JoinedTo none bs
        → HeldFrom hex hash_of d.start (hashes_of bs)
        → epoch_digest c'' index ≡ some (Digest.encode d)
        → in_range d.start d.end c''.blocks ≡ in_range d.start d.end c'.blocks
        → d.bytes ≤ u64_max
        → (body : Bytes) × (write_epoch c'' chain index ≡ ok body)
          × (verify_epoch hex sha256 is_utf8 codec node body (entry hex d index) chain
              ≡ ok (map codec.encode bs))
    unfolding verify_epoch entry
    verify_epoch-write_epoch node hash_of c c' c'' chain index d bs ascii wide answers computes
          rows_are heights joined held stored same_rows fits =
        let computed = compute_epoch_digest-Computed codec sha256 c c' chain index d computes in
        let w =
          write_body-Wrote c' chain d.start d.end computed.out computed.anchored bs rows_are heights
            computed.wrote in
        let opened =
          open_epoch-Wrote chain index d computed.out computed.anchored bs ascii w
            computed.content_is computed.start_le computed.end_le
            (rw (sym computed.bytes_are) at fits) in
        let checked = check_records-JoinedTo codec lawful index d.start bs none heights joined in
        let anchor_is : hex.encode (sha256 (anchored_bytes d.start (hashes_of bs)))
            ≡ hex.encode d.anchor =
          rw (← w.anchored_is) (ap hex.encode computed.anchor_is) in
        let anchored =
          verify_anchor-HeldFrom hash_of hex sha256 node (entry hex d index) (hashes_of bs) answers
            held (omega (arith, w.spans, length-map (λ b. b.hash) bs)) anchor_is in
        (
          computed.out,
          write_epoch-Computed codec sha256 c' c'' chain index d computed stored same_rows wide
              fits,
          rw (verify_epoch, opened) (rw checked (rw anchored refl)),
        )
