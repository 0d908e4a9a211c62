-- ===== src/Snapshot/Verify/Sound.antt =====
-- What src/snapshot/import.rs knows of an epoch body that it verified.
use lightwalletd_rs.Base.{
  ℕ, ◌≡◌, ap, sym, ◌∙◌, List, map, Bool, none, some, ◌==◌, ◌=ᵇ◌, eq_of_=ᵇ, not, ◌||◌, ok, >>=-eq-ok,
  then_iff, guard_ok, ok_injective, map_err, map_err-eq-ok, length, length-map, arith, add64, sub64,
}
use lightwalletd_rs.Base.Bytes.{Bytes}
use lightwalletd_rs.Encoding.{Text, Hex}
use lightwalletd_rs.Node.{Node}
use lightwalletd_rs.Proto.{CompactBlock, Codec}
use lightwalletd_rs.Snapshot.Body.{EpochHeader, parse_records, parse_header, parse_epoch}
use lightwalletd_rs.Snapshot.Body.Canonical.{at_end-eq-ok, parse_records-count}
use lightwalletd_rs.Snapshot.Failure.{epoch_rejected, framing_check}
use lightwalletd_rs.Snapshot.Manifest.{EpochEntry}
use lightwalletd_rs.Snapshot.Verify.{open_epoch, check_records, verify_anchor, verify_epoch}
use lightwalletd_rs.Snapshot.Verify.Anchor.{
  AnswersBy, HeldFrom, anchored_bytes, verify_anchor-eq-ok,
}
use lightwalletd_rs.Snapshot.Verify.Layers.{JoinedTo}
use lightwalletd_rs.Snapshot.Verify.Records.{HeightsFrom, hashes_of, check_records-eq-ok}

module _ (hex : Hex) (sha256 : Bytes → Bytes) (is_utf8 : Bytes → Bool) where
  parse_epoch-count :
      (body : Bytes) (header : EpochHeader) (records : List Bytes)
      → parse_epoch is_utf8 body ≡ ok (header, records)
      → length records ≡ header.count
  unfolding parse_epoch
  parse_epoch-count body header records h =
      let ((header', c₁), read₁, h₁) =
        >>=-eq-ok (parse_header is_utf8 (record { body = body; offset = 0 })) _ h in
      let ((records', c₂), read₂, h₂) = >>=-eq-ok (parse_records header'.count c₁) _ h₁ in
      let (same_header, same_records, over) =
        at_end-eq-ok is_utf8 header' header records' records c₂ h₂ in
      rw (sym same_header, sym same_records)
        (parse_records-count header'.count c₁ c₂ records' read₂)

  pub open_epoch-eq-ok :
      (body : Bytes) (entry : EpochEntry) (chain : Text) (records : List Bytes)
      → open_epoch hex sha256 is_utf8 body entry chain ≡ ok records
      → (hex.encode (sha256 body) ≡ entry.content_digest)
        × (length records ≡ add64 (sub64 entry.end entry.start) 1)
  unfolding open_epoch
  open_epoch-eq-ok body entry chain records h =
      let (digest, h₁) =
        guard_ok (not (hex.encode (sha256 body) =ᵇ entry.content_digest)) _ _ records h in
      let ((header, records'), parsed, h₂) =
        >>=-eq-ok
          (map_err (λ _. epoch_rejected entry.index framing_check) (parse_epoch is_utf8 body)) _
          h₁ in
      let (same_chain, h₃) = guard_ok (not (header.chain =ᵇ chain)) _ _ records h₂ in
      let (bounds, h₄) =
        guard_ok
          (not (header.start == entry.start)
            || not (header.count == add64 (sub64 entry.end entry.start) 1))
          _ _ records h₃ in
      let count_is : header.count ≡ add64 (sub64 entry.end entry.start) 1 = ground arith in
      let count = parse_epoch-count body header records' (
        map_err-eq-ok (λ _. epoch_rejected entry.index framing_check) (parse_epoch is_utf8 body)
          parsed) in
      (
        eq_of_=ᵇ (hex.encode (sha256 body)) entry.content_digest (ground arith),
        ap length (sym (ok_injective records' records h₄)) ∙ count ∙ count_is,
      )

  module _ (codec : Codec) where
    -- The blocks of a verified epoch: one for each height of the entry's bounds, each linked to the
    -- one before it in hash and tree sizes, each with the hash that the node has.
    pub record Verified (hash_of : ℕ → Text) (entry : EpochEntry) (body : Bytes)
        (records : List Bytes) : Type 0 where
      pub blocks : List CompactBlock
      pub decoded : map codec.decode records ≡ map some blocks
      pub count : length blocks ≡ add64 (sub64 entry.end entry.start) 1
      pub heights : HeightsFrom entry.start blocks
      pub joined : JoinedTo none blocks
      pub held : HeldFrom hex hash_of entry.start (hashes_of blocks)
      pub digest : hex.encode (sha256 body) ≡ entry.content_digest
      pub anchor :
          hex.encode (sha256 (anchored_bytes entry.start (hashes_of blocks))) ≡ entry.anchor

    -- If an epoch body is verified against a node that answers each height with its hash, then every
    -- record of it decodes, there is one block for each height of the manifest's bounds, in their
    -- order, each names the hash of the one before it and grows each commitment tree by exactly what it
    -- carries, and each has the hash that the node has at its height; the manifest's content digest is
    -- the body's, and its anchor is over these heights and hashes.
    pub verify_epoch-Verified :
        (node : Node) (hash_of : ℕ → Text) (body : Bytes) (entry : EpochEntry) (chain : Text)
        (records : List Bytes)
        → AnswersBy node hash_of
        → verify_epoch hex sha256 is_utf8 codec node body entry chain ≡ ok records
        → Verified hash_of entry body records
    unfolding verify_epoch
    verify_epoch-Verified node hash_of body entry chain records answers h =
        let (records', opened, h₁) =
          >>=-eq-ok (open_epoch hex sha256 is_utf8 body entry chain) _ h in
        let (hashes, checked, h₂) =
          >>=-eq-ok (check_records codec entry.index entry.start records' none) _ h₁ in
        let (anchored, h₃) =
          (then_iff (verify_anchor hex sha256 node entry hashes) (ok records') records).0 h₂ in
        let same = ok_injective records' records h₃ in
        let (digest, count) = open_epoch-eq-ok body entry chain records' opened in
        let pass = check_records-eq-ok codec entry.index entry.start records' hashes none checked in
        let (held, anchor) =
          verify_anchor-eq-ok hex sha256 node hash_of entry hashes answers anchored in
        record {
          blocks = pass.blocks;
          decoded = rw (← same) pass.decoded;
          count =
              sym (length-map some pass.blocks)
              ∙ sym (ap length pass.decoded)
              ∙ length-map codec.decode records'
              ∙ count;
          heights = pass.heights;
          joined = pass.joined;
          held = rw pass.hashes_are at held;
          digest = digest;
          anchor = rw pass.hashes_are at anchor;
        }
