-- ===== src/Snapshot/Import/Epochs.antt =====
-- What the import of one epoch (src/snapshot/import.rs) does to a cache that holds a chain.
use lightwalletd_rs.Base.{
  ℕ, suc, ◌+◌, ◌-◌, ◌≤◌, ◌<◌, ◌≡◌, refl, ap, ◌∙◌, ◌⊎◌, List, [], ◌∷◌, ◌++◌, map, Bool, Option, none,
  some, ok, err, >>=-eq-ok, then_iff, ok_injective, Result-cases, length, length-drop,
  length-append, drop, head?, All, arith, u64_max, inl, inr, map_err,
}
use lightwalletd_rs.Base.Bytes.{Bytes}
use lightwalletd_rs.Cache.Append.{append-IsChain, origin}
use lightwalletd_rs.Cache.Chain.{Consecutive, IsChain}
use lightwalletd_rs.Cache.{Cache, latest_height, add_decoded_batch}
use lightwalletd_rs.Encoding.{Text, Hex}
use lightwalletd_rs.Node.{Node}
use lightwalletd_rs.Proto.{CompactBlock, Codec, IsCodec}
use lightwalletd_rs.Snapshot.Failure.{SnapshotError, cache_error}
use lightwalletd_rs.Snapshot.Import.Arrivals.{
  Anchored, HeldFrom-Anchored, All-drop, HeightsFrom-drop, JoinedTo-drop, last_or,
  arriving_blocks-drop, head?-drop_decoded,
}
use lightwalletd_rs.Snapshot.Import.Junction.{check_junction-JoinedTo, latest_height-IsChain}
use lightwalletd_rs.Snapshot.Import.{
  EpochSource, fetch_body, arrives, next_height, turn, base_of, landed, arriving_of,
  arriving_blocks, check_junction, obtain, import_epoch,
}
use lightwalletd_rs.Snapshot.Manifest.{EpochEntry}
use lightwalletd_rs.Snapshot.Verify.Anchor.{AnswersBy}
use lightwalletd_rs.Snapshot.Verify.Layers.{JoinedTo}
use lightwalletd_rs.Snapshot.Verify.Records.{HeightsFrom, HeightsFrom-Consecutive}
use lightwalletd_rs.Snapshot.Verify.Sound.{Verified, verify_epoch-Verified}
use lightwalletd_rs.Snapshot.Verify.{verify_epoch}

-- When an entry arrives at `next`, its bounds enclose it and the node has them all.
pub turn-arrives :
    (tip : Option ℕ) (node_blocks next : ℕ) (entry : EpochEntry)
    → turn tip node_blocks entry ≡ arrives next
    → (next ≡ next_height tip entry)
      × (entry.start ≤ next)
      × (next ≤ entry.end)
      × (entry.end ≤ node_blocks)
unfolding turn
turn-arrives tip node_blocks next entry h = ground arith

-- A run of blocks that is ready to be appended.
pub record Arrival (codec : Codec) (hex : Hex) (hash_of : ℕ → Text) (bs : List CompactBlock)
    (next end : ℕ) (raws : List Bytes) : Type 0 where
  pub first : CompactBlock
  pub others : List CompactBlock
  pub arriving : arriving_blocks codec raws ≡ map ok (first ∷ others)
  pub run : Consecutive next (first ∷ others)
  pub reaches : next + length others ≡ end
  pub joined : JoinedTo (last_or none bs) (first ∷ others)
  pub anchored : All (Anchored hex hash_of) (first ∷ others)

-- The cache holds what it held, and behind it blocks that join it and that the node has.
pub record Extends (codec : Codec) (hex : Hex) (hash_of : ℕ → Text) (bs : List CompactBlock)
    (c : Cache) : Type 0 where
  pub from : ℕ
  pub added : List CompactBlock
  pub chain : IsChain codec c from (bs ++ added)
  pub joined : JoinedTo (last_or none bs) added
  pub anchored : All (Anchored hex hash_of) added

latest_height_behind :
    (codec : Codec) (c : Cache) (from next : ℕ) (bs : List CompactBlock) (b : CompactBlock)
    (ns : List CompactBlock)
    → IsChain codec c (origin codec from bs next) (bs ++ b ∷ ns)
    → (bs ≡ []) ⊎ (next ≡ from + length bs)
    → latest_height c ≡ some (next + length ns)
latest_height_behind codec c from next [] b ns chain joins =
    latest_height-IsChain codec c next b ns chain
latest_height_behind codec c from next (b' ∷ bs) b ns chain (inl e) = cc
latest_height_behind codec c from next (b' ∷ bs) b ns chain (inr e) =
    latest_height-IsChain codec c from b' (bs ++ b ∷ ns) chain
    ∙ ap some (omega (arith, length-append bs (b ∷ ns)))

module _ (codec : Codec) (lawful : IsCodec codec) (hex : Hex) (sha256 : Bytes → Bytes)
    (is_utf8 : Bytes → Bool) (source : EpochSource) (node : Node) (hash_of : ℕ → Text)
    (answers : AnswersBy node hash_of) where
  Arrival-of :
      (c : Cache) (from next : ℕ) (bs : List CompactBlock) (entry : EpochEntry) (body : Bytes)
      (records : List Bytes) (dropped : List CompactBlock)
      → IsChain codec c from bs
      → (v : Verified hex sha256 is_utf8 codec hash_of entry body records) → entry.start ≤ next
      → next ≤ entry.end
      → entry.end < u64_max
      → drop (next - entry.start) v.blocks ≡ dropped
      → check_junction codec c entry.index (head? (arriving_of records entry next)) ≡ ok tt
      → Arrival codec hex hash_of bs next entry.end (arriving_of records entry next)
  Arrival-of c from next bs entry body records [] chain v low high bound e joins =
      absurd (omega (arith, length-drop (next - entry.start) v.blocks, ap length e, v.count))
  Arrival-of c from next bs entry body records (b ∷ ns) chain v low high bound e joins =
      let n = next - entry.start in
      let len : suc (length ns) ≡ suc entry.end - next =
        omega (arith, length-drop n v.blocks, ap length e, v.count) in
      let (raw, head, decoded) = head?-drop_decoded codec n records v.blocks b ns v.decoded e in
      let joins' : check_junction codec c entry.index (some raw) ≡ ok tt = rw head at joins in
      let from_next : entry.start + n ≡ next = omega arith in
      let heights : HeightsFrom next (b ∷ ns) =
        rw (from_next, e) at (HeightsFrom-drop n entry.start v.blocks v.heights) in
      let joined : JoinedTo none (b ∷ ns) = rw e at (JoinedTo-drop n v.blocks v.joined) in
      let all_anchored = HeldFrom-Anchored hex hash_of entry.start v.blocks v.heights v.held in
      record {
        first = b;
        others = ns;
        arriving = arriving_blocks-drop codec n records v.blocks v.decoded ∙ ap (map ok) e;
        run = HeightsFrom-Consecutive next (b ∷ ns) heights (omega arith);
        reaches = omega arith;
        joined =
            check_junction-JoinedTo codec lawful c from entry.index bs raw b ns chain joins' decoded
              joined;
        anchored = rw e at (All-drop (Anchored hex hash_of) n v.blocks all_anchored);
      }

  obtain-Arrival :
      (c : Cache) (from next : ℕ) (bs : List CompactBlock) (chain_name : Text) (entry : EpochEntry)
      (arriving : List Bytes)
      → IsChain codec c from bs
      → entry.start ≤ next
      → next ≤ entry.end
      → entry.end < u64_max
      → obtain codec hex sha256 is_utf8 source node c chain_name entry next ≡ ok arriving
      → Arrival codec hex hash_of bs next entry.end arriving
  unfolding obtain
  obtain-Arrival c from next bs chain_name entry arriving chain low high bound h =
      let (body, fetched, h₁) = >>=-eq-ok (fetch_body source entry) _ h in
      let (records, verified, h₂) =
        >>=-eq-ok (verify_epoch hex sha256 is_utf8 codec node body entry chain_name) _ h₁ in
      let (joins, h₃) =
        (then_iff (check_junction codec c entry.index (head? (arriving_of records entry next))) _
            arriving).0
          h₂ in
      let v =
        verify_epoch-Verified hex sha256 is_utf8 codec node hash_of body entry chain_name records
          answers verified in
      rw (← ok_injective (arriving_of records entry next) arriving h₃)
        (Arrival-of c from next bs entry body records _ chain v low high bound refl joins)

  landed-Extends :
      (c : Cache) (from next end : ℕ) (bs : List CompactBlock) (tip : Option ℕ) (raws : List Bytes)
      → IsChain codec c from bs
      → (a : Arrival codec hex hash_of bs next end raws) → (bs ≡ []) ⊎ (next ≡ from + length bs)
      → ((landed (add_decoded_batch codec c (arriving_blocks codec raws) (base_of tip next))).1
          ≡ ok tt)
        × Extends codec hex hash_of bs
            (landed (add_decoded_batch codec c (arriving_blocks codec raws) (base_of tip next))).0
        × (latest_height
              (landed (add_decoded_batch codec c (arriving_blocks codec raws) (base_of tip next))).0
            ≡ some end)
  unfolding add_decoded_batch
  landed-Extends c from next end bs tip raws chain a joins = rw a.arriving (
      let (fine, chain', base_is, digests_are) =
        append-IsChain codec c from next bs a.first a.others (base_of tip next) chain a.run joins in
      (
        ap (map_err cache_error) fine,
        record {
          from = origin codec from bs next;
          added = a.first ∷ a.others;
          chain = chain';
          joined = a.joined;
          anchored = a.anchored;
        },
        latest_height_behind codec _ from next bs a.first a.others chain' joins ∙ ap some a.reaches,
      ))

  -- An epoch that arrives at the height after the tip either leaves the cache as it is and fails, or
  -- extends it up to the end of the entry.
  pub import_epoch-Extends :
      (c : Cache) (from next : ℕ) (bs : List CompactBlock) (chain_name : Text) (tip : Option ℕ)
      (entry : EpochEntry)
      → IsChain codec c from bs
      → (bs ≡ []) ⊎ (next ≡ from + length bs)
      → entry.start ≤ next
      → next ≤ entry.end
      → entry.end < u64_max
      → (((e : SnapshotError) × (import_epoch codec hex sha256 is_utf8 source node c chain_name tip
                entry next
              ≡ (c, err e)))
          ⊎ (((import_epoch codec hex sha256 is_utf8 source node c chain_name tip entry next).1
                ≡ ok tt)
              × Extends codec hex hash_of bs
                  (import_epoch codec hex sha256 is_utf8 source node c chain_name tip entry next).0
              × (latest_height
                    (import_epoch codec hex sha256 is_utf8 source node c chain_name tip entry
                      next).0
                  ≡ some entry.end)))
  unfolding import_epoch
  import_epoch-Extends c from next bs chain_name tip entry chain joins low high bound =
      elim (Result-cases (obtain codec hex sha256 is_utf8 source node c chain_name entry next)) [
        | inl (arriving, obtained) ↦
            let a =
              obtain-Arrival c from next bs chain_name entry arriving chain low high bound
                obtained in
            rw (import_epoch, obtained)
              (inr (landed-Extends c from next entry.end bs tip arriving chain a joins))
        | inr (e, failed) ↦ rw (import_epoch, failed) (inl (e, refl))
      ]
