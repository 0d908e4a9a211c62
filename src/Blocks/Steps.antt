-- ===== src/Blocks/Steps.antt =====
-- The steps of the two loops of `block_range_stream` of src/service/blocks.rs, one equation for each
-- way that a step goes.
use lightwalletd_rs.Base.{
  ℕ, suc, List, [], ◌∷◌, ◌++◌, ◌≡◌, refl, Option, some, Bool, true, false, Result, ok, err,
}
use lightwalletd_rs.Base.Bytes.{Bytes}
use lightwalletd_rs.Base.Table.{Table}
use lightwalletd_rs.Blocks.{
  BlockSource, sent_at, heights, Served, ChainLink, finished, failed, serve_heights, serve_chunks,
  resolve, check_link, remove, after, is_last, next_cursor, chunk_from, cache_read_chunk_bytes,
}
use lightwalletd_rs.Cache.{Cache, CachedChunk, read_chunk}
use lightwalletd_rs.Fetch.{FetchError}
use lightwalletd_rs.Proto.{CompactBlock, Codec}
use lightwalletd_rs.Repair.{RepairSignal}
use lightwalletd_rs.Status.{Status}

-- The chunk of one round.
abbrev pub chunk_of : (ℕ → Cache) → ℕ → ℕ → Bool → ℕ → ℕ → CachedChunk
chunk_of caches low high d round cursor =
    read_chunk (caches round) (chunk_from cursor low high d) d cache_read_chunk_bytes

module _ (codec : Codec) (fetch : ℕ → Result FetchError CompactBlock) where
  module _ (d : Bool) (cached : Table Bytes) (h : ℕ) (hs : List ℕ) (link : Option ChainLink)
      (repair : Option RepairSignal) where
    pub serve_heights_unresolved :
        (e : Status)
        → resolve codec fetch cached h ≡ err e
        → serve_heights codec fetch d cached (h ∷ hs) link repair
          ≡ record { sent = []; repair = repair; link = err e }
    unfolding serve_heights
    serve_heights_unresolved e failed_at = rw (serve_heights, failed_at) refl

    pub serve_heights_broken :
        (b : CompactBlock × BlockSource) (e : Status)
        → resolve codec fetch cached h ≡ ok b
        → (check_link link b.0 h d b.1 repair).0 ≡ err e
        → serve_heights codec fetch d cached (h ∷ hs) link repair
          ≡ record { sent = []; repair = (check_link link b.0 h d b.1 repair).1; link = err e }
    unfolding serve_heights
    serve_heights_broken b e found broken = rw (serve_heights, found) (rw broken refl)

    pub serve_heights_linked :
        (b : CompactBlock × BlockSource) (u : Unit {0})
        → resolve codec fetch cached h ≡ ok b
        → (check_link link b.0 h d b.1 repair).0 ≡ ok u
        → serve_heights codec fetch d cached (h ∷ hs) link repair ≡ (
            let served =
              serve_heights codec fetch d
                (remove h cached)
                hs
                (some (after h b.0 d b.1))
                (check_link link b.0 h d b.1 repair).1 in
            record served { sent = sent_at h b ∷ served.sent })
    unfolding serve_heights
    serve_heights_linked b u found linked = rw (serve_heights, found) (rw linked refl)

  module _ (caches : ℕ → Cache) (low high : ℕ) (d : Bool) (fuel round cursor : ℕ)
      (link : Option ChainLink) (repair : Option RepairSignal) where
    abbrev pub chunk : CachedChunk
    chunk = chunk_of caches low high d round cursor

    -- What the inner loop makes of it.
    abbrev pub served_of : Served
    served_of = serve_heights codec fetch d chunk.blocks (heights chunk.covered d) link repair

    pub serve_chunks_failed :
        (e : Status)
        → served_of.link ≡ err e
        → serve_chunks codec fetch caches low high d (suc fuel) round cursor link repair
          ≡ record { sent = served_of.sent; repair = served_of.repair; ending = failed e }
    unfolding serve_chunks
    serve_chunks_failed e h = rw (serve_chunks, h) refl

    pub serve_chunks_last :
        (l : Option ChainLink)
        → served_of.link ≡ ok l
        → is_last chunk.covered low high d ≡ true
        → serve_chunks codec fetch caches low high d (suc fuel) round cursor link repair
          ≡ record { sent = served_of.sent; repair = served_of.repair; ending = finished }
    unfolding serve_chunks
    serve_chunks_last l h done = rw (serve_chunks, h) (rw done refl)

    pub serve_chunks_more :
        (l : Option ChainLink)
        → served_of.link ≡ ok l
        → is_last chunk.covered low high d ≡ false
        → serve_chunks codec fetch caches low high d (suc fuel) round cursor link repair ≡ (
            let run =
              serve_chunks codec fetch caches low high d fuel
                (suc round)
                (next_cursor chunk.covered d)
                l
                served_of.repair in
            record run { sent = served_of.sent ++ run.sent })
    unfolding serve_chunks
    serve_chunks_more l h more = rw (serve_chunks, h) (rw more refl)
