-- ===== src/Blocks/Stream.antt =====
-- The blocks that the range stream of src/service/blocks.rs yields: where each comes from, how they
-- link, and how the stream ends.
use lightwalletd_rs.Base.{
  ℕ, zero, suc, ◌-◌, List, [], ◌∷◌, ◌≡◌, ◌≢◌, refl, sym, Option, none, some, arith, Bool, true,
  false, ◌||◌, min, max, ltb, if◌then◌else◌, leb, ◌&&◌, All-map, Result, ok, err, Result-cases,
  Bool-cases, ◌⊎◌, inl, inr, get_last?, All, u64_max, ◌≤◌,
}
use lightwalletd_rs.Base.Bytes.{Bytes}
use lightwalletd_rs.Base.Table.{Table, AscendsFrom}
use lightwalletd_rs.Blocks.{
  sent_at, heights, Sent, ChainLink, Ending, finished, out_of_fuel, failed, serve_heights,
  serve_chunks, serve_range, resolve, check_link, connects, remove, after, is_last, next_cursor,
  is_cache, report_to,
}
use lightwalletd_rs.Blocks.Sources.{
  OfChunk, InChunks, last_chunk, next_chunk, Comes, ComesFrom, Distinct, Agrees, resolve-ComesFrom,
  remove-Agrees, chunk_of-Agrees, heights-Distinct, heights-range,
}
use lightwalletd_rs.Blocks.Steps.{
  serve_heights_unresolved, serve_heights_broken, serve_heights_linked, serve_chunks_failed,
  serve_chunks_last, serve_chunks_more, chunk_of, served_of,
}
use lightwalletd_rs.Cache.{Cache}
use lightwalletd_rs.Fetch.{FetchError}
use lightwalletd_rs.Proto.{CompactBlock, Codec}
use lightwalletd_rs.Repair.{RepairSignal}
use lightwalletd_rs.Status.{Status, aborted}
use lightwalletd_rs.Blocks.Links.{
  Linked, Chained, Chained-append, Chained-Linked, Chained-last, Blamed, check_link-err,
  check_link-ok, resolve-not_aborted, Joined, Joined-connects, link_of,
}

-- What an ending says of the link before it, and of the repair slot before and after the run.
abbrev EndsWith :
    (Sent → Type 0)
    → Bool
    → Option ChainLink
    → Option RepairSignal
    → Option RepairSignal
    → Ending
    → Type 0
EndsWith P d l r r' finished = r' ≡ r
EndsWith P d l r r' out_of_fuel = r' ≡ r
EndsWith P d l r r' (failed e) = Blamed P d l r r' e

abbrev LeavesLink :
    (Sent → Type 0)
    → Bool
    → Option ChainLink
    → Option RepairSignal
    → Option RepairSignal
    → Result Status (Option ChainLink)
    → Type 0
LeavesLink P d l r r' (ok l') = (l' ≡ l) × (r' ≡ r)
LeavesLink P d l r r' (err e) = Blamed P d l r r' e

LeavesLink-from :
    (P : Sent → Type 0) (d : Bool) (l : Option ChainLink) (q r r' : Option RepairSignal)
    (x : Result Status (Option ChainLink))
    → q ≡ r
    → LeavesLink P d l q r' x
    → LeavesLink P d l r r' x
LeavesLink-from P d l q r r' x e h = rw e at h

EndsWith-from :
    (P : Sent → Type 0) (d : Bool) (l : Option ChainLink) (q r r' : Option RepairSignal)
    (x : Ending)
    → q ≡ r
    → EndsWith P d l q r' x
    → EndsWith P d l r r' x
EndsWith-from P d l q r r' x e h = rw e at h

next_cursor_top : (covered : ℕ × ℕ) (d : Bool) → next_cursor covered d ≤ u64_max
next_cursor_top covered true = omega arith
next_cursor_top covered false = omega arith

module _ (codec : Codec) (fetch : ℕ → Result FetchError CompactBlock) (caches : ℕ → Cache)
    (d : Bool) where
  abbrev From : Sent → Type 0
  From = Comes codec fetch caches

  serve_heights-Chained :
      (n : ℕ) (inside : ℕ → Type 0) (cached : Table Bytes) (hs : List ℕ) (link : Option ChainLink)
      (repair : Option RepairSignal)
      → Distinct hs
      → All inside hs
      → Agrees (caches n) cached hs
      → (let served = serve_heights codec fetch d cached hs link repair in
          (l : Option ChainLink) × Chained d link served.sent l
          × All (λ s. ComesFrom codec fetch (caches n) s × inside s.height) served.sent
          × LeavesLink From d l repair served.repair served.link)
  unfolding serve_heights
  serve_heights-Chained n inside cached [] link repair distinct within agrees =
      (link, refl, tt, (refl, refl))
  serve_heights-Chained n inside cached (h ∷ hs) link repair distinct within agrees =
      elim (Result-cases (resolve codec fetch cached h)) [
        | inr (e, lost) ↦
            rw (serve_heights_unresolved codec fetch d cached h hs link repair e lost)
              (link, refl, tt, inl (resolve-not_aborted codec fetch cached h e lost, refl))
        | inl (b, found) ↦
            let comes = resolve-ComesFrom codec fetch (caches n) cached h b agrees.0 found in
            elim (Result-cases (check_link link b.0 h d b.1 repair).0) [
              | inr (e, broken) ↦
                  rw (serve_heights_broken codec fetch d cached h hs link repair b e found broken) (
                    link,
                    refl,
                    tt,
                    check_link-err From d link (sent_at h b) repair e broken (n, comes),
                  )
              | inl (u, linked) ↦
                  let (connected, kept) = check_link-ok d link (sent_at h b) repair u linked in
                  let (l, chain, all, leaves) =
                    serve_heights-Chained n inside (remove h cached) hs (some (after h b.0 d b.1))
                      (check_link link b.0 h d b.1 repair).1 distinct.1 within.1
                      (remove-Agrees (caches n) cached h hs distinct agrees) in
                  rw (serve_heights_linked codec fetch d cached h hs link repair b u found linked) (
                    l,
                    (connected, chain),
                    ((comes, within.0), all),
                    LeavesLink-from From d l _ _ _ _ kept leaves,
                  )
            ]
      ]

  module _ (low high : ℕ) (sorted : (n : ℕ) → AscendsFrom 0 (caches n).blocks)
      (top : high ≤ u64_max) where
    serve_chunks-Chained :
        (fuel round cursor : ℕ) (link : Option ChainLink) (repair : Option RepairSignal)
        → cursor ≤ u64_max
        → (let run = serve_chunks codec fetch caches low high d fuel round cursor link repair in
            (l : Option ChainLink) × Chained d link run.sent l
            × InChunks codec fetch caches low high d round cursor run.sent
            × EndsWith From d l repair run.repair run.ending)
    unfolding serve_chunks
    serve_chunks-Chained zero round cursor link repair top' = (link, refl, last_chunk [] tt, refl)
    serve_chunks-Chained (suc fuel) round cursor link repair top' =
        let chunk = chunk_of caches low high d round cursor in
        let served = served_of codec fetch caches low high d fuel round cursor link repair in
        let (l, chain, all, leaves) =
          serve_heights-Chained round (λ k. (leb chunk.covered.0 k && leb k chunk.covered.1) ≡ true)
            chunk.blocks (heights chunk.covered d) link repair (heights-Distinct chunk.covered d)
            (heights-range chunk.covered d)
            (chunk_of-Agrees caches low high d round cursor sorted top top') in
        let of_chunk : All (OfChunk codec fetch caches low high d round cursor) served.sent =
          All-map (λ s (comes, inside). (comes, ground arith, ground arith)) served.sent all in
        elim (Result-cases served.link) [
          | inr (e, f) ↦
              rw
                (serve_chunks_failed codec fetch caches low high d fuel round cursor link repair e
                  f)
                (l, chain, last_chunk served.sent of_chunk, rw f at leaves)
          | inl (m, good) ↦
              let (same, kept) : (m ≡ l) × (served.repair ≡ repair) = rw good at leaves in
              elim (Bool-cases (is_last chunk.covered low high d)) [
                | inl done ↦
                    rw
                      (serve_chunks_last codec fetch caches low high d fuel round cursor link repair
                        m good done)
                      (l, chain, last_chunk served.sent of_chunk, kept)
                | inr more ↦
                    let (n, chain', all', ends) =
                      serve_chunks-Chained fuel (suc round) (next_cursor chunk.covered d) m
                        served.repair (next_cursor_top chunk.covered d) in
                    rw
                      (serve_chunks_more codec fetch caches low high d fuel round cursor link repair
                        m good more)
                      (
                        n,
                        Chained-append d link m n served.sent _ (rw (sym same) at chain) chain',
                        next_chunk served.sent of_chunk all',
                        EndsWith-from From d n _ _ _ _ kept ends,
                      )
              ]
        ]

-- The repair slot before and after the stream, by how it ended.
abbrev pub Explained :
    (Sent → Type 0) → Bool → List Sent → Option RepairSignal → Option RepairSignal → Ending → Type 0
Explained P d sent r r' finished = r' ≡ r
Explained P d sent r r' out_of_fuel = r' ≡ r
Explained P d sent r r' (failed e) =
    ((e ≢ aborted) × (r' ≡ r))
    ⊎ ((e ≡ aborted)
        × (a : Sent) × (b : Sent) × P b
        × (get_last? sent ≡ some a)
        × (Joined d a b → ⊥)
        × (r' ≡ (
            if is_cache a.source || is_cache b.source
            then report_to r (min b.height a.height)
            else r)))

Blamed-Explained :
    (P : Sent → Type 0) (d : Bool) (sent : List Sent) (l : Option ChainLink)
    (r r' : Option RepairSignal) (ending : Ending)
    → Chained d none sent l
    → EndsWith P d l r r' ending
    → Explained P d sent r r' ending
Blamed-Explained P d sent l r r' finished chain h = h
Blamed-Explained P d sent l r r' out_of_fuel chain h = h
Blamed-Explained P d sent l r r' (failed e) chain (inl h) = inl h
Blamed-Explained P d [] l r r' (failed e) chain (inr (is, p, b, comes, at, broken, reported)) = cc
Blamed-Explained P d (s ∷ ss) l r r' (failed e) chain
      (inr (is, p, b, comes, at, broken, reported)) =
    let (a, last, link) = Chained-last d none s ss p (rw at at chain) in
    inr (
      is,
      a,
      b,
      comes,
      last,
      (λ joined.
          let connected = Joined-connects d a b joined in
          let broken' : connects (link_of d a) b.block d ≡ false = rw link at broken in cc),
      rw link at reported,
    )

-- A range whose bounds are `u64`s, over sorted caches that may change between read transactions.
-- The stream is cut into the chunks of its rounds: every block lies in the heights that the chunk
-- of its round covers, and is what the cache holds at its height in the one read transaction of
-- that round, or, where that cache has none, what the node answers. The blocks link: each is what
-- the one before it names, its child when the stream ascends and its parent when it descends. A
-- stream that ends otherwise than with `Aborted` leaves the repair slot alone. One that ends with
-- `Aborted` has met a block, from the cache of a round or the node, that does not link to the last
-- one yielded, and has reported the lower of the two heights if one of the two came from the cache,
-- and nothing otherwise.
pub serve_range-Linked :
    (codec : Codec) (fetch : ℕ → Result FetchError CompactBlock) (caches : ℕ → Cache)
    (start end' : ℕ) (repair : Option RepairSignal)
    → ((n : ℕ) → AscendsFrom 0 (caches n).blocks)
    → start ≤ u64_max
    → end' ≤ u64_max
    → (let run = serve_range codec fetch caches start end' repair in
        InChunks codec fetch caches
          (min start end')
          (max start end')
          (ltb end' start)
          0
          (if ltb end' start then max start end' else min start end')
          run.sent
        × Linked (ltb end' start) run.sent
        × Explained
            (Comes codec fetch caches)
            (ltb end' start)
            run.sent
            repair
            run.repair
            run.ending)
unfolding serve_range
serve_range-Linked codec fetch caches start end' repair sorted le le' =
    let low = min start end' in
    let high = max start end' in
    let d = ltb end' start in
    let (l, chain, all, ends) =
      serve_chunks-Chained codec fetch caches d low high sorted (omega arith) (suc (high - low)) 0
        (if d then high else low) none repair (ground arith) in
    (all, Chained-Linked d none l _ chain, Blamed-Explained _ d _ l _ _ _ chain ends)
