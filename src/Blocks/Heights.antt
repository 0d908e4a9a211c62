-- ===== src/Blocks/Heights.antt =====
-- Which heights the range stream of src/service/blocks.rs serves, and that it ends.
use mathlib.Core.List.{reverse-append}
use lightwalletd_rs.Base.{
  ℕ, zero, suc, ◌+◌, ◌-◌, ◌≤◌, ◌<◌, List, [], ◌∷◌, ◌++◌, ◌≡◌, refl, ap, sym, ◌∙◌, map, Option, none,
  some, arith, u64_max, add64, sub64, Bool, true, false, min, max, ltb, if◌then◌else◌, Result, ok,
  Result-cases, Bool-cases, ◌⊎◌, inl, inr, reverse, append_assoc, append-nil,
}
use lightwalletd_rs.Base.Bytes.{Bytes}
use lightwalletd_rs.Base.Table.{Table, AscendsFrom}
use lightwalletd_rs.Blocks.{
  up, heights, Sent, ChainLink, finished, failed, serve_heights, serve_chunks, serve_range, resolve,
  check_link, remove, after, is_last, next_cursor, chunk_from, cache_read_chunk_bytes,
}
use lightwalletd_rs.Blocks.Steps.{
  serve_heights_unresolved, serve_heights_broken, serve_heights_linked, serve_chunks_failed,
  serve_chunks_last, serve_chunks_more, chunk_of, served_of,
}
use lightwalletd_rs.Cache.{Cache}
use lightwalletd_rs.Cache.Chunk.Coverage.{CoversPart, read_chunk-CoversPart}
use lightwalletd_rs.Fetch.{FetchError}
use lightwalletd_rs.Proto.{CompactBlock, Codec}
use lightwalletd_rs.Repair.{RepairSignal}
use lightwalletd_rs.Status.{Status}

pub up_split : (from m n : ℕ) → up from (m + n) ≡ up from m ++ up (from + m) n
up_split from zero n =
    let e : from + 0 ≡ from = omega arith in let e' : 0 + n ≡ n = omega arith in rw (e, e') refl
up_split from (suc m) n =
    let e : from + suc m ≡ suc from + m = omega arith in
    let e' : suc m + n ≡ suc (m + n) = omega arith in
    rw (e, e') (ap (◌∷◌ from) (up_split (suc from) m n))

-- The heights still to be served from `cursor` on.
abbrev remaining : ℕ → ℕ → Bool → ℕ → ℕ × ℕ
remaining low high true cursor = (low, cursor)
remaining low high false cursor = (cursor, high)

up_join :
    (first m high : ℕ)
    → first ≤ m
    → m ≤ suc high
    → up first (m - first) ++ up m (suc high - m) ≡ up first (suc high - first)
up_join first m high le le' =
    let at : first + (m - first) ≡ m = omega arith in
    let all : (m - first) + (suc high - m) ≡ suc high - first = omega arith in
    let parts = up_split first (m - first) (suc high - m) in sym (rw (all, at) at parts)

-- The covered part of what remains, and the rest of it from the next cursor on.
covered_rest :
    (low high cursor : ℕ) (d : Bool) (covered : ℕ × ℕ)
    → high ≤ u64_max
    → low ≤ cursor
    → cursor ≤ high
    → CoversPart (remaining low high d cursor).0 (remaining low high d cursor).1 d covered
    → is_last covered low high d ≡ false
    → heights covered d ++ heights (remaining low high d (next_cursor covered d)) d
      ≡ heights (remaining low high d cursor) d
covered_rest low high cursor false (first, last) top le le' part more =
    let e : first ≡ cursor = omega arith in
    let next : add64 last 1 ≡ suc last = ground arith in
    rw (e, next) (up_join cursor (suc last) high (omega arith) (omega arith))
covered_rest low high cursor true (first, last) top le le' part more =
    let e : last ≡ cursor = omega arith in
    let next : suc (sub64 first 1) ≡ first = ground arith in
    rw (e, next)
      (sym (reverse-append (up low (first - low)) (up first (suc cursor - first)))
        ∙ ap reverse (up_join low first cursor (omega arith) (omega arith)))

covered_last :
    (low high cursor : ℕ) (d : Bool) (covered : ℕ × ℕ)
    → low ≤ cursor
    → cursor ≤ high
    → CoversPart (remaining low high d cursor).0 (remaining low high d cursor).1 d covered
    → is_last covered low high d ≡ true
    → heights covered d ≡ heights (remaining low high d cursor) d
covered_last low high cursor false (first, last) le le' part done =
    let e : first ≡ cursor = omega arith in let e' : last ≡ high = ground arith in rw (e, e') refl
covered_last low high cursor true (first, last) le le' part done =
    let e : first ≡ low = ground arith in let e' : last ≡ cursor = ground arith in rw (e, e') refl

-- The next cursor is inside the range, and closer to its end.
next_cursor_range :
    (low high cursor : ℕ) (d : Bool) (covered : ℕ × ℕ)
    → high ≤ u64_max
    → low ≤ cursor
    → cursor ≤ high
    → CoversPart (remaining low high d cursor).0 (remaining low high d cursor).1 d covered
    → is_last covered low high d ≡ false
    → (low ≤ next_cursor covered d)
      × (next_cursor covered d ≤ high)
      × (if d then next_cursor covered d < cursor else cursor < next_cursor covered d)
next_cursor_range low high cursor false (first, last) top le le' part more = ground arith
next_cursor_range low high cursor true (first, last) top le le' part more = ground arith

-- One window asks for a part of what remains, which begins at the cursor.
chunk_from-CoversPart :
    (low high cursor : ℕ) (d : Bool)
    → high ≤ u64_max
    → low ≤ cursor
    → cursor ≤ high
    → CoversPart
        (remaining low high d cursor).0
        (remaining low high d cursor).1
        d
        (chunk_from cursor low high d)
unfolding chunk_from
chunk_from-CoversPart low high cursor true top le le' = ground arith
chunk_from-CoversPart low high cursor false top le le' = ground arith

CoversPart-trans :
    (low high : ℕ) (d : Bool) (window covered : ℕ × ℕ)
    → CoversPart low high d window
    → CoversPart window.0 window.1 d covered
    → CoversPart low high d covered
CoversPart-trans low high true window covered outer inner = omega arith
CoversPart-trans low high false window covered outer inner = omega arith

abbrev pub sent_heights : List Sent → List ℕ
sent_heights sent = map (λ s. s.height) sent

sent_heights-append :
    (xs ys : List Sent) → sent_heights (xs ++ ys) ≡ sent_heights xs ++ sent_heights ys
sent_heights-append [] ys = refl
sent_heights-append (x ∷ xs) ys = ap (◌∷◌ x.height) (sent_heights-append xs ys)

window_range :
    (low high cursor : ℕ) (d : Bool) (window : ℕ × ℕ)
    → low ≤ cursor
    → cursor ≤ high
    → CoversPart (remaining low high d cursor).0 (remaining low high d cursor).1 d window
    → (window.0 ≤ window.1) × (window.1 ≤ high)
window_range low high cursor true (first, last) le le' part = (omega arith, omega arith)
window_range low high cursor false (first, last) le le' part = (omega arith, omega arith)

module _ (codec : Codec) (fetch : ℕ → Result FetchError CompactBlock) where
  -- A chunk serves heights from the front, and all of them unless it fails.
  serve_heights-prefix :
      (d : Bool) (cached : Table Bytes) (hs : List ℕ) (link : Option ChainLink)
      (repair : Option RepairSignal)
      → (rest : List ℕ) × (sent_heights (serve_heights codec fetch d cached hs link repair).sent
            ++ rest
          ≡ hs)
        × ((l : Option ChainLink)
            → (serve_heights codec fetch d cached hs link repair).link ≡ ok l
            → rest ≡ [])
  unfolding serve_heights
  serve_heights-prefix d cached [] link repair = ([], refl, λ l e. refl)
  serve_heights-prefix d cached (h ∷ hs) link repair =
      elim (Result-cases (resolve codec fetch cached h)) [
        | inr (e, failed_at) ↦
            rw (serve_heights_unresolved codec fetch d cached h hs link repair e failed_at)
              (h ∷ hs, refl, λ l bad. cc)
        | inl (b, found) ↦ elim (Result-cases (check_link link b.0 h d b.1 repair).0) [
          | inr (e, broken) ↦
              rw (serve_heights_broken codec fetch d cached h hs link repair b e found broken)
                (h ∷ hs, refl, λ l bad. cc)
          | inl (u, linked) ↦
              let (rest, parts, all) =
                serve_heights-prefix d (remove h cached) hs (some (after h b.0 d b.1))
                  (check_link link b.0 h d b.1 repair).1 in
              rw (serve_heights_linked codec fetch d cached h hs link repair b u found linked)
                (rest, ap (◌∷◌ h) parts, all)
        ]
      ]

  module _ (caches : ℕ → Cache) (low high : ℕ) (d : Bool)
      (sorted : (n : ℕ) → AscendsFrom 0 (caches n).blocks) (top : high ≤ u64_max) where
    chunk_of-CoversPart :
        (round cursor : ℕ)
        → low ≤ cursor
        → cursor ≤ high
        → CoversPart
            (remaining low high d cursor).0
            (remaining low high d cursor).1
            d
            (chunk_of caches low high d round cursor).covered
    chunk_of-CoversPart round cursor le le' =
        let window = chunk_from-CoversPart low high cursor d top le le' in
        let asked = chunk_from cursor low high d in
        let (some_asked, below) = window_range low high cursor d asked le le' window in
        CoversPart-trans (remaining low high d cursor).0 (remaining low high d cursor).1 d asked
          (chunk_of caches low high d round cursor).covered window
          (read_chunk-CoversPart (caches round) asked.0 asked.1 d cache_read_chunk_bytes
            (sorted round) some_asked (omega arith))

    covered_extra :
        (cursor : ℕ) (covered : ℕ × ℕ)
        → low ≤ cursor
        → cursor ≤ high
        → CoversPart (remaining low high d cursor).0 (remaining low high d cursor).1 d covered
        → (extra : List ℕ) × (heights covered d ++ extra ≡ heights (remaining low high d cursor) d)
    covered_extra cursor covered le le' part = elim (Bool-cases (is_last covered low high d)) [
      | inl done ↦ ([], append-nil _ ∙ covered_last low high cursor d covered le le' part done)
      | inr more ↦ (_, covered_rest low high cursor d covered top le le' part more)
    ]

    -- The rounds left are enough for the heights left.
    serve_chunks-prefix :
        (fuel round cursor : ℕ) (link : Option ChainLink) (repair : Option RepairSignal)
        → low ≤ cursor
        → cursor ≤ high
        → (if d then cursor - low else high - cursor) < fuel
        → (let run = serve_chunks codec fetch caches low high d fuel round cursor link repair in
            (rest : List ℕ) × (sent_heights run.sent ++ rest
              ≡ heights (remaining low high d cursor) d)
            × (((run.ending ≡ finished) × (rest ≡ [])) ⊎ ((e : Status) × (run.ending ≡ failed e))))
    serve_chunks-prefix zero round cursor link repair le le' enough = ground arith
    serve_chunks-prefix (suc fuel) round cursor link repair le le' enough =
        let covered = (chunk_of caches low high d round cursor).covered in
        let part = chunk_of-CoversPart round cursor le le' in
        let (extra, whole) = covered_extra cursor covered le le' part in
        let served = served_of codec fetch caches low high d fuel round cursor link repair in
        let (rest, parts, all) =
          serve_heights-prefix d (chunk_of caches low high d round cursor).blocks
            (heights covered d) link repair in
        elim (Result-cases served.link) [
          | inr (e, f) ↦
              rw
                (serve_chunks_failed codec fetch caches low high d fuel round cursor link repair e
                  f)
                (
                  rest ++ extra,
                  sym (append_assoc (sent_heights served.sent) rest extra)
                      ∙ ap (λ xs. xs ++ extra) parts
                      ∙ whole,
                  inr (e, refl),
                )
          | inl (l, good) ↦
              let nothing_left = all l good in
              let served_all =
                sym (append-nil (sent_heights served.sent)) ∙ rw nothing_left at parts in
              elim (Bool-cases (is_last covered low high d)) [
                | inl done ↦
                    rw
                      (serve_chunks_last codec fetch caches low high d fuel round cursor link repair
                        l good done)
                      (
                        [],
                        append-nil _
                            ∙ served_all
                            ∙ covered_last low high cursor d covered le le' part done,
                        inl (refl, refl),
                      )
                | inr more ↦
                    let (at_least, at_most, closer) =
                      next_cursor_range low high cursor d covered top le le' part more in
                    let (rest', parts', outcome) =
                      serve_chunks-prefix fuel (suc round) (next_cursor covered d) l served.repair
                        at_least at_most
                        (fewer d (next_cursor covered d) at_least at_most closer enough) in
                    rw
                      (serve_chunks_more codec fetch caches low high d fuel round cursor link repair
                        l good more)
                      (
                        rest',
                        ap (λ xs. xs ++ rest') (sent_heights-append served.sent _)
                            ∙ append_assoc (sent_heights served.sent) _ rest'
                            ∙ ap (λ xs. sent_heights served.sent ++ xs) parts'
                            ∙ ap
                                (λ xs.
                                  xs ++ heights (remaining low high d (next_cursor covered d)) d)
                                served_all
                            ∙ covered_rest low high cursor d covered top le le' part more,
                        outcome,
                      )
              ]
        ]
      where
        fewer :
            (b : Bool) (next : ℕ)
            → low ≤ next
            → next ≤ high
            → (if b then next < cursor else cursor < next)
            → (if b then cursor - low else high - cursor) < suc fuel
            → (if b then next - low else high - next) < fuel
        fewer true next a b c e = omega arith
        fewer false next a b c e = omega arith

-- A range whose bounds are `u64`s, over sorted caches that may change between read transactions: the
-- stream ends within its rounds. The blocks that it yields stand at the requested heights in order,
-- ascending if `start ≤ end` and descending otherwise, from the first of them on without a gap or a
-- repetition, and at all of them unless it ends with an error.
pub serve_range-heights :
    (codec : Codec) (fetch : ℕ → Result FetchError CompactBlock) (caches : ℕ → Cache)
    (start end' : ℕ) (repair : Option RepairSignal)
    → ((n : ℕ) → AscendsFrom 0 (caches n).blocks)
    → start ≤ u64_max
    → end' ≤ u64_max
    → (let run = serve_range codec fetch caches start end' repair in
        (rest : List ℕ) × (sent_heights run.sent ++ rest
          ≡ heights (min start end', max start end') (ltb end' start))
        × (((run.ending ≡ finished) × (rest ≡ [])) ⊎ ((e : Status) × (run.ending ≡ failed e))))
unfolding serve_range
serve_range-heights codec fetch caches start end' repair sorted le le' =
    by_direction (ltb end' start)
  where
    by_direction :
        (d : Bool)
        → (let low = min start end' in
            let high = max start end' in
            let run =
              serve_chunks codec fetch caches low high d
                (suc (high - low))
                0
                (if d then high else low)
                none
                repair in
            (rest : List ℕ) × (sent_heights run.sent ++ rest ≡ heights (low, high) d)
            × (((run.ending ≡ finished) × (rest ≡ [])) ⊎ ((e : Status) × (run.ending ≡ failed e))))
    by_direction true =
        serve_chunks-prefix codec fetch caches (min start end') (max start end') true sorted
          (omega arith) (suc (max start end' - min start end')) 0 (max start end') none repair
          (omega arith) (omega arith) (omega arith)
    by_direction false =
        serve_chunks-prefix codec fetch caches (min start end') (max start end') false sorted
          (omega arith) (suc (max start end' - min start end')) 0 (min start end') none repair
          (omega arith) (omega arith) (omega arith)
