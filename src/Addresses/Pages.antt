-- ===== src/Addresses/Pages.antt =====
-- The pages of unspent outputs that src/service/address.rs replies with.
use lightwalletd_rs.Base.{
  ℕ, suc, ◌+◌, ◌-◌, ◌≤◌, ◌<◌, ◌≡◌, refl, ap, sym, ◌∙◌, List, [], ◌∷◌, ◌++◌, append-nil,
  append_assoc, length-append, Bool, true, false, Bool-cases, not, ◌&&◌, ◌||◌, inl, inr, ltb, leb,
  ◌==◌, if◌then◌else◌, Result, ok, err, ◌>>=◌, ◌>>◌, length, filter, take, take_nil, min, arith,
}
use lightwalletd_rs.Encoding.{Hex}
use lightwalletd_rs.Status.{Status, resource_exhausted}
use lightwalletd_rs.Addresses.{
  AddressUtxo, GetAddressUtxosArg, GetAddressUtxosReply, max_address_utxos, max_streamed_addresses,
  check_taddresses, utxo_reply, is_full, collect_from, AddressNode, collect_utxos,
}

-- The outputs from the start height on.
abbrev pub wanted : ℕ → List AddressUtxo → List AddressUtxo
wanted start_height utxos = filter (λ u. not (ltb u.height start_height)) utxos

-- How many outputs a reply holds at most: the server's cap, or the request's own lower bound.
abbrev pub page_limit : ℕ → ℕ
page_limit max_entries =
    if max_entries == 0 then max_address_utxos else min max_entries max_address_utxos

-- There are more outputs than the cap, and the request does not bound itself within it.
abbrev pub overflows : ℕ → ℕ → Bool
overflows max_entries count =
    ltb max_address_utxos count && ((max_entries == 0) || ltb max_address_utxos max_entries)

module _ (hex : Hex) where
  abbrev pub reply_all : List AddressUtxo → Result Status (List GetAddressUtxosReply)
  reply_all [] = ok []
  reply_all (u ∷ us) = do reply ← utxo_reply hex u; replies ← reply_all us; ok (reply ∷ replies)

  abbrev pub page_end :
      ℕ
      → ℕ
      → List GetAddressUtxosReply
      → List GetAddressUtxosReply
      → Result Status (List GetAddressUtxosReply)
  page_end max_entries count before replies =
      if overflows max_entries count then err resource_exhausted else ok (before ++ replies)

  cons_page :
      (max_entries count : ℕ) (before : List GetAddressUtxosReply) (reply : GetAddressUtxosReply)
      (later : Result Status (List GetAddressUtxosReply))
      → (later >>= λ replies. page_end max_entries count (before ++ reply ∷ []) replies) ≡ (
          (later >>= λ replies. ok (reply ∷ replies)) >>= λ replies.
          page_end max_entries count before replies)
  cons_page max_entries count before reply (err e) = refl
  cons_page max_entries count before reply (ok replies) =
      rw (append_assoc before (reply ∷ []) replies) refl

  -- What follows an output that is not skipped, by the room that is left.
  after_kept :
      ℕ
      → ℕ
      → AddressUtxo
      → List AddressUtxo
      → List GetAddressUtxosReply
      → Result Status (List GetAddressUtxosReply)
  unfolding collect_from
  after_kept start_height max_entries u utxos before = elim (is_full hex max_entries before) [
    | true ↦ ok before
    | false ↦ do
      if leb max_address_utxos (length before) then err resource_exhausted else ok tt
      reply ← utxo_reply hex u
      collect_from hex start_height max_entries utxos (before ++ reply ∷ [])
  ]

  kept_full :
      (start_height max_entries count : ℕ) (u : AddressUtxo) (utxos : List AddressUtxo)
      (before : List GetAddressUtxosReply)
      → length before ≡ page_limit max_entries
      → length before < count
      → after_kept start_height max_entries u utxos before ≡ page_end max_entries count before []
  unfolding after_kept
  kept_full start_height max_entries count u utxos before at more =
      elim (Bool-cases (is_full hex max_entries before)) [
        | inl full ↦
            let fits : overflows max_entries count ≡ false = ground arith in
            rw (after_kept, full) (rw fits (ap ok (sym (append-nil before))))
        | inr bounded ↦
            let past : overflows max_entries count ≡ true = ground arith in
            let capped : leb max_address_utxos (length before) ≡ true = ground arith in
            rw (after_kept, bounded) (rw (capped, past) refl)
      ]

  kept_room :
      (start_height max_entries : ℕ) (u : AddressUtxo) (utxos : List AddressUtxo)
      (before : List GetAddressUtxosReply)
      → length before < page_limit max_entries
      → after_kept start_height max_entries u utxos before ≡ (
          utxo_reply hex u >>= λ reply.
          collect_from hex start_height max_entries utxos (before ++ reply ∷ []))
  unfolding after_kept
  kept_room start_height max_entries u utxos before low =
      let open_page : is_full hex max_entries before ≡ false = ground arith in
      let below : leb max_address_utxos (length before) ≡ false = ground arith in
      rw (after_kept, open_page) (rw below refl)

  room_page :
      (max_entries count : ℕ) (before : List GetAddressUtxosReply)
      (first : Result Status GetAddressUtxosReply)
      (next : GetAddressUtxosReply → Result Status (List GetAddressUtxosReply))
      (rest : Result Status (List GetAddressUtxosReply))
      → ((reply : GetAddressUtxosReply)
          → next reply ≡ (rest >>= page_end max_entries count (before ++ reply ∷ [])))
      → (first >>= next) ≡ (
          (first >>= λ reply. rest >>= λ replies. ok (reply ∷ replies))
          >>= page_end max_entries count before)
  room_page max_entries count before (err e) next rest same = refl
  room_page max_entries count before (ok reply) next rest same =
      same reply ∙ cons_page max_entries count before reply rest

  collect_from-page :
      (start_height max_entries : ℕ) (utxos : List AddressUtxo) (before : List GetAddressUtxosReply)
      → length before ≤ page_limit max_entries
      → collect_from hex start_height max_entries utxos before ≡ (
          reply_all (take (page_limit max_entries - length before) (wanted start_height utxos))
          >>= page_end max_entries (length before + length (wanted start_height utxos)) before)
  unfolding collect_from after_kept
  collect_from-page start_height max_entries [] before low =
      let fits : overflows max_entries (length before + 0) ≡ false = ground arith in
      let nothing : take {A = AddressUtxo} (page_limit max_entries - length before) [] ≡ [] =
        take_nil {A = AddressUtxo} (page_limit max_entries - length before) in
      rw nothing (rw fits (ap ok (sym (append-nil before))))
  collect_from-page start_height max_entries (u ∷ utxos) before low =
      let ws = wanted start_height utxos in
      let count = length before + suc (length ws) in
      elim (Bool-cases (ltb u.height start_height)) [
        | inl skipped ↦
            rw (collect_from, skipped) (collect_from-page start_height max_entries utxos before low)
        | inr kept ↦
            rw (collect_from, kept)
              (elim (Bool-cases (ltb (length before) (page_limit max_entries))) [
                | inr full ↦
                    let none_left : page_limit max_entries - length before ≡ 0 = ground arith in
                    let at : length before ≡ page_limit max_entries = ground arith in
                    rw none_left
                      (kept_full start_height max_entries count u utxos before at (omega arith))
                | inl room ↦
                    let left : page_limit max_entries - length before
                        ≡ suc (page_limit max_entries - suc (length before)) =
                      ground arith in
                    let rest = reply_all (take (page_limit max_entries - suc (length before)) ws) in
                    kept_room start_height max_entries u utxos before (ground arith)
                    ∙ rw left (
                        room_page max_entries count before (utxo_reply hex u) _ rest (λ reply.
                          let longer : length (before ++ reply ∷ []) ≡ suc (length before) =
                            omega (arith, length-append before (reply ∷ [])) in
                          let counted : suc (length before) + length ws ≡ count = omega arith in
                          let fits : length (before ++ reply ∷ []) ≤ page_limit max_entries =
                            ground (arith, longer) in
                          rw (longer, counted) at
                            (collect_from-page start_height max_entries utxos (before ++ reply ∷ [])
                              fits)))
              ])
      ]

  -- For a request of valid addresses, few enough, whose outputs the node answers: the reply is the
  -- outputs from the start height on, converted in their order, up to the request's own bound or the
  -- server's cap, whichever is lower. The first output that does not convert fails it, and so does the
  -- cap, exactly if more outputs than the cap are left and the request does not bound itself within it.
  pub collect_utxos-page :
      (node : AddressNode) (arg : GetAddressUtxosArg) (utxos : List AddressUtxo)
      → length arg.addresses ≤ max_streamed_addresses
      → check_taddresses arg.addresses ≡ ok tt
      → node.get_address_utxos arg.addresses ≡ ok utxos
      → collect_utxos hex node arg ≡ (
          reply_all (take (page_limit arg.max_entries) (wanted arg.start_height utxos))
          >>= page_end arg.max_entries (length (wanted arg.start_height utxos)) [])
  unfolding collect_utxos
  collect_utxos-page node arg utxos few valid answered =
      let within : ltb max_streamed_addresses (length arg.addresses) ≡ false = ground arith in
      let page = collect_from-page arg.start_height arg.max_entries utxos [] (omega arith) in
      let from_nothing : page_limit arg.max_entries - 0 ≡ page_limit arg.max_entries =
        omega arith in
      let counted : 0 + length (wanted arg.start_height utxos)
          ≡ length (wanted arg.start_height utxos) =
        omega arith in
      rw (collect_utxos, within) (rw valid (rw answered (rw (from_nothing, counted) at page)))
