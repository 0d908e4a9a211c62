-- ===== src/Addresses/Streams.antt =====
-- Addresses that are streamed in one by one, against the same addresses in one request
-- (src/service/address.rs).
use lightwalletd_rs.Base.{
  suc, ◌+◌, ◌≤◌, ◌≡◌, refl, ap, sym, List, [], ◌∷◌, ◌++◌, append-nil, append_assoc, length-append,
  map, true, false, Bool-cases, inl, inr, ltb, leb, if◌then◌else◌, ok, err, length, All, arith,
}
use lightwalletd_rs.Addresses.{
  max_streamed_addresses, push_bounded, check_taddress, check_taddresses, collect_streamed_from,
  collect_streamed_addresses, AddressNode, get_taddress_balance, get_taddress_balance_stream,
}
use lightwalletd_rs.Encoding.{Text, Hex}
use lightwalletd_rs.Status.{resource_exhausted}

-- The address has the shape of a transparent address.
abbrev pub IsTaddress : Text → Type 0
IsTaddress address = check_taddress address ≡ ok tt

check_taddresses_valid :
    (addresses : List Text) → All IsTaddress addresses → check_taddresses addresses ≡ ok tt
unfolding check_taddresses
check_taddresses_valid [] valid = refl
check_taddresses_valid (a ∷ addresses) valid =
    rw (check_taddresses, valid.0) (check_taddresses_valid addresses valid.1)

collect_streamed_from_valid :
    (addresses before : List Text)
    → All IsTaddress addresses
    → length before ≤ max_streamed_addresses
    → collect_streamed_from (map ok addresses) before ≡ (
        if ltb max_streamed_addresses (length before + length addresses)
        then err resource_exhausted
        else ok (before ++ addresses))
unfolding collect_streamed_from push_bounded
collect_streamed_from_valid [] before valid low =
    let within : ltb max_streamed_addresses (length before + 0) ≡ false = ground arith in
    rw within (ap ok (sym (append-nil before)))
collect_streamed_from_valid (a ∷ addresses) before valid low =
    elim (Bool-cases (leb max_streamed_addresses (length before))) [
      | inl full ↦
          let past : ltb max_streamed_addresses (length before + suc (length addresses)) ≡ true =
            ground arith in
          rw (collect_streamed_from, valid.0) (rw (push_bounded, full, past) refl)
      | inr room ↦
          let longer : length (before ++ a ∷ []) ≡ suc (length before) =
            omega (arith, length-append before (a ∷ [])) in
          let later =
            collect_streamed_from_valid addresses (before ++ a ∷ []) valid.1
              (ground (arith, longer)) in
          let counted : suc (length before) + length addresses
              ≡ length before + suc (length addresses) =
            omega arith in
          rw (collect_streamed_from, valid.0)
            (rw (push_bounded, room)
              (rw (longer, counted, append_assoc before (a ∷ []) addresses) at later))
    ]

-- Transparent addresses that a client streams in have the balance, or the failure, that the same
-- addresses have in one request, however many they are.
pub get_taddress_balance_stream-eq :
    (hex : Hex) (node : AddressNode) (addresses : List Text)
    → All IsTaddress addresses
    → get_taddress_balance_stream hex node (map ok addresses)
      ≡ get_taddress_balance hex node addresses
unfolding get_taddress_balance_stream get_taddress_balance collect_streamed_addresses
get_taddress_balance_stream-eq hex node addresses valid =
    let counted : 0 + length addresses ≡ length addresses = omega arith in
    let collected = rw counted at (collect_streamed_from_valid addresses [] valid (omega arith)) in
    elim (Bool-cases (ltb max_streamed_addresses (length addresses))) [
      | inl many ↦
          rw (get_taddress_balance_stream, collect_streamed_addresses, collected)
            (rw (get_taddress_balance, many) refl)
      | inr few ↦
          rw (get_taddress_balance_stream, collect_streamed_addresses, collected)
            (rw (get_taddress_balance, few) (rw (check_taddresses_valid addresses valid) refl))
    ]
