-- ===== src/Encoding.antt =====
-- src/encoding.rs: display order (hex, big-endian) and wire order (bytes, little-endian). A text is
-- its UTF-8 bytes. Hex itself is the `hex` crate's, which is a parameter.
use mathlib.Core.List.{reverse-reverse}
use lightwalletd_rs.Base.{◌≡◌, ap, Option, some, reverse, Result, ok, ◌>>=◌, ok_or}
use lightwalletd_rs.Base.Bytes.{Bytes}

abbrev pub Text : Type 0
Text = Bytes

pub data FromHexError : Type 0 where
  from_hex_error : FromHexError

-- `hex::encode` and `hex::decode`.
pub record Hex : Type 0 where
  pub encode : Bytes → Text
  pub decode : Text → Option Bytes

-- What the `hex` crate documents: decoding inverts encoding.
pub record IsHex (hex : Hex) : Type 0 where
  pub decode-encode : (b : Bytes) → hex.decode (hex.encode b) ≡ some b

unfoldable pub wire_to_display_bytes : Bytes → Bytes
wire_to_display_bytes bytes = reverse bytes

module _ (hex : Hex) where
  unfoldable pub display_hex_to_wire : Text → Result FromHexError Bytes
  display_hex_to_wire text = do bytes ← ok_or from_hex_error (hex.decode text); ok (reverse bytes)

  unfoldable pub wire_to_display_hex : Bytes → Text
  unfolding wire_to_display_bytes
  wire_to_display_hex bytes = hex.encode (wire_to_display_bytes bytes)

  -- With a hex codec that reads back what it writes, bytes that are displayed read back as themselves.
  pub display_hex_to_wire-wire_to_display_hex :
      IsHex hex → (bytes : Bytes) → display_hex_to_wire (wire_to_display_hex bytes) ≡ ok bytes
  unfolding display_hex_to_wire wire_to_display_hex
  display_hex_to_wire-wire_to_display_hex lawful bytes =
      rw lawful.decode-encode (ap ok (reverse-reverse bytes))

  -- Bytes that a displayed text reads as display again as the text that the hex codec writes for what
  -- it read.
  pub wire_to_display_hex-display_hex_to_wire :
      (text : Text) (bytes raw : Bytes)
      → hex.decode text ≡ some raw
      → display_hex_to_wire text ≡ ok bytes
      → wire_to_display_hex bytes ≡ hex.encode raw
  unfolding display_hex_to_wire wire_to_display_hex
  wire_to_display_hex-display_hex_to_wire text bytes raw e h =
      let same : reverse raw ≡ bytes = ok_injective (rw e at h) in
      rw (← same) (ap hex.encode (reverse-reverse raw))
    where
      ok_injective : {a b : Bytes} → ◌≡◌ {A = Result FromHexError Bytes} (ok a) (ok b) → a ≡ b
      ok_injective h = cc h
