-- ===== src/Base/Bytes.antt =====
-- Byte strings as lists of numbers, and fixed-width little-endian and big-endian integers
-- (`to_le_bytes`, `from_le_bytes`, `to_be_bytes`).
use Prim.Native.Nat.{ℕ, zero, suc, ◌+◌, ◌*◌, ◌/◌, ◌%◌, ◌<◌}
use mathlib.Core.Path.{◌≡◌, refl, ap}
use mathlib.Core.List.{List, [], ◌∷◌, reverse}
use native.Mathlib.Omega.{arith}
use lightwalletd_rs.Base.Lists.{length, All}

abbrev pub Bytes : Type 0
Bytes = List ℕ

-- The `width` low bytes of `n`, lowest first.
abbrev pub le_bytes : ℕ → ℕ → Bytes
le_bytes zero n = []
le_bytes (suc width) n = (n % 256) ∷ le_bytes width (n / 256)

abbrev pub from_le_bytes : Bytes → ℕ
from_le_bytes [] = 0
from_le_bytes (b ∷ bs) = b + 256 * from_le_bytes bs

abbrev pub be_bytes : ℕ → ℕ → Bytes
be_bytes width n = reverse (le_bytes width n)

pub length-le_bytes : (width n : ℕ) → length (le_bytes width n) ≡ width
length-le_bytes zero n = refl
length-le_bytes (suc width) n = ap suc (length-le_bytes width (n / 256))

-- 256 to the power `width`, by recursion.
abbrev pub byte_range : ℕ → ℕ
byte_range zero = 1
byte_range (suc width) = 256 * byte_range width

pub from_le_bytes-le_bytes :
    (width n : ℕ) → n < byte_range width → from_le_bytes (le_bytes width n) ≡ n
from_le_bytes-le_bytes zero n h = omega arith
from_le_bytes-le_bytes (suc width) n h =
    omega (arith, from_le_bytes-le_bytes width (n / 256) (omega arith))

abbrev pub IsByte : ℕ → Type 0
IsByte b = b < 256

pub le_bytes-from_le_bytes :
    (width : ℕ) (bs : Bytes)
    → All IsByte bs
    → length bs ≡ width
    → le_bytes width (from_le_bytes bs) ≡ bs
le_bytes-from_le_bytes zero [] h len = refl
le_bytes-from_le_bytes (suc width) [] h len = absurd (omega arith)
le_bytes-from_le_bytes zero (b ∷ bs) h len = absurd (omega arith)
le_bytes-from_le_bytes (suc width) (b ∷ bs) h len =
    let low : (b + 256 * from_le_bytes bs) % 256 ≡ b = omega (arith, h.0) in
    let high : (b + 256 * from_le_bytes bs) / 256 ≡ from_le_bytes bs = omega (arith, h.0) in
    rw (low, high) (ap (◌∷◌ b) (le_bytes-from_le_bytes width bs h.1 (omega arith)))

pub from_le_bytes-bound : (bs : Bytes) → All IsByte bs → from_le_bytes bs < byte_range (length bs)
from_le_bytes-bound [] h = omega arith
from_le_bytes-bound (b ∷ bs) h = omega (arith, h.0, from_le_bytes-bound bs h.1)
