-- ===== src/Base/Words.antt =====
-- Bytes and 16-bit words. A `char` and a `uint8_t` are the same number below 256: the bit pattern.
use Prim.Native.Nat.{ℕ, ◌%◌, ◌<◌}
use mathlib.Core.List.{List}

-- A buffer, the contents of a file, or a `std::string`.
abbrev pub Bytes : Type 0
Bytes = List ℕ

abbrev pub IsByte : ℕ → Type 0
IsByte b = b < 256

-- (uint16_t)x
abbrev pub u16 : ℕ → ℕ
u16 x = x % 65536
