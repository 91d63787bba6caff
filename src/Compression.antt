-- ===== src/Compression.antt =====
-- The files of src/TFTPCompression.cpp: packing and reading of bits, the code table and its file, the
-- delimiter, and the decoding of `inflate`. The code table itself is an argument.
pub mod Characters
pub mod Files
pub mod Huffman
pub mod Bits
pub mod Delimiter
pub mod Decode
pub mod RoundTrip
use Prim.Native.Nat.{bit_and, bit_or}
use tftp.Base.{
  ℕ, zero, suc, ◌+◌, ◌*◌, ◌/◌, ◌%◌, ◌^◌, Bytes, Bool, true, false, ◌&&◌, Option, none, some, List,
  [], ◌∷◌, ◌++◌, length, ltb, ◌==◌, if◌then◌else◌,
}
use tftp.Base.Names.{same_text}

-- What lies before the last dot of a name.
unfoldable pub stem : Bytes → Option Bytes
stem [] = none
stem (c ∷ name) = elim (stem name) [
  | some front ↦ some (c ∷ front)
  | none ↦ if c == 46 then some [] else none
]

-- `charWithHuffmanCodes`: characters with their codes, texts of '0' and '1', in the map's order.
abbrev pub CodeTable : Type 0
CodeTable = List (ℕ × Bytes)

-- (untrackedBits & (1 << i)) ? '1' : '0'
unfoldable pub bit_of : ℕ → ℕ → ℕ
bit_of c i = if bit_and c (2 ^ i) == 0 then 48 else 49

-- `count` bits of a byte, from the bit `i` on.
unfoldable pub bits_from : ℕ → ℕ → ℕ → Bytes
bits_from c i zero = []
bits_from c i (suc count) = bit_of c i ∷ bits_from c (suc i) count

-- `readBinaryFile`: eight characters for each byte, the lowest bit first.
unfoldable pub read_bits : Bytes → Bytes
read_bits [] = []
read_bits (c ∷ contents) = bits_from c 0 8 ++ read_bits contents

-- `packedBits` and `bitIndex`.
pub record Packing : Type 0 where
  pub packed_bits : ℕ
  pub bit_index : ℕ

-- One bit, and the byte that it fills, if it does.
unfoldable pub pack_bit : Packing → ℕ → Bytes × Packing
pack_bit s k =
    let packed = bit_or s.packed_bits (if k == 49 then 2 ^ s.bit_index else 0) in
    if s.bit_index + 1 == 8
    then (packed ∷ [], record { packed_bits = 0; bit_index = 0 })
    else ([], record { packed_bits = packed; bit_index = s.bit_index + 1 })

-- The bytes written for some bits, with the last one that is begun.
unfoldable pub pack : Packing → Bytes → Bytes
pack s [] = if ltb 0 s.bit_index then s.packed_bits ∷ [] else []
pack s (k ∷ bits) = let (full, t) = pack_bit s k in full ++ pack t bits

-- charWithHuffmanCodes[c], which is empty for a character that is not there.
unfoldable pub code_of : CodeTable → ℕ → Bytes
code_of [] c = []
code_of ((key, code) ∷ table) c = if key == c then code else code_of table c

unfoldable pub code_bits : CodeTable → Bytes → Bytes
code_bits table [] = []
code_bits table (c ∷ text) = code_of table c ++ code_bits table text

-- The packed file that `deflate` writes.
unfoldable pub deflated : CodeTable → Bytes → Bytes
deflated table text = pack (record { packed_bits = 0; bit_index = 0 }) (code_bits table text)

-- reverseValue: a later entry with the same code replaces an earlier one.
unfoldable pub char_of : CodeTable → Bytes → Option ℕ
char_of [] code = none
char_of ((key, word) ∷ table) code = elim (char_of table code) [
  | some c ↦ some c
  | none ↦ if same_text word code then some key else none
]

-- `inflate` on the bits as text, with `currentCode` so far.
unfoldable pub inflate : CodeTable → Bytes → Bytes → Bytes
inflate table current [] = []
inflate table current (c ∷ bits) = elim (char_of table (current ++ c ∷ [])) [
  | some char ↦ char ∷ inflate table [] bits
  | none ↦ inflate table (current ++ c ∷ []) bits
]

-- A `size_t` as its eight bytes, the lowest first.
unfoldable pub size_bytes : ℕ → ℕ → Bytes
size_bytes zero n = []
size_bytes (suc count) n = n % 256 ∷ size_bytes count (n / 256)

-- `encodeMapToBinaryFile`
unfoldable pub encode_map : CodeTable → Bytes
encode_map [] = []
encode_map ((key, code) ∷ table) = key ∷ (size_bytes 8 (length code) ++ (code ++ encode_map table))

-- `combineBinaryFiles`
unfoldable pub combine : Bytes → Bytes → Bytes
combine data1 data2 = data1 ++ 0x7f ∷ 0xfe ∷ data2

-- `separateBinaryFile`: what lies before and behind the first delimiter.
unfoldable pub separate : Bytes → Option (Bytes × Bytes)
separate [] = none
separate (a ∷ []) = none
separate (a ∷ b ∷ rest) =
    let behind = separate (b ∷ rest) in
    if a == 0x7f && b == 0xfe
    then some ([], rest)
    else elim behind [ some (front, back) ↦ some (a ∷ front, back) | none ↦ none ]
