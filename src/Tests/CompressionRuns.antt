-- ===== src/Tests/CompressionRuns.antt =====
-- Runs of src/TFTPCompression.cpp with the code table of the text "aab".
use tftp.Base.{
  ℕ, Bytes, ◌≡◌, ◌≢◌, refl, ap, some, [], ◌∷◌, ◌++◌, length, length-append, inl, inr, arith,
}
use tftp.Base.Names.{same_text}
use tftp.Base.Text.{codes}
use tftp.Compression.{
  CodeTable, code_of, code_bits, char_of, encode_map, deflated, inflate, read_bits, combine,
  separate, pack, pack_bit, bits_from, bit_of,
}
use tftp.Compression.Delimiter.{separate-encode_map}
use tftp.Compression.Decode.{IsDecodable}
use tftp.Compression.RoundTrip.{HasBits}

abbrev two_codes : CodeTable
two_codes = (97, codes "0") ∷ (98, codes "1") ∷ []

abbrev sample : Bytes
sample = codes "aab"

-- Three bits in a byte: the five of padding decode to five times 'a'.
extra_run : inflate two_codes [] (read_bits (deflated two_codes sample)) ≡ codes "aabaaaaa"
unfolding inflate read_bits deflated pack pack_bit code_bits code_of char_of bits_from bit_of
    same_text
extra_run = refl

-- Before the end of a code of one bit there is nothing.
empty_front : (front back : Bytes) (k : ℕ) → front ++ back ≡ k ∷ [] → back ≢ [] → front ≡ []
empty_front [] back k e some_left = refl
empty_front (x ∷ front) [] k e some_left = absurd (some_left refl)
empty_front (x ∷ front) (y ∷ back) k e some_left =
    absurd (omega (arith, ap length e, length-append front (y ∷ back)))

IsDecodable-a : IsDecodable two_codes 97
unfolding code_of char_of same_text
IsDecodable-a = (
  λ h. omega (arith, ap length h),
  refl,
  λ front back e some_left. ap (char_of two_codes) (empty_front front back 48 e some_left),
)

IsDecodable-b : IsDecodable two_codes 98
unfolding code_of char_of same_text
IsDecodable-b = (
  λ h. omega (arith, ap length h),
  refl,
  λ front back e some_left. ap (char_of two_codes) (empty_front front back 49 e some_left),
)

sample_codes : HasBits two_codes sample
unfolding code_of
sample_codes = ((inl refl, tt), ((inl refl, tt), ((inr refl, tt), tt)))

zero_code : char_of two_codes (48 ∷ []) ≡ some 97
unfolding char_of same_text
zero_code = refl

separate_example :
    separate (combine (encode_map two_codes) (0x7f ∷ 0xfe ∷ []))
    ≡ some (encode_map two_codes, 0x7f ∷ 0xfe ∷ [])
separate_example =
    separate-encode_map two_codes (0x7f ∷ 0xfe ∷ [])
      ((inl refl, tt), omega arith, ((inr refl, tt), omega arith, tt))
