-- ===== src/Compression/RoundTrip.antt =====
-- A text deflated, read as bits and inflated: the text comes back, with what the padding of the last
-- byte decodes to behind it.
use tftp.Base.{
  ℕ, zero, suc, ◌+◌, ◌*◌, ◌%◌, ◌<◌, Bytes, ◌≡◌, refl, ap, ◌∙◌, some, [], ◌∷◌, ◌++◌, length,
  length-append, length-replicate, replicate, All, arith,
}
use tftp.Compression.{
  CodeTable, bits_from, read_bits, code_of, code_bits, deflated, char_of, inflate,
}
use tftp.Compression.Bits.{read_bits-pack}
use tftp.Compression.Decode.{AllDecodable, inflate-code_bits, inflate_found}
use tftp.Compression.Delimiter.{IsBits}

-- The characters of a text have texts of '0' and '1' for codes.
abbrev pub HasBits : CodeTable → Bytes → Type 0
HasBits table text = All (λ c. IsBits (code_of table c)) text

IsBits-append : (front back : Bytes) → IsBits front → IsBits back → IsBits (front ++ back)
IsBits-append [] back f b = b
IsBits-append (k ∷ front) back f b = (f.0, IsBits-append front back f.1 b)

IsBits-code_bits :
    (table : CodeTable) (text : Bytes) → HasBits table text → IsBits (code_bits table text)
unfolding code_bits
IsBits-code_bits table [] h = tt
IsBits-code_bits table (c ∷ text) h =
    IsBits-append (code_of table c) (code_bits table text) h.0 (IsBits-code_bits table text h.1)

length-read_bits : (contents : Bytes) → length (read_bits contents) ≡ 8 * length contents
unfolding read_bits bits_from
length-read_bits [] = omega arith
length-read_bits (c ∷ contents) =
    omega (arith, length-append (bits_from c 0 8) (read_bits contents), length-read_bits contents)

-- The bits read back from the packed file are those of the text, filled up with '0' to whole bytes.
read_bits-deflated :
    (table : CodeTable) (text : Bytes)
    → HasBits table text
    → (pad : ℕ) × (pad < 8)
      × ((length (code_bits table text) + pad) % 8 ≡ 0)
      × (read_bits (deflated table text) ≡ code_bits table text ++ replicate pad 48)
unfolding deflated
read_bits-deflated table text h =
    let (pad, small, read) =
      read_bits-pack (code_bits table text) [] (IsBits-code_bits table text h) tt (omega arith) in
    let size = ap length read in
    (
      pad,
      small,
      omega (
        arith,
        size,
        length-read_bits (deflated table text),
        length-append (code_bits table text) (replicate pad 48),
        length-replicate {A = ℕ} pad 48,
      ),
      read,
    )

-- For a table in which every character of the text is decodable from its code, a text of 0 and 1:
-- deflated, read as bits and inflated, the text comes back, and behind it what inflate makes of
-- the padding, which is 0 up to the next whole byte.
pub inflate-deflated :
    (table : CodeTable) (text : Bytes)
    → AllDecodable table text
    → HasBits table text
    → (pad : ℕ) × (pad < 8)
      × ((length (code_bits table text) + pad) % 8 ≡ 0)
      × (inflate table [] (read_bits (deflated table text))
          ≡ text ++ inflate table [] (replicate pad 48))
inflate-deflated table text d h =
    let (pad, small, whole, read) = read_bits-deflated table text h in
    (
      pad,
      small,
      whole,
      ap (inflate table []) read ∙ inflate-code_bits table text (replicate pad 48) d,
    )

inflate_zeros :
    (table : CodeTable) (c n : ℕ)
    → char_of table (48 ∷ []) ≡ some c
    → inflate table [] (replicate n 48) ≡ replicate n c
unfolding inflate
inflate_zeros table c zero h = refl
inflate_zeros table c (suc n) h =
    inflate_found table [] (replicate n 48) 48 c h ∙ ap (◌∷◌ c) (inflate_zeros table c n h)

-- For a table in which every character of the text is decodable from its code, a text of 0 and 1,
-- and some character has the code 0, each bit of the padding decodes to that one: unless the codes
-- of the text fill whole bytes, the text comes back with up to seven of that character too many.
pub inflate-deflated_extra :
    (table : CodeTable) (text : Bytes) (c : ℕ)
    → AllDecodable table text
    → HasBits table text
    → char_of table (48 ∷ []) ≡ some c
    → (pad : ℕ) × (pad < 8)
      × ((length (code_bits table text) + pad) % 8 ≡ 0)
      × (inflate table [] (read_bits (deflated table text)) ≡ text ++ replicate pad c)
inflate-deflated_extra table text c d h zero_code =
    let (pad, small, whole, got) = inflate-deflated table text d h in
    (pad, small, whole, got ∙ ap (◌++◌ text) (inflate_zeros table c pad zero_code))
