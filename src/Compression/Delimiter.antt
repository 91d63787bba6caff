-- ===== src/Compression/Delimiter.antt =====
-- The two parts of a compressed file come apart where they were put together.
use tftp.Base.{
  ℕ, zero, suc, ◌/◌, ◌%◌, ◌<◌, Bytes, ◌≡◌, ◌≢◌, ◌⊎◌, inl, inr, refl, ap, some, [], ◌∷◌, ◌++◌,
  length, replicate, ne→==, arith,
}
use tftp.Compression.{CodeTable, encode_map, size_bytes, combine, separate}

-- No delimiter in a text.
abbrev pub IsClean : Bytes → Type 0
IsClean [] = Unit {0}
IsClean (a ∷ []) = Unit {0}
IsClean (a ∷ b ∷ rest) = ((a ≢ 0x7f) ⊎ (b ≢ 0xfe)) × IsClean (b ∷ rest)

separate_front : (rest : Bytes) → separate (0x7f ∷ 0xfe ∷ rest) ≡ some ([], rest)
unfolding separate
separate_front rest = refl

separate_step :
    (a b : ℕ) (rest front back : Bytes)
    → (a ≢ 0x7f) ⊎ (b ≢ 0xfe)
    → separate (b ∷ rest) ≡ some (front, back)
    → separate (a ∷ b ∷ rest) ≡ some (a ∷ front, back)
unfolding separate
separate_step a b rest front back (inl h) e = rw (ne→== a 0x7f h, e)
separate_step a b rest front back (inr h) e = rw (ne→== b 0xfe h, e) (ground arith)

pub separate-combine :
    (data1 data2 : Bytes) → IsClean data1 → separate (combine data1 data2) ≡ some (data1, data2)
unfolding combine
separate-combine [] data2 clean = separate_front data2
separate-combine (a ∷ []) data2 clean =
    separate_step a 0x7f (0xfe ∷ data2) [] data2 (inr (omega arith)) (separate_front data2)
separate-combine (a ∷ b ∷ rest) data2 clean =
    separate_step a b (rest ++ 0x7f ∷ 0xfe ∷ data2) (b ∷ rest) data2 clean.0
      (separate-combine (b ∷ rest) data2 clean.1)

-- A text of '0' and '1'.
abbrev pub IsBits : Bytes → Type 0
IsBits [] = Unit {0}
IsBits (k ∷ bits) = ((k ≡ 48) ⊎ (k ≡ 49)) × IsBits bits

-- The codes are such texts, and not long enough for a byte of their length to look like the
-- delimiter's second one.
abbrev pub HasCodes : CodeTable → Type 0
HasCodes [] = Unit {0}
HasCodes ((key, code) ∷ table) = IsBits code × (length code < 0xfe) × HasCodes table

IsClean-cons : (a : ℕ) (rest : Bytes) → a ≢ 0x7f → IsClean rest → IsClean (a ∷ rest)
IsClean-cons a [] h clean = tt
IsClean-cons a (b ∷ rest) h clean = (inl h, clean)

IsClean-bits : (code rest : Bytes) → IsBits code → IsClean rest → IsClean (code ++ rest)
IsClean-bits [] rest h clean = clean
IsClean-bits (k ∷ code) rest h clean =
    IsClean-cons k (code ++ rest) (ground (arith, h.0)) (IsClean-bits code rest h.1 clean)

IsClean-zeros : (n : ℕ) (rest : Bytes) → IsClean rest → IsClean (replicate n 0 ++ rest)
IsClean-zeros zero rest clean = clean
IsClean-zeros (suc n) rest clean =
    IsClean-cons 0 (replicate n 0 ++ rest) (omega arith) (IsClean-zeros n rest clean)

size_bytes_zero : (count : ℕ) → size_bytes count 0 ≡ replicate count 0
unfolding size_bytes
size_bytes_zero zero = refl
size_bytes_zero (suc count) = ap (◌∷◌ 0) (size_bytes_zero count)

size_bytes_small : (count n : ℕ) → n < 256 → size_bytes (suc count) n ≡ n ∷ replicate count 0
unfolding size_bytes
size_bytes_small count n small =
    let low : n % 256 ≡ n = omega arith in
    let high : n / 256 ≡ 0 = omega arith in rw (low, high) (ap (◌∷◌ n) (size_bytes_zero count))

encode_map-IsClean : (table : CodeTable) → HasCodes table → IsClean (encode_map table)
unfolding encode_map
encode_map-IsClean [] h = tt
encode_map-IsClean ((key, code) ∷ table) h =
    let rest = IsClean-bits code (encode_map table) h.0 (encode_map-IsClean table h.2) in
    let zeros = IsClean-zeros 7 (code ++ encode_map table) rest in
    rw (size_bytes_small 7 (length code) (omega (arith, h.1)))
      (inr (omega (arith, h.1)), (inr (omega arith), zeros))

-- For a table of codes that are texts of fewer than 254 0 and 1, whatever its characters and
-- whatever follows, the file of the code table and the packed file come back from the combined
-- one.
pub separate-encode_map :
    (table : CodeTable) (packed : Bytes)
    → HasCodes table
    → separate (combine (encode_map table) packed) ≡ some (encode_map table, packed)
separate-encode_map table packed h =
    separate-combine (encode_map table) packed (encode_map-IsClean table h)
