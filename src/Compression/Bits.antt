-- ===== src/Compression/Bits.antt =====
-- The bits packed into bytes are read back.
use native.Mathlib.Numerals.{unary_clauses}
use Prim.Native.Nat.{bit_or}
use tftp.Base.{
  ℕ, zero, suc, ◌+◌, ◌-◌, ◌*◌, ◌/◌, ◌%◌, ◌^◌, ◌≤◌, ◌<◌, Bytes, ◌≡◌, ◌⊎◌, inl, inr, refl, ap, ◌∙◌,
  sym, [], ◌∷◌, ◌++◌, length, length-append, replicate, append_assoc, append-nil, ltb, ◌==◌, ==_iff,
  ne→==, lt→ltb, ltb→lt, if◌then◌else◌, Bool-cases, arith,
}
use tftp.Wire.Words.{row_agrees, rows_agree, at_rows}
use tftp.Compression.{bit_of, bits_from, read_bits, Packing, pack_bit, pack}
use tftp.Compression.Delimiter.{IsBits}

-- The number whose lowest bits are a text of '0' and '1'.
abbrev value : Bytes → ℕ
value [] = 0
value (k ∷ bits) = (if k == 49 then 1 else 0) + 2 * value bits

bit_of_lem : (i c : ℕ) → i < 8 → c < 256 → bit_of c i ≡ 48 + c / 2 ^ i % 2
unfolding rows_agree row_agrees bit_of
bit_of_lem = at_rows (λ i c. bit_of c i) (λ i c. 48 + c / 2 ^ i % 2) 8 256 refl

shift_lem : (i c : ℕ) → i < 8 → c < 256 → c / 2 ^ suc i ≡ c / 2 ^ i / 2
unfolding rows_agree row_agrees
shift_lem = at_rows (λ i c. c / 2 ^ suc i) (λ i c. c / 2 ^ i / 2) 8 256 refl

-- `|=` with a bit above those set adds it.
or_table :
    (i a : ℕ)
    → i < 8
    → a < 256
    → (if ltb a (2 ^ i) then bit_or a (2 ^ i) else 0) ≡ (if ltb a (2 ^ i) then a + 2 ^ i else 0)
unfolding rows_agree row_agrees
or_table =
    at_rows (λ i a. if ltb a (2 ^ i) then bit_or a (2 ^ i) else 0)
      (λ i a. if ltb a (2 ^ i) then a + 2 ^ i else 0) 8 256 refl

or_zero : (i a : ℕ) → i < 1 → a < 256 → bit_or a i ≡ a
unfolding rows_agree row_agrees
or_zero = at_rows (λ i a. bit_or a i) (λ i a. a) 1 256 refl

value-lt : (n : ℕ) (bits : Bytes) → length bits ≤ n → value bits < 2 ^ n
value-lt zero [] h = omega arith
value-lt zero (k ∷ bits) h = absurd (omega arith)
value-lt (suc n) [] h =
    let small : 0 < 2 ^ n = value-lt n [] (omega arith) in simp unary_clauses (omega arith)
value-lt (suc n) (k ∷ bits) h =
    let small = value-lt n bits (omega arith) in simp unary_clauses (ground arith)

value-append :
    (bits : Bytes) (k : ℕ)
    → value (bits ++ k ∷ []) ≡ value bits + (if k == 49 then 2 ^ length bits else 0)
value-append [] k = ground arith
value-append (j ∷ bits) k = let rest = value-append bits k in simp unary_clauses (ground arith)

-- Reading a byte from the bit `i` on gives the bits set there, and '0' behind them.
bits_from-value :
    (n i c : ℕ) (bits : Bytes) (pad : ℕ)
    → IsBits bits
    → n ≡ length bits + pad
    → i + n ≤ 8
    → c < 256
    → c / 2 ^ i ≡ value bits
    → bits_from c i n ≡ bits ++ replicate pad 48
unfolding bits_from
bits_from-value zero i c [] zero b h k small e = refl
bits_from-value zero i c [] (suc pad) b h k small e = absurd (omega (arith, h))
bits_from-value zero i c (j ∷ bits) pad b h k small e = absurd (omega (arith, h))
bits_from-value (suc n) i c [] zero b h k small e = absurd (omega (arith, h))
bits_from-value (suc n) i c [] (suc pad) b h k small e =
    let first : bit_of c i ≡ 48 = omega (arith, bit_of_lem i c, e) in
    let next : c / 2 ^ suc i ≡ 0 =
      shift_lem i c (omega arith) small ∙ ap (λ (m : ℕ). m / 2) e ∙ omega arith in
    rw first (
      ap (◌∷◌ 48)
        (bits_from-value n (suc i) c [] pad tt (omega (arith, h)) (omega arith) small next))
bits_from-value (suc n) i c (j ∷ bits) pad b h k small e =
    let first : bit_of c i ≡ j = ground (arith, bit_of_lem i c, e, b.0) in
    let next : c / 2 ^ suc i ≡ value bits =
      shift_lem i c (omega arith) small ∙ ap (λ (m : ℕ). m / 2) e ∙ ground (arith, b.0) in
    rw first (
      ap (◌∷◌ j)
        (bits_from-value n (suc i) c bits pad b.1 (omega (arith, h)) (omega arith) small next))

-- The bits of a byte that holds some.
byte_bits :
    (bits : Bytes) (pad : ℕ)
    → IsBits bits
    → 8 ≡ length bits + pad
    → bits_from (value bits) 0 8 ≡ bits ++ replicate pad 48
byte_bits bits pad b h =
    bits_from-value 8 0 (value bits) bits pad b h (omega arith) (value-lt 8 bits (omega (arith, h)))
      (omega arith)

IsBits-snoc : (bits : Bytes) (k : ℕ) → IsBits bits → (k ≡ 48) ⊎ (k ≡ 49) → IsBits (bits ++ k ∷ [])
IsBits-snoc [] k b h = (h, tt)
IsBits-snoc (j ∷ bits) k b h = (b.0, IsBits-snoc bits k b.1 h)

or_power : (i a : ℕ) → i < 8 → a < 2 ^ i → a < 256 → bit_or a (2 ^ i) ≡ a + 2 ^ i
or_power i a short less small = rw (lt→ltb a (2 ^ i) less) at (or_table i a short small)

-- `packedBits` with one more bit.
or_value :
    (bits : Bytes) (k : ℕ)
    → length bits < 8
    → bit_or (value bits) (if k == 49 then 2 ^ length bits else 0) ≡ value (bits ++ k ∷ [])
or_value bits k short =
    elim (Bool-cases (k == 49)) [
      | inl e ↦ rw e (
          or_power (length bits) (value bits) short (value-lt (length bits) bits (omega arith))
            small)
      | inr e ↦ rw e (or_zero 0 (value bits) (omega arith) small ∙ omega arith)
    ]
    ∙ sym (value-append bits k)
  where
    small : value bits < 256
    small = value-lt 8 bits (omega arith)

-- The state of the packing that has begun a byte with some bits.
abbrev pub begun : Bytes → Packing
begun bits = record { packed_bits = value bits; bit_index = length bits }

pack_bit-more :
    (front : Bytes) (k : ℕ)
    → length front < 7
    → pack_bit (begun front) k ≡ ([], begun (front ++ k ∷ []))
unfolding pack_bit
pack_bit-more front k short =
    let size : length (front ++ k ∷ []) ≡ length front + 1 =
      omega (arith, length-append front (k ∷ [])) in
    rw (ne→== (length front + 1) 8 (omega arith), or_value front k (omega arith), size)

pack_bit-full :
    (front : Bytes) (k : ℕ)
    → length front ≡ 7
    → pack_bit (begun front) k ≡ (value (front ++ k ∷ []) ∷ [], begun [])
unfolding pack_bit
pack_bit-full front k full =
    rw (or_value front k (omega arith), (==_iff (length front + 1) 8).1 (omega arith))

-- The bits of a file, packed behind those of a byte that is begun, are read back in order, and
-- behind them fewer than eight times '0'.
pub read_bits-pack :
    (bits front : Bytes)
    → IsBits bits
    → IsBits front
    → length front < 8
    → (pad : ℕ) × (pad < 8)
      × (read_bits (pack (begun front) bits) ≡ front ++ (bits ++ replicate pad 48))
unfolding pack read_bits
read_bits-pack [] [] b f short = (0, omega arith, refl)
read_bits-pack [] (j ∷ front) b f short = (
  8 - suc (length front),
  omega arith,
  rw (lt→ltb 0 (suc (length front)) (omega arith)) (
      append-nil (bits_from (value (j ∷ front)) 0 8)
      ∙ byte_bits (j ∷ front) (8 - suc (length front)) f (omega arith)),
)
read_bits-pack (k ∷ bits) front b f short = elim (Bool-cases (ltb (length front) 7)) [
  | inl e ↦
      let (pad, small, read) =
        read_bits-pack bits (front ++ k ∷ []) b.1 (IsBits-snoc front k f b.0)
          (omega (arith, length-append front (k ∷ []), ltb→lt (length front) 7 e)) in
      (
        pad,
        small,
        rw (pack_bit-more front k (ltb→lt (length front) 7 e))
            (read ∙ append_assoc front (k ∷ []) (bits ++ replicate pad 48)),
      )
  | inr e ↦
      let full : length front ≡ 7 = ground (arith, e, short) in
      let (pad, small, read) = read_bits-pack bits [] b.1 tt (omega arith) in
      let byte =
        byte_bits (front ++ k ∷ []) 0 (IsBits-snoc front k f b.0)
          (omega (arith, length-append front (k ∷ []), full)) in
      (
        pad,
        small,
        rw (pack_bit-full front k full, byte, read)
            (append_assoc (front ++ k ∷ []) [] (bits ++ replicate pad 48)
              ∙ append_assoc front (k ∷ []) (bits ++ replicate pad 48)),
      )
]
