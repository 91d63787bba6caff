-- ===== src/Wire/Words.antt =====
-- What the two readings of a word give, for all pairs of bytes.
use tftp.Base.{
  Bytes, ℕ, zero, suc, ◌+◌, ◌-◌, ◌*◌, ◌/◌, ◌%◌, ◌≤◌, ◌<◌, Bool, true, ◌&&◌, ◌≡◌, refl, ◌∷◌, ◌==◌,
  ==_iff, ◌⊎◌, inl, inr, arith,
}
use tftp.Wire.{
  joined, joined_signed, promoted, ntohs, opcode_of, block_of, ack_opcode_of, ack_block_of,
}

-- Two readings of a pair of bytes, compared over a row, then over all rows.
unfoldable pub row_agrees : (ℕ → ℕ) → (ℕ → ℕ) → ℕ → Bool
row_agrees f g zero = true
row_agrees f g (suc size) = row_agrees f g size && (f size == g size)

unfoldable pub rows_agree : (ℕ → ℕ → ℕ) → (ℕ → ℕ → ℕ) → ℕ → ℕ → Bool
rows_agree f g zero size = true
rows_agree f g (suc rows) size = row_agrees (f rows) (g rows) size && rows_agree f g rows size

both : (x y : Bool) → (x && y) ≡ true → (x ≡ true) × (y ≡ true)
both x y h = ground arith

last_or_before : (b size : ℕ) → b < suc size → (b ≡ size) ⊎ (b < size)
last_or_before b size lt = ground arith

at_row : (f g : ℕ → ℕ) (size : ℕ) → row_agrees f g size ≡ true → (b : ℕ) → b < size → f b ≡ g b
unfolding row_agrees
at_row f g zero _ b lt = absurd (omega arith)
at_row f g (suc size) h b lt =
    let parts = both _ _ h in
    elim (last_or_before b size lt) [
      | inl e ↦ rw e ((==_iff _ _).0 parts.1)
      | inr before ↦ at_row f g size parts.0 b before
    ]

pub at_rows :
    (f g : ℕ → ℕ → ℕ) (rows size : ℕ)
    → rows_agree f g rows size ≡ true
    → (a b : ℕ) → a < rows
    → b < size
    → f a b ≡ g a b
unfolding rows_agree
at_rows f g zero size _ a b la lb = absurd (omega arith)
at_rows f g (suc rows) size h a b la lb =
    let parts = both _ _ h in
    elim (last_or_before a rows la) [
      | inl e ↦ rw e (at_row (f rows) (g rows) size parts.0 b lb)
      | inr before ↦ at_rows f g rows size parts.1 a b before lb
    ]

joined_lem : (a b : ℕ) → a < 256 → b < 256 → joined a b ≡ b * 256 + a
unfolding rows_agree row_agrees joined
joined_lem = at_rows joined (λ a b. b * 256 + a) 256 256 refl

-- Both bytes masked and the word swapped: the value in network order, for all bytes.
pub ntohs-joined : (a b : ℕ) → a < 256 → b < 256 → ntohs (joined a b) ≡ a * 256 + b
unfolding ntohs
ntohs-joined a b ha hb = rw (joined_lem a b ha hb) (omega arith)

joined_signed_low : (a b : ℕ) → a < 256 → b < 128 → joined_signed a b ≡ a * 256 + b
unfolding rows_agree row_agrees joined_signed promoted
joined_signed_low = at_rows joined_signed (λ a b. a * 256 + b) 256 128 refl

joined_signed_high : (a b : ℕ) → a < 256 → b < 128 → joined_signed a (b + 128) ≡ 65280 + (b + 128)
unfolding rows_agree row_agrees joined_signed promoted
joined_signed_high =
    at_rows (λ a b. joined_signed a (b + 128)) (λ a b. 65280 + (b + 128)) 256 128 refl

-- The bytes of a word in network order, in front of anything.
abbrev pub header : ℕ → ℕ → Bytes → Bytes
header opcode word rest = 0 ∷ opcode ∷ (word / 256 % 256) ∷ (word % 256) ∷ rest

-- The opcode is read from the first two bytes alone.
pub opcode_of-front :
    (opcode : ℕ) (rest : Bytes) → opcode < 256 → opcode_of (0 ∷ opcode ∷ rest) ≡ opcode
unfolding opcode_of
opcode_of-front opcode rest h = rw (ntohs-joined 0 opcode (omega arith) h) (omega arith)

pub opcode_of-header :
    (opcode word : ℕ) (rest : Bytes) → opcode < 256 → opcode_of (header opcode word rest) ≡ opcode
opcode_of-header opcode word rest h =
    opcode_of-front opcode ((word / 256 % 256) ∷ (word % 256) ∷ rest) h

pub block_of-header :
    (opcode word : ℕ) (rest : Bytes) → word < 65536 → block_of (header opcode word rest) ≡ word
unfolding block_of
block_of-header opcode word rest h =
    rw (ntohs-joined (word / 256 % 256) (word % 256) (omega arith) (omega arith)) (omega arith)

pub ack_opcode_of-header :
    (opcode word : ℕ) (rest : Bytes)
    → opcode < 128
    → ack_opcode_of (header opcode word rest) ≡ opcode
unfolding ack_opcode_of
ack_opcode_of-header opcode word rest h =
    rw (joined_signed_low 0 opcode (omega arith) h) (omega arith)

-- Where the low byte of the block number is below 128 the server reads it right.
pub ack_block_of-low :
    (opcode n : ℕ) (rest : Bytes)
    → n < 65536
    → n % 256 < 128
    → ack_block_of (header opcode n rest) ≡ n
unfolding ack_block_of
ack_block_of-low opcode n rest h low =
    rw (joined_signed_low (n / 256 % 256) (n % 256) (omega arith) low) (omega arith)

-- Elsewhere the sign of the low byte covers the high one.
pub ack_block_of-high :
    (opcode n : ℕ) (rest : Bytes)
    → 128 ≤ n % 256
    → ack_block_of (header opcode n rest) ≡ 65280 + n % 256
unfolding ack_block_of
ack_block_of-high opcode n rest high =
    let e : n % 256 ≡ n % 256 - 128 + 128 = omega arith in
    rw e (joined_signed_high (n / 256 % 256) (n % 256 - 128) (omega arith) (omega arith))
