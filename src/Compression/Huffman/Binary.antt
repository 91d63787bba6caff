-- ===== src/Compression/Huffman/Binary.antt =====
-- `addBinary` adds, and an addition of 1 gives the next text of the same length.
use native.Mathlib.Numerals.{unary_clauses}
use tftp.Base.{
  ℕ, zero, suc, ◌+◌, ◌-◌, ◌^◌, ◌≤◌, Bytes, ◌≡◌, refl, ap, [], ◌∷◌, ◌++◌, length, length-append,
  length-replicate, replicate, ltb, ◌==◌, if◌then◌else◌, inl, inr, Bool-cases, arith,
}
use tftp.Compression.Delimiter.{IsBits}
use tftp.Compression.Huffman.{add_digits, padded, add_binary}

-- The number that a text of '0' and '1' writes, the highest digit first.
abbrev pub amount : Bytes → ℕ
amount [] = 0
amount (k ∷ a) = (if k == 49 then 2 ^ length a else 0) + amount a

-- What the loop makes of two texts of one length.
record IsSum (a b : Bytes) (r : Bytes × ℕ) : Type 0 where
  size : length r.0 ≡ length a
  bits : IsBits r.0
  carry : r.1 ≤ 1
  total : amount r.0 + (if r.1 == 1 then 2 ^ length a else 0) ≡ amount a + amount b

add_digits-IsSum :
    (a b : Bytes) → IsBits a → IsBits b → length a ≡ length b → IsSum a b (add_digits a b)
unfolding add_digits
add_digits-IsSum [] [] p q h = record { size = refl; bits = tt; carry = omega arith; total = refl }
add_digits-IsSum [] (y ∷ b) p q h = absurd (omega arith)
add_digits-IsSum (x ∷ a) [] p q h = absurd (omega arith)
add_digits-IsSum (x ∷ a) (y ∷ b) p q h =
    let s = add_digits-IsSum a b p.1 q.1 (omega arith) in
    let e = ap (λ (m : ℕ). 2 ^ m) (let e : length a ≡ length b = omega arith in e) in
    let e' = ap (λ (m : ℕ). 2 ^ m) s.size in
    record {
      size = ap suc s.size;
      bits = (ground (arith, p.0, q.0, s.carry), s.bits);
      carry = ground (arith, p.0, q.0, s.carry);
      total = simp unary_clauses (ground (arith, p.0, q.0, s.carry, s.total, e, e'));
    }

pub IsBits-zeros : (n : ℕ) (a : Bytes) → IsBits a → IsBits (replicate n 48 ++ a)
IsBits-zeros zero a h = h
IsBits-zeros (suc n) a h = (inl refl, IsBits-zeros n a h)

pub amount-zeros : (n : ℕ) (a : Bytes) → amount (replicate n 48 ++ a) ≡ amount a
amount-zeros zero a = refl
amount-zeros (suc n) a = omega (arith, amount-zeros n a)

-- addBinary of two texts of 0 and 1 of any lengths is such a text, and the number that it writes
-- in binary is the sum of theirs.
pub add_binary-amount :
    (a b : Bytes)
    → IsBits a
    → IsBits b
    → IsBits (add_binary a b) × (amount (add_binary a b) ≡ amount a + amount b)
unfolding add_binary
add_binary-amount a b p q =
    let size : length (padded (length b) a) ≡ length (padded (length a) b) = omega (
      arith,
      length-append (replicate (length b - length a) 48) a,
      length-append (replicate (length a - length b) 48) b,
      length-replicate {A = ℕ} (length b - length a) 48,
      length-replicate {A = ℕ} (length a - length b) 48,
    ) in
    let s =
      add_digits-IsSum (padded (length b) a) (padded (length a) b)
        (IsBits-zeros (length b - length a) a p) (IsBits-zeros (length a - length b) b q) size in
    let same = ap (λ (m : ℕ). 2 ^ m) s.size in
    let left = amount-zeros (length b - length a) a in
    let right = amount-zeros (length a - length b) b in
    elim (Bool-cases (ltb 0 (add_digits (padded (length b) a) (padded (length a) b)).1)) [
      | inl over ↦
          rw over ((inr refl, s.bits), ground (arith, s.total, s.carry, same, left, right, over))
      | inr fits ↦ rw fits (s.bits, ground (arith, s.total, s.carry, left, right, fits))
    ]
