-- ===== src/Compression/Huffman/Order.antt =====
-- The order of codes: one code comes before another where they first differ, and then neither is a
-- prefix of the other.
use native.Mathlib.Numerals.{unary_clauses}
use tftp.Base.{
  ℕ, zero, suc, ◌+◌, ◌-◌, ◌^◌, ◌≤◌, ◌<◌, Bytes, ◌≡◌, refl, ap, Bool, true, false, [], ◌∷◌, ◌++◌,
  length, replicate, ltb, ◌==◌, if◌then◌else◌, arith,
}
use tftp.Compression.Delimiter.{IsBits}
use tftp.Compression.Huffman.{add_digits, padded, add_binary}
use tftp.Compression.Huffman.Binary.{amount}

-- The texts differ, and the first is smaller there.
abbrev pub comes_before : Bytes → Bytes → Bool
comes_before [] b = false
comes_before (x ∷ a) [] = false
comes_before (x ∷ a) (y ∷ b) = let rest = comes_before a b in if x == y then rest else ltb x y

-- So it is, or the second begins with the first.
abbrev pub reaches : Bytes → Bytes → Bool
reaches [] b = true
reaches (x ∷ a) [] = false
reaches (x ∷ a) (y ∷ b) = let rest = reaches a b in if x == y then rest else ltb x y

pub comes_before-reaches :
    (a b c : Bytes) → comes_before a b ≡ true → reaches b c ≡ true → comes_before a c ≡ true
comes_before-reaches [] b c p q = absurd (ground arith)
comes_before-reaches (x ∷ a) [] c p q = absurd (ground arith)
comes_before-reaches (x ∷ a) (y ∷ b) [] p q = absurd (ground arith)
comes_before-reaches (x ∷ a) (y ∷ b) (z ∷ c) p q = ground (arith, comes_before-reaches a b c)

pub reaches_before : (a b : Bytes) → comes_before a b ≡ true → reaches a b ≡ true
reaches_before [] b p = refl
reaches_before (x ∷ a) [] p = absurd (ground arith)
reaches_before (x ∷ a) (y ∷ b) p = ground (arith, reaches_before a b)

pub reaches_self : (a b : Bytes) → reaches a (a ++ b) ≡ true
reaches_self [] b = refl
reaches_self (x ∷ a) b = ground (arith, reaches_self a b)

-- What an extension reaches, the text does.
pub reaches_front : (a b c : Bytes) → reaches (a ++ b) c ≡ true → reaches a c ≡ true
reaches_front [] b c p = refl
reaches_front (x ∷ a) b [] p = absurd (ground arith)
reaches_front (x ∷ a) b (y ∷ c) p = ground (arith, reaches_front a b c)

pub comes_before-extend : (a b c : Bytes) → comes_before a b ≡ true → comes_before a (b ++ c) ≡ true
comes_before-extend [] b c p = absurd (ground arith)
comes_before-extend (x ∷ a) [] c p = absurd (ground arith)
comes_before-extend (x ∷ a) (y ∷ b) c p = ground (arith, comes_before-extend a b c)

pub not_before_extension : (a b : Bytes) → comes_before a (a ++ b) ≡ false
not_before_extension [] b = refl
not_before_extension (x ∷ a) b = ground (arith, not_before_extension a b)

pub not_extension_before : (a b : Bytes) → comes_before (a ++ b) a ≡ false
not_extension_before [] [] = refl
not_extension_before [] (x ∷ b) = refl
not_extension_before (x ∷ a) b = ground (arith, not_extension_before a b)

-- "1" with leading '0'.
abbrev one : ℕ → Bytes
one n = replicate n 48 ++ 49 ∷ []

-- The digits of a text plus 1.
record IsNext (a : Bytes) (r : Bytes × ℕ) : Type 0 where
  size : length r.0 ≡ length a
  bits : IsBits r.0
  carry : r.1 ≤ 1
  total : amount r.0 + (if r.1 == 1 then 2 ^ length a else 0) ≡ amount a + 1
  later : r.1 ≡ 0 → comes_before a r.0 ≡ true

add_digits-IsNext :
    (n : ℕ) (a : Bytes) → IsBits a → length a ≡ suc n → IsNext a (add_digits a (one n))
unfolding add_digits
add_digits-IsNext n [] p h = absurd (omega arith)
add_digits-IsNext zero (x ∷ []) p h = record {
  size = refl;
  bits = (ground (arith, p.0), tt);
  carry = ground (arith, p.0);
  total = ground (arith, p.0);
  later = λ e. ground (arith, p.0);
}
add_digits-IsNext zero (x ∷ y ∷ a) p h = absurd (omega arith)
add_digits-IsNext (suc n) (x ∷ a) p h =
    let s = add_digits-IsNext n a p.1 (omega arith) in
    let e = ap (λ (m : ℕ). 2 ^ m) s.size in
    record {
      size = ap suc s.size;
      bits = (ground (arith, p.0, s.carry), s.bits);
      carry = ground (arith, p.0, s.carry);
      total = simp unary_clauses (ground (arith, p.0, s.carry, s.total, e));
      later = λ z. ground (arith, p.0, s.carry, s.later);
    }

pub amount-lt : (a : Bytes) → amount a < 2 ^ length a
amount-lt [] = omega arith
amount-lt (x ∷ a) = let rest = amount-lt a in simp unary_clauses (ground arith)

-- A code that is not the last of its length, plus 1.
pub record IsSuccessor (a b : Bytes) : Type 0 where
  pub size : length b ≡ length a
  pub bits : IsBits b
  pub total : amount b ≡ amount a + 1
  pub later : comes_before a b ≡ true

pub add_binary-IsSuccessor :
    (n : ℕ) (a : Bytes)
    → IsBits a
    → length a ≡ suc n
    → amount a + 1 < 2 ^ length a
    → IsSuccessor a (add_binary a (49 ∷ []))
unfolding add_binary
add_binary-IsSuccessor n a p h small =
    let none_missing : 1 - length a ≡ 0 = omega arith in
    let missing : length a - 1 ≡ n = omega arith in
    let first : padded 1 a ≡ a = rw none_missing in
    let second : padded (length a) (49 ∷ []) ≡ one n = rw missing in
    let s = add_digits-IsNext n a p h in
    let no_carry : (add_digits a (one n)).1 ≡ 0 = ground (arith, s.carry, s.total, small) in
    rw (first, second, no_carry)
      (record {
        size = s.size;
        bits = s.bits;
        total = ground (arith, s.total, no_carry);
        later = s.later no_carry;
      })
