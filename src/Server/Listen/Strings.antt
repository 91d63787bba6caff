-- ===== src/Server/Listen/Strings.antt =====
-- The strings that `TFTPServer::start` reads out of its buffer.
use tftp.Base.{
  ℕ, zero, suc, ◌+◌, ◌-◌, ◌≤◌, ◌<◌, Bytes, ◌≡◌, refl, ap, ◌∙◌, some, [], ◌∷◌, ◌++◌, length, drop,
  replicate, length-drop, length-replicate, take_all, arith,
}
use tftp.Packet.Store.{NulFree}
use tftp.Wire.{c_string, received}

pub c_string-append : (text rest : Bytes) → NulFree text → c_string (text ++ 0 ∷ rest) ≡ some text
unfolding c_string
c_string-append [] rest h = refl
c_string-append (c ∷ text) rest h = ground (arith, c_string-append text rest h.1)

-- The string that starts at a place with zeros behind it.
abbrev pub Within : Bytes → ℕ → Type 0
Within buffer bound = (text : Bytes) × (c_string buffer ≡ some text) × (length text ≤ bound)

Within-cons :
    (c : ℕ) (buffer : Bytes) (bound : ℕ) → Within buffer bound → Within (c ∷ buffer) (suc bound)
unfolding c_string
Within-cons zero buffer bound h = ([], refl, omega arith)
Within-cons (suc c) buffer bound (text, e, short) = (suc c ∷ text, rw e (ground arith), omega arith)

pub c_string-zeros : (xs : Bytes) (n : ℕ) → 0 < n → Within (xs ++ replicate n 0) (length xs)
unfolding c_string
c_string-zeros [] zero h = absurd (omega arith)
c_string-zeros [] (suc n) h = ([], refl, omega arith)
c_string-zeros (x ∷ xs) n h =
    Within-cons x (xs ++ replicate n 0) (length xs) (c_string-zeros xs n h)

drop-replicate : (i n : ℕ) → drop i (replicate {A = ℕ} n 0) ≡ replicate (n - i) 0
drop-replicate zero n = let e : n ≡ n - 0 = omega arith in ap (λ (k : ℕ). replicate k 0) e
drop-replicate (suc i) zero = let e : 0 ≡ 0 - suc i = omega arith in ap (λ (k : ℕ). replicate k 0) e
drop-replicate (suc i) (suc n) =
    let e : n - i ≡ suc n - suc i = omega arith in
    drop-replicate i n ∙ ap (λ (k : ℕ). replicate k 0) e

drop-append : (i : ℕ) (xs ys : Bytes) → drop i (xs ++ ys) ≡ drop i xs ++ drop (i - length xs) ys
drop-append zero xs ys =
    let e : 0 ≡ 0 - length xs = omega arith in ap (λ (k : ℕ). xs ++ drop k ys) e
drop-append (suc i) [] ys = let e : suc i ≡ suc i - 0 = omega arith in ap (λ (k : ℕ). drop k ys) e
drop-append (suc i) (x ∷ xs) ys =
    let e : i - length xs ≡ suc i - suc (length xs) = omega arith in
    drop-append i xs ys ∙ ap (λ (k : ℕ). drop i xs ++ drop k ys) e

-- A datagram in a buffer of zeros that has room for it.
pub received_zeros :
    (size : ℕ) (payload : Bytes)
    → length payload ≤ size
    → received (replicate size 0) payload ≡ payload ++ replicate (size - length payload) 0
received_zeros size payload h =
    rw (
      length-replicate {A = ℕ} size 0,
      take_all size payload h,
      drop-replicate (length payload) size,
    )

-- Any place before the last zero starts a string, which ends before the zeros do.
pub c_string-drop :
    (i : ℕ) (xs : Bytes) (n : ℕ)
    → i < length xs + n
    → 0 < n
    → Within (drop i (xs ++ replicate n 0)) (length xs - i)
c_string-drop i xs n h some_zero =
    rw (drop-append i xs (replicate n 0), drop-replicate (i - length xs) n)
      (rw (length-drop i xs) at (c_string-zeros (drop i xs) (n - (i - length xs)) (omega arith)))
