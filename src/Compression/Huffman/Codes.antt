-- ===== src/Compression/Huffman/Codes.antt =====
-- The codes that `generateHuffmanCodes` gives to lengths that fill a binary tree.
use native.Mathlib.Numerals.{unary_clauses}
use tftp.Base.{
  ℕ, suc, ◌-◌, ◌*◌, ◌^◌, ◌≤◌, Bytes, ◌≡◌, refl, ap, true, List, [], ◌∷◌, ◌++◌, append_assoc, map,
  length, length-append, replicate, All, inl, arith,
}
use tftp.Compression.Delimiter.{IsBits}
use tftp.Compression.Huffman.{add_binary, next_code, next_codes}
use tftp.Compression.Huffman.Binary.{amount}
use tftp.Compression.Huffman.Depths.{Fills}
use tftp.Compression.Huffman.Order.{
  comes_before, reaches, comes_before-reaches, reaches_before, reaches_front,
}

-- Each code comes before all that follow it.
abbrev pub IsOrdered : List Bytes → Type 0
IsOrdered [] = Unit {0}
IsOrdered (c ∷ cs) = All (λ b. comes_before c b ≡ true) cs × IsOrdered cs

-- The codes from a first one on, before it is filled up with '0'.
abbrev pub codes_from : Bytes → List ℕ → List Bytes
codes_from a [] = []
codes_from a (len ∷ lens) = let c = a ++ replicate (len - length a) 48 in c ∷ next_codes c lens

pub next_codes-codes_from :
    (c : Bytes) (lens : List ℕ) → next_codes c lens ≡ codes_from (add_binary c (49 ∷ [])) lens
unfolding next_codes next_code
next_codes-codes_from c [] = refl
next_codes-codes_from c (len ∷ lens) = refl

-- What the codes have.
pub record AreCodes (lens : List ℕ) (cs : List Bytes) : Type 0 where
  pub ordered : IsOrdered cs
  pub bits : All IsBits cs
  pub lengths : map length cs ≡ lens

pub All-comes_before :
    (a b : Bytes) (cs : List Bytes)
    → comes_before a b ≡ true
    → All (λ c. reaches b c ≡ true) cs
    → All (λ c. comes_before a c ≡ true) cs
All-comes_before a b [] p h = tt
All-comes_before a b (c ∷ cs) p h =
    (comes_before-reaches a b c p h.0, All-comes_before a b cs p h.1)

pub All-reaches_before :
    (a : Bytes) (cs : List Bytes)
    → All (λ c. comes_before a c ≡ true) cs
    → All (λ c. reaches a c ≡ true) cs
All-reaches_before a [] h = tt
All-reaches_before a (c ∷ cs) h = (reaches_before a c h.0, All-reaches_before a cs h.1)

pub All-reaches_front :
    (a b : Bytes) (cs : List Bytes)
    → All (λ c. reaches (a ++ b) c ≡ true) cs
    → All (λ c. reaches a c ≡ true) cs
All-reaches_front a b [] h = tt
All-reaches_front a b (c ∷ cs) h = (reaches_front a b c h.0, All-reaches_front a b cs h.1)

pub Fills-none : {depth free : ℕ} {lens : List ℕ} → Fills depth free lens → free ≡ 0 → lens ≡ []
Fills-none (Fills.used_up depth) e = refl
Fills-none (Fills.leaf t) e = absurd (omega arith)
Fills-none (Fills.deeper double t) e = Fills-none t (omega arith)

pub Fills-least :
    {depth free len : ℕ} {rest lens : List ℕ}
    → Fills depth free lens
    → lens ≡ len ∷ rest
    → depth ≤ len
Fills-least (Fills.used_up depth) e = absurd (cc)
Fills-least (Fills.leaf {depth} t) e = ground (arith, e)
Fills-least (Fills.deeper double t) e = omega (arith, Fills-least t e)

-- One '0' more doubles the number.
pub amount-double : (a : Bytes) → amount (a ++ 48 ∷ []) ≡ 2 * amount a
amount-double [] = refl
amount-double (x ∷ a) =
    let rest = amount-double a in
    let size : length (a ++ 48 ∷ []) ≡ suc (length a) = omega (arith, length-append a (48 ∷ [])) in
    let power = ap (λ (m : ℕ). 2 ^ m) size in
    let power' = simp unary_clauses at power in ground (arith, rest, power')

pub IsBits-zero : (a : Bytes) → IsBits a → IsBits (a ++ 48 ∷ [])
IsBits-zero [] h = (inl refl, tt)
IsBits-zero (x ∷ a) h = (h.0, IsBits-zero a h.1)

-- The same codes from a first one with a '0' more, if the first length has room for it.
pub codes_from-zero :
    {free : ℕ} (a : Bytes) (lens : List ℕ)
    → Fills (suc (length a)) free lens
    → codes_from (a ++ 48 ∷ []) lens ≡ codes_from a lens
codes_from-zero a [] t = refl
codes_from-zero a (len ∷ lens) t =
    let size : length (a ++ 48 ∷ []) ≡ suc (length a) = omega (arith, length-append a (48 ∷ [])) in
    let room : len - length a ≡ suc (len - length (a ++ 48 ∷ [])) =
      omega (arith, Fills-least t refl, size) in
    rw (room, append_assoc a (48 ∷ []) (replicate (len - length (a ++ 48 ∷ [])) 48))
