-- ===== src/Compression/Huffman/Assigned.antt =====
-- The codes of `generateHuffmanCodes` have the lengths asked for, and none is a prefix of another.
use native.Mathlib.Numerals.{unary_clauses}
use tftp.Base.{
  ℕ, suc, ◌+◌, ◌-◌, ◌*◌, ◌^◌, ◌≤◌, ◌<◌, Bytes, ◌≡◌, refl, ap, ◌∙◌, subst, true, List, [], ◌∷◌, ◌++◌,
  append-nil, length, length-append, replicate, All, some, ltb, inl, inr, Bool-cases, ltb→lt, arith,
}
use tftp.Compression.Delimiter.{IsBits}
use tftp.Compression.Huffman.{add_binary, next_codes, assign_codes}
use tftp.Compression.Huffman.Binary.{amount}
use tftp.Compression.Huffman.Depths.{Fills}
use tftp.Compression.Huffman.Order.{comes_before, reaches, reaches_self, add_binary-IsSuccessor}
use tftp.Compression.Huffman.Codes.{
  AreCodes, codes_from, next_codes-codes_from, All-comes_before, All-reaches_before,
  All-reaches_front, Fills-none, Fills-least, amount-double, IsBits-zero, codes_from-zero,
}

-- The codes from a first one on, all of which it reaches.
record AreReached (a : Bytes) (lens : List ℕ) (cs : List Bytes) : Type 0 where
  codes : AreCodes lens cs
  reached : All (λ c. reaches a c ≡ true) cs

-- A first code, on a level with free nodes behind it.
record IsFirst (depth free : ℕ) (a : Bytes) : Type 0 where
  size : length a ≡ depth
  bits : IsBits a
  room : amount a + free ≡ 2 ^ depth
  positive : 0 < depth

AreReached-none : (a : Bytes) → AreReached a [] []
AreReached-none a = record {
  codes = record { ordered = tt; bits = tt; lengths = refl };
  reached = tt;
}

-- A leaf takes the code, and the rest is reached from the next one.
AreReached-leaf :
    (depth : ℕ) (a b : Bytes) (lens : List ℕ) (cs : List Bytes)
    → IsBits a
    → length a ≡ depth
    → comes_before a b ≡ true
    → AreReached b lens cs
    → AreReached a (depth ∷ lens) (a ∷ cs)
AreReached-leaf depth a b lens cs bits size later r =
    let behind = All-comes_before a b cs later r.reached in
    let self : reaches a a ≡ true = rw (append-nil a) at (reaches_self a []) in
    record {
      codes = record {
        ordered = (behind, r.codes.ordered);
        bits = (bits, r.codes.bits);
        lengths = let rest = r.codes.lengths in cc;
      };
      reached = (self, All-reaches_before a cs behind);
    }

AreReached-last :
    (depth : ℕ) (a : Bytes) → IsBits a → length a ≡ depth → AreReached a (depth ∷ []) (a ∷ [])
AreReached-last depth a bits size =
    let self : reaches a a ≡ true = rw (append-nil a) at (reaches_self a []) in
    record {
      codes = record {
        ordered = (tt, tt);
        bits = (bits, tt);
        lengths = ap (λ (m : ℕ). m ∷ []) size;
      };
      reached = (self, tt);
    }

IsFirst-double :
    (depth free twice : ℕ) (a : Bytes)
    → twice ≡ 2 * free
    → IsFirst depth free a
    → IsFirst (suc depth) twice (a ++ 48 ∷ [])
IsFirst-double depth free twice a e f = record {
  size = omega (arith, length-append a (48 ∷ []), f.size);
  bits = IsBits-zero a f.bits;
  room = simp unary_clauses (omega (arith, amount-double a, f.room));
  positive = omega arith;
}

IsFirst-next :
    (depth free : ℕ) (a : Bytes)
    → 0 < free
    → IsFirst depth (suc free) a
    → IsFirst depth free (add_binary a (49 ∷ [])) × (comes_before a (add_binary a (49 ∷ [])) ≡ true)
IsFirst-next depth free a more f =
    let power = ap (λ (m : ℕ). 2 ^ m) f.size in
    let s =
      add_binary-IsSuccessor (depth - 1) a f.bits (omega (arith, f.size, f.positive))
        (omega (arith, f.room, power)) in
    (
      record {
        size = s.size ∙ f.size;
        bits = s.bits;
        room = omega (arith, f.room, s.total);
        positive = f.positive;
      },
      s.later,
    )

codes_from-leaf :
    (depth : ℕ) (a : Bytes) (lens : List ℕ)
    → length a ≡ depth
    → codes_from a (depth ∷ lens) ≡ a ∷ codes_from (add_binary a (49 ∷ [])) lens
codes_from-leaf depth a lens size =
    let e : depth - length a ≡ 0 = omega arith in
    rw (e, append-nil a) (ap (λ (cs : List Bytes). a ∷ cs) (next_codes-codes_from a lens))

codes_from-AreReached :
    {depth free : ℕ} {lens : List ℕ} (a : Bytes)
    → Fills depth free lens
    → IsFirst depth free a
    → AreReached a lens (codes_from a lens)
codes_from-AreReached a (Fills.used_up depth) f = AreReached-none a
codes_from-AreReached a (Fills.leaf {depth} {free} {lens} t) f =
    rw (codes_from-leaf depth a lens f.size) (elim (Bool-cases (ltb 0 free)) [
      | inl more ↦
          let (next, later) = IsFirst-next depth free a (ltb→lt 0 free more) f in
          AreReached-leaf depth a (add_binary a (49 ∷ [])) lens _ f.bits f.size later
            (codes_from-AreReached (add_binary a (49 ∷ [])) t next)
      | inr last ↦ rw (Fills-none t (ground arith)) (AreReached-last depth a f.bits f.size)
    ])
codes_from-AreReached a (Fills.deeper {depth} {free} {twice} {lens} double t) f =
    let next =
      codes_from-AreReached (a ++ 48 ∷ []) t (IsFirst-double depth free twice a double f) in
    let deep : Fills (suc (length a)) twice lens = rw (f.size) t in
    let same = codes_from-zero a lens deep in
    let r = rw same at next in
    record { codes = r.codes; reached = All-reaches_front a (48 ∷ []) _ r.reached }

pub assign_codes-AreCodes :
    (len : ℕ) (lens : List ℕ)
    → Fills 1 2 (len ∷ lens)
    → (cs : List Bytes) × (assign_codes (len ∷ lens) ≡ some (replicate len 48 ∷ cs))
      × AreCodes (len ∷ lens) (replicate len 48 ∷ cs)
unfolding assign_codes
assign_codes-AreCodes len lens t =
    let r =
      codes_from-AreReached (48 ∷ []) t (record {
        size = refl;
        bits = (inl refl, tt);
        room = omega arith;
        positive = omega arith;
      }) in
    let least : 1 ≤ len = Fills-least t refl in
    let e : suc (len - 1) ≡ len = omega arith in
    let first = ap (λ (m : ℕ). replicate {A = ℕ} m 48) e in
    (
      next_codes (replicate len 48) lens,
      refl,
      subst (λ (code : Bytes). AreCodes (len ∷ lens) (code ∷ next_codes code lens)) first r.codes,
    )
