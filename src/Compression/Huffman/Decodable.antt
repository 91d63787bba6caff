-- ===== src/Compression/Huffman/Decodable.antt =====
-- A code table as `generateHuffmanCodes` makes it is one that `inflate` decodes.
use tftp.Base.{
  ℕ, ◌<◌, Bytes, ◌≡◌, ◌≢◌, refl, ap, ◌∙◌, sym, subst, none, some, [], ◌∷◌, ◌++◌, append-nil, length,
  length-append, All, inl, inr, ◌==◌, ==_iff, Bool-cases, Option-cases, arith,
}
use tftp.Base.Names.{same_text, same_text_iff}
use tftp.Compression.{CodeTable, code_of, char_of}
use tftp.Compression.Delimiter.{IsBits, HasCodes}
use tftp.Compression.Decode.{IsDecodable, AllDecodable}
use tftp.Compression.RoundTrip.{HasBits}
use tftp.Compression.Characters.Entries.{Has}
use tftp.Compression.Huffman.Table.{IsPrefixCode}

-- The code found for a character is that of one of its entries.
code_of_entry :
    (c : ℕ) (w : Bytes) (t : CodeTable) → Has c w t → (v : Bytes) × (code_of t c ≡ v) × Has c v t
unfolding code_of
code_of_entry c w [] h = absurd h
code_of_entry c w ((j, v) ∷ t) h = elim (Bool-cases (j == c)) [
  | inl same ↦ (v, rw same, inl ((==_iff j c).0 same, refl))
  | inr other ↦ elim h [
    | inl e ↦ absurd (ground (arith, e.0, other))
    | inr rest ↦ let (u, got, there) = code_of_entry c w t rest in (u, rw other got, inr there)
  ]
]

code_of-Has : (c : ℕ) (w : Bytes) (t : CodeTable) → Has c w t → Has c (code_of t c) t
code_of-Has c w t h =
    let (v, got, there) = code_of_entry c w t h in subst (λ (u : Bytes). Has c u t) (sym got) there

-- So is the character found for a code.
char_of-Has : (w : Bytes) (c : ℕ) (t : CodeTable) → char_of t w ≡ some c → Has c w t
unfolding char_of
char_of-Has w c [] h = absurd (cc)
char_of-Has w c ((j, v) ∷ t) h = elim (Option-cases (char_of t w)) [
  | inl missing ↦ elim (Bool-cases (same_text v w)) [
    | inl same ↦
        let found : some j ≡ some c = rw (char_of, missing, same) at h in
        inl (cc, (same_text_iff v w).0 same)
    | inr other ↦ let nothing : none ≡ some c = rw (char_of, missing, other) at h in absurd (cc)
  ]
  | inr (d, found) ↦
      let e : some d ≡ some c = rw (char_of, found) at h in inr (char_of-Has w c t (found ∙ e))
]

char_of-found : (w : Bytes) (c : ℕ) (t : CodeTable) → Has c w t → (d : ℕ) × (char_of t w ≡ some d)
unfolding char_of
char_of-found w c [] h = absurd h
char_of-found w c ((j, v) ∷ t) h = elim (Option-cases (char_of t w)) [
  | inr (d, found) ↦ (d, rw (char_of, found))
  | inl missing ↦ elim h [
    | inl e ↦ (j, rw (char_of, missing, (same_text_iff v w).1 e.1))
    | inr rest ↦ let (d, found) = char_of-found w c t rest in (d, absurd (cc))
  ]
]

module _ (deepest : ℕ) (t : CodeTable) (p : IsPrefixCode deepest t) where
  pub code_of_unique : (c : ℕ) (w : Bytes) → Has c w t → code_of t c ≡ w
  code_of_unique c w h = p.unique c (code_of t c) w (code_of-Has c w t h) h

  -- Every entry is decodable.
  pub Has-IsDecodable : (c : ℕ) (w : Bytes) → Has c w t → IsDecodable t c
  Has-IsDecodable c w h =
      let code = code_of_unique c w h in
      rw code ((λ e. absurd (omega (arith, p.some_digit c w h, ap length e))), found, early)
    where
      found : char_of t w ≡ some c
      found =
          let (d, e) = char_of-found w c t h in
          let same : d ≡ c = p.prefix_free d c w [] (char_of-Has w d t e) (rw (append-nil w) h) in
          e ∙ ap some same

      early : (front back : Bytes) → front ++ back ≡ w → back ≢ [] → char_of t front ≡ none
      early front back e more = elim (Option-cases (char_of t front)) [
        | inl missing ↦ missing
        | inr (d, hit) ↦
            let there = char_of-Has front d t hit in
            let whole : Has c (front ++ back) t = rw e h in
            let same : d ≡ c = p.prefix_free d c front back there whole in
            let equal : front ≡ front ++ back =
              p.unique c front (front ++ back) (subst (λ (i : ℕ). Has i front t) same there)
                whole in
            absurd
              (more (none_left back (omega (arith, ap length equal, length-append front back))))
      ]
        where
          none_left : (back : Bytes) → length back ≡ 0 → back ≡ []
          none_left [] z = refl
          none_left (x ∷ back) z = absurd (omega arith)

  -- A text of characters of the table.
  pub All-IsDecodable :
      (text : Bytes)
      → All (λ c. (w : Bytes) × Has c w t) text
      → AllDecodable t text × HasBits t text
  All-IsDecodable [] h = (tt, tt)
  All-IsDecodable (c ∷ text) h =
      let rest = All-IsDecodable text h.1 in
      let decodable = Has-IsDecodable c h.0.0 h.0.1 in
      let bits : IsBits (code_of t c) = p.bits c (code_of t c) (code_of-Has c h.0.0 t h.0.1) in
      ((decodable, rest.0), (bits, rest.1))

-- Codes that are short enough for the delimiter.
HasCodes-Has :
    (t : CodeTable) → ((k : ℕ) (w : Bytes) → Has k w t → IsBits w × (length w < 0xfe)) → HasCodes t
HasCodes-Has [] h = tt
HasCodes-Has ((k, w) ∷ t) h =
    let first = h k w (inl (refl, refl)) in
    (first.0, first.1, HasCodes-Has t (λ j v i. h j v (inr i)))

pub IsPrefixCode-HasCodes :
    (deepest : ℕ) (t : CodeTable) → deepest < 0xfe → IsPrefixCode deepest t → HasCodes t
IsPrefixCode-HasCodes deepest t short p =
    HasCodes-Has t (λ k w h. (p.bits k w h, omega (arith, p.few_digits k w h)))
