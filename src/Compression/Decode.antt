-- ===== src/Compression/Decode.antt =====
-- `inflate` on the bits of a text.
use tftp.Base.{ℕ, Bytes, ◌≡◌, ◌≢◌, refl, ap, ◌∙◌, some, none, [], ◌∷◌, ◌++◌, append_assoc}
use tftp.Compression.{CodeTable, code_of, code_bits, char_of, inflate}

-- A character whose code is found for it, and no text before its end for any.
abbrev pub IsDecodable : CodeTable → ℕ → Type 0
IsDecodable table c =
    (code_of table c ≢ [])
    × (char_of table (code_of table c) ≡ some c)
    × ((front back : Bytes)
        → front ++ back ≡ code_of table c
        → back ≢ []
        → char_of table front ≡ none)

abbrev pub AllDecodable : CodeTable → Bytes → Type 0
AllDecodable table [] = Unit {0}
AllDecodable table (c ∷ text) = IsDecodable table c × AllDecodable table text

pub inflate_found :
    (table : CodeTable) (current bits : Bytes) (k c : ℕ)
    → char_of table (current ++ k ∷ []) ≡ some c
    → inflate table current (k ∷ bits) ≡ c ∷ inflate table [] bits
unfolding inflate
inflate_found table current bits k c h = rw (inflate, h)

pub inflate_more :
    (table : CodeTable) (current bits : Bytes) (k : ℕ)
    → char_of table (current ++ k ∷ []) ≡ none
    → inflate table current (k ∷ bits) ≡ inflate table (current ++ k ∷ []) bits
unfolding inflate
inflate_more table current bits k h = rw (inflate, h)

-- The rest of a code, behind what is read of it.
pub inflate-code :
    (table : CodeTable) (c : ℕ) (current code rest : Bytes)
    → IsDecodable table c
    → current ++ code ≡ code_of table c
    → code ≢ []
    → inflate table current (code ++ rest) ≡ c ∷ inflate table [] rest
inflate-code table c current [] rest d e some_left = absurd (some_left refl)
inflate-code table c current (k ∷ []) rest d e some_left =
    inflate_found table current rest k c (ap (char_of table) e ∙ d.1)
inflate-code table c current (k ∷ l ∷ code) rest d e some_left =
    let grouped = append_assoc current (k ∷ []) (l ∷ code) ∙ e in
    inflate_more table current (l ∷ (code ++ rest)) k
      (d.2 (current ++ k ∷ []) (l ∷ code) grouped (λ h. cc h))
    ∙ inflate-code table c (current ++ k ∷ []) (l ∷ code) rest d grouped (λ h. cc h)

pub inflate-code_bits :
    (table : CodeTable) (text rest : Bytes)
    → AllDecodable table text
    → inflate table [] (code_bits table text ++ rest) ≡ text ++ inflate table [] rest
unfolding code_bits
inflate-code_bits table [] rest h = refl
inflate-code_bits table (c ∷ text) rest h =
    rw (append_assoc (code_of table c) (code_bits table text) rest) (
      inflate-code table c [] (code_of table c) (code_bits table text ++ rest) h.0 refl h.0.0
      ∙ ap (◌∷◌ c) (inflate-code_bits table text rest h.1))
