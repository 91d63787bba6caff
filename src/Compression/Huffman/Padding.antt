-- ===== src/Compression/Huffman/Padding.antt =====
-- What `inflate` makes of the '0' that fill up the last byte.
use tftp.Base.{
  ℕ, zero, suc, ◌+◌, ◌-◌, ◌*◌, ◌/◌, ◌%◌, ◌<◌, Bytes, ◌≡◌, ◌≢◌, refl, ap, ◌∙◌, sym, none, [], ◌∷◌,
  ◌++◌, length, length-replicate, replicate, arith,
}
use tftp.Compression.{CodeTable, char_of, inflate, code_of}
use tftp.Compression.Decode.{inflate_more, inflate-code}
use tftp.Compression.Characters.Entries.{Has}
use tftp.Compression.Huffman.Table.{IsPrefixCode}
use tftp.Compression.Huffman.Decodable.{Has-IsDecodable, code_of_unique}

replicate-append : (m n : ℕ) → replicate {A = ℕ} m 48 ++ replicate n 48 ≡ replicate (m + n) 48
replicate-append zero n = ap (λ (k : ℕ). replicate {A = ℕ} k 48) (omega arith)
replicate-append (suc m) n =
    let rest = replicate-append m n in
    ap (◌∷◌ 48) rest
    ∙ ap (λ (k : ℕ). replicate {A = ℕ} k 48) (let e : suc (m + n) ≡ suc m + n = omega arith in e)

module _ (deepest : ℕ) (t : CodeTable) (p : IsPrefixCode deepest t) (c len : ℕ)
    (h : Has c (replicate len 48) t) where
  -- Fewer '0' than the code has decode to nothing.
  few_zeros :
      (read left : ℕ) → read + left < len → inflate t (replicate read 48) (replicate left 48) ≡ []
  unfolding inflate
  few_zeros read zero short = refl
  few_zeros read (suc left) short =
      let code = code_of_unique deepest t p c (replicate len 48) h in
      let next = replicate-append read 1 in
      let behind : replicate {A = ℕ} (read + 1) 48 ++ replicate (len - (read + 1)) 48
          ≡ code_of t c =
        replicate-append (read + 1) (len - (read + 1))
        ∙ ap (λ (k : ℕ). replicate {A = ℕ} k 48)
            (let e : read + 1 + (len - (read + 1)) ≡ len = omega arith in e)
        ∙ sym code in
      let some_left : replicate {A = ℕ} (len - (read + 1)) 48 ≢ [] =
        λ e. absurd (omega (arith, ap length e, length-replicate {A = ℕ} (len - (read + 1)) 48)) in
      let missing : char_of t (replicate read 48 ++ 48 ∷ []) ≡ none =
        ap (char_of t) next
        ∙ (Has-IsDecodable deepest t p c (replicate len 48) h).2 (replicate (read + 1) 48)
            (replicate (len - (read + 1)) 48) behind some_left in
      inflate_more t (replicate read 48) (replicate left 48) 48 missing
      ∙ ap (λ (current : Bytes). inflate t current (replicate left 48)) next
      ∙ few_zeros (read + 1) left (omega arith)

  -- As often as the code fits, its character is decoded.
  zeros_rounds :
      (rounds left : ℕ)
      → left < len
      → inflate t [] (replicate (rounds * len + left) 48) ≡ replicate rounds c
  zeros_rounds zero left short =
      ap (λ (k : ℕ). inflate t [] (replicate k 48))
        (let e : 0 * len + left ≡ left = omega arith in e)
      ∙ few_zeros 0 left (omega arith)
  zeros_rounds (suc rounds) left short =
      let code = code_of_unique deepest t p c (replicate len 48) h in
      let more : replicate {A = ℕ} len 48 ≢ [] =
        λ e. absurd (omega (arith, ap length e, length-replicate {A = ℕ} len 48)) in
      let e : suc rounds * len + left ≡ len + (rounds * len + left) = grind arith in
      ap (λ (k : ℕ). inflate t [] (replicate k 48)) e
      ∙ ap (inflate t []) (sym (replicate-append len (rounds * len + left)))
      ∙ inflate-code t c [] (replicate len 48) (replicate (rounds * len + left) 48)
          (Has-IsDecodable deepest t p c (replicate len 48) h) (sym code) more
      ∙ ap (◌∷◌ c) (zeros_rounds rounds left short)

  pub inflate-zeros : (pad : ℕ) → inflate t [] (replicate pad 48) ≡ replicate (pad / len) c
  inflate-zeros pad =
      let positive : 0 < len =
        omega (arith, p.some_digit c (replicate len 48) h, length-replicate {A = ℕ} len 48) in
      let e : pad ≡ pad / len * len + pad % len = grind arith in
      let small : pad % len < len = grind arith in
      ap (λ (k : ℕ). inflate t [] (replicate k 48)) e ∙ zeros_rounds (pad / len) (pad % len) small
