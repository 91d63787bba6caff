-- ===== src/Compression/Huffman/Table.antt =====
-- `generateHuffmanCodes` as a whole.
use tftp.Base.{
  ℕ, zero, suc, ◌-◌, ◌≤◌, ◌<◌, ◌^◌, Bytes, ◌≡◌, ◌≢◌, refl, ap, sym, subst, some, List, [], ◌∷◌,
  ◌++◌, length, replicate, map, All, ◌⊎◌, inl, inr, arith,
}
use tftp.Compression.{CodeTable}
use tftp.Compression.Delimiter.{IsBits}
use tftp.Compression.Characters.Entries.{IsAmong, AreDistinct, Has, IsAscending}
use tftp.Compression.Huffman.{assign_codes, generate_huffman_codes}
use tftp.Compression.Huffman.Arrays.{at, backwards}
use tftp.Compression.Huffman.Backwards.{reverse_vector-backwards}
use tftp.Compression.Huffman.Merging.{weight}
use tftp.Compression.Huffman.Depths.{Fills, IsBetween, code_lengths-Fills}
use tftp.Compression.Huffman.Codes.{AreCodes}
use tftp.Compression.Huffman.Assigned.{assign_codes-AreCodes}
use tftp.Compression.Huffman.Words.{
  Gives, Gives-unique, Gives-All, Gives-prefix, Gives-IsAmong, Gives-first, code_words-AreWords,
}

-- A code table in which a code that another one begins with is that of the same character, each
-- character has one code, and the codes are texts of '0' and '1' of 1 to `deepest` digits.
pub record IsPrefixCode (deepest : ℕ) (t : CodeTable) : Type 0 where
  pub prefix_free : (k j : ℕ) (w rest : Bytes) → Has k w t → Has j (w ++ rest) t → k ≡ j
  pub unique : (k : ℕ) (w v : Bytes) → Has k w t → Has k v t → w ≡ v
  pub bits : (k : ℕ) (w : Bytes) → Has k w t → IsBits w
  pub some_digit : (k : ℕ) (w : Bytes) → Has k w t → 1 ≤ length w
  pub few_digits : (k : ℕ) (w : Bytes) → Has k w t → length w ≤ deepest

-- A list from its end.
backwards-cons : (x : ℕ) (a : List ℕ) (n : ℕ) → backwards (x ∷ a) (suc n) ≡ backwards a n ++ x ∷ []
backwards-cons x a zero = refl
backwards-cons x a (suc n) = ap (◌∷◌ (at a n)) (backwards-cons x a n)

All-snoc {κ} : (P : ℕ → Type κ) (l : List ℕ) (c : ℕ) → All P l → P c → All P (l ++ c ∷ [])
All-snoc P [] c h p = (p, tt)
All-snoc P (x ∷ l) c h p = (h.0, All-snoc P l c h.1 p)

All-backwards {κ} : (P : ℕ → Type κ) (a : List ℕ) → All P a → All P (backwards a (length a))
All-backwards P [] h = tt
All-backwards P (x ∷ a) h =
    subst (λ (l : List ℕ). All P l) (sym (backwards-cons x a (length a)))
      (All-snoc P (backwards a (length a)) x (All-backwards P a h.1) h.0)

AreDistinct-snoc :
    (l : List ℕ) (c : ℕ) → AreDistinct l → All (λ d. d ≢ c) l → AreDistinct (l ++ c ∷ [])
AreDistinct-snoc [] c d h = (tt, tt)
AreDistinct-snoc (x ∷ l) c d h =
    (All-snoc (λ e. e ≢ x) l c d.0 (λ e. h.0 (sym e)), AreDistinct-snoc l c d.1 h.1)

AreDistinct-backwards : (a : List ℕ) → AreDistinct a → AreDistinct (backwards a (length a))
AreDistinct-backwards [] d = tt
AreDistinct-backwards (x ∷ a) d = subst AreDistinct (sym (backwards-cons x a (length a))) (
    AreDistinct-snoc (backwards a (length a)) x (AreDistinct-backwards a d.1)
      (All-backwards (λ e. e ≢ x) a d.0))

IsAmong-snoc : (k : ℕ) (l : List ℕ) (c : ℕ) → (c ≡ k) ⊎ IsAmong k l → IsAmong k (l ++ c ∷ [])
IsAmong-snoc k [] c h = h
IsAmong-snoc k (x ∷ l) c (inl e) = inr (IsAmong-snoc k l c (inl e))
IsAmong-snoc k (x ∷ l) c (inr (inl e)) = inl e
IsAmong-snoc k (x ∷ l) c (inr (inr h)) = inr (IsAmong-snoc k l c (inr h))

IsAmong-backwards : (k : ℕ) (a : List ℕ) → IsAmong k a → IsAmong k (backwards a (length a))
IsAmong-backwards k [] h = h
IsAmong-backwards k (x ∷ a) (inl e) =
    subst (IsAmong k) (sym (backwards-cons x a (length a)))
      (IsAmong-snoc k (backwards a (length a)) x (inl e))
IsAmong-backwards k (x ∷ a) (inr h) =
    subst (IsAmong k) (sym (backwards-cons x a (length a)))
      (IsAmong-snoc k (backwards a (length a)) x (inr (IsAmong-backwards k a h)))

length-backwards : (a : List ℕ) (n : ℕ) → length (backwards a n) ≡ n
length-backwards a zero = refl
length-backwards a (suc n) = ap suc (length-backwards a n)

-- The lengths of codes lie between bounds.
All-lengths :
    (low high : ℕ) (r : List ℕ) (n : ℕ) (cs : List Bytes)
    → IsBetween low high n r
    → map length cs ≡ backwards r n
    → All (λ w. (low ≤ length w) × (length w ≤ high)) cs
All-lengths low high r zero [] b e = tt
All-lengths low high r zero (c ∷ cs) b e = absurd (cc)
All-lengths low high r (suc n) [] b e = absurd (cc)
All-lengths low high r (suc n) (c ∷ cs) b e =
    let head : length c ≡ at r n = cc in
    let rest : map length cs ≡ backwards r n = cc in
    let within = b n (omega arith) in
    (
      (omega (arith, within.0), omega (arith, within.1)),
      All-lengths low high r n cs (λ j h. b j (omega arith)) rest,
    )

length-map : (cs : List Bytes) → length (map length cs) ≡ length cs
length-map [] = refl
length-map (c ∷ cs) = ap suc (length-map cs)

assigned :
    (lens : List ℕ)
    → 0 < length lens
    → Fills 1 2 lens
    → (len : ℕ) × (cs : List Bytes) × (assign_codes lens ≡ some (replicate len 48 ∷ cs))
      × AreCodes lens (replicate len 48 ∷ cs)
assigned [] h t = absurd (omega arith)
assigned (len ∷ lens) h t =
    let (cs, got, codes) = assign_codes-AreCodes len lens t in (len, cs, got, codes)

-- For two different characters or more, of frequencies whose sum is below 2^31,
-- generateHuffmanCodes is defined: it gives each of them a code, a code that another one begins
-- with is that of the same character, each character has one code, each code is a text of 0 and 1
-- of 1 digit at least and fewer digits than there are characters, one code is all 0, and the map
-- ascends.
pub generate_huffman_codes-IsPrefixCode :
    (frequencies chars : List ℕ)
    → 2 ≤ length frequencies
    → length chars ≡ length frequencies
    → weight frequencies 0 (length frequencies) < 2 ^ 31
    → AreDistinct chars
    → All (λ c. c < 256) chars
    → (t : CodeTable) × (generate_huffman_codes frequencies chars ≡ some t)
      × IsPrefixCode (length frequencies - 1) t
      × IsAscending t
      × ((k : ℕ) → IsAmong k chars → (w : Bytes) × Has k w t)
      × ((c : ℕ) × (len : ℕ) × Has c (replicate len 48) t)
unfolding generate_huffman_codes
generate_huffman_codes-IsPrefixCode frequencies chars two same small distinct bytes =
    let (lengths, measured, count, fills, between) = code_lengths-Fills frequencies two small in
    let lens : List ℕ = backwards lengths (length lengths) in
    let by_length : List ℕ = backwards chars (length chars) in
    let size = length-backwards lengths (length lengths) in
    let (len, rest, assigned_codes, codes) = assigned lens (omega (arith, size)) fills in
    let cs : List Bytes = replicate len 48 ∷ rest in
    let fits : length by_length ≡ length cs = omega (
      arith,
      length-backwards chars (length chars),
      size,
      length-map cs,
      ap length codes.lengths,
    ) in
    let (t, got, words) = code_words-AreWords [] by_length cs fits in
    let different = AreDistinct-backwards chars distinct in
    let within =
      All-lengths 1 (length frequencies - 1) lengths (length lengths) cs between codes.lengths in
    let given : (k : ℕ) (w : Bytes) → Has k w t → Gives k w by_length cs =
      λ k w h. elim (words.given k w h) [ inl old ↦ absurd old | inr g ↦ g ] in
    (
      t,
      rw
          (
            measured,
            reverse_vector-backwards lengths (omega arith),
            reverse_vector-backwards chars (omega arith),
            assigned_codes,
          )
          got,
      record {
        prefix_free = λ k j w rest h i.
            Gives-prefix k j w rest by_length cs codes.ordered (given k w h)
              (given j (w ++ rest) i);
        unique = λ k w v h i. Gives-unique k w v by_length cs different (given k w h) (given k v i);
        bits = λ k w h. Gives-All IsBits k w by_length cs codes.bits (given k w h);
        some_digit = λ k w h. (Gives-All _ k w by_length cs within (given k w h)).0;
        few_digits = λ k w h. (Gives-All _ k w by_length cs within (given k w h)).1;
      },
      words.ascending (All-backwards (λ c. c < 256) chars bytes) tt tt,
      λ k among.
          let (w, g) = Gives-IsAmong k by_length cs fits (IsAmong-backwards k chars among) in
          (w, words.found k w different g),
      let some_char : 0 < length by_length = omega (arith, length-backwards chars (length chars)) in
          let (c, g) = Gives-first by_length (replicate len 48) rest some_char in
          (c, len, words.found c (replicate len 48) different g),
    )
