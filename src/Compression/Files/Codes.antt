-- ===== src/Compression/Files/Codes.antt =====
-- The code table that `deflate` makes for a text.
use tftp.Base.{
  ℕ, zero, suc, ◌+◌, ◌-◌, ◌≤◌, ◌<◌, ◌^◌, Bytes, ◌≡◌, ◌≢◌, refl, ap, ◌∙◌, sym, subst, some, List, [],
  ◌∷◌, length, replicate, All, inl, inr, arith,
}
use tftp.Base.StdMap.{StdMap}
use tftp.Compression.{CodeTable}
use tftp.Compression.Characters.{count_chars, by_frequency, frequencies, characters}
use tftp.Compression.Characters.Entries.{IsAmong, Has, IsAscending}
use tftp.Compression.Characters.Counts.{count_chars-AreCounted}
use tftp.Compression.Characters.Sorted.{
  sum, sum-by_frequency, All-by_frequency, AreDistinct-by_frequency, IsAmong-by_frequency,
}
use tftp.Compression.Huffman.Merging.{weight}
use tftp.Compression.Huffman.Arrays.{at}
use tftp.Compression.Huffman.Table.{IsPrefixCode, generate_huffman_codes-IsPrefixCode}
use tftp.Compression.Files.{char_with_huffman_codes}

-- The characters and frequencies of a text, in order.
abbrev pub sorted_of : Bytes → List (ℕ × ℕ)
sorted_of text = by_frequency [] (count_chars [] text)

-- The different characters of a text.
abbrev pub characters_of : Bytes → List ℕ
characters_of text = characters (sorted_of text)

weight-cons : (x : ℕ) (a : List ℕ) (i n : ℕ) → weight (x ∷ a) (suc i) n ≡ weight a i n
weight-cons x a i zero = refl
weight-cons x a i (suc n) = ap (λ (m : ℕ). at a i + m) (weight-cons x a (suc i) n)

weight-frequencies :
    (sorted : List (ℕ × ℕ))
    → weight (frequencies sorted) 0 (length (frequencies sorted)) ≡ sum sorted
unfolding frequencies
weight-frequencies [] = refl
weight-frequencies ((f, c) ∷ sorted) =
    let rest = weight-frequencies sorted in
    omega (arith, rest, weight-cons f (frequencies sorted) 0 (length (frequencies sorted)))

length-frequencies :
    (sorted : List (ℕ × ℕ)) → length (characters sorted) ≡ length (frequencies sorted)
unfolding frequencies characters
length-frequencies [] = refl
length-frequencies (e ∷ sorted) = ap suc (length-frequencies sorted)

two_among : (a b : ℕ) (l : List ℕ) → IsAmong a l → IsAmong b l → a ≢ b → 2 ≤ length l
two_among a b [] h k d = absurd h
two_among a b (x ∷ []) (inl h) (inl k) d = absurd (d (sym h ∙ k))
two_among a b (x ∷ []) (inl h) (inr k) d = absurd k
two_among a b (x ∷ []) (inr h) k d = absurd h
two_among a b (x ∷ y ∷ l) h k d = omega arith

All-of_IsAmong {κ} : (P : ℕ → Type κ) (text : Bytes) → ((k : ℕ) → IsAmong k text → P k) → All P text
All-of_IsAmong P [] h = tt
All-of_IsAmong P (c ∷ text) h = (h c (inl refl), All-of_IsAmong P text (λ k i. h k (inr i)))

All-units : (m : StdMap ℕ ℕ) → All (λ e. Unit {0}) m
All-units [] = tt
All-units (e ∷ m) = (tt, All-units m)

-- For a text of bytes of fewer than 2^31 characters, two of them different: deflate makes a code
-- table that gives each of its characters a code, of fewer digits than there are different ones; no
-- code is a prefix of another character's, one code is all 0, and the map ascends.
pub char_with_huffman_codes-IsPrefixCode :
    (a b : ℕ) (text : Bytes)
    → IsAmong a text
    → IsAmong b text
    → a ≢ b
    → All (λ c. c < 256) text
    → length text < 2 ^ 31
    → (t : CodeTable) × (char_with_huffman_codes text ≡ some t)
      × IsPrefixCode (length (characters_of text) - 1) t
      × IsAscending t
      × All (λ c. (w : Bytes) × Has c w t) text
      × ((c : ℕ) × (len : ℕ) × Has c (replicate len 48) t)
unfolding char_with_huffman_codes characters
char_with_huffman_codes-IsPrefixCode a b text ha hb differ bytes short =
    let m = count_chars [] text in
    let counted = count_chars-AreCounted [] text tt tt bytes in
    let sorted = sorted_of text in
    let among : (k : ℕ) → IsAmong k text → IsAmong k (characters_of text) =
      λ k h. let (g, there) = counted.counted k h in IsAmong-by_frequency k g [] m (inl there) in
    let size = length-frequencies sorted in
    let two = two_among a b (characters_of text) (among a ha) (among b hb) differ in
    let small : weight (frequencies sorted) 0 (length (frequencies sorted)) < 2 ^ 31 =
      omega (arith, weight-frequencies sorted, sum-by_frequency [] m, counted.sum) in
    let distinct = AreDistinct-by_frequency [] m counted.ascending (All-units m) tt in
    let chars_bytes = All-by_frequency (λ c. c < 256) [] m counted.bytes tt in
    let (t, got, prefix, ascending, given, zeros) =
      generate_huffman_codes-IsPrefixCode (frequencies sorted) (characters_of text)
        (omega (arith, size)) size small distinct chars_bytes in
    let same : length (frequencies sorted) - 1 ≡ length (characters_of text) - 1 =
      omega (arith, size) in
    (
      t,
      got,
      subst (λ (n : ℕ). IsPrefixCode n t) same prefix,
      ascending,
      All-of_IsAmong (λ c. (w : Bytes) × Has c w t) text (λ k h. given k (among k h)),
      zeros,
    )
