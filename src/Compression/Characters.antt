-- ===== src/Compression/Characters.antt =====
-- `std::map<char, T>` and the order of frequencies in `deflate` of src/TFTPCompression.cpp.
pub mod Entries
pub mod Counts
pub mod Sorted
use tftp.Base.{ℕ, ◌+◌, ◌%◌, Bytes, Bool, List, [], ◌∷◌, map, ltb, ◌==◌, if◌then◌else◌}
use tftp.Base.StdMap.{StdMap}

-- `char` is signed.
abbrev pub before_char : ℕ → ℕ → Bool
before_char a b = ltb ((a + 128) % 256) ((b + 128) % 256)

-- m[k] = v
unfoldable pub assign : {V : Type 0} → ℕ → V → StdMap ℕ V → StdMap ℕ V
assign k v [] = (k, v) ∷ []
assign k v ((j, w) ∷ m) =
    if j == k
    then (k, v) ∷ m
    else if before_char j k
    then (j, w) ∷ assign k v m
    else (k, v) ∷ (j, w) ∷ m

-- frequency[c], which is 0 for a character that is not there.
unfoldable pub frequency_of : StdMap ℕ ℕ → ℕ → ℕ
frequency_of [] c = 0
frequency_of ((j, f) ∷ m) c = if j == c then f else frequency_of m c

-- The loop with `frequency[ch]++`.
unfoldable pub count_chars : StdMap ℕ ℕ → Bytes → StdMap ℕ ℕ
count_chars frequency [] = frequency
count_chars frequency (ch ∷ text) =
    count_chars (assign ch (frequency_of frequency ch + 1) frequency) text

-- `insert` into the multimap: behind the entries of the same frequency.
unfoldable pub insert_by_frequency : ℕ → ℕ → List (ℕ × ℕ) → List (ℕ × ℕ)
insert_by_frequency f c [] = (f, c) ∷ []
insert_by_frequency f c ((g, d) ∷ sorted) =
    if ltb f g then (f, c) ∷ (g, d) ∷ sorted else (g, d) ∷ insert_by_frequency f c sorted

unfoldable pub by_frequency : List (ℕ × ℕ) → StdMap ℕ ℕ → List (ℕ × ℕ)
by_frequency sorted [] = sorted
by_frequency sorted ((c, f) ∷ frequency) = by_frequency (insert_by_frequency f c sorted) frequency

-- `frequencyIncreasing` and `charAccordingToFreq`
unfoldable pub frequencies : List (ℕ × ℕ) → List ℕ
frequencies sorted = map (λ e. e.0) sorted

unfoldable pub characters : List (ℕ × ℕ) → List ℕ
characters sorted = map (λ e. e.1) sorted
