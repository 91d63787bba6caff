-- ===== src/Compression/Files/MapFile.antt =====
-- `decodeBinaryFileToMap` reads what `encodeMapToBinaryFile` writes.
use native.Mathlib.Numerals.{unary_clauses}
use tftp.Base.{
  ℕ, zero, suc, ◌/◌, ◌^◌, ◌≤◌, ◌<◌, Bytes, ◌≡◌, refl, ap, ◌∙◌, sym, true, false, some, [], ◌∷◌,
  ◌++◌, append-nil, append_assoc, length, length-append, take_prefix, drop_prefix, All, ltb, ◌==◌,
  le→ltb, ne→==, arith,
}
use tftp.Packet.Store.{NulFree}
use tftp.Compression.{CodeTable, size_bytes, encode_map}
use tftp.Compression.Characters.{before_char, assign}
use tftp.Compression.Characters.Entries.{IsAscending}
use tftp.Compression.Files.{size_of, up_to_nul, decode_entries, decode_map}

-- Codes without NUL, of lengths that a `size_t` holds.
abbrev pub IsStorable : CodeTable → Type 0
IsStorable t = All (λ e. NulFree e.1 × (length e.1 < 2 ^ 64)) t

length-size_bytes : (count n : ℕ) → length (size_bytes count n) ≡ count
unfolding size_bytes
length-size_bytes zero n = refl
length-size_bytes (suc count) n = ap suc (length-size_bytes count (n / 256))

size_of-size_bytes : (count n : ℕ) → n < 256 ^ count → size_of (size_bytes count n) ≡ n
unfolding size_of size_bytes
size_of-size_bytes zero n h = omega arith
size_of-size_bytes (suc count) n h =
    let h' = simp unary_clauses at h in
    omega (arith, size_of-size_bytes count (n / 256) (omega arith))

up_to_nul_all : (code : Bytes) → NulFree code → up_to_nul code ≡ code
unfolding up_to_nul
up_to_nul_all [] h = refl
up_to_nul_all (c ∷ code) h =
    rw (ne→== c 0 (omega (arith, h.0))) (ap (◌∷◌ c) (up_to_nul_all code h.1))

-- A key above all others is put last.
assign-last :
    (k : ℕ) (w : Bytes) (m : CodeTable)
    → All (λ e. before_char e.0 k ≡ true) m
    → assign k w m ≡ m ++ (k, w) ∷ []
unfolding assign
assign-last k w [] h = refl
assign-last k w ((j, v) ∷ m) h =
    let other : (j == k) ≡ false = ground (arith, h.0) in
    rw (other, h.0) (ap (λ (t : CodeTable). (j, v) ∷ t) (assign-last k w m h.1))

All-middle :
    (j k : ℕ) (w : Bytes) (m t : CodeTable)
    → All (λ e. before_char j e.0 ≡ true) (m ++ (k, w) ∷ t)
    → before_char j k ≡ true
All-middle j k w [] t h = h.0
All-middle j k w (e ∷ m) t h = All-middle j k w m t h.1

IsAscending-middle :
    (k : ℕ) (w : Bytes) (m t : CodeTable)
    → IsAscending (m ++ (k, w) ∷ t)
    → All (λ e. before_char e.0 k ≡ true) m
IsAscending-middle k w [] t h = tt
IsAscending-middle k w ((j, v) ∷ m) t h = (All-middle j k w m t h.0, IsAscending-middle k w m t h.1)

-- One entry.
decode_entries_step :
    (fuel key : ℕ) (m : CodeTable) (code behind : Bytes)
    → NulFree code
    → length code < 2 ^ 64
    → decode_entries (suc fuel) m (key ∷ (size_bytes 8 (length code) ++ (code ++ behind)))
      ≡ decode_entries fuel (assign key code m) behind
unfolding decode_entries
decode_entries_step fuel key m code behind nul_free short =
    let size = length-size_bytes 8 (length code) in
    let front = take_prefix 8 (size_bytes 8 (length code)) (code ++ behind) size in
    let back = drop_prefix 8 (size_bytes 8 (length code)) (code ++ behind) size in
    let len = size_of-size_bytes 8 (length code) short in
    let whole : ltb (length (size_bytes 8 (length code) ++ (code ++ behind))) 8 ≡ false =
      le→ltb _ 8
        (omega (arith, size, length-append (size_bytes 8 (length code)) (code ++ behind))) in
    let enough : ltb (length (code ++ behind)) (length code) ≡ false =
      le→ltb _ (length code) (omega (arith, length-append code behind)) in
    rw
      (
        front,
        back,
        len,
        whole,
        enough,
        take_prefix (length code) code behind refl,
        drop_prefix (length code) code behind refl,
      )
      (ap (λ (c : Bytes). decode_entries fuel (assign key c m) behind)
        (up_to_nul_all code nul_free))

decode_entries-encode_map :
    (fuel : ℕ) (m t : CodeTable)
    → length t ≤ fuel
    → IsStorable t
    → IsAscending (m ++ t)
    → decode_entries fuel m (encode_map t) ≡ some (m ++ t)
unfolding encode_map decode_entries
decode_entries-encode_map fuel m [] f s h = ap some (sym (append-nil m))
decode_entries-encode_map zero m (e ∷ t) f s h = absurd (omega arith)
decode_entries-encode_map (suc fuel) m ((key, code) ∷ t) f s h =
    let grouped = append_assoc m ((key, code) ∷ []) t in
    decode_entries_step fuel key m code (encode_map t) s.0.0 s.0.1
    ∙ ap (λ (n : CodeTable). decode_entries fuel n (encode_map t))
        (assign-last key code m (IsAscending-middle key code m t h))
    ∙ decode_entries-encode_map fuel (m ++ (key, code) ∷ []) t (omega arith) s.1 (rw grouped h)
    ∙ ap some grouped

length-encode_map : (t : CodeTable) → length t ≤ length (encode_map t)
unfolding encode_map
length-encode_map [] = omega arith
length-encode_map ((key, code) ∷ t) = omega (
  arith,
  length-encode_map t,
  length-append (size_bytes 8 (length code)) (code ++ encode_map t),
  length-append code (encode_map t),
)

-- For a map whose keys ascend as signed characters and whose codes hold no NUL and are shorter
-- than 2^64, decodeBinaryFileToMap reads from what encodeMapToBinaryFile writes the map itself.
pub decode_map-encode_map :
    (t : CodeTable) → IsStorable t → IsAscending t → decode_map (encode_map t) ≡ some t
unfolding decode_map
decode_map-encode_map t s h =
    decode_entries-encode_map (length (encode_map t)) [] t (length-encode_map t) s h
