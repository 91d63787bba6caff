-- ===== src/Compression/Files/Faults.antt =====
-- The files that `deflate` does not compress.
use tftp.Base.{
  ℕ, zero, suc, ◌+◌, Bytes, ◌≡◌, refl, ap, ◌∙◌, Bool, true, false, none, some, [], ◌∷◌, ◌++◌,
  length, length-append, replicate, ==-self, Bool-cases, inl, inr, arith,
}
use tftp.Base.Names.{same_text, same_text_iff, text_key}
use tftp.Base.StdMap.{StdMap, find}
use tftp.Base.Text.{codes}
use tftp.Compression.{CodeTable, pack, code_bits, encode_map, deflated, combine}
use tftp.Compression.Characters.{
  assign, frequency_of, count_chars, insert_by_frequency, by_frequency, frequencies, characters,
}
use tftp.Compression.Huffman.{
  swap_ends, reverse_vector, merge_rounds, scan_level, put_depth, level_round, level_loop,
  code_lengths, generate_huffman_codes,
}
use tftp.Packet.{store}
use tftp.Compression.Files.{
  Files, write_file, without_extension, char_with_huffman_codes, encode_map_to_binary_file, deflate,
}
use tftp.Compression.Files.RoundTrip.{find-write_file, written, read_all-written, combine_found}

count_same : (c f n : ℕ) → count_chars ((c, f) ∷ []) (replicate n c) ≡ (c, f + n) ∷ []
unfolding count_chars frequency_of assign
count_same c f zero = ap (λ (k : ℕ). (c, k) ∷ []) (omega arith)
count_same c f (suc n) =
    let again : assign c (frequency_of ((c, f) ∷ []) c + 1) ((c, f) ∷ []) ≡ (c, f + 1) ∷ [] =
      rw (==-self c) in
    ap (λ (m : StdMap ℕ ℕ). count_chars m (replicate n c)) again
    ∙ count_same c (f + 1) n
    ∙ ap (λ (k : ℕ). (c, k) ∷ []) (omega arith)

-- Phase 2 writes a second depth in front of the vector.
one_frequency : (f c : ℕ) → generate_huffman_codes (f ∷ []) (c ∷ []) ≡ none
unfolding generate_huffman_codes code_lengths merge_rounds level_loop level_round scan_level
    put_depth store
one_frequency f c = refl

no_frequency : generate_huffman_codes [] [] ≡ none
unfolding generate_huffman_codes code_lengths merge_rounds level_loop reverse_vector swap_ends
no_frequency = refl

pub one_character : (n c : ℕ) → char_with_huffman_codes (replicate n c) ≡ none
unfolding char_with_huffman_codes by_frequency count_chars insert_by_frequency frequencies
    characters assign frequency_of
one_character zero c = no_frequency
one_character (suc n) c = rw (count_same c 1 n) (one_frequency (1 + n) c)

module _ (creates : Bytes → Bool) where
  -- A file that is empty, or holds one character alone, however often, makes deflate undefined:
  -- it accesses places outside the vector of the frequencies.
  pub deflate_faults :
      (name : Bytes) (n c : ℕ) (files : Files)
      → find name files ≡ some (replicate n c)
      → deflate creates name files ≡ none
  unfolding deflate
  deflate_faults name n c files there = rw (deflate, there, one_character n c)

  module _ (opens : (name : Bytes) → creates name ≡ true) where
    deflated_nothing : (t : CodeTable) → deflated t [] ≡ []
    unfolding deflated code_bits pack
    deflated_nothing t = refl

    other_extension :
        (front : Bytes) → same_text (front ++ codes "compress.bin") (front ++ codes ".bin") ≡ false
    other_extension front =
        elim (Bool-cases (same_text (front ++ codes "compress.bin") (front ++ codes ".bin"))) [
          | inr apart ↦ apart
          | inl same ↦
              let e =
                (same_text_iff (front ++ codes "compress.bin") (front ++ codes ".bin")).0 same in
              absurd (
                omega (
                  arith,
                  ap length e,
                  length-append front (codes "compress.bin"),
                  length-append front (codes ".bin"),
                ))
        ]

    -- Where every file can be opened for writing, a file that has the name of its own packed
    -- file, which is what stands before its last dot and .bin, and is not the table's file, is
    -- truncated before it is read again: for any text with a code table it is empty after
    -- deflate, and the compressed file holds the table and no bit of the text.
    pub deflate_destroys :
        (name text : Bytes) (files : Files) (t : CodeTable)
        → find name files ≡ some text
        → char_with_huffman_codes text ≡ some t
        → without_extension name ++ codes ".bin" ≡ name
        → same_text (codes "encoded_data.bin") name ≡ false
        → (after : Files) × (deflate creates name files ≡ some after)
          × (find name after ≡ some [])
          × (find (without_extension name ++ codes "compress.bin") after
              ≡ some (combine (encode_map t) []))
    unfolding deflate encode_map_to_binary_file
    deflate_destroys name text files t there table same apart =
        let opened : Files = write_file name [] files in
        let packed_files : Files = write_file name [] opened in
        let both : Files = write_file (codes "encoded_data.bin") (encode_map t) packed_files in
        let first = written (codes "encoded_data.bin") (encode_map t) packed_files in
        let second : find name both ≡ some [] =
          find-write_file (codes "encoded_data.bin") name (encode_map t) packed_files
          ∙ rw apart (written name [] opened) in
        let output : Bytes = without_extension name ++ codes "compress.bin" in
        let other : same_text output name ≡ false =
          rw same at (other_extension (without_extension name)) in
        (
          write_file output (combine (encode_map t) []) both,
          rw
              (
                deflate,
                there,
                table,
                same,
                opens name,
                read_all-written name [] files,
                deflated_nothing t,
                opens (codes "encoded_data.bin"),
              )
              (ap some (
                combine_found creates opens (codes "encoded_data.bin") name output (encode_map t) []
                  both first second)),
          find-write_file output name (combine (encode_map t) []) both ∙ rw other second,
          written output (combine (encode_map t) []) both,
        )
