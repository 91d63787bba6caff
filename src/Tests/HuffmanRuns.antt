-- ===== src/Tests/HuffmanRuns.antt =====
-- Runs of the codes and of the compression of files in src/TFTPCompression.cpp.
use tftp.Base.{Bytes, Bool, true, ◌≡◌, refl, some, [], ◌∷◌, ◌++◌, inl, inr, arith}
use tftp.Base.Names.{same_text, before_text, text_key}
use tftp.Base.StdMap.{find, insert, erase, place}
use tftp.Base.Text.{codes}
use tftp.Packet.{store}
use tftp.Compression.{
  CodeTable, code_of, code_bits, encode_map, size_bytes, deflated, combine, pack, pack_bit, stem,
}
use tftp.Compression.Characters.{
  assign, frequency_of, count_chars, insert_by_frequency, by_frequency, frequencies, characters,
}
use tftp.Compression.Huffman.{
  add_digits, add_binary, swap_ends, reverse_vector, add_int, takes_root, take_root, take_leaf,
  pick, merge_round, merge_rounds, scan_level, put_depth, level_round, level_loop, code_lengths,
  next_code, next_codes, assign_codes, code_words, generate_huffman_codes,
}
use tftp.Compression.Files.{
  Files, write_file, without_extension, read_all, char_with_huffman_codes, combine_binary_files,
  encode_map_to_binary_file, deflate,
}
use tftp.Compression.Files.Recovered.{IsText, IsApart}

abbrev pub any_file : Bytes → Bool
any_file name = true

abbrev pub aab_name : Bytes
aab_name = codes "a.txt"

abbrev pub aab : Bytes
aab = codes "aab"

abbrev pub aab_table : CodeTable
aab_table = (97, codes "0") ∷ (98, codes "1") ∷ []

abbrev pub aab_files : Files
aab_files = (aab_name, aab) ∷ []

-- The compressed file: the two entries of the table, the delimiter, and a byte.
abbrev pub aab_compressed : Bytes
aab_compressed =
    97 ∷ 1 ∷ 0 ∷ 0 ∷ 0 ∷ 0 ∷ 0 ∷ 0 ∷ 0 ∷ 48 ∷ 98 ∷ 1 ∷ 0 ∷ 0 ∷ 0 ∷ 0 ∷ 0 ∷ 0 ∷ 0 ∷ 49 ∷ 127 ∷ 254
    ∷ 4 ∷ []

abbrev pub aab_after : Files
aab_after =
    (codes "a.bin", 4 ∷ [])
    ∷ (aab_name, aab)
    ∷ (codes "acompress.bin", aab_compressed)
    ∷ (codes "encoded_data.bin", encode_map aab_table)
    ∷ []

pub table_run : char_with_huffman_codes aab ≡ some aab_table
unfolding char_with_huffman_codes count_chars assign frequency_of by_frequency insert_by_frequency
    frequencies characters generate_huffman_codes code_lengths merge_rounds merge_round pick
    takes_root take_root take_leaf add_int store level_loop level_round scan_level put_depth
    reverse_vector swap_ends assign_codes next_codes next_code add_binary add_digits code_words
table_run = refl

pub aab_deflate : deflate any_file aab_name aab_files ≡ some aab_after
unfolding deflate find insert erase place same_text before_text write_file without_extension stem
    read_all encode_map_to_binary_file combine_binary_files char_with_huffman_codes count_chars
    assign frequency_of by_frequency insert_by_frequency frequencies characters
    generate_huffman_codes code_lengths merge_rounds merge_round pick takes_root take_root take_leaf
    add_int store level_loop level_round scan_level put_depth reverse_vector swap_ends assign_codes
    next_codes next_code add_binary add_digits code_words deflated pack pack_bit code_bits code_of
    encode_map size_bytes combine
aab_deflate = refl

pub aab-IsText : IsText aab
unfolding count_chars assign frequency_of by_frequency insert_by_frequency characters
aab-IsText = record {
  one = 97;
  other = 98;
  has_one = inl refl;
  has_other = inr (inr (inl refl));
  different = omega arith;
  bytes = (omega arith, (omega arith, (omega arith, tt)));
  short = omega arith;
  few = omega arith;
}

pub aab_name-IsApart : IsApart aab_name
unfolding without_extension stem same_text
aab_name-IsApart = (refl, refl)

pub aab_found : find aab_name aab_files ≡ some aab
unfolding find same_text
aab_found = refl

pub aab_compressed_found :
    find (without_extension aab_name ++ codes "compress.bin") aab_after ≡ some aab_compressed
unfolding find same_text without_extension stem encode_map size_bytes
aab_compressed_found = refl
