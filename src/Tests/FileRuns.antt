-- ===== src/Tests/FileRuns.antt =====
-- The theorems on codes and compressed files at the text "aab".
use tftp.Base.{
  ℕ, ◌+◌, ◌/◌, ◌%◌, ◌<◌, Bytes, true, ◌≡◌, refl, none, some, List, [], ◌∷◌, ◌++◌, length, replicate,
  inl, inr, arith,
}
use tftp.Base.Names.{same_text, text_key}
use tftp.Base.StdMap.{find}
use tftp.Base.Text.{codes}
use tftp.Compression.{CodeTable, code_of, code_bits, encode_map, combine, stem}
use tftp.Compression.Characters.Entries.{IsAmong, IsAscending, Has}
use tftp.Compression.Delimiter.{IsBits}
use tftp.Compression.Huffman.{add_binary, code_lengths, generate_huffman_codes}
use tftp.Compression.Huffman.Arrays.{backwards}
use tftp.Compression.Huffman.Binary.{amount, add_binary-amount}
use tftp.Compression.Huffman.Depths.{Fills, IsBetween, code_lengths-Fills}
use tftp.Compression.Huffman.Table.{IsPrefixCode, generate_huffman_codes-IsPrefixCode}
use tftp.Compression.Files.{
  Files, without_extension, decode_map, char_with_huffman_codes, deflate, decompress,
}
use tftp.Compression.Files.MapFile.{decode_map-encode_map}
use tftp.Compression.Files.Recovered.{decompress-deflate}
use tftp.Compression.Files.Faults.{deflate_faults, deflate_destroys}
use tftp.Tests.HuffmanRuns.{
  any_file, aab_name, aab, aab_table, aab_files, aab_after, table_run, aab_deflate, aab-IsText,
  aab_name-IsApart, aab_found,
}

pub always : (name : Bytes) → any_file name ≡ true
always name = refl

decompress-deflate_example :
    (t : CodeTable) × (c : ℕ) × (len : ℕ) × (pad : ℕ) × (done : Files) × (char_with_huffman_codes
        aab
      ≡ some t)
    × (code_of t c ≡ replicate len 48)
    × (0 < len)
    × (pad < 8)
    × ((length (code_bits t aab) + pad) % 8 ≡ 0)
    × (decompress any_file (codes "acompress.bin") aab_name aab_after ≡ some done)
    × (find (codes "clientDatabase/" ++ aab_name) done ≡ some (aab ++ replicate (pad / len) c))
unfolding without_extension stem
decompress-deflate_example =
    decompress-deflate any_file always any_file always aab_name aab aab_files aab_after
      (codes "acompress.bin") aab_name aab_after aab-IsText aab_name-IsApart aab_found aab_deflate
      refl

-- Three frequencies of which the first two are merged.
generate_example :
    (t : CodeTable) × (generate_huffman_codes (1 ∷ 1 ∷ 3 ∷ []) (98 ∷ 99 ∷ 97 ∷ []) ≡ some t)
    × IsPrefixCode 2 t
    × IsAscending t
    × ((k : ℕ) → IsAmong k (98 ∷ 99 ∷ 97 ∷ []) → (w : Bytes) × Has k w t)
    × ((c : ℕ) × (len : ℕ) × Has c (replicate len 48) t)
generate_example =
    generate_huffman_codes-IsPrefixCode (1 ∷ 1 ∷ 3 ∷ []) (98 ∷ 99 ∷ 97 ∷ []) (omega arith) refl
      (omega arith) (omega arith) (omega arith)

code_lengths_example :
    (lengths : List ℕ) × (code_lengths (1 ∷ 1 ∷ 3 ∷ []) ≡ some lengths)
    × (length lengths ≡ 3)
    × Fills 1 2 (backwards lengths (length lengths))
    × IsBetween 1 2 (length lengths) lengths
code_lengths_example = code_lengths-Fills (1 ∷ 1 ∷ 3 ∷ []) (omega arith) (omega arith)

add_binary_example :
    IsBits (add_binary (codes "101") (codes "11"))
    × (amount (add_binary (codes "101") (codes "11")) ≡ amount (codes "101") + amount (codes "11"))
add_binary_example =
    add_binary-amount (codes "101") (codes "11") (inr refl, (inl refl, (inr refl, tt)))
      (inr refl, (inr refl, tt))

decode_map_example : decode_map (encode_map aab_table) ≡ some aab_table
decode_map_example =
    decode_map-encode_map aab_table
      (((omega arith, tt), omega arith), (((omega arith, tt), omega arith), tt))
      ((refl, tt), (tt, tt))

deflate_faults_example : deflate any_file aab_name ((aab_name, codes "aaa") ∷ []) ≡ none
unfolding find same_text
deflate_faults_example = deflate_faults any_file aab_name 3 97 ((aab_name, codes "aaa") ∷ []) refl

abbrev bin_name : Bytes
bin_name = codes "a.bin"

abbrev bin_files : Files
bin_files = (bin_name, aab) ∷ []

deflate_destroys_example :
    (after : Files) × (deflate any_file bin_name bin_files ≡ some after)
    × (find bin_name after ≡ some [])
    × (find (without_extension bin_name ++ codes "compress.bin") after
        ≡ some (combine (encode_map aab_table) []))
unfolding find same_text without_extension stem
deflate_destroys_example =
    deflate_destroys any_file always bin_name aab bin_files aab_table refl table_run refl refl
