-- ===== src/Compression/Files.antt =====
-- The functions of src/TFTPCompression.cpp on the files of the working directory.
pub mod MapFile
pub mod Codes
pub mod RoundTrip
pub mod Decompress
pub mod Recovered
pub mod Faults
use tftp.Base.{
  ℕ, zero, suc, ◌+◌, ◌*◌, Bytes, Bool, true, false, Option, none, some, List, [], ◌∷◌, ◌++◌, length,
  take, drop, ltb, ◌==◌, if◌then◌else◌, ◌>>=◌,
}
use tftp.Base.Names.{text_key}
use tftp.Base.StdMap.{StdMap, find, insert, erase}
use tftp.Base.Text.{codes}
use tftp.Compression.{CodeTable, read_bits, deflated, inflate, encode_map, combine, separate, stem}
use tftp.Compression.Characters.{assign, count_chars, by_frequency, frequencies, characters}
use tftp.Compression.Huffman.{generate_huffman_codes}

-- The files by their names.
abbrev pub Files : Type 0
Files = StdMap Bytes Bytes

-- An `std::ofstream` that is opened truncates its file; what is written to it is all written.
unfoldable pub write_file : Bytes → Bytes → Files → Files
write_file name contents files = insert name contents (erase name files)

-- What `get` yields of a stream: nothing, if it is not open.
unfoldable pub read_all : Bytes → Files → Bytes
read_all name files = elim (find name files) [ some contents ↦ contents | none ↦ [] ]

-- strFilename.substr(0, strFilename.find_last_of("."))
unfoldable pub without_extension : Bytes → Bytes
without_extension name = elim (stem name) [ some front ↦ front | none ↦ name ]

-- A `size_t` from its bytes.
unfoldable pub size_of : Bytes → ℕ
size_of [] = 0
size_of (b ∷ bytes) = b + 256 * size_of bytes

-- std::string(buffer), where a NUL stands behind the buffer.
unfoldable pub up_to_nul : Bytes → Bytes
up_to_nul [] = []
up_to_nul (c ∷ buffer) = let rest = up_to_nul buffer in if c == 0 then [] else c ∷ rest

-- The loop of `decodeBinaryFileToMap`, with fuel. An entry that the file ends in is `none`: the
-- length or the buffer is then read without being written.
unfoldable pub decode_entries : ℕ → CodeTable → Bytes → Option CodeTable
decode_entries fuel my_map [] = some my_map
decode_entries zero my_map (key ∷ contents) = none
decode_entries (suc fuel) my_map (key ∷ contents) =
    let len = size_of (take 8 contents) in
    let buffer = drop 8 contents in
    let rest =
      decode_entries fuel (assign key (up_to_nul (take len buffer)) my_map) (drop len buffer) in
    if ltb (length contents) 8 then none else if ltb (length buffer) len then none else rest

unfoldable pub decode_map : Bytes → Option CodeTable
decode_map contents = decode_entries (length contents) [] contents

-- The table that `deflate` makes for a text.
unfoldable pub char_with_huffman_codes : Bytes → Option CodeTable
char_with_huffman_codes text =
    let sorted = by_frequency [] (count_chars [] text) in
    generate_huffman_codes (frequencies sorted) (characters sorted)

unfoldable pub decode_binary_file_to_map : Bytes → Files → Option CodeTable
decode_binary_file_to_map filename files = elim (find filename files) [
  | none ↦ some []
  | some contents ↦ decode_map contents
]

-- `creates` tells which files can be opened for writing.
module _ (creates : Bytes → Bool) where
  unfoldable pub read_binary_file : Bytes → Files → Files
  read_binary_file filename files = elim (find filename files) [
    | none ↦ files
    | some contents ↦
        let text_file = without_extension filename ++ codes ".txt" in
        if creates text_file then write_file text_file (read_bits contents) files else files
  ]

  unfoldable pub combine_binary_files : Bytes → Bytes → Bytes → Files → Files
  combine_binary_files file1 file2 output files = elim (find file1 files) [
    | none ↦ files
    | some data1 ↦ elim (find file2 files) [
      | none ↦ files
      | some data2 ↦ if creates output then write_file output (combine data1 data2) files else files
    ]
  ]

  unfoldable pub separate_binary_file : Bytes → Bytes → Bytes → Files → Files
  separate_binary_file input output1 output2 files = elim (find input files) [
    | none ↦ files
    | some combined ↦ elim (separate combined) [
      | none ↦ files
      | some (data1, data2) ↦
          if creates output1
          then (let first = write_file output1 data1 files in
              if creates output2 then write_file output2 data2 first else first)
          else files
    ]
  ]

  -- A stream that is not open ignores what is written.
  unfoldable pub encode_map_to_binary_file : CodeTable → Bytes → Files → Files
  encode_map_to_binary_file my_map filename files =
      let name = filename ++ codes ".bin" in
      if creates name then write_file name (encode_map my_map) files else files

  -- The text is counted first, and read again by `decodeFile` when the packed file has been opened.
  unfoldable pub deflate : Bytes → Files → Option Files
  deflate filename files = elim (find filename files) [
    | none ↦ some files
    | some text ↦ (do
      table ← char_with_huffman_codes text
      let front = without_extension filename
      let packed = front ++ codes ".bin"
      some (
          if creates packed
          then (let opened = write_file packed [] files in
              let written = write_file packed (deflated table (read_all filename opened)) opened in
              let encoded = encode_map_to_binary_file table (codes "encoded_data") written in
              combine_binary_files (codes "encoded_data.bin") packed (front ++ codes "compress.bin")
                encoded)
          else files))
  ]

  -- `inflate` does not test that its input is open.
  unfoldable pub inflate_file : Bytes → CodeTable → Bytes → Files → Files
  inflate_file filename result op_file_name files =
      let output = codes "clientDatabase/" ++ op_file_name in
      if creates output
      then (let opened = write_file output [] files in
          write_file output (inflate result [] (read_all filename opened)) opened)
      else files

  -- What `handleRRQRequest` does with the file received.
  unfoldable pub decompress : Bytes → Bytes → Files → Option Files
  decompress filename prev_filename files =
      let separated =
        separate_binary_file filename (codes "output_file1.bin") (codes "output_file2.bin") files in
      (do
        result ← decode_binary_file_to_map (codes "output_file1.bin") separated
        let bits = read_binary_file (codes "output_file2.bin") separated
        let inflated = inflate_file (codes "output_file2.txt") result prev_filename bits
        some (
            erase (codes "encoded_data.bin") (
              erase (codes "output_file2.txt")
                (erase (codes "output_file2.bin") (erase (codes "output_file1.bin") inflated)))))
