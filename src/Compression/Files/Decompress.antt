-- ===== src/Compression/Files/Decompress.antt =====
-- The file that comes out of a deflated one.
use tftp.Base.{Bytes, ◌≡◌, ◌∙◌, Bool, true, some, [], ◌∷◌, ◌++◌, arith}
use tftp.Base.Names.{same_text, text_key}
use tftp.Base.StdMap.{find, erase, find-erase}
use tftp.Base.Text.{codes}
use tftp.Packet.Store.{NulFree}
use tftp.Compression.{CodeTable, read_bits, inflate, encode_map, combine, separate, stem}
use tftp.Compression.Delimiter.{HasCodes, IsBits, separate-encode_map}
use tftp.Compression.Characters.Entries.{IsAscending}
use tftp.Compression.Files.{
  Files, write_file, without_extension, read_all, read_binary_file, separate_binary_file,
  decode_binary_file_to_map, inflate_file, decompress,
}
use tftp.Compression.Files.MapFile.{IsStorable, decode_map-encode_map}
use tftp.Compression.Files.RoundTrip.{find-write_file, written}

file1 : Bytes
file1 = codes "output_file1.bin"

file2 : Bytes
file2 = codes "output_file2.bin"

bits_file : Bytes
bits_file = codes "output_file2.txt"

-- Texts of '0' and '1' hold no NUL.
NulFree-bits : (code : Bytes) → IsBits code → NulFree code
NulFree-bits [] h = tt
NulFree-bits (k ∷ code) h = (ground (arith, h.0), NulFree-bits code h.1)

IsStorable-codes : (t : CodeTable) → HasCodes t → IsStorable t
IsStorable-codes [] h = tt
IsStorable-codes ((k, code) ∷ t) h =
    ((NulFree-bits code h.0, omega (arith, h.1)), IsStorable-codes t h.2)

module _ (creates : Bytes → Bool) (opens : (name : Bytes) → creates name ≡ true) where
  separate_found :
      (input combined data1 data2 : Bytes) (files : Files)
      → find input files ≡ some combined
      → separate combined ≡ some (data1, data2)
      → separate_binary_file creates input file1 file2 files
        ≡ write_file file2 data2 (write_file file1 data1 files)
  unfolding separate_binary_file
  separate_found input combined data1 data2 files e s =
      rw (separate_binary_file, e, s, opens file1, opens file2)

  read_binary_found :
      (contents : Bytes) (files : Files)
      → find file2 files ≡ some contents
      → read_binary_file creates file2 files ≡ write_file bits_file (read_bits contents) files
  unfolding read_binary_file without_extension stem file2 bits_file
  read_binary_found contents files e = rw (read_binary_file, e, opens bits_file)

  decode_found :
      (t : CodeTable) (files : Files)
      → HasCodes t
      → IsAscending t
      → find file1 files ≡ some (encode_map t)
      → decode_binary_file_to_map file1 files ≡ some t
  unfolding decode_binary_file_to_map
  decode_found t files h up e =
      rw (decode_binary_file_to_map, e) (decode_map-encode_map t (IsStorable-codes t h) up)

  inflate_found :
      (bits op : Bytes) (t : CodeTable) (files : Files)
      → find bits_file files ≡ some bits
      → find (codes "clientDatabase/" ++ op) (inflate_file creates bits_file t op files)
        ≡ some (inflate t [] bits)
  unfolding inflate_file read_all bits_file same_text
  inflate_found bits op t files e =
      let output : Bytes = codes "clientDatabase/" ++ op in
      let opened : Files = write_file output [] files in
      let again : find bits_file opened ≡ some bits =
        find-write_file output bits_file [] files ∙ e in
      let read : read_all bits_file opened ≡ bits = rw (read_all, again) in
      rw (opens output, read) (written output (inflate t [] bits) opened)

  -- The handler's work on a compressed file that was made of a table and a packed file.
  pub decompress-inflate :
      (name op packed : Bytes) (t : CodeTable) (files : Files)
      → HasCodes t
      → IsAscending t
      → find name files ≡ some (combine (encode_map t) packed)
      → (after : Files) × (decompress creates name op files ≡ some after)
        × (find (codes "clientDatabase/" ++ op) after ≡ some (inflate t [] (read_bits packed)))
  unfolding decompress file1 file2 bits_file same_text
  decompress-inflate name op packed t files h up there =
      let separated : Files = write_file file2 packed (write_file file1 (encode_map t) files) in
      let apart =
        separate_found name (combine (encode_map t) packed) (encode_map t) packed files there
          (separate-encode_map t packed h) in
      let first : find file1 separated ≡ some (encode_map t) =
        find-write_file file2 file1 packed (write_file file1 (encode_map t) files)
        ∙ written file1 (encode_map t) files in
      let second = written file2 packed (write_file file1 (encode_map t) files) in
      let decoded = decode_found t separated h up first in
      let bits = read_binary_found packed separated second in
      let unpacked : Files = write_file bits_file (read_bits packed) separated in
      let result =
        inflate_found (read_bits packed) op t unpacked
          (written bits_file (read_bits packed) separated) in
      let output : Bytes = codes "clientDatabase/" ++ op in
      let done : Files = inflate_file creates bits_file t op unpacked in
      let left1 = find-erase file1 output done in
      let left2 = find-erase file2 output (erase file1 done) in
      let left3 = find-erase bits_file output (erase file2 (erase file1 done)) in
      let left4 =
        find-erase (codes "encoded_data.bin") output
          (erase bits_file (erase file2 (erase file1 done))) in
      (
        erase (codes "encoded_data.bin") (erase bits_file (erase file2 (erase file1 done))),
        rw (apart, decoded, bits),
        left4 ∙ left3 ∙ left2 ∙ left1 ∙ result,
      )
