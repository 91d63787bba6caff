-- ===== src/Compression/Files/RoundTrip.antt =====
-- A file deflated, and the compressed file decompressed.
use tftp.Base.{Bytes, ◌≡◌, ap, ◌∙◌, Bool, true, false, some, [], ◌++◌, if◌then◌else◌}
use tftp.Base.Names.{same_text, text_key}
use tftp.Base.StdMap.{find, same_self, find-insert-erase}
use tftp.Base.Text.{codes}
use tftp.Compression.{CodeTable, deflated, encode_map, combine}
use tftp.Compression.Files.{
  Files, write_file, without_extension, read_all, char_with_huffman_codes, combine_binary_files,
  encode_map_to_binary_file, deflate,
}

-- The compressed file of a text.
abbrev pub compressed : CodeTable → Bytes → Bytes
compressed t text = combine (encode_map t) (deflated t text)

pub find-write_file :
    (k j v : Bytes) (files : Files)
    → find j (write_file k v files) ≡ (if same_text k j then some v else find j files)
unfolding write_file
find-write_file k j v files = find-insert-erase k j v files

pub written : (k v : Bytes) (files : Files) → find k (write_file k v files) ≡ some v
written k v files = find-write_file k k v files ∙ rw (same_self k)

pub read_all-written : (k v : Bytes) (files : Files) → read_all k (write_file k v files) ≡ v
unfolding read_all
read_all-written k v files = rw (read_all, written k v files)

module _ (creates : Bytes → Bool) (opens : (name : Bytes) → creates name ≡ true) where
  pub combine_found :
      (file1 file2 output data1 data2 : Bytes) (files : Files)
      → find file1 files ≡ some data1
      → find file2 files ≡ some data2
      → combine_binary_files creates file1 file2 output files
        ≡ write_file output (combine data1 data2) files
  unfolding combine_binary_files
  combine_found file1 file2 output data1 data2 files e1 e2 =
      rw (combine_binary_files, e1, e2, opens output)

  -- The file that `deflate` leaves for a text with a code table, unless its packed file has the name
  -- of the text or of the table's file.
  pub deflate-compressed :
      (name text : Bytes) (files : Files) (t : CodeTable)
      → find name files ≡ some text
      → char_with_huffman_codes text ≡ some t
      → same_text (without_extension name ++ codes ".bin") name ≡ false
      → same_text (codes "encoded_data.bin") (without_extension name ++ codes ".bin") ≡ false
      → (after : Files) × (deflate creates name files ≡ some after)
        × (find (without_extension name ++ codes "compress.bin") after ≡ some (compressed t text))
  unfolding deflate encode_map_to_binary_file read_all
  deflate-compressed name text files t there table apart apart' =
      let packed : Bytes = without_extension name ++ codes ".bin" in
      let opened : Files = write_file packed [] files in
      let again : find name opened ≡ some text =
        find-write_file packed name [] files ∙ rw apart there in
      let read : read_all name opened ≡ text = rw (read_all, again) in
      let packed_files : Files = write_file packed (deflated t text) opened in
      let both : Files = write_file (codes "encoded_data.bin") (encode_map t) packed_files in
      let first = written (codes "encoded_data.bin") (encode_map t) packed_files in
      let second : find packed both ≡ some (deflated t text) =
        find-write_file (codes "encoded_data.bin") packed (encode_map t) packed_files
        ∙ rw apart' (written packed (deflated t text) opened) in
      let output : Bytes = without_extension name ++ codes "compress.bin" in
      (
        write_file output (compressed t text) both,
        rw (deflate, there, table, opens packed, read, opens (codes "encoded_data.bin"))
            (ap some (
              combine_found (codes "encoded_data.bin") packed output (encode_map t)
                (deflated t text) both first second)),
        written output (compressed t text) both,
      )
