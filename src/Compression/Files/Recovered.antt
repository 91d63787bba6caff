-- ===== src/Compression/Files/Recovered.antt =====
-- A text through `deflate` on one client and the decompression on another.
use tftp.Base.{
  ℕ, ◌+◌, ◌/◌, ◌%◌, ◌^◌, ◌≤◌, ◌<◌, Bytes, ◌≡◌, ◌≢◌, ap, ◌∙◌, sym, Bool, true, false, some, ◌++◌,
  length, length-replicate, replicate, All, arith, ◌-◌,
}
use tftp.Base.Names.{same_text, text_key}
use tftp.Base.StdMap.{find}
use tftp.Base.Text.{codes}
use tftp.Compression.{CodeTable, code_of, code_bits, deflated}
use tftp.Compression.RoundTrip.{inflate-deflated}
use tftp.Compression.Characters.Entries.{IsAmong}
use tftp.Compression.Huffman.Decodable.{All-IsDecodable, IsPrefixCode-HasCodes, code_of_unique}
use tftp.Compression.Huffman.Padding.{inflate-zeros}
use tftp.Compression.Files.{Files, without_extension, char_with_huffman_codes, deflate, decompress}
use tftp.Compression.Files.Codes.{characters_of, char_with_huffman_codes-IsPrefixCode}
use tftp.Compression.Files.RoundTrip.{compressed, deflate-compressed}
use tftp.Compression.Files.Decompress.{decompress-inflate}

-- A text of bytes with two different characters at least and 254 at most, that an `int` can count.
pub record IsText (text : Bytes) : Type 0 where
  pub one : ℕ
  pub other : ℕ
  pub has_one : IsAmong one text
  pub has_other : IsAmong other text
  pub different : one ≢ other
  pub bytes : All (λ c. c < 256) text
  pub short : length text < 2 ^ 31
  pub few : length (characters_of text) ≤ 254

-- `deflate` does not write its packed file over the text or over the table's file.
abbrev pub IsApart : Bytes → Type 0
IsApart name =
    (same_text (without_extension name ++ codes ".bin") name ≡ false)
    × (same_text (codes "encoded_data.bin") (without_extension name ++ codes ".bin") ≡ false)

module _ (creates : Bytes → Bool) (opens : (name : Bytes) → creates name ≡ true) where
  -- Where every file can be opened for writing, deflate is defined for the name of a file of
  -- bytes with two different characters at least, 254 at most, and fewer than 2^31 in all: it
  -- makes a code table and leaves under the compressed name the table, the delimiter and the
  -- packed bits of the text, unless its packed file has the name of the text or of the table's
  -- file.
  deflate_writes :
      (name text : Bytes) (files : Files)
      → IsText text
      → IsApart name
      → find name files ≡ some text
      → (t : CodeTable) × (after : Files) × (char_with_huffman_codes text ≡ some t)
        × (deflate creates name files ≡ some after)
        × (find (without_extension name ++ codes "compress.bin") after ≡ some (compressed t text))
  deflate_writes name text files v apart there =
      let (t, table, prefix, ascending, given, zeros) =
        char_with_huffman_codes-IsPrefixCode v.one v.other text v.has_one v.has_other v.different
          v.bytes v.short in
      let (after, done, contents) =
        deflate-compressed creates opens name text files t there table apart.0 apart.1 in
      (t, after, table, done, contents)

  -- Where every file can be opened for writing and deflate has run on a file of bytes with two
  -- different characters at least, 254 at most, and fewer than 2^31 in all, and its packed file
  -- has not the name of the text or of the table's file: a client that has received the
  -- compressed file, under whatever name, decompresses it into the text, and behind it a
  -- character whose code is all 0, as often as that code fits into the bits that fill up the last
  -- byte.
  pub decompress-deflate :
      (creates' : Bytes → Bool)
      → ((file : Bytes) → creates' file ≡ true)
      → (name text : Bytes) (files after : Files) (received op_name : Bytes) (others : Files)
      → IsText text
      → IsApart name
      → find name files ≡ some text
      → deflate creates name files ≡ some after
      → find received others ≡ find (without_extension name ++ codes "compress.bin") after
      → (t : CodeTable) × (c : ℕ) × (len : ℕ) × (pad : ℕ) × (done : Files)
        × (char_with_huffman_codes text ≡ some t)
        × (code_of t c ≡ replicate len 48)
        × (0 < len)
        × (pad < 8)
        × ((length (code_bits t text) + pad) % 8 ≡ 0)
        × (decompress creates' received op_name others ≡ some done)
        × (find (codes "clientDatabase/" ++ op_name) done ≡ some (text ++ replicate (pad / len) c))
  decompress-deflate creates' opens' name text files after received op_name others v apart there
        deflated_files same =
      let (t, table, prefix, ascending, given, first) =
        char_with_huffman_codes-IsPrefixCode v.one v.other text v.has_one v.has_other v.different
          v.bytes v.short in
      let (c, len, zeros) = first in
      let (after', done', contents) =
        deflate-compressed creates opens name text files t there table apart.0 apart.1 in
      let again : after' ≡ after = cc in
      let deepest = length (characters_of text) - 1 in
      let (done, got, out) =
        decompress-inflate creates' opens' received op_name (deflated t text) t others
          (IsPrefixCode-HasCodes deepest t (omega (arith, v.few)) prefix) ascending
          (same
            ∙ ap (find (without_extension name ++ codes "compress.bin")) (sym again)
            ∙ contents) in
      let (decodable, bits) = All-IsDecodable deepest t prefix text given in
      let (pad, small, whole, back) = inflate-deflated t text decodable bits in
      (
        t,
        c,
        len,
        pad,
        done,
        table,
        code_of_unique deepest t prefix c (replicate len 48) zeros,
        omega
            (arith, prefix.some_digit c (replicate len 48) zeros, length-replicate {A = ℕ} len 48),
        small,
        whole,
        got,
        out ∙ ap some (back ∙ ap (◌++◌ text) (inflate-zeros deepest t prefix c len zeros pad)),
      )
