-- ===== src/Client/Names.antt =====
-- The name under which src/TFTPClient.cpp stores a file at the server.
use tftp.Base.{Bytes, ◌≡◌, ◌≢◌, refl, ◌∙◌, sym, none, some, [], ◌∷◌, ◌++◌, ne→==}
use tftp.Base.Text.{codes}
use tftp.Client.{compressed_name}
use tftp.Compression.{stem}

-- No '.' in a text.
abbrev pub DotFree : Bytes → Type 0
DotFree [] = Unit {0}
DotFree (c ∷ text) = (c ≢ 46) × DotFree text

stem-DotFree : (text : Bytes) → DotFree text → stem text ≡ none
unfolding stem
stem-DotFree [] h = refl
stem-DotFree (c ∷ text) h = rw (stem-DotFree text h.1, ne→== c 46 h.0)

-- The stem is what stands before the last dot.
stem-append :
    (front extension : Bytes) → DotFree extension → stem (front ++ 46 ∷ extension) ≡ some front
unfolding stem
stem-append [] extension h = rw (stem-DotFree extension h)
stem-append (c ∷ front) extension h = rw (stem-append front extension h)

compressed_name-append :
    (front extension : Bytes)
    → DotFree extension
    → compressed_name (front ++ 46 ∷ extension) ≡ front ++ codes "compress.bin"
unfolding compressed_name
compressed_name-append front extension h = rw (stem-append front extension h)

-- Names that differ only in what follows their last dot have the same compressed name: at the
-- server they are one file.
pub compressed_name_collides :
    (front extension other : Bytes)
    → DotFree extension
    → DotFree other
    → compressed_name (front ++ 46 ∷ extension) ≡ compressed_name (front ++ 46 ∷ other)
compressed_name_collides front extension other h k =
    compressed_name-append front extension h ∙ sym (compressed_name-append front other k)
