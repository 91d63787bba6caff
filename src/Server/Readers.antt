-- ===== src/Server/Readers.antt =====
-- The reader counts in the table of files.
use tftp.Base.{
  zero, suc, Bytes, true, false, ◌≡◌, refl, ap, ◌∙◌, Option, none, some, if◌then◌else◌, arith,
  Bool-cases, sym, inl, inr,
}
use tftp.Base.Int.{ℤ, pos, negsuc, succ, pred}
use tftp.Base.Names.{text_key, same_text, same_text_iff}
use tftp.Base.StdMap.{find, find-insert-erase, same_self}
use tftp.Server.{FileMap, add_reader, remove_reader, readers_of, file_exists, can_delete, is_zero}

pub pred-succ : (n : ℤ) → pred (succ n) ≡ n
pred-succ (pos n) = refl
pred-succ (negsuc zero) = refl
pred-succ (negsuc (suc n)) = refl

pub find-add_reader :
    (name other : Bytes) (files : FileMap)
    → find other (add_reader name files)
      ≡ (if same_text name other then some (succ (readers_of name files)) else find other files)
unfolding add_reader
find-add_reader name other files = find-insert-erase name other (succ (readers_of name files)) files

pub find-remove_reader :
    (name other : Bytes) (files : FileMap)
    → find other (remove_reader name files)
      ≡ (if same_text name other then some (pred (readers_of name files)) else find other files)
unfolding remove_reader
find-remove_reader name other files =
    find-insert-erase name other (pred (readers_of name files)) files

pub readers_of-found :
    (name : Bytes) (files : FileMap) {n : ℤ} → find name files ≡ some n → readers_of name files ≡ n
unfolding readers_of
readers_of-found name files h = rw (h, readers_of)

pub found_of_exists :
    (name : Bytes) (files : FileMap)
    → file_exists name files ≡ true
    → find name files ≡ some (readers_of name files)
unfolding file_exists readers_of
found_of_exists name files h = ground arith

pub readers_of-add_reader :
    (name : Bytes) (files : FileMap)
    → readers_of name (add_reader name files) ≡ succ (readers_of name files)
readers_of-add_reader name files =
    readers_of-found name (add_reader name files)
      (find-add_reader name name files ∙ rw (same_self name))

-- A reader counted in and out leaves every entry as it was, for a file of the table.
pub remove_reader-add_reader :
    (name other : Bytes) (files : FileMap)
    → file_exists name files ≡ true
    → find other (remove_reader name (add_reader name files)) ≡ find other files
remove_reader-add_reader name other files h =
    find-remove_reader name other (add_reader name files)
    ∙ rw (readers_of-add_reader name files, pred-succ (readers_of name files))
        (elim (Bool-cases (same_text name other)) [
          | inl e ↦ rw e (
              sym (found_of_exists name files h)
              ∙ ap (λ j. find j files) ((same_text_iff name other).0 e))
          | inr e ↦ rw e (find-add_reader name other files ∙ rw e)
        ])

pub can_delete→found :
    (name : Bytes) (files : FileMap) → can_delete name files ≡ true → find name files ≡ some (pos 0)
unfolding can_delete
can_delete→found name files = unused (find name files)
  where
    unused :
        (o : Option ℤ)
        → elim o [ some readers ↦ is_zero readers | none ↦ false ] ≡ true
        → o ≡ some (pos 0)
    unused none e = cc
    unused (some (pos zero)) e = refl
    unused (some (pos (suc n))) e = cc
    unused (some (negsuc n)) e = cc

pub found→can_delete :
    (name : Bytes) (files : FileMap) → find name files ≡ some (pos 0) → can_delete name files ≡ true
unfolding can_delete
found→can_delete name files h = rw (h, can_delete)

pub found→file_exists :
    (name : Bytes) (files : FileMap) {n : ℤ}
    → find name files ≡ some n
    → file_exists name files ≡ true
unfolding file_exists
found→file_exists name files h = rw (h, file_exists)
