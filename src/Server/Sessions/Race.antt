-- ===== src/Server/Sessions/Race.antt =====
-- Two threads of src/TFTPServer.cpp that count themselves in at once: `handleReadRequest` loads the
-- readers of its file, and stores one more with nothing to keep another thread out in between.
use tftp.Base.{
  ℕ, Bytes, true, ◌≡◌, refl, ◌∙◌, ap, some, List, [], ◌∷◌, ◌==◌, ==-self, if◌then◌else◌,
}
use tftp.Base.Int.{ℤ, pos, succ, pred}
use tftp.Base.Names.{text_key}
use tftp.Base.StdMap.{find, insert, erase, find-insert-erase, same_self}
use tftp.Server.{FileMap, readers_of, can_delete, remove_reader}
use tftp.Server.Readers.{readers_of-found, find-remove_reader}

-- The table, and the variable `readers` of each thread.
pub record Counting : Type 0 where
  pub files : FileMap
  pub readers : ℕ → ℤ

-- int readers = files[filename]; readers++; then the find, the erase and the insert; and the same
-- with readers-- at the end of the read, of a thread that nobody disturbs.
pub data Piece : Type 0 where
  load : ℕ → Piece
  store : ℕ → Piece
  leave : Piece

unfoldable pub piece : Bytes → Counting → Piece → Counting
piece filename c (load thread) = record c {
  readers =
      λ other. if other == thread then succ (readers_of filename c.files) else c.readers other;
}
piece filename c (store thread) = record c {
  files = insert filename (c.readers thread) (erase filename c.files);
}
piece filename c leave = record c { files = remove_reader filename c.files }

unfoldable pub pieces : Bytes → Counting → List Piece → Counting
pieces filename c [] = c
pieces filename c (p ∷ rest) = pieces filename (piece filename c p) rest

stored :
    (name : Bytes) (n : ℤ) (files : FileMap)
    → readers_of name (insert name n (erase name files)) ≡ n
stored name n files =
    readers_of-found name (insert name n (erase name files))
      (find-insert-erase name name n files ∙ rw (same_self name))

can_delete_zero :
    (name : Bytes) (files : FileMap) → find name files ≡ some (pos 0) → can_delete name files ≡ true
unfolding can_delete
can_delete_zero name files h = rw (can_delete, h) refl

-- For a file of the table that nobody reads, and two threads that count themselves in for it,
-- each by a load of the count and a store of one more: one behind the other they leave the count
-- 2. Where both load before either stores they leave the count 1, and when one of them has
-- counted itself out the file can be deleted while the other reads it.
pub lost_update :
    (name : Bytes) (files : FileMap) (readers : ℕ → ℤ) (t u : ℕ)
    → find name files ≡ some (pos 0)
    → let c : Counting = record { files = files; readers = readers } in
      let orderly = pieces name c (load t ∷ store t ∷ load u ∷ store u ∷ []) in
      let raced = pieces name c (load t ∷ load u ∷ store t ∷ store u ∷ []) in
      (readers_of name orderly.files ≡ pos 2)
      × (readers_of name raced.files ≡ pos 1)
      × (can_delete name (piece name raced leave).files ≡ true)
unfolding piece pieces
lost_update name files readers t u found =
    let none_yet : readers_of name files ≡ pos 0 = readers_of-found name files found in
    let once : ℤ = succ (readers_of name files) in
    let raced : FileMap =
      (pieces name (record { files = files; readers = readers })
        (load t ∷ load u ∷ store t ∷ store u ∷ [])).files in
    let one : readers_of name raced ≡ pos 1 =
      rw (==-self u) (stored name once _ ∙ ap succ none_yet) in
    (
      rw (==-self t, ==-self u)
          (stored name _ _ ∙ ap succ (stored name once files) ∙ ap (λ n. succ (succ n)) none_yet),
      one,
      can_delete_zero name _
          (find-remove_reader name name raced ∙ rw (same_self name) (ap (λ n. some (pred n)) one)),
    )
