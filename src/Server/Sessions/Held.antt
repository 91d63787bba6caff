-- ===== src/Server/Sessions/Held.antt =====
-- A delete request of src/TFTPServer.cpp for a file that is being read.
use tftp.Base.{
  ◌<◌, Bytes, Bool, true, false, ◌≡◌, inl, inr, subst, List, Bool-cases, Option-cases, arith,
}
use tftp.Base.Names.{text_key}
use tftp.Base.StdMap.{find}
use tftp.Server.{file_exists, can_delete}
use tftp.Server.Readers.{found→file_exists}
use tftp.Server.Sessions.{Sessions, Action, delete, count, act, acts}
use tftp.Server.Sessions.Count.{Agrees, IsCounted, delete-count, started, acts-counted}

held_stays :
    (s : Sessions) (name : Bytes)
    → IsCounted s
    → 0 < count name s.reading
    → can_delete name s.files ≡ false
held_stays s name inv held = elim (Bool-cases (can_delete name s.files)) [
  | inl h ↦ absurd (omega (arith, delete-count s name h inv))
  | inr h ↦ h
]

held_exists :
    (s : Sessions) (name : Bytes)
    → IsCounted s
    → 0 < count name s.reading
    → file_exists name s.files ≡ true
held_exists s name inv held = elim (Option-cases (find name s.files)) [
  | inl e ↦
      let none_held : count name s.reading ≡ 0 =
        subst (λ o. Agrees o (count name s.reading)) e (inv name) in
      absurd (omega arith)
  | inr (n, e) ↦ found→file_exists name s.files e
]

-- In every order, from the start of the server, of the starts and ends of reads, the ends of
-- complete writes and the deletes, where each of them does all its accesses to the table before
-- another one starts, which no lock of the program ensures: a delete request for a file that some
-- thread is reading changes nothing, and the file is in the table.
pub acts-delete_held :
    (names : List Bytes) (actions : List Action) (name : Bytes) (gone : Bool)
    → let s = acts (started names) actions in
      0 < count name s.reading → (act s (delete name gone) ≡ s) × (file_exists name s.files ≡ true)
unfolding act
acts-delete_held names actions name gone held =
    let s = acts (started names) actions in
    let inv : IsCounted s = λ other. (acts-counted names actions other).0 in
    (rw (held_stays s name inv held), held_exists s name inv held)
