-- ===== src/Server/Sessions.antt =====
-- The client threads of src/TFTPServer.cpp as interleavings of the operations on the shared table:
-- a read is counted in, later out; a write enters its name when it is complete; a delete tests and
-- erases. Each is taken to be atomic, though the program has no lock around any of them.
pub mod Count
pub mod Held
pub mod Race
use tftp.Base.{ℕ, suc, ◌-◌, Bytes, Bool, true, false, ◌&&◌, List, [], ◌∷◌, ltb, if◌then◌else◌}
use tftp.Base.Int.{pos}
use tftp.Base.Names.{text_key, same_text}
use tftp.Base.StdMap.{insert, erase}
use tftp.Server.{FileMap, file_exists, can_delete, add_reader, remove_reader}

-- The table, and the names that the reading threads hold.
pub record Sessions : Type 0 where
  pub files : FileMap
  pub reading : List Bytes

-- The entry of `handleReadRequest` and its end, the end of a complete `handleWriteRequest`, and
-- `handleDeleteRequest`, with what the file system answers to `fs::exists` and `fs::remove`.
pub data Action : Type 0 where
  begin_read : Bytes → Action
  end_read : Bytes → Action
  complete_write : Bytes → Action
  delete : Bytes → Bool → Action

unfoldable pub count : Bytes → List Bytes → ℕ
count name [] = 0
count name (held ∷ reading) =
    let rest = count name reading in if same_text held name then suc rest else rest

-- One reader of the name less.
unfoldable pub release : Bytes → List Bytes → List Bytes
release name [] = []
release name (held ∷ reading) = if same_text held name then reading else held ∷ release name reading

unfoldable pub act : Sessions → Action → Sessions
act s (begin_read name) =
    if file_exists name s.files
    then record { files = add_reader name s.files; reading = name ∷ s.reading }
    else s
act s (end_read name) =
    if ltb 0 (count name s.reading)
    then record { files = remove_reader name s.files; reading = release name s.reading }
    else s
act s (complete_write name) = record s { files = insert name (pos 0) s.files }
act s (delete name gone) =
    if can_delete name s.files && gone then record s { files = erase name s.files } else s

unfoldable pub acts : Sessions → List Action → Sessions
acts s [] = s
acts s (a ∷ actions) = acts (act s a) actions
