-- ===== src/Tests/TableRuns.antt =====
-- Runs of the table of files: deletes and interleavings.
use tftp.Base.{◌<◌, ◌≤◌, length, Bytes, true, ◌≡◌, ◌≢◌, refl, some, none, List, [], ◌∷◌, arith}
use tftp.Base.Int.{pos}
use tftp.Base.Names.{text_key, same_text}
use tftp.Base.StdMap.{find, insert, erase, place}
use tftp.Base.Text.{codes}
use tftp.Wire.Words.{header}
use tftp.Server.{
  Server, Host, path_of, file_exists, can_delete, add_reader, remove_reader, readers_of,
  initialize_file_map,
}
use tftp.Server.Delete.{removed, handle_delete_request}
use tftp.Server.Delete.Outcome.{
  IsDeletable, refusal, handle_delete_request-removes, handle_delete_request-refuses,
}
use tftp.Server.Sessions.{Action, begin_read, end_read, delete, count, act, acts, release}
use tftp.Server.Sessions.Count.{Agrees, started, acts-counted}
use tftp.Server.Sessions.Held.{acts-delete_held}
use tftp.Server.Sessions.Race.{Counting, load, store, leave, piece, pieces, lost_update}

abbrev name_a : Bytes
name_a = codes "a.txt"

abbrev name_b : Bytes
name_b = codes "b.txt"

abbrev open_host : Host
open_host = record {
  creates = λ path. true;
  accepts = λ contents block. true;
  partial = λ contents block. 0;
  removes = λ path. true;
}

abbrev two_files : Server
two_files = record { files = (name_a, pos 0) ∷ (name_b, pos 1) ∷ []; disk = λ path. some (1 ∷ []) }

found_a : find name_a two_files.files ≡ some (pos 0)
unfolding find same_text
found_a = refl

-- Two readers of one file: the first to leave does not free it.
two_readers_run :
    (acts
      (started (name_a ∷ []))
      (begin_read name_a ∷ begin_read name_a ∷ end_read name_a ∷ delete name_a true ∷ [])).files
    ≡ (name_a, pos 1) ∷ []
unfolding acts act file_exists can_delete add_reader remove_reader readers_of find same_text insert
    place erase count release initialize_file_map
two_readers_run = refl

deletes_example :
    (handle_delete_request open_host two_files name_a
      ≡ some (removed two_files name_a, header 4 0 [] ∷ []))
    × (find name_a (removed two_files name_a).files ≡ none)
    × ((removed two_files name_a).disk (path_of name_a) ≡ none)
    × ((other : Bytes)
        → other ≢ name_a
        → find other (removed two_files name_a).files ≡ find other two_files.files)
deletes_example = handle_delete_request-removes open_host two_files name_a (found_a, refl, refl)

found_b : ¬ IsDeletable open_host two_files name_b
unfolding find same_text
found_b h = cc h.0

refuses_example :
    handle_delete_request open_host two_files name_b
    ≡ some (two_files, refusal two_files name_b ∷ [])
refuses_example = handle_delete_request-refuses open_host two_files name_b found_b

abbrev readers : List Action
readers = begin_read name_a ∷ begin_read name_a ∷ end_read name_a ∷ []

counted_example :
    let s = acts (started (name_a ∷ [])) readers in
    Agrees (find name_a s.files) (count name_a s.reading)
    × (count name_a s.reading ≤ length readers)
counted_example = acts-counted (name_a ∷ []) readers name_a

unread : find name_a ((name_a, pos 0) ∷ []) ≡ some (pos 0)
unfolding find same_text
unread = refl

lost_update_example :
    let c : Counting = record { files = (name_a, pos 0) ∷ []; readers = λ thread. pos 7 } in
    let orderly = pieces name_a c (load 1 ∷ store 1 ∷ load 2 ∷ store 2 ∷ []) in
    let raced = pieces name_a c (load 1 ∷ load 2 ∷ store 1 ∷ store 2 ∷ []) in
    (readers_of name_a orderly.files ≡ pos 2)
    × (readers_of name_a raced.files ≡ pos 1)
    × (can_delete name_a (piece name_a raced leave).files ≡ true)
lost_update_example = lost_update name_a ((name_a, pos 0) ∷ []) (λ thread. pos 7) 1 2 unread

held : 0 < count name_a (acts (started (name_a ∷ [])) readers).reading
unfolding acts act file_exists add_reader remove_reader readers_of find same_text insert place erase
    count release initialize_file_map
held = omega arith

delete_held_example :
    let s = acts (started (name_a ∷ [])) readers in
    (act s (delete name_a true) ≡ s) × (file_exists name_a s.files ≡ true)
delete_held_example = acts-delete_held (name_a ∷ []) readers name_a true held
