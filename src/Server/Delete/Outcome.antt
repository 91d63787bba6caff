-- ===== src/Server/Delete/Outcome.antt =====
-- What a delete request does, on every branch.
use tftp.Base.{
  Bytes, true, false, ◌≡◌, ◌≢◌, inl, inr, sym, ◌∙◌, none, some, [], ◌∷◌, if◌then◌else◌, arith,
  Bool-cases,
}
use tftp.Base.Int.{pos}
use tftp.Base.Names.{text_key, same_text, same_text_iff}
use tftp.Base.StdMap.{find, find-erase, same_self}
use tftp.Packet.Store.{NulFree}
use tftp.Server.{
  Server, Host, path_of, file_exists, can_delete, not_found, has_readers, exception_occured,
}
use tftp.Server.Readers.{can_delete→found, found→can_delete, found→file_exists}
use tftp.Server.Replies.{send_error_lem, send_ack_lem}
use tftp.Server.Write.Steps.{error_reply}
use tftp.Server.Delete.{removed, is_some, handle_delete_request}
use tftp.Wire.Words.{header}

-- The file is in the table with no reader, on the disk, and the file system lets it go.
abbrev pub IsDeletable : Host → Server → Bytes → Type 0
IsDeletable host server filename =
    (find filename server.files ≡ some (pos 0))
    × (is_some (server.disk (path_of filename)) ≡ true)
    × (host.removes (path_of filename) ≡ true)

pub not_found-NulFree : NulFree not_found
unfolding not_found
not_found-NulFree = omega arith

pub has_readers-NulFree : NulFree has_readers
unfolding has_readers
has_readers-NulFree = omega arith

pub exception_occured-NulFree : NulFree exception_occured
unfolding exception_occured
exception_occured-NulFree = omega arith

different : (filename other : Bytes) → other ≢ filename → same_text filename other ≡ false
different filename other ne = elim (Bool-cases (same_text filename other)) [
  | inl e ↦ absurd (ne (sym ((same_text_iff filename other).0 e)))
  | inr e ↦ e
]

-- For a file in the table with no reader, on the disk and removable, a delete request is
-- acknowledged with block 0; the name is gone from the table and the path from the disk, and
-- every other entry of the table is as before.
pub handle_delete_request-removes :
    (host : Host) (server : Server) (filename : Bytes)
    → IsDeletable host server filename
    → (handle_delete_request host server filename
        ≡ some (removed server filename, header 4 0 [] ∷ []))
      × (find filename (removed server filename).files ≡ none)
      × ((removed server filename).disk (path_of filename) ≡ none)
      × ((other : Bytes)
          → other ≢ filename
          → find other (removed server filename).files ≡ find other server.files)
unfolding handle_delete_request
handle_delete_request-removes host server filename h = (
  rw (
    found→file_exists filename server.files h.0,
    found→can_delete filename server.files h.0,
    h.1,
    h.2,
    send_ack_lem [] 0,
  ),
  find-erase filename filename server.files ∙ rw (same_self filename),
  rw (same_self (path_of filename)),
  λ other ne. find-erase filename other server.files ∙ rw (different filename other ne),
)

-- The answer to a request that is not granted, in the order of the handler's tests.
abbrev pub refusal : Server → Bytes → Bytes
refusal server filename =
    if file_exists filename server.files
    then if can_delete filename server.files
      then if is_some (server.disk (path_of filename))
        then error_reply 0 exception_occured
        else error_reply 1 not_found
      else error_reply 0 has_readers
    else error_reply 1 not_found

-- Where a file is not in the table with no reader, not on the disk or not removable, a delete
-- request leaves the server as it is and answers with the one error packet of the first test that
-- fails.
pub handle_delete_request-refuses :
    (host : Host) (server : Server) (filename : Bytes)
    → ¬ IsDeletable host server filename
    → handle_delete_request host server filename ≡ some (server, refusal server filename ∷ [])
unfolding handle_delete_request
handle_delete_request-refuses host server filename h =
    elim (Bool-cases (file_exists filename files)) [
      | inr e ↦ rw (e, send_error_lem [] 1 not_found not_found-NulFree)
      | inl e ↦ elim (Bool-cases (can_delete filename files)) [
        | inr c ↦ rw (e, c, send_error_lem [] 0 has_readers has_readers-NulFree)
        | inl c ↦ elim (Bool-cases (is_some (server.disk (path_of filename)))) [
          | inr d ↦ rw (e, c, d, send_error_lem [] 1 not_found not_found-NulFree)
          | inl d ↦ elim (Bool-cases (host.removes (path_of filename))) [
            | inr r ↦
                rw (e, c, d, r, send_error_lem [] 0 exception_occured exception_occured-NulFree)
            | inl r ↦ absurd (h (can_delete→found filename files c, d, r))
          ]
        ]
      ]
    ]
  where
    open server use {files}
