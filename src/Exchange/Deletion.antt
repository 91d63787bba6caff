-- ===== src/Exchange/Deletion.antt =====
-- Both ends of a delete: `handleDELETERequest` of src/TFTPClient.cpp given what
-- `handleDeleteRequest` of src/TFTPServer.cpp sends.
use tftp.Base.{
  ℕ, ◌<◌, Bytes, Bool, true, false, ◌&&◌, ◌≡◌, ◌≢◌, ◌↔◌, inl, inr, refl, some, [], ◌∷◌, length,
  if◌then◌else◌, Bool-cases, arith,
}
use tftp.Packet.Store.{NulFree}
use tftp.Wire.{Address, datagram}
use tftp.Wire.Words.{header}
use tftp.Server.{
  Server, Host, path_of, file_exists, can_delete, not_found, has_readers, exception_occured,
}
use tftp.Server.Readers.{can_delete→found, found→can_delete}
use tftp.Server.Write.Steps.{error_reply}
use tftp.Server.Delete.{removed, is_some, handle_delete_request}
use tftp.Server.Delete.Outcome.{
  IsDeletable, refusal, handle_delete_request-removes, handle_delete_request-refuses,
  not_found-NulFree, has_readers-NulFree, exception_occured-NulFree,
}
use tftp.Client.Delete.Answers.{EndsWith, handle_delete_request-ack, handle_delete_request-error}

-- An error packet that the client can print.
abbrev IsPrintable : Bytes → Type 0
IsPrintable packet =
    (code : ℕ) × (message : Bytes) × (packet ≡ error_reply code message)
    × NulFree message
    × (length message < 512)

not_found-IsPrintable : IsPrintable (error_reply 1 not_found)
unfolding not_found
not_found-IsPrintable = (1, not_found, refl, not_found-NulFree, omega arith)

has_readers-IsPrintable : IsPrintable (error_reply 0 has_readers)
unfolding has_readers
has_readers-IsPrintable = (0, has_readers, refl, has_readers-NulFree, omega arith)

exception_occured-IsPrintable : IsPrintable (error_reply 0 exception_occured)
unfolding exception_occured
exception_occured-IsPrintable = (0, exception_occured, refl, exception_occured-NulFree, omega arith)

refusal-IsPrintable : (server : Server) (filename : Bytes) → IsPrintable (refusal server filename)
refusal-IsPrintable server filename = elim (Bool-cases (file_exists filename server.files)) [
  | inr e ↦ rw e not_found-IsPrintable
  | inl e ↦ elim (Bool-cases (can_delete filename server.files)) [
    | inr c ↦ rw (e, c) has_readers-IsPrintable
    | inl c ↦ elim (Bool-cases (is_some (server.disk (path_of filename)))) [
      | inr d ↦ rw (e, c, d) not_found-IsPrintable
      | inl d ↦ rw (e, c, d) exception_occured-IsPrintable
    ]
  ]
]

-- The handler's tests as one.
abbrev deletable : Host → Server → Bytes → Bool
deletable host server filename =
    can_delete filename server.files
    && (is_some (server.disk (path_of filename)) && host.removes (path_of filename))

both : (x y : Bool) → (x && y) ≡ true → (x ≡ true) × (y ≡ true)
both x y h = ground arith

deletable_iff :
    (host : Host) (server : Server) (filename : Bytes)
    → (deletable host server filename ≡ true) ↔ IsDeletable host server filename
deletable_iff host server filename = (
  λ h.
      let (c, rest) = both _ _ h in
      let (d, r) = both _ _ rest in (can_delete→found filename server.files c, d, r),
  λ h. rw (found→can_delete filename server.files h.0, h.1, h.2),
)

-- A delete of a file by its name, where nothing is lost: the answer of the server is one packet,
-- the client sends its request alone and reports success exactly when the file is in the table
-- with no reader, on the disk and removable; then it is gone from both, and else the server is as
-- it was.
pub deletion :
    (host : Host) (server : Server) (buffer : Bytes) (size : length buffer ≡ 516)
    (listener thread : Address) (filename : Bytes) (named : length filename ≢ 0)
    (free : NulFree filename) (same : thread.ip ≡ listener.ip)
    → (reply : Bytes) × (success : Bool) × (handle_delete_request host server filename
        ≡ some (if success then removed server filename else server, reply ∷ []))
      × EndsWith buffer size listener thread filename named free same
          (datagram thread reply ∷ [])
          success
      × ((success ≡ true) ↔ IsDeletable host server filename)
deletion host server buffer size listener thread filename named free same =
    elim (Bool-cases (deletable host server filename)) [
      | inl e ↦ (
        header 4 0 [],
        true,
        (handle_delete_request-removes host server filename (decided.0 e)).0,
        handle_delete_request-ack buffer size listener thread filename named free same [],
        (λ _. decided.0 e, λ _. refl),
      )
      | inr e ↦
          let refused : ¬ IsDeletable host server filename = λ h. cc (decided.1 h, e) in
          let (code, message, shape, clean, short) = refusal-IsPrintable server filename in
          (
            refusal server filename,
            false,
            handle_delete_request-refuses host server filename refused,
            rw shape (
                handle_delete_request-error buffer size listener thread filename named free same
                  code message [] clean short),
            (λ h. cc h, λ h. absurd (refused h)),
          )
    ]
  where
    decided : (deletable host server filename ≡ true) ↔ IsDeletable host server filename
    decided = deletable_iff host server filename
