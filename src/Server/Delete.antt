-- ===== src/Server/Delete.antt =====
-- `handleDeleteRequest` of src/TFTPServer.cpp. `fs::exists` is taken not to throw.
pub mod Outcome
use tftp.Base.{
  ℕ, Bytes, Bool, true, false, not, Option, none, some, List, [], ◌∷◌, if◌then◌else◌, ◌>>=◌,
}
use tftp.Base.Names.{text_key, same_text}
use tftp.Base.StdMap.{erase}
use tftp.Packet.{error_not_defined, error_file_not_found, ack_ok}
use tftp.Server.{
  Server, Host, path_of, file_exists, can_delete, send_error, send_ack, not_found, has_readers,
  exception_occured,
}

abbrev pub is_some : Option Bytes → Bool
is_some none = false
is_some (some contents) = true

-- The server after `fs::remove` and `files.erase`.
abbrev pub removed : Server → Bytes → Server
removed server filename = record {
  files = erase filename server.files;
  disk = λ path. if same_text path (path_of filename) then none else server.disk path;
}

-- The server, and the packets sent to the client.
unfoldable pub handle_delete_request : Host → Server → Bytes → Option (Server × List Bytes)
handle_delete_request host server filename =
    if not (file_exists filename server.files)
    then (do sent ← send_error [] error_file_not_found not_found; some (server, sent))
    else if not (can_delete filename server.files)
    then (do sent ← send_error [] error_not_defined has_readers; some (server, sent))
    else if is_some (server.disk (path_of filename))
    then if host.removes (path_of filename)
      then (do sent ← send_ack [] ack_ok; some (removed server filename, sent))
      else (do sent ← send_error [] error_not_defined exception_occured; some (server, sent))
    else (do sent ← send_error [] error_file_not_found not_found; some (server, sent))
