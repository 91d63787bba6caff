-- ===== src/Client/Start.antt =====
-- The two transfers of src/TFTPClient.cpp with their compression, `startClient`, and `main`.
pub mod Received
use tftp.Base.{
  ℕ, ◌+◌, Bytes, Bool, true, false, ◌&&◌, not, Option, none, some, List, [], ◌∷◌, ◌++◌, length,
  ◌==◌, if◌then◌else◌, ◌>>=◌,
}
use tftp.Base.Names.{same_text, text_key}
use tftp.Base.StdMap.{find}
use tftp.Base.Text.{codes}
use tftp.Packet.{tftp_opcode_rrq, tftp_opcode_wrq, tftp_opcode_delete, tftp_opcode_ls}
use tftp.Wire.{Address, Incoming}
use tftp.Server.{Host}
use tftp.Compression.Files.{Files, write_file, deflate, decompress}
use tftp.Client.{ClientState, Round, again, finished, compressed_name, server_default_port}
use tftp.Client.Read.{receive_file}
use tftp.Client.Write.{handle_wrq_request}
use tftp.Client.Delete.{handle_delete_request}
use tftp.Client.Listing.{ls_file, handle_ls_request}

-- What the client runs on: its disk, the value of the member `clientAddress` and of an array, which
-- nothing initialises, whether its socket can be made and bound, and whether its `sendto` of the
-- request and of each block succeeds.
pub record Machine : Type 0 where
  pub host : Host
  pub stray : Address
  pub buffer : Bytes
  pub has_socket : Bool
  pub binds : Bool
  pub delivered : Bool
  pub delivers : ℕ → Bool

-- The local file of a transfer, which is opened once the request has been sent.
unfoldable pub opened_file : Machine → Bytes → ClientState → Files → Files
opened_file m name t files =
    if m.delivered && m.host.creates name then write_file name t.contents files else files

-- A file received is decompressed before the handler returns.
unfoldable pub rrq_received : Machine → Bytes → Files → Round → Option Files
rrq_received m prev_filename files (finished true t) =
    let name = compressed_name prev_filename in
    decompress m.host.creates name prev_filename (write_file name t.contents files)
rrq_received m prev_filename files (finished false t) = some (
    if length prev_filename == 0
    then files
    else opened_file m (compressed_name prev_filename) t files)
rrq_received m prev_filename files (again t) =
    some (opened_file m (compressed_name prev_filename) t files)

-- The whole of `handleRRQRequest`.
unfoldable pub handle_rrq_request :
    Machine → Address → Bytes → List Incoming → Files → Option (Round × Files)
handle_rrq_request m server prev_filename events files = do
  round ← receive_file m.host m.stray m.delivered server prev_filename events
  after ← rrq_received m prev_filename files round
  some (round, after)

-- The whole of `handleWRQRequest`, which deflates the file first.
unfoldable pub wrq_files :
    Machine → Address → Bytes → List Incoming → Files → Option (Round × Files)
wrq_files m server prev_filename events files = do
  after ←
      if length prev_filename == 0 then some files else deflate m.host.creates prev_filename files
  let compressed = find (compressed_name prev_filename) after
  round ← handle_wrq_request compressed m.delivers m.stray m.delivered server prev_filename events
  some (round, after)

unfoldable pub ls_received : Machine → Files → Round → Files
ls_received m files (finished b t) = opened_file m ls_file t files
ls_received m files (again t) = opened_file m ls_file t files

-- What `startClient` ends with: what it prints, if the handler has returned, and the files.
pub record Ended : Type 0 where
  pub round : Option Round
  pub message : Option Bytes
  pub files : Files

unfoldable pub check_error_log : Bytes
check_error_log = codes "[ERROR received]: check error log "

unfoldable pub closing : Bytes → Bytes → Round → Files → Ended
closing success failure (finished b t) files = record {
  round = some (finished b t);
  message = some (if b then success else failure);
  files = files;
}
closing success failure (again t) files = record {
  round = some (again t);
  message = none;
  files = files;
}

-- inet_addr("127.0.0.1") on a little-endian host, and port 69.
abbrev pub local_server : Address
local_server = record { ip = 0x0100007f; port = server_default_port }

-- The `switch` of `startClient`, behind its `bind`. The server is always the local one.
unfoldable pub start_client : Machine → ℕ → Bytes → List Incoming → Files → Option Ended
start_client m opcode filename events files =
    if opcode == tftp_opcode_ls
    then (do
      round ← handle_ls_request m.host m.buffer m.delivered local_server events
      some (
          closing (codes "Output is stored in file ls.txt in /clientDatabase directory.")
            (codes "[ERROR received] ") round (ls_received m files round)))
    else if opcode == tftp_opcode_delete
    then (do
      round ← handle_delete_request m.buffer m.delivered local_server filename events
      some (closing (codes "FILE deleted successfully") check_error_log round files))
    else if opcode == tftp_opcode_rrq
    then (do
      (round, after) ← handle_rrq_request m local_server filename events files
      some (closing (codes "FILE READ successful.") check_error_log round after))
    else if opcode == tftp_opcode_wrq
    then (do
      (round, after) ← wrq_files m local_server filename events files
      some (closing (codes "FILE WRITE successful.") check_error_log round after))
    else some (record { round = none; message = some check_error_log; files = files })

-- The `switch` of `main` on the words of the command line, the program's name first: it exits, or
-- starts the client with an opcode, if one has been set, and a filename.
pub data Launch : Type 0 where
  exits : ℕ → Launch
  starts : Option ℕ → Bytes → Launch

unfoldable pub request_opcode : Bytes → Option ℕ
request_opcode request =
    if same_text request (codes "READ")
    then some tftp_opcode_rrq
    else if same_text request (codes "WRITE")
    then some tftp_opcode_wrq
    else if same_text request (codes "DELETE")
    then some tftp_opcode_delete
    else none

unfoldable pub launch : List Bytes → Launch
launch (program ∷ request ∷ filename ∷ server_ip ∷ []) = starts (request_opcode request) filename
launch (program ∷ request ∷ server_ip ∷ []) =
    starts (if same_text request (codes "LS") then some tftp_opcode_ls else none) []
launch words = exits 1

-- `main`, with its exit status, which a socket that is not made or bound sets too. An `opcode` that
-- nothing has set is passed to `startClient`, which is undefined behaviour.
unfoldable pub main : Machine → List Bytes → List Incoming → Files → Option (ℕ × Option Ended)
main m words events files = elim (launch words) [
  | exits status ↦ some (status, none)
  | starts opcode filename ↦ if not m.has_socket then some (1, none) else (do
    opcode_set ← opcode
    if not m.binds
        then some (1, none)
        else (do ended ← start_client m opcode_set filename events files; some (1, some ended)))
]
