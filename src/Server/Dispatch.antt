-- ===== src/Server/Dispatch.antt =====
-- `handleClientThread` of src/TFTPServer.cpp, with a timeout set on its socket.
pub mod WriteRead
use tftp.Base.{
  ℕ, Bytes, Bool, true, false, Option, none, some, List, [], ◌==◌, if◌then◌else◌, ◌>>=◌,
}
use tftp.Packet.{
  tftp_opcode_rrq, tftp_opcode_wrq, tftp_opcode_delete, tftp_opcode_ls,
  error_illegal_tftp_operation,
}
use tftp.Server.{Server, Host, Event, send_error, illegal_operation}
use tftp.Server.Write.{Handled, returned, handle_write_request}
use tftp.Server.Read.{Reply, handle_read_request}
use tftp.Server.Delete.{handle_delete_request}
use tftp.Server.Listing.{Turn, handle_ls_request}
use tftp.Server.Listen.{Request}

-- What the thread's socket yields, as the handler that runs reads it.
pub record Inbox : Type 0 where
  pub events : List Event
  pub replies : List Reply
  pub turns : List Turn

pub handle_client_thread : Host → Server → Request → Inbox → Option Handled
handle_client_thread host server request inbox =
    if request.opcode == tftp_opcode_rrq
    then handle_read_request server request.filename inbox.replies
    else if request.opcode == tftp_opcode_wrq
    then handle_write_request host server request.filename inbox.events
    else if request.opcode == tftp_opcode_delete
    then (do
      (after, sent) ← handle_delete_request host server request.filename
      some (returned after sent))
    else if request.opcode == tftp_opcode_ls
    then handle_ls_request host server inbox.turns
    else (do
      sent ← send_error [] error_illegal_tftp_operation illegal_operation
      some (returned server sent))
