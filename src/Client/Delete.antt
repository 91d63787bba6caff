-- ===== src/Client/Delete.antt =====
-- `handleDELETERequest` of src/TFTPClient.cpp.
pub mod Answers
use tftp.Base.{
  ℕ, ◌+◌, ◌-◌, Bytes, Bool, true, false, not, ◌&&◌, Option, none, some, List, [], ◌∷◌, ◌++◌, length,
  ltb, ◌==◌, if◌then◌else◌, ◌>>=◌,
}
use tftp.Packet.{tftp_opcode_ack, tftp_opcode_error, ack_ok, error_illegal_tftp_operation}
use tftp.Wire.{Address, Incoming, timeout, datagram, opcode_of, block_of}
use tftp.Server.{illegal_operation, max_retry}
use tftp.Client.{
  ClientState, Outbox, Round, again, finished, Reception, rejected, verified, check_ip,
  received_data, print_error, send_delete_packet, send_error,
}

-- From the opcode on. The port of the sender is not looked at.
pub delete_packet : ClientState → Address → ℕ → Option Round
delete_packet s from bytes =
    let opcode = opcode_of s.recieved_buffer in
    let block_number = block_of s.recieved_buffer in
    if not (opcode == tftp_opcode_error) && not (opcode == tftp_opcode_ack)
    then (do
      out ← send_error s.sent error_illegal_tftp_operation illegal_operation from
      some (finished false (record s { sent = out })))
    else if opcode == tftp_opcode_ack
    then some (finished (block_number == ack_ok) s)
    else (do recv_data ← received_data s.recieved_buffer bytes; print_error s recv_data)

pub delete_checked : Address → Reception → Option Round
delete_checked from (rejected s) = some (again s)
delete_checked from (verified s bytes) = delete_packet s from bytes

pub delete_step : ClientState → Incoming → Option Round
delete_step s timeout = some (again (record s { retry = s.retry - 1 }))
delete_step s (datagram from payload) = do
  reception ← check_ip s from payload
  delete_checked from reception

-- `while (retry)`, over what the socket yields; `again` if it waits for more.
pub delete_loop : ClientState → List Incoming → Option Round
delete_loop s [] = some (if s.retry == 0 then finished false s else again s)
delete_loop s (e ∷ events) = if s.retry == 0 then some (finished false s) else (do
  round ← delete_step s e
  elim round [ finished b t ↦ some (finished b t) | again t ↦ delete_loop t events ])

-- The loop's variables before it. The buffer is not initialised.
pub delete_start : Bytes → Address → Outbox → ClientState
delete_start buffer server sent = record {
  server = server;
  initial_packet = true;
  expected_block_number = 1;
  retry = max_retry;
  recieved_buffer = buffer;
  contents = [];
  sent = sent;
}

-- The handler: `delivered` is whether the request could be sent.
unfoldable pub handle_delete_request : Bytes → Bool → Address → Bytes → List Incoming → Option Round
handle_delete_request buffer delivered server filename events =
    let idle = delete_start buffer server [] in
    if length filename == 0 then some (finished false idle) else (do
      out ← send_delete_packet server filename
      if not delivered
          then some (finished false idle)
          else delete_loop (delete_start buffer server out) events)
