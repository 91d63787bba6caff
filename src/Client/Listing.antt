-- ===== src/Client/Listing.antt =====
-- `handleLSRequest` of src/TFTPClient.cpp.
use tftp.Base.{
  ℕ, ◌+◌, ◌-◌, Bytes, Bool, true, false, not, Option, some, List, [], ◌∷◌, ◌++◌, take, u16, ltb,
  ◌==◌, if◌then◌else◌, ◌>>=◌,
}
use tftp.Base.Text.{codes}
use tftp.Packet.{tftp_opcode_data, max_packet_size, error_disk_full, error_illegal_tftp_operation}
use tftp.Wire.{Address, Incoming, timeout, datagram, opcode_of, block_of}
use tftp.Server.{Host, illegal_operation, disk_full, max_retry}
use tftp.Client.{
  ClientState, Outbox, Round, again, finished, Reception, rejected, verified, check_ip,
  received_data, send_ls_packet, send_error, send_ack,
}

unfoldable pub ls_file : Bytes
ls_file = codes "clientDatabase/ls.txt"

module _ (host : Host) where
  -- The write, and the acknowledgment to the sender.
  unfoldable pub ls_block : ClientState → Address → ℕ → Bytes → Option Round
  ls_block s from bytes recv_data =
      if host.accepts s.contents recv_data
      then (do
        out ← send_ack s.sent s.expected_block_number from
        let t = record s {
          contents = s.contents ++ recv_data;
          sent = out;
          expected_block_number = u16 (s.expected_block_number + 1);
        }
        some (if ltb bytes max_packet_size then finished true t else again t))
      else (do
        out ← send_error s.sent error_disk_full disk_full s.server
        some (
            finished false (record s {
              contents = s.contents ++ take (host.partial s.contents recv_data) recv_data;
              sent = out;
            })))

  -- From the opcode on. The port of the sender is not looked at, and an error packet is no DATA.
  unfoldable pub ls_packet : ClientState → Address → ℕ → Option Round
  ls_packet s from bytes =
      if not (opcode_of s.recieved_buffer == tftp_opcode_data)
      then (do
        out ← send_error s.sent error_illegal_tftp_operation illegal_operation from
        some (finished false (record s { sent = out })))
      else if not (block_of s.recieved_buffer == s.expected_block_number)
      then some (again s)
      else (do recv_data ← received_data s.recieved_buffer bytes; ls_block s from bytes recv_data)

  unfoldable pub ls_checked : Address → Reception → Option Round
  ls_checked from (rejected s) = some (again s)
  ls_checked from (verified s bytes) = ls_packet s from bytes

  unfoldable pub ls_step : ClientState → Incoming → Option Round
  ls_step s timeout = some (again (record s { retry = s.retry - 1 }))
  ls_step s (datagram from payload) = do
    reception ← check_ip s from payload
    ls_checked from reception

  -- `while (retry)`, over what the socket yields; `again` if it waits for more.
  unfoldable pub ls_loop : ClientState → List Incoming → Option Round
  ls_loop s [] = some (if s.retry == 0 then finished false s else again s)
  ls_loop s (e ∷ events) = if s.retry == 0 then some (finished false s) else (do
    round ← ls_step s e
    elim round [ finished b t ↦ some (finished b t) | again t ↦ ls_loop t events ])

-- The loop's variables before it. The buffer is not initialised.
unfoldable pub ls_start : Bytes → Address → Outbox → ClientState
ls_start buffer server sent = record {
  server = server;
  initial_packet = true;
  expected_block_number = 1;
  retry = max_retry;
  recieved_buffer = buffer;
  contents = [];
  sent = sent;
}

-- The handler: `delivered` is whether the request could be sent.
unfoldable pub handle_ls_request : Host → Bytes → Bool → Address → List Incoming → Option Round
handle_ls_request host buffer delivered server events = do
  out ← send_ls_packet server
  if not delivered
      then some (finished false (ls_start buffer server []))
      else if not (host.creates ls_file)
      then (do
        failed ← send_error out error_disk_full disk_full server
        some (finished false (ls_start buffer server failed)))
      else ls_loop host (ls_start buffer server out) events
