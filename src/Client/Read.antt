-- ===== src/Client/Read.antt =====
-- `handleRRQRequest` of src/TFTPClient.cpp, up to the decompression of the file received.
pub mod Transfer
pub mod Repeats
pub mod Request
use tftp.Base.{
  ℕ, ◌+◌, ◌-◌, Bytes, Bool, true, false, not, ◌||◌, ◌&&◌, Option, none, some, List, [], ◌∷◌, ◌++◌,
  length, replicate, take, u16, ltb, ◌==◌, if◌then◌else◌, ◌>>=◌,
}
use tftp.Packet.{tftp_opcode_data, tftp_opcode_error, error_disk_full, error_illegal_tftp_operation}
use tftp.Wire.{Address, Incoming, timeout, datagram, opcode_of, block_of}
use tftp.Server.{Host, illegal_operation, disk_full, max_retry}
use tftp.Client.{
  ClientState, Outbox, Round, again, finished, Reception, rejected, verified, check_ip, check_port,
  received_data, print_error, send_rrq_packet, send_error, send_ack, compressed_name,
}

-- `stray` is the value of the member `clientAddress`, which nothing initialises.
module _ (host : Host) (stray : Address) where
  -- A DATA packet with the expected number: the write, and the acknowledgment. A short packet ends
  -- the loop by `finished true`, in front of the decompression.
  pub rrq_block : ClientState → Bytes → Option Round
  rrq_block s recv_data =
      if host.accepts s.contents recv_data
      then (do
        out ← send_ack s.sent s.expected_block_number stray
        let t = record s {
          contents = s.contents ++ recv_data;
          sent = out;
          expected_block_number = u16 (s.expected_block_number + 1);
        }
        some (if ltb (length recv_data) 512 then finished true t else again t))
      else (do
        out ← send_error s.sent error_disk_full disk_full s.server
        some (
            finished false (record s {
              contents = s.contents ++ take (host.partial s.contents recv_data) recv_data;
              sent = out;
            })))

  -- From the opcode on, for a packet of which the source is verified.
  unfoldable pub rrq_packet : ClientState → Address → ℕ → Option Round
  rrq_packet s from bytes =
      let opcode = opcode_of s.recieved_buffer in
      let block_number = block_of s.recieved_buffer in
      if not (opcode == tftp_opcode_error) && not (opcode == tftp_opcode_data)
      then (do
        out ← send_error s.sent error_illegal_tftp_operation illegal_operation from
        some (finished false (record s { sent = out })))
      else (do
        recv_data ← received_data s.recieved_buffer bytes
        if opcode == tftp_opcode_error
            then print_error s recv_data
            else if not (block_number == s.expected_block_number)
            then (do
              out ← send_ack s.sent (u16 (s.expected_block_number + 65535)) s.server
              some (again (record s { sent = out })))
            else rrq_block s recv_data)

  unfoldable pub rrq_verified : Address → Reception → Option Round
  rrq_verified from (rejected s) = some (again s)
  rrq_verified from (verified s bytes) = rrq_packet s from bytes

  unfoldable pub rrq_checked : Address → Reception → Option Round
  rrq_checked from (rejected s) = some (again s)
  rrq_checked from (verified s bytes) = do
    reception ← check_port s from bytes
    rrq_verified from reception

  -- One round, from `recvfrom` on, in a state with `retry` above 0.
  unfoldable pub rrq_step : ClientState → Incoming → Option Round
  rrq_step s timeout = some (again (record s { retry = s.retry - 1 }))
  rrq_step s (datagram from payload) = do
    reception ← check_ip s from payload
    rrq_checked from reception

  -- `while (retry)`, over what the socket yields; `again` if it waits for more.
  pub rrq_loop : ClientState → List Incoming → Option Round
  rrq_loop s [] = some (if s.retry == 0 then finished false s else again s)
  rrq_loop s (e ∷ events) = if s.retry == 0 then some (finished false s) else (do
    round ← rrq_step s e
    elim round [ finished b t ↦ some (finished b t) | again t ↦ rrq_loop t events ])

-- The loop's variables before it.
pub rrq_start : Address → Outbox → ClientState
rrq_start server sent = record {
  server = server;
  initial_packet = true;
  expected_block_number = 1;
  retry = max_retry;
  recieved_buffer = replicate 516 0;
  contents = [];
  sent = sent;
}

-- The handler up to the end of the loop, where `delivered` is whether the request could be sent:
-- `finished true` is a file that has been received whole, and is left to be decompressed. It has the
-- compressed name.
pub receive_file : Host → Address → Bool → Address → Bytes → List Incoming → Option Round
receive_file host stray delivered server prev_filename events =
    let idle = rrq_start server [] in
    if length prev_filename == 0 then some (finished false idle) else (do
      out ← send_rrq_packet server (compressed_name prev_filename)
      if not delivered
          then some (finished false idle)
          else if not (host.creates (compressed_name prev_filename))
          then (do
            failed ← send_error out error_disk_full disk_full stray
            some (finished false (rrq_start server failed)))
          else rrq_loop host stray (rrq_start server out) events)
