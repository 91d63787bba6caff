-- ===== src/Client/Write.antt =====
-- `handleWRQRequest` of src/TFTPClient.cpp, from the file that `deflate` left on.
pub mod Transfer
pub mod Request
use tftp.Base.{
  ℕ, ◌+◌, ◌-◌, Bytes, Bool, true, false, not, ◌&&◌, Option, none, some, List, [], ◌∷◌, ◌++◌, length,
  replicate, u16, ltb, ◌==◌, if◌then◌else◌, ◌>>=◌,
}
use tftp.Packet.{
  tftp_opcode_ack, tftp_opcode_error, error_disk_full, error_illegal_tftp_operation,
  read_data_block,
}
use tftp.Wire.{Address, Incoming, timeout, datagram, opcode_of, block_of}
use tftp.Server.{illegal_operation, disk_full, max_retry}
use tftp.Server.Read.{data_packet}
use tftp.Client.{
  ClientState, Outbox, Round, again, finished, Reception, rejected, verified, check_ip, check_port,
  received_data, print_error, send_wrq_packet, send_error, compressed_name,
}

-- `contents` is what the compressed file holds, `delivers` whether the `sendto` of a block succeeds.
module _ (contents : Bytes) (delivers : ℕ → Bool) where
  -- The next block. The packet is built as in the server's `handleReadRequest`.
  pub wrq_send : ClientState → Address → Option Round
  wrq_send s from =
      let n = u16 (s.expected_block_number + 1) in
      let t = record s { expected_block_number = n } in
      let block = read_data_block (some contents) n in
      if length block == 0 then some (finished false t) else (do
        packet ← data_packet n block
        let u = record t { sent = t.sent ++ (from, packet) ∷ [] }
        some (
            if not (delivers n)
            then finished false t
            else if ltb (length block) 512
            then finished true u
            else again u))

  -- From the opcode on, for a packet of which the source is verified.
  pub wrq_packet : ClientState → Address → ℕ → Option Round
  wrq_packet s from bytes =
      let opcode = opcode_of s.recieved_buffer in
      let block_number = block_of s.recieved_buffer in
      if not (opcode == tftp_opcode_error) && not (opcode == tftp_opcode_ack)
      then (do
        out ← send_error s.sent error_illegal_tftp_operation illegal_operation from
        some (finished false (record s { sent = out })))
      else if opcode == tftp_opcode_error
      then (do recv_data ← received_data s.recieved_buffer bytes; print_error s recv_data)
      else if not (block_number == s.expected_block_number)
      then if s.expected_block_number == 0
        then (do
          out ← send_error s.sent error_illegal_tftp_operation illegal_operation from
          some (finished false (record s { sent = out })))
        else some (again s)
      else wrq_send s from

  pub wrq_verified : Address → Reception → Option Round
  wrq_verified from (rejected s) = some (again s)
  wrq_verified from (verified s bytes) = wrq_packet s from bytes

  pub wrq_checked : Address → Reception → Option Round
  wrq_checked from (rejected s) = some (again s)
  wrq_checked from (verified s bytes) = do
    reception ← check_port s from bytes
    wrq_verified from reception

  -- One round, in a state with `retry` above 0. The buffer is zeroed in each.
  pub wrq_step : ClientState → Incoming → Option Round
  wrq_step s timeout = some (again (record s { retry = s.retry - 1 }))
  wrq_step s (datagram from payload) = do
    reception ← check_ip (record s { recieved_buffer = replicate 516 0 }) from payload
    wrq_checked from reception

  -- `while (retry)`, over what the socket yields; `again` if it waits for more.
  pub wrq_loop : ClientState → List Incoming → Option Round
  wrq_loop s [] = some (if s.retry == 0 then finished false s else again s)
  wrq_loop s (e ∷ events) = if s.retry == 0 then some (finished false s) else (do
    round ← wrq_step s e
    elim round [ finished b t ↦ some (finished b t) | again t ↦ wrq_loop t events ])

-- The loop's variables before it.
pub wrq_start : Address → Outbox → ClientState
wrq_start server sent = record {
  server = server;
  initial_packet = true;
  expected_block_number = 0;
  retry = max_retry;
  recieved_buffer = replicate 516 0;
  contents = [];
  sent = sent;
}

-- The handler, where `compressed` is the file that `deflate` left, if it can be opened.
pub handle_wrq_request :
    Option Bytes → (ℕ → Bool) → Address → Bool → Address → Bytes → List Incoming → Option Round
handle_wrq_request compressed delivers stray delivered server prev_filename events =
    let idle = wrq_start server [] in
    if length prev_filename == 0 then some (finished false idle) else (do
      out ← send_wrq_packet server (compressed_name prev_filename)
      if not delivered then some (finished false idle) else elim compressed [
        | none ↦ (do
          failed ← send_error out error_disk_full disk_full stray
          some (finished false (wrq_start server failed)))
        | some contents ↦ wrq_loop contents delivers (wrq_start server out) events
      ])
