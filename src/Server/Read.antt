-- ===== src/Server/Read.antt =====
-- `handleReadRequest` of src/TFTPServer.cpp.
pub mod Steps
pub mod Transfer
pub mod Acks
pub mod Request
use tftp.Base.{
  ℕ, ◌+◌, ◌-◌, Bytes, Bool, true, false, not, ◌||◌, Option, none, some, List, [], ◌∷◌, ◌++◌, length,
  replicate, take, u16, ltb, ◌==◌, if◌then◌else◌, ◌>>=◌,
}
use tftp.Packet.{
  max_packet_size, error_file_not_found, error_access_violation, create_data_packet,
  read_data_block,
}
use tftp.Wire.{received, read_bytes, ack_opcode_of, ack_block_of}
use tftp.Server.{
  Server, max_retry, path_of, file_exists, add_reader, remove_reader, send_error, illegal_operation,
  not_found,
}
use tftp.Server.Write.{Progress, again, stop, Handled, returned, waiting}

-- One return of `recvfrom` into `ackBuffer`, an array that is not initialised: what the array held
-- before, and the datagram.
pub data Reply : Type 0 where
  timeout : Reply
  datagram : (ack_buffer payload : Bytes) → Reply

-- The variables of the loop, and the packets sent.
pub record ReadState : Type 0 where
  pub block_number : ℕ
  pub retry : ℕ
  pub sent : List Bytes

-- `createDataPacket` into a packet of 516 zeros, from a data buffer of 512 zeros into which the block
-- was read; `sendto` sends `dataSize + 4` bytes of the packet.
pub data_packet : ℕ → Bytes → Option Bytes
data_packet block_number block = do
  packet ←
      create_data_packet (replicate 516 0) block_number (block ++ replicate (512 - length block) 0)
        (length block)
  some (take (length block + 4) packet)

-- The loop's variables before it.
unfoldable pub read_start : ReadState
read_start = record { block_number = 1; retry = max_retry; sent = [] }

module _ (contents : Option Bytes) where
  -- The round up to `sendto`: it stops at the end of the file.
  pub read_send : ReadState → Option (Progress ReadState)
  read_send s =
      let block = read_data_block contents s.block_number in
      if length block == 0 then some (stop s) else (do
        packet ← data_packet s.block_number block
        some (again (record s { sent = s.sent ++ packet ∷ [] })))

  -- The round from `recvfrom` on.
  unfoldable pub read_receive : ReadState → Reply → Option (Progress ReadState)
  read_receive s timeout = some (again (record s { retry = s.retry - 1 }))
  read_receive s (datagram ack_buffer payload) =
      let buffer = received ack_buffer payload in
      let t = record s { retry = max_retry } in
      if ltb max_packet_size (read_bytes ack_buffer payload)
      then (do
        sent ← send_error s.sent error_access_violation illegal_operation
        some (again (record s { sent = sent })))
      else if not (ack_opcode_of buffer == 4) || not (ack_block_of buffer == s.block_number)
      then (do
        sent ← send_error s.sent error_access_violation illegal_operation
        some (again (record t { sent = sent })))
      else some (
          if ltb (length (read_data_block contents s.block_number)) 512
          then stop t
          else again (record t { block_number = u16 (s.block_number + 1) }))

  -- `while (retry)`, over what the socket yields; `again` if it waits for more.
  unfoldable pub read_loop : ReadState → List Reply → Option (Progress ReadState)
  read_loop s [] = if s.retry == 0 then some (stop s) else read_send s
  read_loop s (e ∷ replies) = if s.retry == 0 then some (stop s) else (do
    sending ← read_send s
    elim sending [
      | stop t ↦ some (stop t)
      | again t ↦ (do
        round ← read_receive t e
        elim round [ stop u ↦ some (stop u) | again u ↦ read_loop u replies ])
    ])

-- The server behind the loop, where nothing else changed the table.
abbrev pub after_read : Server → Bytes → Server
after_read server filename = record server {
  files = remove_reader filename (add_reader filename server.files);
}

-- The reader is counted in before the loop, and out behind it.
pub handle_read_request : Server → Bytes → List Reply → Option Handled
handle_read_request server filename replies =
    if not (file_exists filename server.files)
    then (do sent ← send_error [] error_file_not_found not_found; some (returned server sent))
    else let reading = record server { files = add_reader filename server.files } in
      (do
        outcome ← read_loop (server.disk (path_of filename)) read_start replies
        some (elim outcome [
          | stop t ↦ returned (after_read server filename) t.sent
          | again t ↦ waiting reading t.sent
        ]))
