-- ===== src/Server/Write.antt =====
-- `handleWriteRequest` of src/TFTPServer.cpp.
pub mod Steps
pub mod Transfer
pub mod Safety
pub mod Invariant
use tftp.Base.{
  ℕ, ◌+◌, ◌-◌, Bytes, Bool, true, false, not, Option, none, some, List, [], ◌∷◌, ◌++◌, length, take,
  drop, replicate, u16, ltb, ◌==◌, if◌then◌else◌, ◌>>=◌,
}
use tftp.Base.Int.{pos}
use tftp.Base.Names.{text_key, same_text}
use tftp.Base.StdMap.{insert}
use tftp.Packet.{
  max_packet_size, error_not_defined, error_disk_full, error_illegal_tftp_operation,
  error_file_already_exists,
}
use tftp.Wire.{received, read_bytes, opcode_of, block_of}
use tftp.Server.{
  Server, Host, FileMap, Event, timeout, datagram, max_retry, path_of, file_exists, send_error,
  send_ack, illegal_operation, already_exists, disk_full, wrong_block,
}

-- The variables of the loop, what the file holds, and the packets sent.
pub record WriteState : Type 0 where
  pub files : FileMap
  pub contents : Bytes
  pub expected_block_number : ℕ
  pub retry : ℕ
  pub recieved_buffer : Bytes
  pub sent : List Bytes

-- A round ends at the loop's test, or leaves the loop by `break`.
pub data Progress (S : Type 0) : Type 0 where
  again : S → Progress S
  stop : S → Progress S

-- The loop's state after the first acknowledgment, which is for block 0.
unfoldable pub write_start : FileMap → List Bytes → WriteState
write_start files sent = record {
  files = files;
  contents = [];
  expected_block_number = 1;
  retry = max_retry;
  recieved_buffer = replicate 516 0;
  sent = sent;
}

module _ (host : Host) (filename : Bytes) where
  -- From `file.write` to the end of the round.
  pub write_block : WriteState → Bytes → Option (Progress WriteState)
  write_block s recv_data =
      if host.accepts s.contents recv_data
      then (do
        sent ← send_ack s.sent s.expected_block_number
        let t = record s {
          contents = s.contents ++ recv_data;
          sent = sent;
          expected_block_number = u16 (s.expected_block_number + 1);
        }
        some (
            if ltb (length recv_data) 512
            then stop (record t { files = insert filename (pos 0) t.files })
            else again t))
      else (do
        sent ← send_error s.sent error_disk_full disk_full
        some (
            stop (record s {
              contents = s.contents ++ take (host.partial s.contents recv_data) recv_data;
              sent = sent;
            })))

  -- From the opcode on. `recvData` has `readBytes - 4` elements: an array of a negative size, and a
  -- `memset` of it, is undefined.
  pub write_packet : WriteState → ℕ → Option (Progress WriteState)
  write_packet s bytes =
      if not (opcode_of s.recieved_buffer == 3)
      then (do
        sent ← send_error s.sent error_illegal_tftp_operation illegal_operation
        some (again (record s { sent = sent })))
      else if not (block_of s.recieved_buffer == s.expected_block_number)
      then (do
        sent ← send_error s.sent error_not_defined wrong_block
        some (again (record s { sent = sent })))
      else if ltb bytes 4
      then none
      else write_block s (take (bytes - 4) (drop 4 s.recieved_buffer))

  -- One round, from `recvfrom` on, in a state with `retry` above 0.
  pub write_step : WriteState → Event → Option (Progress WriteState)
  write_step s timeout = some (again (record s { retry = s.retry - 1 }))
  write_step s (datagram payload) =
      let bytes = read_bytes s.recieved_buffer payload in
      let t = record s { recieved_buffer = received s.recieved_buffer payload } in
      if ltb 516 bytes
      then (do
        sent ← send_error t.sent error_illegal_tftp_operation illegal_operation
        some (again (record t { sent = sent })))
      else write_packet (record t { retry = max_retry }) bytes

  -- `while (retry)`, over what the socket yields; `again` if it waits for more.
  pub write_loop : WriteState → List Event → Option (Progress WriteState)
  write_loop s [] = some (if s.retry == 0 then stop s else again s)
  write_loop s (e ∷ events) = if s.retry == 0 then some (stop s) else (do
    round ← write_step s e
    elim round [ stop t ↦ some (stop t) | again t ↦ write_loop t events ])

-- The state of the loop in the server's: the file has what was written.
abbrev pub after_write : Server → Bytes → WriteState → Server
after_write server filename t = record {
  files = t.files;
  disk = λ path. if same_text path (path_of filename) then some t.contents else server.disk path;
}

-- How the handler ends, and what it has sent.
pub data Handled : Type 0 where
  returned : Server → List Bytes → Handled
  waiting : Server → List Bytes → Handled

abbrev pub handled : Server → Bytes → Progress WriteState → Handled
handled server filename (stop t) = returned (after_write server filename t) t.sent
handled server filename (again t) = waiting (after_write server filename t) t.sent

pub handle_write_request : Host → Server → Bytes → List Event → Option Handled
handle_write_request host server filename events =
    if file_exists filename server.files
    then (do
      sent ← send_error [] error_file_already_exists already_exists
      some (returned server sent))
    else if not (host.creates (path_of filename))
    then (do sent ← send_error [] error_disk_full disk_full; some (returned server sent))
    else (do
      sent ← send_ack [] 0
      outcome ← write_loop host filename (write_start server.files sent) events
      some (handled server filename outcome))
