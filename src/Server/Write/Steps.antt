-- ===== src/Server/Write/Steps.antt =====
-- One round of the loop of `handleWriteRequest`, branch by branch.
use tftp.Base.{
  ℕ, ◌+◌, ◌-◌, ◌≤◌, ◌<◌, Bytes, true, ◌≡◌, ap, ◌∙◌, some, List, [], ◌∷◌, ◌++◌, length, take, drop,
  take_all, take_prefix, length-append, length-take, length-drop, u16, ltb, if◌then◌else◌, ==-self,
  ne→==, le→ltb, arith,
}
use tftp.Base.Int.{pos}
use tftp.Base.Names.{text_key}
use tftp.Base.StdMap.{insert}
use tftp.Packet.{error_not_defined, error_disk_full, error_illegal_tftp_operation}
use tftp.Packet.Store.{NulFree}
use tftp.Wire.{received, read_bytes, opcode_of, block_of}
use tftp.Wire.Words.{header, opcode_of-header, block_of-header}
use tftp.Server.{
  Host, Event, datagram, max_retry, send_error, illegal_operation, disk_full, wrong_block,
}
use tftp.Server.Replies.{send_error_lem, send_ack_lem}
use tftp.Server.Write.{WriteState, again, stop, write_block, write_packet, write_step, write_loop}

-- An error packet.
abbrev pub error_reply : ℕ → Bytes → Bytes
error_reply code message = header 5 code (message ++ 0 ∷ [])

pub illegal_operation-NulFree : NulFree illegal_operation
unfolding illegal_operation
illegal_operation-NulFree = omega arith

wrong_block-NulFree : NulFree wrong_block
unfolding wrong_block
wrong_block-NulFree = omega arith

disk_full-NulFree : NulFree disk_full
unfolding disk_full
disk_full-NulFree = omega arith

pub send_illegal :
    (sent : List Bytes)
    → send_error sent error_illegal_tftp_operation illegal_operation
      ≡ some (sent ++ error_reply 4 illegal_operation ∷ [])
send_illegal sent = send_error_lem sent 4 illegal_operation illegal_operation-NulFree

pub send_wrong_block :
    (sent : List Bytes)
    → send_error sent error_not_defined wrong_block ≡ some (sent ++ error_reply 0 wrong_block ∷ [])
send_wrong_block sent = send_error_lem sent 0 wrong_block wrong_block-NulFree

pub send_disk_full :
    (sent : List Bytes)
    → send_error sent error_disk_full disk_full ≡ some (sent ++ error_reply 3 disk_full ∷ [])
send_disk_full sent = send_error_lem sent 3 disk_full disk_full-NulFree

-- `recvfrom` keeps the buffer's size, and returns that size at most.
pub length-received : (buffer payload : Bytes) → length (received buffer payload) ≡ length buffer
length-received buffer payload = omega (
  arith,
  length-append (take (length buffer) payload) (drop (length payload) buffer),
  length-take (length buffer) payload,
  length-drop (length payload) buffer,
)

pub received-header :
    (buffer : Bytes) (opcode word : ℕ) (block : Bytes)
    → 4 + length block ≤ length buffer
    → received buffer (header opcode word block)
      ≡ header opcode word (block ++ drop (length (header opcode word block)) buffer)
received-header buffer opcode word block room =
    rw (take_all (length buffer) (header opcode word block) (omega arith))

-- The state after a datagram arrived, before it is looked at.
abbrev pub arrived : WriteState → Bytes → WriteState
arrived s payload = record s {
  recieved_buffer = received s.recieved_buffer payload;
  retry = max_retry;
}

-- The state after a block is written and acknowledged.
abbrev pub acknowledged : WriteState → Bytes → WriteState
acknowledged s block = record s {
  contents = s.contents ++ block;
  sent = s.sent ++ header 4 s.expected_block_number [] ∷ [];
  expected_block_number = u16 (s.expected_block_number + 1);
}

module _ (host : Host) (filename : Bytes) where
  pub write_block_lem :
      (s : WriteState) (block : Bytes)
      → host.accepts s.contents block ≡ true
      → write_block host filename s block
        ≡ some (
            if ltb (length block) 512
            then stop (record (acknowledged s block) { files = insert filename (pos 0) s.files })
            else again (acknowledged s block))
  unfolding write_block
  write_block_lem s block h = rw (h, send_ack_lem s.sent s.expected_block_number)

  pub write_packet_lem :
      (s : WriteState) (block rest : Bytes) (n : ℕ)
      → s.recieved_buffer ≡ header 3 n (block ++ rest)
      → n ≡ s.expected_block_number
      → n < 65536
      → write_packet host filename s (4 + length block) ≡ write_block host filename s block
  unfolding write_packet
  write_packet_lem s block rest n e h small = rw (
    opcode,
    number,
    ==-self s.expected_block_number,
    le→ltb (4 + length block) 4 (omega arith),
    payload,
  )
    where
      opcode : opcode_of s.recieved_buffer ≡ 3
      opcode = ap opcode_of e ∙ opcode_of-header 3 n (block ++ rest) (omega arith)

      number : block_of s.recieved_buffer ≡ s.expected_block_number
      number = ap block_of e ∙ block_of-header 3 n (block ++ rest) small ∙ h

      payload : take (4 + length block - 4) (drop 4 s.recieved_buffer) ≡ block
      payload =
          ap (λ b. take (4 + length block - 4) (drop 4 b)) e
          ∙ take_prefix (4 + length block - 4) block rest (omega arith)

  -- A DATA packet with the expected number is written.
  pub write_step_data :
      (s : WriteState) (n : ℕ) (block : Bytes)
      → length s.recieved_buffer ≡ 516
      → length block ≤ 512
      → n ≡ s.expected_block_number
      → n < 65536
      → write_step host filename s (datagram (header 3 n block))
        ≡ write_block host filename (arrived s (header 3 n block)) block
  unfolding write_step
  write_step_data s n block size short e small =
      let bytes : read_bytes s.recieved_buffer (header 3 n block) ≡ 4 + length block =
        omega arith in
      rw (bytes, le→ltb 516 (4 + length block) (omega arith))
        (write_packet_lem (arrived s (header 3 n block)) block
          (drop (length (header 3 n block)) s.recieved_buffer) n
          (received-header s.recieved_buffer 3 n block (omega arith)) e small)

  pub write_loop_again :
      (s t : WriteState) (e : Event) (events : List Event)
      → 0 < s.retry
      → write_step host filename s e ≡ some (again t)
      → write_loop host filename s (e ∷ events) ≡ write_loop host filename t events
  unfolding write_loop
  write_loop_again s t e events live h = rw (ne→== s.retry 0 (omega arith), h)

  pub write_loop_stop :
      (s t : WriteState) (e : Event) (events : List Event)
      → 0 < s.retry
      → write_step host filename s e ≡ some (stop t)
      → write_loop host filename s (e ∷ events) ≡ some (stop t)
  unfolding write_loop
  write_loop_stop s t e events live h = rw (ne→== s.retry 0 (omega arith), h)
