-- ===== src/Server/Read/Steps.antt =====
-- One round of the loop of `handleReadRequest`, branch by branch.
use tftp.Base.{
  ℕ, zero, suc, ◌+◌, ◌-◌, ◌*◌, ◌≤◌, ◌<◌, Bytes, ◌≡◌, ◌≢◌, refl, Option, none, some, List, [], ◌∷◌,
  ◌++◌, length, drop, replicate, length-append, length-take, length-replicate, take_prefix,
  drop_all, u16, ltb, if◌then◌else◌, ==-self, ==_iff, ne→==, le→ltb, arith,
}
use tftp.Packet.{read_data_block}
use tftp.Packet.Layout.{data_layout}
use tftp.Wire.{received, read_bytes, ack_block_of}
use tftp.Wire.Words.{header, ack_opcode_of-header}
use tftp.Server.{max_retry, illegal_operation}
use tftp.Server.Write.{again, stop}
use tftp.Server.Write.Steps.{error_reply, illegal_operation-NulFree}
use tftp.Server.Replies.{send_error_lem}
use tftp.Server.Read.{
  Reply, timeout, datagram, ReadState, data_packet, read_send, read_receive, read_loop,
}

-- What goes out for a block is its DATA packet, without the padding of the buffers.
pub data_packet_lem :
    (n : ℕ) (block : Bytes) → length block ≤ 512 → data_packet n block ≡ some (header 3 n block)
unfolding data_packet
data_packet_lem n block short =
    rw
      (
        data_layout (replicate 516 0) n (block ++ replicate (512 - length block) 0) (length block)
            (omega (arith, length-append block (replicate (512 - length block) 0)))
            (omega (arith, length-replicate {A = ℕ} 516 0)),
        take_prefix (length block) block (replicate (512 - length block) 0) refl,
      )
      (let e : length block + 4 ≡ suc (suc (suc (suc (length block)))) = omega arith in
        rw (e, take_prefix (length block) block (drop (4 + length block) (replicate 516 0)) refl))

pub length-read_data_block-le :
    (contents : Option Bytes) (n : ℕ) → length (read_data_block contents n) ≤ 512
unfolding read_data_block
length-read_data_block-le none n = omega arith
length-read_data_block-le (some contents) zero = omega arith
length-read_data_block-le (some contents) (suc n) =
    omega (arith, length-take 512 (drop (n * 512) contents))

-- An ACK fills `ackBuffer`.
received_ack :
    (ack_buffer : Bytes) (n : ℕ)
    → length ack_buffer ≡ 4
    → received ack_buffer (header 4 n []) ≡ header 4 n []
received_ack ack_buffer n size = rw (size, drop_all 4 ack_buffer (omega arith))

module _ (contents : Option Bytes) where
  -- The state after the block's packet went out.
  abbrev pub transmitted : ReadState → ReadState
  transmitted s = record s {
    sent = s.sent ++ header 3 s.block_number (read_data_block contents s.block_number) ∷ [];
  }

  pub read_send_block :
      (s : ReadState)
      → length (read_data_block contents s.block_number) ≢ 0
      → read_send contents s ≡ some (again (transmitted s))
  unfolding read_send
  read_send_block s h = rw (
    ne→== (length (read_data_block contents s.block_number)) 0 h,
    data_packet_lem s.block_number (read_data_block contents s.block_number)
        (length-read_data_block-le contents s.block_number),
  )

  pub read_send_end :
      (s : ReadState)
      → length (read_data_block contents s.block_number) ≡ 0
      → read_send contents s ≡ some (stop s)
  unfolding read_send
  read_send_end s h = rw h

  -- An ACK that the handler reads as the one for the current block.
  pub read_receive_ack :
      (s : ReadState) (ack_buffer : Bytes) (n : ℕ)
      → length ack_buffer ≡ 4
      → ack_block_of (header 4 n []) ≡ s.block_number
      → read_receive contents s (datagram ack_buffer (header 4 n []))
        ≡ some (
            if ltb (length (read_data_block contents s.block_number)) 512
            then stop (record s { retry = max_retry })
            else again (record s { retry = max_retry; block_number = u16 (s.block_number + 1) }))
  unfolding read_receive
  read_receive_ack s ack_buffer n size h = rw (
    le→ltb 516 (read_bytes ack_buffer (header 4 n [])) (omega arith),
    received_ack ack_buffer n size,
    ack_opcode_of-header 4 n [] (omega arith),
    h,
    ==-self s.block_number,
  )

  -- Any other ACK.
  pub read_receive_refused :
      (s : ReadState) (ack_buffer : Bytes) (n : ℕ)
      → length ack_buffer ≡ 4
      → ack_block_of (header 4 n []) ≢ s.block_number
      → read_receive contents s (datagram ack_buffer (header 4 n []))
        ≡ some (
            again (record s {
              retry = max_retry;
              sent = s.sent ++ error_reply 2 illegal_operation ∷ [];
            }))
  unfolding read_receive
  read_receive_refused s ack_buffer n size h = rw (
    le→ltb 516 (read_bytes ack_buffer (header 4 n [])) (omega arith),
    received_ack ack_buffer n size,
    ack_opcode_of-header 4 n [] (omega arith),
    ne→== (ack_block_of (header 4 n [])) s.block_number h,
    send_error_lem s.sent 2 illegal_operation illegal_operation-NulFree,
  )

  -- The loop, round by round.
  pub read_loop_again :
      (s u : ReadState) (e : Reply) (replies : List Reply)
      → 0 < s.retry
      → length (read_data_block contents s.block_number) ≢ 0
      → read_receive contents (transmitted s) e ≡ some (again u)
      → read_loop contents s (e ∷ replies) ≡ read_loop contents u replies
  unfolding read_loop
  read_loop_again s u e replies live h k =
      rw (ne→== s.retry 0 (omega arith), read_send_block s h, k)

  pub read_loop_stop :
      (s u : ReadState) (e : Reply) (replies : List Reply)
      → 0 < s.retry
      → length (read_data_block contents s.block_number) ≢ 0
      → read_receive contents (transmitted s) e ≡ some (stop u)
      → read_loop contents s (e ∷ replies) ≡ some (stop u)
  unfolding read_loop
  read_loop_stop s u e replies live h k = rw (ne→== s.retry 0 (omega arith), read_send_block s h, k)

  pub read_loop_end :
      (s : ReadState) (replies : List Reply)
      → length (read_data_block contents s.block_number) ≡ 0
      → read_loop contents s replies ≡ some (stop s)
  unfolding read_loop
  read_loop_end s [] h = ground (arith, read_send_end s h)
  read_loop_end s (e ∷ replies) h = ground (arith, read_send_end s h)

  pub read_receive_timeout :
      (s : ReadState)
      → read_receive contents s timeout ≡ some (again (record s { retry = s.retry - 1 }))
  unfolding read_receive
  read_receive_timeout s = refl

  pub read_loop_ended :
      (s : ReadState) (replies : List Reply)
      → s.retry ≡ 0
      → read_loop contents s replies ≡ some (stop s)
  unfolding read_loop
  read_loop_ended s [] h = rw ((==_iff s.retry 0).1 h)
  read_loop_ended s (e ∷ replies) h = rw ((==_iff s.retry 0).1 h)

  pub read_loop_waits :
      (s : ReadState)
      → s.retry ≢ 0
      → length (read_data_block contents s.block_number) ≢ 0
      → read_loop contents s [] ≡ some (again (transmitted s))
  unfolding read_loop
  read_loop_waits s live h = rw (ne→== s.retry 0 live, read_send_block s h)
