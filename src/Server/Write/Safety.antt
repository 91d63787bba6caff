-- ===== src/Server/Write/Safety.antt =====
-- What holds of the loop of `handleWriteRequest` whatever the socket yields.
use tftp.Base.{
  ℕ, ◌-◌, ◌≤◌, ◌<◌, Bytes, true, false, ◌≡◌, ◌≢◌, ◌↔◌, ◌⊎◌, inl, inr, refl, sym, ◌∙◌, none, some,
  [], ◌∷◌, ◌++◌, length, take, drop, ◌==◌, ==_iff, if◌then◌else◌, Bool-cases, le→ltb, lt→ltb, arith,
}
use tftp.Base.Names.{text_key}
use tftp.Wire.{received, read_bytes, opcode_of, block_of}
use tftp.Server.{Host, Event, timeout, datagram, illegal_operation, wrong_block}
use tftp.Server.Replies.{send_ack_lem}
use native.Mathlib.Decide.{ℕ_discrete, dec_lt}
use tftp.Server.Write.{WriteState, again, write_block, write_packet, write_step}
use tftp.Server.Write.Steps.{error_reply, send_illegal, send_wrong_block, send_disk_full, arrived}

-- The loop expects this packet: DATA with the next number, in the buffer as it stands after the
-- datagram arrived.
abbrev pub IsExpected : WriteState → Bytes → Type 0
IsExpected s payload =
    (opcode_of (received s.recieved_buffer payload) ≡ 3)
    × (block_of (received s.recieved_buffer payload) ≡ s.expected_block_number)

-- What it answers to any other.
abbrev pub rejection : WriteState → Bytes → Bytes
rejection s payload =
    if opcode_of (received s.recieved_buffer payload) == 3
    then error_reply 0 wrong_block
    else error_reply 4 illegal_operation

pub IsExpected-cases :
    (s : WriteState) (payload : Bytes) → IsExpected s payload ⊎ (¬ IsExpected s payload)
IsExpected-cases s payload = elim (ℕ_discrete (opcode_of (received s.recieved_buffer payload)) 3) [
  | no n ↦ inr (λ h. n h.0)
  | yes e ↦
      elim (ℕ_discrete (block_of (received s.recieved_buffer payload)) s.expected_block_number) [
        | no n ↦ inr (λ h. n h.1)
        | yes k ↦ inl (e, k)
      ]
]

-- The data that the handler takes from a datagram.
abbrev pub data_of : WriteState → Bytes → Bytes
data_of s payload =
    take (read_bytes s.recieved_buffer payload - 4) (drop 4 (received s.recieved_buffer payload))

-- A datagram with a whole header.
abbrev pub IsWhole : Event → Type 0
IsWhole timeout = Unit {0}
IsWhole (datagram payload) = 4 ≤ length payload

module _ (host : Host) (filename : Bytes) where
  -- A datagram reaches the checks of its opcode: it is never longer than the buffer.
  write_step_datagram :
      (s : WriteState) (payload : Bytes)
      → length s.recieved_buffer ≡ 516
      → write_step host filename s (datagram payload)
        ≡ write_packet host filename (arrived s payload) (read_bytes s.recieved_buffer payload)
  unfolding write_step
  write_step_datagram s payload size =
      rw (le→ltb 516 (read_bytes s.recieved_buffer payload) (omega arith))

  write_packet_opcode :
      (s : WriteState) (bytes : ℕ)
      → (opcode_of s.recieved_buffer == 3) ≡ false
      → write_packet host filename s bytes
        ≡ some (again (record s { sent = s.sent ++ error_reply 4 illegal_operation ∷ [] }))
  unfolding write_packet
  write_packet_opcode s bytes h = rw (h, send_illegal s.sent)

  write_packet_block :
      (s : WriteState) (bytes : ℕ)
      → (opcode_of s.recieved_buffer == 3) ≡ true
      → (block_of s.recieved_buffer == s.expected_block_number) ≡ false
      → write_packet host filename s bytes
        ≡ some (again (record s { sent = s.sent ++ error_reply 0 wrong_block ∷ [] }))
  unfolding write_packet
  write_packet_block s bytes h k = rw (h, k, send_wrong_block s.sent)

  write_packet_short :
      (s : WriteState) (bytes : ℕ)
      → (opcode_of s.recieved_buffer == 3) ≡ true
      → (block_of s.recieved_buffer == s.expected_block_number) ≡ true
      → bytes < 4
      → write_packet host filename s bytes ≡ none
  unfolding write_packet
  write_packet_short s bytes h k short = rw (h, k, lt→ltb bytes 4 short)

  write_packet_whole :
      (s : WriteState) (bytes : ℕ)
      → (opcode_of s.recieved_buffer == 3) ≡ true
      → (block_of s.recieved_buffer == s.expected_block_number) ≡ true
      → 4 ≤ bytes
      → write_packet host filename s bytes
        ≡ write_block host filename s (take (bytes - 4) (drop 4 s.recieved_buffer))
  unfolding write_packet
  write_packet_whole s bytes h k whole = rw (h, k, le→ltb bytes 4 whole)

  -- With a receive buffer of 516 bytes, a datagram that does not read as DATA with the expected
  -- number is answered by one error packet, of code 0 for DATA with another number and of code 4
  -- else; the file, the table and the expected number stay, and the retries are filled up.
  pub write_step_rejects :
      (s : WriteState) (payload : Bytes)
      → length s.recieved_buffer ≡ 516
      → ¬ IsExpected s payload
      → write_step host filename s (datagram payload)
        ≡ some (again (record (arrived s payload) { sent = s.sent ++ rejection s payload ∷ [] }))
  write_step_rejects s payload size other =
      write_step_datagram s payload size ∙ elim (Bool-cases (opcode_of buffer == 3)) [
        | inr e ↦ rw e (write_packet_opcode (arrived s payload) bytes e)
        | inl e ↦ elim (Bool-cases (block_of buffer == s.expected_block_number)) [
          | inr k ↦ rw e (write_packet_block (arrived s payload) bytes e k)
          | inl k ↦ absurd (other ((==_iff _ _).0 e, (==_iff _ _).0 k))
        ]
      ]
    where
      buffer : Bytes
      buffer = received s.recieved_buffer payload

      bytes : ℕ
      bytes = read_bytes s.recieved_buffer payload

  write_block-ne-none : (s : WriteState) (block : Bytes) → write_block host filename s block ≢ none
  unfolding write_block
  write_block-ne-none s block e =
      ground (arith, send_ack_lem s.sent s.expected_block_number, send_disk_full s.sent)

  pub write_step_whole :
      (s : WriteState) (payload : Bytes)
      → length s.recieved_buffer ≡ 516
      → IsExpected s payload
      → 4 ≤ length payload
      → write_step host filename s (datagram payload)
        ≡ write_block host filename (arrived s payload) (data_of s payload)
  write_step_whole s payload size h whole =
      write_step_datagram s payload size
      ∙ write_packet_whole (arrived s payload) (read_bytes s.recieved_buffer payload)
          ((==_iff _ _).1 h.0) ((==_iff _ _).1 h.1) (omega arith)

  write_step_short :
      (s : WriteState) (payload : Bytes)
      → length s.recieved_buffer ≡ 516
      → IsExpected s payload
      → length payload < 4
      → write_step host filename s (datagram payload) ≡ none
  write_step_short s payload size h short =
      write_step_datagram s payload size
      ∙ write_packet_short (arrived s payload) (read_bytes s.recieved_buffer payload)
          ((==_iff _ _).1 h.0) ((==_iff _ _).1 h.1) (omega arith)

  -- With a receive buffer of 516 bytes, a datagram makes the behaviour of handleWriteRequest
  -- undefined exactly when it has fewer than four bytes and the buffer, with what an earlier
  -- datagram left, reads as DATA with the expected number.
  pub write_step-eq-none :
      (s : WriteState) (payload : Bytes)
      → length s.recieved_buffer ≡ 516
      → (write_step host filename s (datagram payload) ≡ none)
        ↔ (IsExpected s payload × (length payload < 4))
  write_step-eq-none s payload size = (faults, λ h. write_step_short s payload size h.0 h.1)
    where
      faults :
          write_step host filename s (datagram payload) ≡ none
          → IsExpected s payload × (length payload < 4)
      faults e = elim (IsExpected-cases s payload) [
        | inr n ↦ cc (e, write_step_rejects s payload size n)
        | inl h ↦ elim (dec_lt (length payload) 4) [
          | yes short ↦ (h, short)
          | no whole ↦ absurd (
              write_block-ne-none (arrived s payload) (data_of s payload)
                (sym (write_step_whole s payload size h (omega arith)) ∙ e))
        ]
      ]

  pub write_step_timeout :
      (s : WriteState)
      → write_step host filename s timeout ≡ some (again (record s { retry = s.retry - 1 }))
  unfolding write_step
  write_step_timeout s = refl

  -- So it is defined on datagrams of four bytes or more.
  write_step-ne-none :
      (s : WriteState) (e : Event)
      → length s.recieved_buffer ≡ 516
      → IsWhole e
      → write_step host filename s e ≢ none
  write_step-ne-none s timeout size h e = cc (e, write_step_timeout s)
  write_step-ne-none s (datagram payload) size h e =
      absurd (omega (arith, (write_step-eq-none s payload size).0 e))
