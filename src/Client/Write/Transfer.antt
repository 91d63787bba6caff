-- ===== src/Client/Write/Transfer.antt =====
-- A write request against a server that acknowledges each block.
use tftp.Base.{
  ℕ, zero, suc, ◌+◌, ◌*◌, ◌≤◌, ◌<◌, Bytes, Bool, true, false, ◌≡◌, inr, refl, ◌∙◌, sym, some, List,
  [], ◌∷◌, ◌++◌, length, map, length-replicate, replicate, append_assoc, append-nil, u16, ltb,
  ==_iff, ne→==, if◌then◌else◌, lt→ltb, le→ltb, arith,
}
use tftp.Packet.{read_data_block}
use tftp.Packet.File.{length-read_data_block}
use tftp.Wire.{Address, Incoming, datagram, received, read_bytes}
use tftp.Wire.Words.{header}
use tftp.Server.{max_retry}
use tftp.Server.Read.Steps.{data_packet_lem, length-read_data_block-le}
use tftp.Server.Read.Transfer.{block_packets}
use tftp.Client.{ClientState, again, finished}
use tftp.Client.Checks.{
  Trusts, settled, check_ip_lem, check_port_lem, opcode_of-received, block_of-received,
}
use tftp.Client.Read.Transfer.{addressed}
use tftp.Client.Write.{wrq_send, wrq_packet, wrq_checked, wrq_verified, wrq_step, wrq_loop}

-- The acknowledgments for `count` blocks from `n` on.
abbrev pub ack_headers : ℕ → ℕ → List Bytes
ack_headers n zero = []
ack_headers n (suc count) = header 4 n [] ∷ ack_headers (suc n) count

abbrev pub acks_from : Address → ℕ → ℕ → List Incoming
acks_from from n count = map (datagram from) (ack_headers n count)

-- A state that waits for the acknowledgment of block `n` from a peer.
abbrev pub IsExpecting : ClientState → Address → ℕ → Type 0
IsExpecting s from n = (0 < s.retry) × Trusts s from × (n ≡ s.expected_block_number)

module _ (contents : Bytes) (delivers : ℕ → Bool) where
  -- The state after an acknowledgment, before the next block.
  abbrev heard : ClientState → Address → ℕ → ClientState
  heard s from n = settled (record s { recieved_buffer = replicate 516 0 }) from (header 4 n [])

  wrq_step_ack :
      (s : ClientState) (from : Address) (n : ℕ)
      → IsExpecting s from n
      → n < 65536
      → wrq_step contents delivers s (datagram from (header 4 n []))
        ≡ wrq_send contents delivers (heard s from n) from
  unfolding wrq_step wrq_checked wrq_verified wrq_packet
  wrq_step_ack s from n w small =
      let blank : ClientState = record s { recieved_buffer = replicate 516 0 } in
      let payload : Bytes = header 4 n [] in
      let bytes = read_bytes blank.recieved_buffer payload in
      let t : ClientState = record blank {
        retry = max_retry;
        recieved_buffer = received blank.recieved_buffer payload;
      } in
      let size = length-replicate {A = ℕ} 516 0 in
      rw (check_ip_lem blank from payload size w.1.0) (
        rw (
          check_port_lem t from bytes w.1,
          opcode_of-received (replicate 516 0) 4 n [] size (omega arith) (omega arith),
          block_of-received (replicate 516 0) 4 n [] size (omega arith) small,
          (==_iff n s.expected_block_number).1 w.2,
        ))

  -- The state after block `suc n` is sent.
  abbrev pub sent_block : ClientState → Address → ℕ → ClientState
  sent_block s from n = record (heard s from n) {
    expected_block_number = suc n;
    sent = s.sent ++ (from, header 3 (suc n) (read_data_block (some contents) (suc n))) ∷ [];
  }

  wrq_send_block :
      (s : ClientState) (from : Address) (n : ℕ)
      → n ≡ s.expected_block_number
      → n < 65535
      → n * 512 < length contents
      → delivers (suc n) ≡ true
      → wrq_send contents delivers (heard s from n) from
        ≡ some (
            if ltb (length (read_data_block (some contents) (suc n))) 512
            then finished true (sent_block s from n)
            else again (sent_block s from n))
  unfolding wrq_send
  wrq_send_block s from n e small some_left delivered =
      let next : u16 (s.expected_block_number + 1) ≡ suc n = omega (arith, e) in
      rw (
        next,
        ne→== (length (read_data_block (some contents) (suc n))) 0
            (λ h. omega (arith, length-read_data_block contents n, h)),
        data_packet_lem (suc n) (read_data_block (some contents) (suc n))
            (length-read_data_block-le (some contents) (suc n)),
        delivered,
      )

  -- The end of the file: the handler returns false.
  wrq_send_end :
      (s : ClientState) (from : Address) (n : ℕ)
      → n ≡ s.expected_block_number
      → n < 65535
      → length contents ≤ n * 512
      → wrq_send contents delivers (heard s from n) from
        ≡ some (finished false (record (heard s from n) { expected_block_number = suc n }))
  unfolding wrq_send
  wrq_send_end s from n e small none_left =
      let next : u16 (s.expected_block_number + 1) ≡ suc n = omega (arith, e) in
      let empty : length (read_data_block (some contents) (suc n)) ≡ 0 =
        omega (arith, length-read_data_block contents n) in
      rw (next, (==_iff (length (read_data_block (some contents) (suc n))) 0).1 empty)

  wrq_loop_again :
      (s t : ClientState) (e : Incoming) (events : List Incoming)
      → 0 < s.retry
      → wrq_step contents delivers s e ≡ some (again t)
      → wrq_loop contents delivers s (e ∷ events) ≡ wrq_loop contents delivers t events
  unfolding wrq_loop
  wrq_loop_again s t e events live h = rw (ne→== s.retry 0 (omega arith), h)

  wrq_loop_finished :
      (s t : ClientState) (b : Bool) (e : Incoming) (events : List Incoming)
      → 0 < s.retry
      → wrq_step contents delivers s e ≡ some (finished b t)
      → wrq_loop contents delivers s (e ∷ events) ≡ some (finished b t)
  unfolding wrq_loop
  wrq_loop_finished s t b e events live h = rw (ne→== s.retry 0 (omega arith), h)

  module _ (delivered : (n : ℕ) → delivers n ≡ true) where
    full_step :
        (s : ClientState) (from : Address) (n : ℕ)
        → IsExpecting s from n
        → n < 65535
        → suc n * 512 ≤ length contents
        → wrq_step contents delivers s (datagram from (header 4 n []))
          ≡ some (again (sent_block s from n))
    full_step s from n w small full =
        wrq_step_ack s from n w (omega arith)
        ∙ rw
            (le→ltb (length (read_data_block (some contents) (suc n))) 512
              (omega (arith, length-read_data_block contents n)))
            at (wrq_send_block s from n w.2 small (omega arith) (delivered (suc n)))

    last_step :
        (s : ClientState) (from : Address) (n : ℕ)
        → IsExpecting s from n
        → n < 65535
        → n * 512 < length contents
        → length contents < n * 512 + 512
        → wrq_step contents delivers s (datagram from (header 4 n []))
          ≡ some (finished true (sent_block s from n))
    last_step s from n w small lower upper =
        wrq_step_ack s from n w (omega arith)
        ∙ rw
            (lt→ltb (length (read_data_block (some contents) (suc n))) 512
              (omega (arith, length-read_data_block contents n)))
            at (wrq_send_block s from n w.2 small lower (delivered (suc n)))

    -- What is still to come after the last acknowledgment is not looked at.
    pub wrq_loop_sends :
        (m n : ℕ) (s : ClientState) (from : Address) (later : List Incoming)
        → IsExpecting s from n
        → n + m < 65535
        → (n + m) * 512 < length contents
        → length contents < (n + m) * 512 + 512
        → (t : ClientState) × (wrq_loop contents delivers s (acks_from from n (suc m) ++ later)
            ≡ some (finished true t))
          × (t.sent ≡ s.sent ++ addressed from (block_packets contents n (suc m)))
    wrq_loop_sends zero n s from later w small lower upper = (
      sent_block s from n,
      wrq_loop_finished s _ true _ later w.0
          (last_step s from n w (omega arith) (omega arith) (omega arith)),
      refl,
    )
    wrq_loop_sends (suc m) n s from later w small lower upper =
        let (t, run, got) =
          wrq_loop_sends m (suc n) (sent_block s from n) from later
            (omega arith, (refl, inr refl), refl) (omega arith) (omega arith) (omega arith) in
        (
          t,
          wrq_loop_again s (sent_block s from n) _ _ w.0
                (full_step s from n w (omega arith) (omega arith))
              ∙ run,
          got
              ∙ append_assoc s.sent
                  ((from, header 3 (suc n) (read_data_block (some contents) (suc n))) ∷ [])
                  (addressed from (block_packets contents (suc n) (suc m))),
        )

    -- The same where the last block is full.
    pub wrq_loop_sends_full :
        (m n : ℕ) (s : ClientState) (from : Address)
        → IsExpecting s from n
        → n + m < 65535
        → (n + m) * 512 ≡ length contents
        → (t : ClientState) × (wrq_loop contents delivers s (acks_from from n (suc m))
            ≡ some (finished false t))
          × (t.sent ≡ s.sent ++ addressed from (block_packets contents n m))
    wrq_loop_sends_full zero n s from w small whole = (
      record (heard s from n) { expected_block_number = suc n },
      wrq_loop_finished s _ false _ [] w.0 (
          wrq_step_ack s from n w (omega arith)
          ∙ wrq_send_end s from n w.2 (omega arith) (omega arith)),
      sym (append-nil s.sent),
    )
    wrq_loop_sends_full (suc m) n s from w small whole =
        let (t, run, got) =
          wrq_loop_sends_full m (suc n) (sent_block s from n) from
            (omega arith, (refl, inr refl), refl) (omega arith) (omega arith) in
        (
          t,
          wrq_loop_again s (sent_block s from n) _ _ w.0
                (full_step s from n w (omega arith) (omega arith))
              ∙ run,
          got
              ∙ append_assoc s.sent
                  ((from, header 3 (suc n) (read_data_block (some contents) (suc n))) ∷ [])
                  (addressed from (block_packets contents (suc n) m)),
        )
