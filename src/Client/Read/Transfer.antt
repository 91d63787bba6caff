-- ===== src/Client/Read/Transfer.antt =====
-- A read request against a server that sends each block once, and what follows a repeated block.
use tftp.Base.{
  ℕ, ◌+◌, ◌≤◌, ◌<◌, Bytes, Bool, true, not, ◌≡◌, inr, refl, ap, ◌∙◌, sym, some, List, [], ◌∷◌, ◌++◌,
  length, append_assoc, append-nil, All, u16, ltb, ◌==◌, ==_iff, ne→==, if◌then◌else◌, lt→ltb,
  le→ltb, arith,
}
use tftp.Wire.{Address, Incoming, datagram, received, read_bytes}
use tftp.Wire.Words.{header}
use tftp.Server.{Host, max_retry}
use tftp.Server.Write.Steps.{length-received}
use tftp.Server.Write.Transfer.{acks, joined_blocks, IsFull}
use tftp.Client.{ClientState, Outbox, again, finished}
use tftp.Client.Checks.{
  Trusts, settled, check_ip_lem, check_port_lem, received_data-header, send_ack_lem,
  opcode_of-received, block_of-received,
}
use tftp.Client.Read.{rrq_block, rrq_packet, rrq_checked, rrq_verified, rrq_step, rrq_loop}

-- The DATA packets from a peer, numbered from `n` on.
abbrev pub data_from : Address → ℕ → List Bytes → List Incoming
data_from from n [] = []
data_from from n (block ∷ blocks) =
    datagram from (header 3 n block) ∷ data_from from (u16 (n + 1)) blocks

abbrev pub addressed : Address → List Bytes → Outbox
addressed to [] = []
addressed to (packet ∷ packets) = (to, packet) ∷ addressed to packets

module _ (host : Host) (stray : Address) where
  -- A block is written, and acknowledged to the stray address.
  abbrev pub accepted : ClientState → Bytes → ClientState
  accepted s block = record s {
    contents = s.contents ++ block;
    sent = s.sent ++ (stray, header 4 s.expected_block_number []) ∷ [];
    expected_block_number = u16 (s.expected_block_number + 1);
  }

  rrq_block_lem :
      (s : ClientState) (block : Bytes)
      → host.accepts s.contents block ≡ true
      → rrq_block host stray s block
        ≡ some (
            if ltb (length block) 512
            then finished true (accepted s block)
            else again (accepted s block))
  unfolding rrq_block
  rrq_block_lem s block h = rw (h, send_ack_lem s.sent s.expected_block_number stray)

  rrq_step-verified :
      (s : ClientState) (from : Address) (payload : Bytes)
      → length s.recieved_buffer ≡ 516
      → Trusts s from
      → rrq_step host stray s (datagram from payload)
        ≡ rrq_packet host stray (settled s from payload) from (read_bytes s.recieved_buffer payload)
  unfolding rrq_step rrq_checked rrq_verified
  rrq_step-verified s from payload size trusted =
      let bytes = read_bytes s.recieved_buffer payload in
      let t : ClientState = record s {
        retry = max_retry;
        recieved_buffer = received s.recieved_buffer payload;
      } in
      rw (check_ip_lem s from payload size trusted.0) (rw (check_port_lem t from bytes trusted))

  -- A DATA packet of the server, with any number.
  pub rrq_step_data :
      (s : ClientState) (from : Address) (n : ℕ) (block : Bytes)
      → length s.recieved_buffer ≡ 516
      → Trusts s from
      → length block ≤ 512
      → n < 65536
      → rrq_step host stray s (datagram from (header 3 n block)) ≡ (
          if not (n == s.expected_block_number)
          then some (
              again (record (settled s from (header 3 n block)) {
                sent = s.sent ++ (from, header 4 (u16 (s.expected_block_number + 65535)) []) ∷ [];
              }))
          else rrq_block host stray (settled s from (header 3 n block)) block)
  unfolding rrq_packet
  rrq_step_data s from n block size trusted short small =
      rrq_step-verified s from (header 3 n block) size trusted
      ∙ rw (
        opcode_of-received s.recieved_buffer 3 n block size short (omega arith),
        block_of-received s.recieved_buffer 3 n block size short small,
        received_data-header s.recieved_buffer 3 n block size short,
        send_ack_lem s.sent (u16 (s.expected_block_number + 65535)) from,
      )

  pub rrq_loop_again :
      (s t : ClientState) (e : Incoming) (events : List Incoming)
      → 0 < s.retry
      → rrq_step host stray s e ≡ some (again t)
      → rrq_loop host stray s (e ∷ events) ≡ rrq_loop host stray t events
  unfolding rrq_loop
  rrq_loop_again s t e events live h = rw (ne→== s.retry 0 (omega arith), h)

  pub rrq_loop_finished :
      (s t : ClientState) (b : Bool) (e : Incoming) (events : List Incoming)
      → 0 < s.retry
      → rrq_step host stray s e ≡ some (finished b t)
      → rrq_loop host stray s (e ∷ events) ≡ some (finished b t)
  unfolding rrq_loop
  rrq_loop_finished s t b e events live h = rw (ne→== s.retry 0 (omega arith), h)

  -- A state that waits for block `n` from a peer.
  abbrev pub IsWaiting : ClientState → Address → ℕ → Type 0
  IsWaiting s from n =
      (0 < s.retry)
      × (length s.recieved_buffer ≡ 516)
      × Trusts s from
      × (n ≡ s.expected_block_number)
      × (n < 65536)

  pub accepted-IsWaiting :
      (s : ClientState) (from : Address) (n : ℕ) (block : Bytes)
      → IsWaiting s from n
      → IsWaiting (accepted (settled s from (header 3 n block)) block) from (u16 (n + 1))
  accepted-IsWaiting s from n block w = (
    omega arith,
    length-received s.recieved_buffer (header 3 n block) ∙ w.1,
    (refl, inr refl),
    ap (λ (i : ℕ). u16 (i + 1)) w.3,
    omega arith,
  )

  module _ (accepts : (c b : Bytes) → host.accepts c b ≡ true) where
    pub full_step :
        (s : ClientState) (from : Address) (n : ℕ) (block : Bytes)
        → IsWaiting s from n
        → IsFull block
        → rrq_step host stray s (datagram from (header 3 n block))
          ≡ some (again (accepted (settled s from (header 3 n block)) block))
    full_step s from n block w full =
        rrq_step_data s from n block w.1 w.2 (omega (arith, full)) w.4
        ∙ rw ((==_iff n s.expected_block_number).1 w.3) (
            rw (le→ltb (length block) 512 (omega (arith, full))) at
              (rrq_block_lem (settled s from (header 3 n block)) block (accepts s.contents block)))

    pub last_step :
        (s : ClientState) (from : Address) (n : ℕ) (block : Bytes)
        → IsWaiting s from n
        → length block < 512
        → rrq_step host stray s (datagram from (header 3 n block))
          ≡ some (finished true (accepted (settled s from (header 3 n block)) block))
    last_step s from n block w short =
        rrq_step_data s from n block w.1 w.2 (omega (arith, short)) w.4
        ∙ rw ((==_iff n s.expected_block_number).1 w.3) (
            rw (lt→ltb (length block) 512 short) at
              (rrq_block_lem (settled s from (header 3 n block)) block (accepts s.contents block)))

    pub rrq_loop_receives :
        (full : List Bytes) (last : Bytes) (s : ClientState) (from : Address) (n : ℕ)
        → IsWaiting s from n
        → All IsFull full
        → length last < 512
        → (t : ClientState) × (rrq_loop host stray s (data_from from n (full ++ last ∷ []))
            ≡ some (finished true t))
          × (t.contents ≡ s.contents ++ joined_blocks (full ++ last ∷ []))
          × (t.sent ≡ s.sent ++ addressed stray (acks n (full ++ last ∷ [])))
    rrq_loop_receives [] last s from n w hf short = (
      accepted (settled s from (header 3 n last)) last,
      rrq_loop_finished s _ true _ [] w.0 (last_step s from n last w short),
      ap (◌++◌ s.contents) (sym (append-nil last)),
      ap (λ (i : ℕ). s.sent ++ (stray, header 4 i []) ∷ []) (sym w.3),
    )
    rrq_loop_receives (block ∷ full) last s from n w hf short =
        let next = accepted (settled s from (header 3 n block)) block in
        let (t, run, got, acked) =
          rrq_loop_receives full last next from (u16 (n + 1)) (accepted-IsWaiting s from n block w)
            hf.1 short in
        (
          t,
          rrq_loop_again s next _ _ w.0 (full_step s from n block w hf.0) ∙ run,
          got ∙ append_assoc s.contents block (joined_blocks (full ++ last ∷ [])),
          acked
              ∙ append_assoc s.sent ((stray, header 4 s.expected_block_number []) ∷ [])
                  (addressed stray (acks (u16 (n + 1)) (full ++ last ∷ [])))
              ∙ ap
                  (λ (i : ℕ).
                    s.sent
                    ++ (stray, header 4 i [])
                      ∷ addressed stray (acks (u16 (n + 1)) (full ++ last ∷ [])))
                  (sym w.3),
        )
