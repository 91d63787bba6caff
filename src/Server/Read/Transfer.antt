-- ===== src/Server/Read/Transfer.antt =====
-- A whole transfer: a client that acknowledges each block is sent the file.
use tftp.Base.{
  ℕ, zero, suc, ◌+◌, ◌*◌, ◌≤◌, ◌<◌, Bytes, ◌≡◌, ◌≢◌, refl, sym, ◌∙◌, some, List, [], ◌∷◌, ◌++◌,
  length, u16, le→ltb, lt→ltb, append_assoc, append-nil, arith,
}
use tftp.Packet.{read_data_block}
use tftp.Packet.File.{length-read_data_block}
use tftp.Wire.{ack_block_of}
use tftp.Wire.Words.{header, ack_block_of-low}
use tftp.Base.Names.{text_key}
use tftp.Server.{max_retry}
use tftp.Server.Write.{again, stop}
use tftp.Server.Read.{Reply, datagram, ReadState, read_receive, read_loop}
use tftp.Server.Read.Steps.{read_receive_ack, read_loop_again, read_loop_stop, read_loop_end}

-- The ACKs for `count` blocks behind the first `n`, over whatever `ackBuffer` held.
abbrev pub ack_replies : Bytes → ℕ → ℕ → List Reply
ack_replies ack_buffer n zero = []
ack_replies ack_buffer n (suc count) =
    datagram ack_buffer (header 4 (suc n) []) ∷ ack_replies ack_buffer (suc n) count

-- The DATA packets of those blocks of a file.
abbrev pub block_packets : Bytes → ℕ → ℕ → List Bytes
block_packets contents n zero = []
block_packets contents n (suc count) =
    header 3 (suc n) (read_data_block (some contents) (suc n))
    ∷ block_packets contents (suc n) count

-- The loop's variables at block `suc n`.
abbrev pub at_block : ℕ → ℕ → List Bytes → ReadState
at_block n retry sent = record { block_number = suc n; retry = retry; sent = sent }

module _ (contents ack_buffer : Bytes) (size : length ack_buffer ≡ 4) where
  abbrev packet : ℕ → Bytes
  packet n = header 3 (suc n) (read_data_block (some contents) (suc n))

  ack_read : (n : ℕ) → suc n < 128 → ack_block_of (header 4 (suc n) []) ≡ suc n
  ack_read n small = ack_block_of-low 4 (suc n) [] (omega arith) (omega arith)

  -- A full block whose number the handler reads right.
  pub full_round :
      (n retry : ℕ) (sent : List Bytes)
      → suc n < 128
      → suc n * 512 ≤ length contents
      → read_receive
          (some contents)
          (at_block n retry (sent ++ packet n ∷ []))
          (datagram ack_buffer (header 4 (suc n) []))
        ≡ some (again (at_block (suc n) max_retry (sent ++ packet n ∷ [])))
  full_round n retry sent small full =
      read_receive_ack (some contents) (at_block n retry (sent ++ packet n ∷ [])) ack_buffer (suc n)
        size (ack_read n small)
      ∙ rw (
        le→ltb (length (read_data_block (some contents) (suc n))) 512
            (omega (arith, length-read_data_block contents n)),
        next,
      )
    where
      next : u16 (suc n + 1) ≡ suc (suc n)
      next = omega arith

  last_round :
      (n retry : ℕ) (sent : List Bytes)
      → suc n < 128
      → length contents < n * 512 + 512
      → read_receive
          (some contents)
          (at_block n retry (sent ++ packet n ∷ []))
          (datagram ack_buffer (header 4 (suc n) []))
        ≡ some (stop (at_block n max_retry (sent ++ packet n ∷ [])))
  last_round n retry sent small short =
      read_receive_ack (some contents) (at_block n retry (sent ++ packet n ∷ [])) ack_buffer (suc n)
        size (ack_read n small)
      ∙ rw (
          lt→ltb (length (read_data_block (some contents) (suc n))) 512
            (omega (arith, length-read_data_block contents n)))

  -- A block of the file has bytes.
  pub block_ne_zero :
      (n : ℕ) → n * 512 < length contents → length (read_data_block (some contents) (suc n)) ≢ 0
  block_ne_zero n h e = omega (arith, length-read_data_block contents n, e)

  pub read_loop_sends :
      (m n retry : ℕ) (sent : List Bytes)
      → 0 < retry
      → n + m < 127
      → (n + m) * 512 < length contents
      → length contents < (n + m) * 512 + 512
      → (t : ReadState) × (read_loop
            (some contents)
            (at_block n retry sent)
            (ack_replies ack_buffer n (suc m))
          ≡ some (stop t))
        × (t.sent ≡ sent ++ block_packets contents n (suc m))
  read_loop_sends zero n retry sent live small lower upper = (
    _,
    read_loop_stop (some contents) (at_block n retry sent) _ _ [] live
        (block_ne_zero n (omega arith)) (last_round n retry sent (omega arith) (omega arith)),
    refl,
  )
  read_loop_sends (suc m) n retry sent live small lower upper =
      let (t, run, got) =
        read_loop_sends m (suc n) max_retry (sent ++ packet n ∷ []) (omega arith) (omega arith)
          (omega arith) (omega arith) in
      (
        t,
        read_loop_again (some contents) (at_block n retry sent)
              (at_block (suc n) max_retry (sent ++ packet n ∷ [])) _ _ live
              (block_ne_zero n (omega arith)) (full_round n retry sent (omega arith) (omega arith))
            ∙ run,
        got ∙ append_assoc sent (packet n ∷ []) (block_packets contents (suc n) (suc m)),
      )

  -- The same where the last block is full: the loop stops at the end of the file, unasked.
  pub read_loop_sends_full :
      (m n retry : ℕ) (sent : List Bytes)
      → 0 < retry
      → n + m < 128
      → (n + m) * 512 ≡ length contents
      → (t : ReadState) × (read_loop
            (some contents)
            (at_block n retry sent)
            (ack_replies ack_buffer n m)
          ≡ some (stop t))
        × (t.sent ≡ sent ++ block_packets contents n m)
  read_loop_sends_full zero n retry sent live small whole = (
    _,
    read_loop_end (some contents) (at_block n retry sent) []
        (omega (arith, length-read_data_block contents n)),
    sym (append-nil sent),
  )
  read_loop_sends_full (suc m) n retry sent live small whole =
      let (t, run, got) =
        read_loop_sends_full m (suc n) max_retry (sent ++ packet n ∷ []) (omega arith) (omega arith)
          (omega arith) in
      (
        t,
        read_loop_again (some contents) (at_block n retry sent)
              (at_block (suc n) max_retry (sent ++ packet n ∷ [])) _ _ live
              (block_ne_zero n (omega arith)) (full_round n retry sent (omega arith) (omega arith))
            ∙ run,
        got ∙ append_assoc sent (packet n ∷ []) (block_packets contents (suc n) m),
      )
