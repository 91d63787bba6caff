-- ===== src/Server/Read/Acks.antt =====
-- The acknowledgments that `handleReadRequest` reads wrongly: `ackBuffer[2] << 8 | ackBuffer[3]` is
-- computed over signed `char`s.
use tftp.Base.{
  ℕ, ◌%◌, ◌≤◌, ◌<◌, Bytes, ◌≡◌, ◌≢◌, ◌↔◌, ◌⊎◌, inl, inr, subst, sym, Option, none, some, List, [],
  ◌∷◌, length, All, arith,
}
use native.Mathlib.Decide.{dec_lt, ℕ_discrete}
use tftp.Packet.{read_data_block}
use tftp.Wire.{ack_block_of}
use tftp.Wire.Words.{header, ack_block_of-low, ack_block_of-high}
use tftp.Server.Write.{Progress, again, stop}
use tftp.Server.Read.{Reply, timeout, datagram, ReadState, read_receive, read_loop}
use tftp.Server.Read.Steps.{
  transmitted, read_receive_refused, read_receive_timeout, read_loop_again, read_loop_ended,
  read_loop_waits,
}

-- The server reads the number of the ACK of block n, below 2^16, as n exactly when the low byte
-- of n is below 128 or n is at least 65280.
ack_block_of_iff :
    (n : ℕ) → n < 65536 → (ack_block_of (header 4 n []) ≡ n) ↔ ((n % 256 < 128) ⊎ (65280 ≤ n))
ack_block_of_iff n h = (to, from)
  where
    to : ack_block_of (header 4 n []) ≡ n → (n % 256 < 128) ⊎ (65280 ≤ n)
    to e = elim (dec_lt (n % 256) 128) [
      | yes low ↦ inl low
      | no high ↦ inr (omega (arith, e, ack_block_of-high 4 n [] (omega arith)))
    ]

    from : (n % 256 < 128) ⊎ (65280 ≤ n) → ack_block_of (header 4 n []) ≡ n
    from c = elim (dec_lt (n % 256) 128) [
      | yes low ↦ ack_block_of-low 4 n [] h low
      | no high ↦ omega (arith, ack_block_of-high 4 n [] (omega arith), c)
    ]

-- A timeout, or the ACK of block `n` over an `ackBuffer` of four bytes.
abbrev pub IsAckOf : ℕ → Reply → Type 0
IsAckOf n timeout = Unit {0}
IsAckOf n (datagram ack_buffer payload) = (length ack_buffer ≡ 4) × (payload ≡ header 4 n [])

abbrev pub IsAtBlock : ℕ → Option (Progress ReadState) → Type 0
IsAtBlock n none = ⊥
IsAtBlock n (some (again t)) = t.block_number ≡ n
IsAtBlock n (some (stop t)) = (t.block_number ≡ n) × (t.retry ≡ 0)

module _ (contents : Option Bytes) (n : ℕ) where
  stuck_round :
      (s : ReadState) (e : Reply)
      → s.block_number ≡ n
      → 128 ≤ n % 256
      → n < 65280
      → IsAckOf n e
      → (u : ReadState) × (read_receive contents (transmitted contents s) e ≡ some (again u))
        × (u.block_number ≡ n)
  stuck_round s timeout at high small ack =
      (_, read_receive_timeout contents (transmitted contents s), at)
  stuck_round s (datagram ack_buffer payload) at high small ack =
      rw ack.1
        (_, read_receive_refused contents (transmitted contents s) ack_buffer n ack.0 refused, at)
    where
      refused : ack_block_of (header 4 n []) ≢ s.block_number
      refused e = omega (arith, ack_block_of-high 4 n [] high, e, at)

  here :
      (s : ReadState)
      → s.block_number ≡ n
      → length (read_data_block contents n) ≢ 0
      → length (read_data_block contents s.block_number) ≢ 0
  here s at filled = subst (λ i. length (read_data_block contents i) ≢ 0) (sym at) filled

  -- At a block n below 65280 that has data and whose low byte is 128 or more, whatever list of
  -- timeouts and correct ACKs of n arrives, the read loop is still at block n, and if it stopped
  -- its retries are used up.
  pub read_loop_stuck :
      (s : ReadState) (replies : List Reply)
      → s.block_number ≡ n
      → 128 ≤ n % 256
      → n < 65280
      → length (read_data_block contents n) ≢ 0
      → All (IsAckOf n) replies
      → IsAtBlock n (read_loop contents s replies)
  read_loop_stuck s [] at high small filled acks = elim (ℕ_discrete s.retry 0) [
    | yes over ↦ rw (read_loop_ended contents s [] over) (at, over)
    | no live ↦ rw (read_loop_waits contents s live (here s at filled)) at
  ]
  read_loop_stuck s (e ∷ replies) at high small filled acks = elim (ℕ_discrete s.retry 0) [
    | yes over ↦ rw (read_loop_ended contents s (e ∷ replies) over) (at, over)
    | no live ↦
        let (u, round, at') = stuck_round s e at high small acks.0 in
        rw (read_loop_again contents s u e replies (omega arith) (here s at filled) round)
          (read_loop_stuck u replies at' high small filled acks.1)
  ]
