-- ===== src/Server/Listing/Loop.antt =====
-- The loop of `handleLSRequest` and the one of `handleReadRequest` side by side.
use tftp.Base.{
  ℕ, Bytes, Bool, not, ◌||◌, ◌≡◌, ◌≢◌, refl, Option, none, some, List, [], ◌∷◌, ◌++◌, length, map,
  All, ltb, ◌==◌, ==_iff, if◌then◌else◌, Bool-cases, inl, inr, le→ltb, ◌>>=◌, arith, get_or,
}
use tftp.Packet.{read_data_block}
use tftp.Wire.{received, read_bytes, ack_opcode_of, ack_block_of}
use tftp.Wire.Words.{header}
use tftp.Server.{illegal_operation}
use tftp.Server.Replies.{send_error_lem}
use tftp.Server.Write.{Progress, again, stop}
use tftp.Server.Write.Steps.{error_reply, illegal_operation-NulFree}
use tftp.Server.Read.{Reply, timeout, datagram, ReadState, read_send, read_receive, read_loop}
use tftp.Server.Read.Steps.{read_send_block, read_send_end}
use tftp.Server.Listing.{answered, ls_receive, ls_loop}

-- The DATA packets of a list of packets.
abbrev pub data_only : List Bytes → List Bytes
data_only [] = []
data_only (packet ∷ packets) =
    let rest = data_only packets in if get_or packet 1 0 == 3 then packet ∷ rest else rest

-- A state of the loop without the error packets sent.
abbrev pub quiet : ReadState → ReadState
quiet s = record s { sent = data_only s.sent }

abbrev pub quiet_round : Progress ReadState → Progress ReadState
quiet_round (again s) = again (quiet s)
quiet_round (stop s) = stop (quiet s)

abbrev pub quietly : Option (Progress ReadState) → Option (Progress ReadState)
quietly none = none
quietly (some round) = some (quiet_round round)

data_only-data :
    (packets : List Bytes) (n : ℕ) (block : Bytes)
    → data_only (packets ++ header 3 n block ∷ []) ≡ data_only packets ++ header 3 n block ∷ []
data_only-data [] n block = refl
data_only-data (packet ∷ packets) n block = ground (arith, data_only-data packets n block)

data_only-error :
    (packets : List Bytes) (code : ℕ) (message : Bytes)
    → data_only (packets ++ error_reply code message ∷ []) ≡ data_only packets
data_only-error [] code message = refl
data_only-error (packet ∷ packets) code message =
    ground (arith, data_only-error packets code message)

-- An `ackBuffer` has four bytes, so that no datagram is too large.
abbrev pub IsSmall : Reply → Type 0
IsSmall timeout = Unit {0}
IsSmall (datagram ack_buffer payload) = length ack_buffer ≡ 4

module _ (contents : Option Bytes) where
  read_send-quiet : (s : ReadState) → read_send contents (quiet s) ≡ quietly (read_send contents s)
  read_send-quiet s = elim (Bool-cases (length (read_data_block contents s.block_number) == 0)) [
    | inl e ↦
        let empty = (==_iff (length (read_data_block contents s.block_number)) 0).0 e in
        rw (read_send_end contents (quiet s) empty, read_send_end contents s empty)
    | inr e ↦
        let full : length (read_data_block contents s.block_number) ≢ 0 = ground (arith, e) in
        rw (
          read_send_block contents (quiet s) full,
          read_send_block contents s full,
          data_only-data s.sent s.block_number (read_data_block contents s.block_number),
        )
  ]

  ls_receive-quiet :
      (s : ReadState) (e : Reply)
      → IsSmall e
      → ls_receive contents (quiet s) e ≡ quietly (read_receive contents s e)
  unfolding ls_receive read_receive
  ls_receive-quiet s timeout small = refl
  ls_receive-quiet s (datagram ack_buffer payload) small =
      let buffer = received ack_buffer payload in
      let wrong : Bool =
        not (ack_opcode_of buffer == 4) || not (ack_block_of buffer == s.block_number) in
      rw (le→ltb 516 (read_bytes ack_buffer payload) (omega arith)) (elim (Bool-cases wrong) [
        | inl e ↦ rw (
          e,
          send_error_lem s.sent 2 illegal_operation illegal_operation-NulFree,
          data_only-error s.sent 2 illegal_operation,
        )
        | inr e ↦
            rw e (elim (Bool-cases (ltb (length (read_data_block contents s.block_number)) 512)) [
              | inl f ↦ rw f
              | inr f ↦ rw f
            ])
      ])

  -- What follows a round, in both loops.
  continue :
      (ReadState → Option (Progress ReadState)) → Progress ReadState → Option (Progress ReadState)
  continue loop (stop u) = some (stop u)
  continue loop (again u) = loop u

  module _ (ls read : ReadState → Option (Progress ReadState))
      (agree : (u : ReadState) → ls (quiet u) ≡ quietly (read u)) where
    continue-quiet :
        (round : Option (Progress ReadState))
        → (quietly round >>= continue ls) ≡ quietly (round >>= continue read)
    unfolding continue
    continue-quiet none = refl
    continue-quiet (some (stop u)) = refl
    continue-quiet (some (again u)) = agree u

    rounds-quiet :
        (sending : Option (Progress ReadState)) (e : Reply)
        → IsSmall e
        → (quietly sending >>= continue (λ t. ls_receive contents t e >>= continue ls))
          ≡ quietly (sending >>= continue (λ t. read_receive contents t e >>= continue read))
    unfolding continue
    rounds-quiet none e small = refl
    rounds-quiet (some (stop t)) e small = refl
    rounds-quiet (some (again t)) e small =
        rw (ls_receive-quiet t e small) (continue-quiet (read_receive contents t e))

  -- On any replies in buffers of four bytes the loop of handleLSRequest does what the one of
  -- handleReadRequest does with the same file, but for the error packets: the same rounds, the
  -- same DATA packets, the same end.
  pub ls_loop-read_loop :
      (s : ReadState) (replies : List Reply)
      → All IsSmall replies
      → ls_loop contents (quiet s) (map answered replies) ≡ quietly (read_loop contents s replies)
  unfolding ls_loop read_loop continue
  ls_loop-read_loop s [] small = elim (Bool-cases (s.retry == 0)) [
    | inl e ↦ rw e
    | inr e ↦ rw e (read_send-quiet s)
  ]
  ls_loop-read_loop s (e ∷ replies) small = elim (Bool-cases (s.retry == 0)) [
    | inl f ↦ rw f
    | inr f ↦
        rw (f, read_send-quiet s)
          (rounds-quiet (λ u. ls_loop contents u (map answered replies))
            (λ u. read_loop contents u replies) (λ u. ls_loop-read_loop u replies small.1)
            (read_send contents s) e small.0)
  ]
