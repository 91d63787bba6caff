-- ===== src/Server/Replies.antt =====
-- The packets that the server's handlers send, and that building them never faults.
use tftp.Base.{
  ℕ, suc, ◌+◌, Bytes, ◌≡◌, some, List, [], ◌∷◌, ◌++◌, length, drop_all, replicate, length-replicate,
  arith,
}
use tftp.Packet.Layout.{error_layout, ack_layout}
use tftp.Packet.Store.{NulFree, store-drop}
use tftp.Wire.Words.{header}
use tftp.Server.{error_packet, send_error, send_ack}

-- For a message without NUL, sendError builds in an array of 5 + |message| bytes, whatever it
-- held, the opcode 5, the two bytes of the code, the message and a NUL.
pub error_packet_lem :
    (scratch : Bytes) (code : ℕ) (message : Bytes)
    → NulFree message
    → length scratch ≡ 4 + length message + 1
    → error_packet scratch code message ≡ some (header 5 code (message ++ 0 ∷ []))
unfolding error_packet
error_packet_lem scratch code message hm size =
    let l : ℕ = 4 + length message in
    rw (
      error_layout scratch code message hm (omega arith),
      store-drop (header 5 code message) scratch l l 0 (omega arith) (omega arith),
      drop_all (suc l) scratch (omega arith),
    )

pub send_error_lem :
    (sent : List Bytes) (code : ℕ) (message : Bytes)
    → NulFree message
    → send_error sent code message ≡ some (sent ++ header 5 code (message ++ 0 ∷ []) ∷ [])
unfolding send_error
send_error_lem sent code message hm =
    rw (error_packet_lem _ code message hm (length-replicate {A = ℕ} (4 + length message + 1) 0))

pub send_ack_lem : (sent : List Bytes) (n : ℕ) → send_ack sent n ≡ some (sent ++ header 4 n [] ∷ [])
unfolding send_ack
send_ack_lem sent n = rw (ack_layout (replicate 4 0) n (length-replicate {A = ℕ} 4 0))
