-- ===== src/Tests/PacketRuns.antt =====
-- Runs of src/TFTPPacket.cpp.
use tftp.Base.{ℕ, Bytes, ◌≡◌, refl, some, none, [], ◌∷◌, ◌++◌, length, replicate, arith}
use tftp.Base.Text.{codes}
use tftp.Packet.{
  create_rrq_packet, create_request_packet, copy_string, store, put_opcode, create_wrq_packet,
  octet,
}
use tftp.Packet.Layout.{request_body, request_layout, request_in_bounds}

-- "a.txt"
abbrev file_name : Bytes
file_name = codes "a.txt"

rrq_run :
    create_rrq_packet (replicate 14 7) file_name octet
    ≡ some (0 ∷ 1 ∷ (codes "a.txt" ++ 0 ∷ (codes "octet" ++ 0 ∷ [])))
unfolding create_rrq_packet create_request_packet copy_string store put_opcode
rrq_run = refl

-- One byte less is not enough.
rrq_overflow : create_rrq_packet (replicate 13 7) file_name octet ≡ none
unfolding create_rrq_packet create_request_packet copy_string store put_opcode
rrq_overflow = refl

request_layout_example :
    (create_rrq_packet (replicate 14 7) file_name octet
      ≡ some (0 ∷ 1 ∷ request_body file_name octet))
    × (create_wrq_packet (replicate 14 7) file_name octet
        ≡ some (0 ∷ 2 ∷ request_body file_name octet))
request_layout_example =
    request_layout (replicate 14 7) file_name octet (omega arith) (omega arith) refl

request_in_bounds_example :
    (written : Bytes) × (create_rrq_packet (replicate 14 7) file_name (0 ∷ 1 ∷ []) ≡ some written)
    × (length written ≡ length (replicate {A = ℕ} 14 7))
request_in_bounds_example = request_in_bounds (replicate 14 7) file_name (0 ∷ 1 ∷ []) (omega arith)
