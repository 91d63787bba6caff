-- ===== src/Tests/ReadRuns.antt =====
-- Runs of `handleReadRequest`.
use tftp.Base.{
  ℕ, true, ◌<◌, Bytes, ◌≡◌, refl, some, List, [], ◌∷◌, All, length, length-replicate, ◌≢◌,
  replicate, arith,
}
use tftp.Base.Int.{pos}
use tftp.Base.Names.{text_key, same_text}
use tftp.Base.StdMap.{find}
use tftp.Base.Text.{codes}
use tftp.Packet.{read_data_block}
use tftp.Packet.File.{blocks, length-read_data_block}
use tftp.Wire.Words.{header}
use tftp.Server.{Server, file_exists}
use tftp.Server.Write.{returned}
use tftp.Server.Read.{ReadState, Reply, timeout, datagram, read_loop, handle_read_request}
use tftp.Server.Read.Transfer.{ack_replies, block_packets}
use tftp.Server.Read.Request.{IsFullPacket, handle_read_request-sends, handle_read_request-unended}
use tftp.Server.Read.Acks.{IsAtBlock, read_loop_stuck}

abbrev file_name : Bytes
file_name = codes "a.txt"

abbrev stale : Bytes
stale = 9 ∷ 9 ∷ 9 ∷ 9 ∷ []

-- A server with one file.
abbrev one_file : Bytes → Server
one_file contents = record { files = (file_name, pos 0) ∷ []; disk = λ path. some contents }

one_file_exists : (contents : Bytes) → file_exists file_name (one_file contents).files ≡ true
unfolding file_exists find same_text
one_file_exists contents = refl

sends_example :
    (server' : Server) × (handle_read_request
        (one_file (replicate 700 1))
        file_name
        (ack_replies stale 0 2)
      ≡ some (returned server' (block_packets (replicate 700 1) 0 2)))
    × (blocks (replicate 700 1) 0 2 ≡ replicate 700 1)
    × ((name : Bytes) → find name server'.files ≡ find name (one_file (replicate 700 1)).files)
sends_example =
    handle_read_request-sends (replicate 700 1) stale refl (one_file (replicate 700 1)) file_name 1
      (one_file_exists (replicate 700 1)) refl (omega arith) (omega arith) (omega arith)

unended_example :
    (server' : Server) × (sent : List Bytes) × (handle_read_request
        (one_file (replicate 512 1))
        file_name
        (ack_replies stale 0 1)
      ≡ some (returned server' sent))
    × All IsFullPacket sent
unended_example =
    handle_read_request-unended (replicate 512 1) stale refl (one_file (replicate 512 1)) file_name
      1 (one_file_exists (replicate 512 1)) refl (omega arith) refl

abbrev at_128 : ReadState
at_128 = record { block_number = 128; retry = 5; sent = [] }

-- Block 128 of a file that is long enough.
filled_block : (n : ℕ) → 65024 < n → length (read_data_block (some (replicate n 1)) 128) ≢ 0
filled_block n h e =
    omega (arith, length-read_data_block (replicate n 1) 127, length-replicate {A = ℕ} n 1, e)

-- The client acknowledges block 128 three times, and misses a packet in between.
abbrev acks_of_128 : List Reply
acks_of_128 =
    datagram stale (header 4 128 [])
    ∷ timeout
    ∷ datagram stale (header 4 128 [])
    ∷ datagram stale (header 4 128 [])
    ∷ []

read_loop_stuck_example : IsAtBlock 128 (read_loop (some (replicate 65025 1)) at_128 acks_of_128)
read_loop_stuck_example =
    read_loop_stuck (some (replicate 65025 1)) 128 at_128 acks_of_128 refl (omega arith)
      (omega arith) (filled_block 65025 (omega arith))
      ((refl, refl), (tt, ((refl, refl), ((refl, refl), tt))))
