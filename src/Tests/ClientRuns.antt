-- ===== src/Tests/ClientRuns.antt =====
-- Runs of src/TFTPClient.cpp, and of a client against a server.
use tftp.Base.{
  Bytes, Bool, true, false, ◌≡◌, ◌↔◌, refl, some, none, List, [], ◌∷◌, ◌++◌, map, replicate, All,
  if◌then◌else◌, arith,
}
use tftp.Base.Int.{pos}
use tftp.Base.Names.{text_key}
use tftp.Base.StdMap.{find}
use tftp.Base.Text.{codes}
use tftp.Packet.File.{blocks}
use tftp.Packet.Store.{NulFree}
use tftp.Wire.{Address, datagram, opcode_of, joined, ntohs}
use tftp.Server.{Server, Host, Event, path_of, file_exists}
use tftp.Server.Write.{returned, handle_write_request}
use tftp.Server.Read.Transfer.{block_packets}
use tftp.Server.Read.Request.{IsFullPacket}
use tftp.Server.Delete.{removed, handle_delete_request}
use tftp.Server.Delete.Outcome.{IsDeletable}
use tftp.Compression.{stem}
use tftp.Client.{ClientState, finished, compressed_name, check_ip, check_port, received_data}
use tftp.Client.Names.{compressed_name_collides}
use tftp.Client.Read.{rrq_step, rrq_checked, rrq_verified, rrq_packet}
use tftp.Client.Read.Transfer.{addressed}
use tftp.Client.Write.{handle_wrq_request}
use tftp.Client.Write.Transfer.{acks_from}
use tftp.Client.Write.Request.{write_request, handle_wrq_request-sends, handle_wrq_request-unended}
use tftp.Client.Delete.Answers.{EndsWith}
use tftp.Exchange.{upload}
use tftp.Exchange.Deletion.{deletion}

abbrev listener : Address
listener = record { ip = 1; port = 69 }

abbrev thread : Address
thread = record { ip = 1; port = 9801 }

abbrev stray : Address
stray = record { ip = 0; port = 0 }

abbrev file_name : Bytes
file_name = codes "a.txt"

abbrev open_host : Host
open_host = record {
  creates = λ path. true;
  accepts = λ contents block. true;
  partial = λ contents block. 0;
  removes = λ path. true;
}

abbrev empty_server : Server
empty_server = record { files = []; disk = λ path. none }

name_run : compressed_name file_name ≡ codes "acompress.bin"
unfolding compressed_name stem
name_run = refl

collides_example : compressed_name (codes "a.txt") ≡ compressed_name (codes "a.md")
collides_example =
    compressed_name_collides (codes "a") (codes "txt") (codes "md") (omega arith) (omega arith)

name_free : NulFree (compressed_name file_name)
name_free = rw name_run (omega arith)

abbrev full_block : Bytes
full_block = replicate 512 7

abbrev at_start : ClientState
at_start = record {
  server = listener;
  initial_packet = true;
  expected_block_number = 1;
  retry = 5;
  recieved_buffer = replicate 516 0;
  contents = [];
  sent = [];
}

-- A datagram of three bytes that reads as DATA: `recvData` would have a negative size.
short_run : rrq_step open_host stray at_start (datagram thread (0 ∷ 3 ∷ 0 ∷ [])) ≡ none
unfolding rrq_step rrq_checked rrq_verified rrq_packet check_ip check_port received_data opcode_of
    joined ntohs
short_run = refl

write_example :
    (t : ClientState) × (handle_wrq_request
        (some (replicate 700 1))
        (λ n. true)
        stray
        true
        listener
        file_name
        (acks_from thread 0 2 ++ [])
      ≡ some (finished true t))
    × (t.sent
        ≡ write_request listener file_name
          ++ addressed thread (block_packets (replicate 700 1) 0 2))
    × (blocks (replicate 700 1) 0 2 ≡ replicate 700 1)
write_example =
    handle_wrq_request-sends (replicate 700 1) (λ n. true) stray listener thread file_name
      (omega arith) name_free (λ n. refl) refl 1 [] (omega arith) (omega arith) (omega arith)

write_unended_example :
    (t : ClientState) × (handle_wrq_request
        (some full_block)
        (λ n. true)
        stray
        true
        listener
        file_name
        (acks_from thread 0 2)
      ≡ some (finished false t))
    × (t.sent ≡ write_request listener file_name ++ addressed thread (block_packets full_block 0 1))
    × All IsFullPacket (block_packets full_block 0 1)
write_unended_example =
    handle_wrq_request-unended full_block (λ n. true) stray listener thread file_name (omega arith)
      name_free (λ n. refl) refl 1 (omega arith) refl

name_new : file_exists (compressed_name file_name) empty_server.files ≡ false
unfolding file_exists find
name_new = refl

upload_example :
    (packets replies : List Bytes) × (t : ClientState) × (server' : Server) × (handle_wrq_request
        (some (replicate 700 1))
        (λ n. true)
        stray
        true
        listener
        file_name
        (map (datagram thread) replies)
      ≡ some (finished true t))
    × (t.sent ≡ write_request listener file_name ++ addressed thread packets)
    × (handle_write_request open_host empty_server
          (compressed_name file_name)
          (map Event.datagram packets)
        ≡ some (returned server' replies))
    × (server'.disk (path_of (compressed_name file_name)) ≡ some (replicate 700 1))
    × (find (compressed_name file_name) server'.files ≡ some (pos 0))
upload_example =
    upload open_host empty_server (replicate 700 1) file_name stray listener thread (λ n. true) 1
      (λ c b. refl) (λ n. refl) name_new refl (omega arith) name_free refl (omega arith)
      (omega arith) (omega arith)

deletion_example :
    (reply : Bytes) × (success : Bool) × (handle_delete_request open_host empty_server file_name
      ≡ some (if success then removed empty_server file_name else empty_server, reply ∷ []))
    × EndsWith
        (replicate 516 0)
        refl
        listener
        thread
        file_name
        (omega arith)
        (omega arith)
        refl
        (datagram thread reply ∷ [])
        success
    × ((success ≡ true) ↔ IsDeletable open_host empty_server file_name)
deletion_example =
    deletion open_host empty_server (replicate 516 0) refl listener thread file_name (omega arith)
      (omega arith) refl
