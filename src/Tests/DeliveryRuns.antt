-- ===== src/Tests/DeliveryRuns.antt =====
-- A text of three characters from one client to another, and the words of a command line.
use tftp.Base.{
  ℕ, ◌<◌, Bytes, true, false, ◌≡◌, refl, none, some, List, [], ◌∷◌, ◌++◌, replicate, map, ◌>>=◌,
  arith,
}
use tftp.Base.Names.{text_key, same_text}
use tftp.Base.StdMap.{find}
use tftp.Base.Text.{codes}
use tftp.Packet.{octet}
use tftp.Packet.Layout.{request_body}
use tftp.Packet.Store.{NulFree}
use tftp.Wire.{Address, Incoming}
use tftp.Server.{Server, Host, Event, file_exists}
use tftp.Server.Write.{returned, handle_write_request}
use tftp.Server.Read.{handle_read_request}
use tftp.Compression.{stem}
use tftp.Compression.Files.{Files, write_file, without_extension, decompress}
use tftp.Client.{ClientState, finished, compressed_name}
use tftp.Client.Read.Transfer.{data_from, addressed}
use tftp.Client.Read.Repeats.{data_twice, answers_twice}
use tftp.Client.Write.Request.{write_request}
use tftp.Client.Start.{Machine, handle_rrq_request, wrq_files, launch, main}
use tftp.Client.Start.Received.{handle_rrq_request-stores, handle_rrq_request-repeated}
use tftp.Server.Write.Transfer.{acks, joined_blocks}
use tftp.Exchange.{front}
use tftp.Exchange.Late.{packets_to, late_replies}
use tftp.Exchange.Delivery.{IsWorking, delivery}
use tftp.Tests.HuffmanRuns.{
  any_file, aab_name, aab, aab_files, aab_after, aab_compressed, aab_deflate, aab-IsText,
  aab_name-IsApart, aab_found, aab_compressed_found,
}

abbrev listener : Address
listener = record { ip = 1; port = 69 }

abbrev thread : Address
thread = record { ip = 1; port = 5000 }

abbrev thread' : Address
thread' = record { ip = 1; port = 5001 }

abbrev open_host : Host
open_host = record {
  creates = any_file;
  accepts = λ contents block. true;
  partial = λ contents block. 0;
  removes = λ path. true;
}

-- What `clientAddress` happens to hold.
abbrev nowhere : Address
nowhere = record { ip = 0; port = 0 }

abbrev empty_server : Server
empty_server = record { files = []; disk = λ path. none }

abbrev client : Machine
client = record {
  host = open_host;
  stray = nowhere;
  buffer = [];
  has_socket = true;
  binds = true;
  delivered = true;
  delivers = λ n. true;
}

client-IsWorking : IsWorking client
client-IsWorking = record {
  opens = λ name. refl;
  accepts = λ c b. refl;
  delivered = refl;
  delivers = λ n. refl;
}

name_new : file_exists (compressed_name aab_name) empty_server.files ≡ false
unfolding file_exists find
name_new = refl

name_free : NulFree (compressed_name aab_name)
unfolding compressed_name stem
name_free = omega arith

compressed_found : find (compressed_name aab_name) aab_after ≡ some aab_compressed
unfolding compressed_name without_extension
compressed_found = aab_compressed_found

delivery_example :
    (packets replies data_sent : List Bytes) × (t u : ClientState) × (server' server'' : Server)
    × (done : Files) × (c copies : ℕ) × (wrq_files client listener aab_name
          (map (Incoming.datagram thread) replies)
          aab_files
        ≡ some (finished true t, aab_after))
    × (t.sent ≡ write_request listener aab_name ++ addressed thread packets)
    × (handle_write_request open_host empty_server
          (compressed_name aab_name)
          (map Event.datagram packets)
        ≡ some (returned server' replies))
    × (handle_read_request server'
          (compressed_name aab_name)
          (late_replies (replicate 4 0) (packets_to thread' u.sent))
        ≡ some (returned server'' data_sent))
    × (handle_rrq_request client listener aab_name (map (Incoming.datagram thread') data_sent) []
        ≡ some (finished true u, done))
    × (u.sent
        ≡ (listener, 0 ∷ 1 ∷ request_body (compressed_name aab_name) octet)
          ∷ answers_twice nowhere thread' 1 (front aab_compressed 0 0))
    × (copies < 8)
    × (find (codes "clientDatabase/" ++ aab_name) done ≡ some (aab ++ replicate copies c))
delivery_example =
    delivery open_host empty_server client client aab_name aab aab_files aab_after [] aab_compressed
      listener thread thread' (replicate 4 0) 0 client-IsWorking client-IsWorking (λ c b. refl) refl
      name_new (omega arith) name_free refl refl refl refl refl aab-IsText aab_name-IsApart
      aab_found aab_deflate compressed_found (omega arith) (omega arith) (omega arith)

abbrev full_block : Bytes
full_block = replicate 512 7

abbrev blocks_received : Bytes
blocks_received = joined_blocks (full_block ∷ (1 ∷ 2 ∷ []) ∷ [])

read_example :
    (t : ClientState) × (handle_rrq_request client listener aab_name
        (data_from thread 1 (full_block ∷ (1 ∷ 2 ∷ []) ∷ []))
        []
      ≡ (do
        done ←
            decompress any_file
              (compressed_name aab_name)
              aab_name
              (write_file (compressed_name aab_name) blocks_received [])
        some (finished true t, done)))
    × (t.sent
        ≡ (listener, 0 ∷ 1 ∷ request_body (compressed_name aab_name) octet)
          ∷ addressed nowhere (acks 1 (full_block ∷ (1 ∷ 2 ∷ []) ∷ [])))
read_example =
    handle_rrq_request-stores client listener thread aab_name (full_block ∷ []) (1 ∷ 2 ∷ []) [] refl
      (λ c b. refl) (omega arith) name_free refl refl (omega arith) (omega arith)

repeated_example :
    (t : ClientState) × (handle_rrq_request client listener aab_name
        (data_twice thread 1 (full_block ∷ []) (1 ∷ 2 ∷ []) ++ Incoming.timeout ∷ [])
        []
      ≡ (do
        done ←
            decompress any_file
              (compressed_name aab_name)
              aab_name
              (write_file (compressed_name aab_name) blocks_received [])
        some (finished true t, done)))
    × (t.sent
        ≡ (listener, 0 ∷ 1 ∷ request_body (compressed_name aab_name) octet)
          ∷ answers_twice nowhere thread 1 (full_block ∷ []))
repeated_example =
    handle_rrq_request-repeated client listener thread aab_name (full_block ∷ []) (1 ∷ 2 ∷ []) []
      refl (λ c b. refl) (omega arith) name_free refl refl (omega arith) (omega arith)
      (Incoming.timeout ∷ [])

-- The command line of the README, without the address of the server: the opcode has not been set.
unset_run : main client (codes "client" ∷ codes "READ" ∷ codes "a.txt" ∷ []) [] aab_files ≡ none
unfolding main launch same_text
unset_run = refl
