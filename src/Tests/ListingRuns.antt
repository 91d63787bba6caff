-- ===== src/Tests/ListingRuns.antt =====
-- Runs of `handleLSRequest` and `handleClientThread` of src/TFTPServer.cpp.
use tftp.Base.{
  ◌+◌, ◌*◌, ◌<◌, Bytes, true, false, ◌≡◌, refl, some, none, List, [], ◌∷◌, length, map, replicate,
  arith,
}
use tftp.Base.Int.{pos, negsuc}
use tftp.Base.Names.{text_key}
use tftp.Base.StdMap.{find}
use tftp.Base.Text.{codes}
use tftp.Packet.File.{blocks}
use tftp.Wire.Words.{header}
use tftp.Server.{Server, Host, file_exists}
use tftp.Server.Write.{returned}
use tftp.Server.Write.Transfer.{data_packets, acks, joined_blocks}
use tftp.Server.Read.{Reply, timeout, datagram, ReadState, read_loop}
use tftp.Server.Read.Transfer.{ack_replies, block_packets}
use tftp.Server.Listing.{
  digits, show_int, listing, active_readers, ls_path, answered, ls_loop, handle_ls_request,
}
use tftp.Server.Listing.Loop.{quiet, quietly, ls_loop-read_loop}
use tftp.Server.Listing.Outcome.{handle_ls_request-sends}
use tftp.Server.Listen.{Address}
use tftp.Server.Dispatch.{handle_client_thread}
use tftp.Server.Dispatch.WriteRead.{writing, reading, write-read}

abbrev name_a : Bytes
name_a = codes "a.txt"

abbrev host_open : Host
host_open = record {
  creates = λ path. true;
  accepts = λ contents block. true;
  partial = λ contents block. 0;
  removes = λ path. true;
}

abbrev one_reader : Server
one_reader = record { files = (name_a, pos 1) ∷ []; disk = λ path. none }

listing_run : listing one_reader.files ≡ codes "a.txt\t [Active Readers] : 1\n"
unfolding listing active_readers show_int digits
listing_run = refl

-- A count that a deleted entry brought below zero.
negative_run : show_int (negsuc 0) ≡ codes "-1"
unfolding show_int digits
negative_run = refl

listing_lower : 0 * 512 < length (listing one_reader.files)
listing_lower = rw listing_run (omega arith)

listing_upper : length (listing one_reader.files) < 0 * 512 + 512
listing_upper = rw listing_run (omega arith)

ls_example :
    (server' : Server) × (handle_ls_request host_open one_reader
        (map answered (ack_replies (replicate 4 0) 0 1))
      ≡ some (returned server' (block_packets (listing one_reader.files) 0 1)))
    × (blocks (listing one_reader.files) 0 1 ≡ listing one_reader.files)
    × (server'.disk ls_path ≡ some (listing one_reader.files))
    × (server'.files ≡ one_reader.files)
ls_example =
    handle_ls_request-sends host_open one_reader (replicate 4 0) refl 0 refl refl (omega arith)
      listing_lower listing_upper

abbrev at_start : ReadState
at_start = record { block_number = 1; retry = 5; sent = [] }

abbrev some_replies : List Reply
some_replies = timeout ∷ datagram (replicate 4 0) (header 4 9 []) ∷ []

ls_loop_example :
    ls_loop (some (1 ∷ [])) (quiet at_start) (map answered some_replies)
    ≡ quietly (read_loop (some (1 ∷ [])) at_start some_replies)
ls_loop_example = ls_loop-read_loop (some (1 ∷ [])) at_start some_replies (tt, (refl, tt))

abbrev empty_server : Server
empty_server = record { files = []; disk = λ path. none }

abbrev peer : Address
peer = record { ip = 1; port = 4000 }

abbrev other_peer : Address
other_peer = record { ip = 2; port = 4000 }

abbrev two_blocks : List Bytes
two_blocks = replicate 512 7 ∷ (1 ∷ 2 ∷ []) ∷ []

name_new : file_exists name_a empty_server.files ≡ false
unfolding file_exists find
name_new = refl

write_read_example :
    (server' server'' : Server) × (handle_client_thread host_open empty_server
        (writing name_a peer)
        (record { events = data_packets 1 two_blocks; replies = []; turns = [] })
      ≡ some (returned server' (header 4 0 [] ∷ acks 1 two_blocks)))
    × (handle_client_thread host_open server'
          (reading name_a other_peer)
          (record { events = []; replies = ack_replies (replicate 4 0) 0 2; turns = [] })
        ≡ some (returned server'' (block_packets (joined_blocks two_blocks) 0 2)))
    × (blocks (joined_blocks two_blocks) 0 2 ≡ joined_blocks two_blocks)
write_read_example =
    write-read host_open empty_server name_a peer other_peer (replicate 512 7 ∷ []) (1 ∷ 2 ∷ [])
      (replicate 4 0) (λ c b. refl) name_new refl (omega arith) (omega arith) (omega arith)
      (omega arith) refl
