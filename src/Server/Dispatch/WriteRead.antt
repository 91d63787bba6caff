-- ===== src/Server/Dispatch/WriteRead.antt =====
-- What one client wrote, another reads.
use tftp.Base.{
  suc, ◌+◌, ◌*◌, ◌<◌, Bytes, ◌≡◌, true, false, some, List, [], ◌∷◌, ◌++◌, length, length-append,
  All, arith,
}
use tftp.Base.Names.{text_key}
use tftp.Packet.File.{blocks}
use tftp.Wire.Words.{header}
use tftp.Server.{Server, Host, path_of, file_exists}
use tftp.Server.Readers.{found→file_exists}
use tftp.Server.Write.{returned}
use tftp.Server.Write.Transfer.{
  data_packets, acks, joined_blocks, IsFull, handle_write_request-stores,
}
use tftp.Server.Read.Transfer.{ack_replies, block_packets}
use tftp.Server.Read.Request.{handle_read_request-sends}
use tftp.Server.Listen.{Request, Address}
use tftp.Server.Dispatch.{handle_client_thread}

length-joined_blocks :
    (full : List Bytes) (last : Bytes)
    → All IsFull full
    → length (joined_blocks (full ++ last ∷ [])) ≡ length full * 512 + length last
length-joined_blocks [] last h = omega (arith, length-append last [])
length-joined_blocks (block ∷ full) last h = omega (
  arith,
  length-append block (joined_blocks (full ++ last ∷ [])),
  length-joined_blocks full last h.1,
  h.0,
)

abbrev pub writing : Bytes → Address → Request
writing filename client = record { opcode = 2; filename = filename; client = client }

abbrev pub reading : Bytes → Address → Request
reading filename client = record { opcode = 1; filename = filename; client = client }

module _ (host : Host) (server : Server) (filename : Bytes) (writer reader : Address) where
  -- A write request for a new name and then, in any client's thread, a read request for it, where
  -- the file can be created and every write succeeds, the first client sends at most 126 full
  -- blocks and a shorter, not empty one, and the second acknowledges each block: both threads
  -- return, and the blocks of the DATA packets sent to the second client, put together, are what
  -- the first one wrote.
  pub write-read :
      (full : List Bytes) (last ack_buffer : Bytes)
      → ((c b : Bytes) → host.accepts c b ≡ true)
      → file_exists filename server.files ≡ false
      → host.creates (path_of filename) ≡ true
      → All IsFull full
      → length full < 127
      → 0 < length last
      → length last < 512
      → length ack_buffer ≡ 4
      → (server' server'' : Server) × (handle_client_thread host server
            (writing filename writer)
            (record { events = data_packets 1 (full ++ last ∷ []); replies = []; turns = [] })
          ≡ some (returned server' (header 4 0 [] ∷ acks 1 (full ++ last ∷ []))))
        × (handle_client_thread host server' (reading filename reader) (record {
          events = [];
          replies = ack_replies ack_buffer 0 (suc (length full));
          turns = [];
        })
            ≡ some (
                returned server''
                  (block_packets (joined_blocks (full ++ last ∷ [])) 0 (suc (length full)))))
        × (blocks (joined_blocks (full ++ last ∷ [])) 0 (suc (length full))
            ≡ joined_blocks (full ++ last ∷ []))
  unfolding handle_client_thread
  write-read full last ack_buffer accepts new creates hf few some_last short size =
      let contents = joined_blocks (full ++ last ∷ []) in
      let total = length-joined_blocks full last hf in
      let (server', wrote, disk, found) =
        handle_write_request-stores host filename accepts server full last new creates hf short in
      let (server'', read, whole, _) =
        handle_read_request-sends contents ack_buffer size server' filename (length full)
          (found→file_exists filename server'.files found) disk few (omega (arith, total))
          (omega (arith, total)) in
      (server', server'', wrote, read, whole)
