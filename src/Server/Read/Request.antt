-- ===== src/Server/Read/Request.antt =====
-- `handleReadRequest` as a whole, for a client that acknowledges every block.
use tftp.Base.{
  ℕ, zero, suc, ◌+◌, ◌*◌, ◌≤◌, ◌<◌, Bytes, ◌≡◌, ap, ◌∙◌, some, List, [], length, All, true, arith,
}
use tftp.Base.Names.{text_key}
use tftp.Base.StdMap.{find}
use tftp.Packet.File.{blocks, blocks-all, length-read_data_block}
use tftp.Server.{Server, max_retry, path_of, file_exists}
use tftp.Server.Readers.{remove_reader-add_reader}
use tftp.Server.Write.{stop, returned}
use tftp.Server.Read.{Reply, ReadState, read_loop, read_start, after_read, handle_read_request}
use tftp.Server.Read.Transfer.{ack_replies, block_packets, read_loop_sends, read_loop_sends_full}

-- A packet with a full block.
abbrev pub IsFullPacket : Bytes → Type 0
IsFullPacket packet = length packet ≡ 516

pub full_packets :
    (contents : Bytes) (m n : ℕ)
    → (n + m) * 512 ≤ length contents
    → All IsFullPacket (block_packets contents n m)
full_packets contents zero n h = tt
full_packets contents (suc m) n h = (
  omega (arith, length-read_data_block contents n),
  full_packets contents m (suc n) (omega arith),
)

module _ (contents ack_buffer : Bytes) (size : length ack_buffer ≡ 4) where
  -- What the handler returns, given how the loop stops.
  pub handle_read_request-stop :
      (server : Server) (filename : Bytes) (replies : List Reply) (t : ReadState)
      → file_exists filename server.files ≡ true
      → server.disk (path_of filename) ≡ some contents
      → read_loop (some contents) read_start replies ≡ some (stop t)
      → handle_read_request server filename replies
        ≡ some (returned (after_read server filename) t.sent)
  unfolding handle_read_request
  handle_read_request-stop server filename replies t known disk run = rw (known, disk, run)

  -- A read request for a file of the table of at most 127 blocks, the last one neither full nor
  -- empty, where the client acknowledges each block: the handler returns, the packets sent are
  -- the DATA packets of all blocks in order, the blocks put together are the file, and every
  -- entry of the table is as before.
  pub handle_read_request-sends :
      (server : Server) (filename : Bytes) (k : ℕ)
      → file_exists filename server.files ≡ true
      → server.disk (path_of filename) ≡ some contents
      → k < 127
      → k * 512 < length contents
      → length contents < k * 512 + 512
      → (server' : Server) × (handle_read_request server filename (ack_replies ack_buffer 0 (suc k))
          ≡ some (returned server' (block_packets contents 0 (suc k))))
        × (blocks contents 0 (suc k) ≡ contents)
        × ((name : Bytes) → find name server'.files ≡ find name server.files)
  unfolding read_start
  handle_read_request-sends server filename k known disk small lower upper =
      let (t, run, got) =
        read_loop_sends contents ack_buffer size k 0 max_retry [] (omega arith) (omega arith)
          (omega arith) (omega arith) in
      (
        after_read server filename,
        handle_read_request-stop server filename _ t known disk run
            ∙ ap (λ sent. some (returned (after_read server filename) sent)) got,
        blocks-all contents (suc k) (omega arith),
        λ name. remove_reader-add_reader filename name server.files known,
      )

  -- For a file of fewer than 128 blocks whose length is a multiple of 512, where the client
  -- acknowledges each block, the handler returns and every packet that it sent has 516 bytes: no
  -- short packet ends the transfer.
  pub handle_read_request-unended :
      (server : Server) (filename : Bytes) (k : ℕ)
      → file_exists filename server.files ≡ true
      → server.disk (path_of filename) ≡ some contents
      → k < 128
      → length contents ≡ k * 512
      → (server' : Server) × (sent : List Bytes) × (handle_read_request server filename
            (ack_replies ack_buffer 0 k)
          ≡ some (returned server' sent))
        × All IsFullPacket sent
  unfolding read_start
  handle_read_request-unended server filename k known disk small whole =
      let (t, run, got) =
        read_loop_sends_full contents ack_buffer size k 0 max_retry [] (omega arith) (omega arith)
          (omega arith) in
      (
        after_read server filename,
        block_packets contents 0 k,
        handle_read_request-stop server filename _ t known disk run
            ∙ ap (λ sent. some (returned (after_read server filename) sent)) got,
        full_packets contents k 0 (omega arith),
      )
