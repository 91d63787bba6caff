-- ===== src/Client/Start/Received.antt =====
-- `handleRRQRequest` of src/TFTPClient.cpp as a whole: the loop, and the decompression behind it.
use tftp.Base.{Bytes, true, ◌≡◌, ◌≢◌, ◌<◌, some, List, [], ◌∷◌, ◌++◌, length, All, ◌>>=◌}
use tftp.Packet.{octet}
use tftp.Packet.Store.{NulFree}
use tftp.Packet.Layout.{request_body}
use tftp.Wire.{Address, Incoming}
use tftp.Server.Write.Transfer.{acks, joined_blocks, IsFull}
use tftp.Compression.Files.{Files, write_file, decompress}
use tftp.Client.{ClientState, finished, compressed_name}
use tftp.Client.Read.{receive_file}
use tftp.Client.Read.Transfer.{data_from, addressed}
use tftp.Client.Read.Repeats.{data_twice, answers_twice}
use tftp.Client.Read.Request.{receive_file-stores, receive_file-repeated}
use tftp.Client.Start.{Machine, handle_rrq_request, rrq_received}

-- What the handler makes of a file that was received whole.
pub handle_rrq_request_lem :
    (m : Machine) (server : Address) (filename : Bytes) (events : List Incoming) (t : ClientState)
    (files : Files) (contents : Bytes)
    → m.delivered ≡ true
    → receive_file m.host m.stray true server filename events ≡ some (finished true t)
    → t.contents ≡ contents
    → handle_rrq_request m server filename events files ≡ (do
      done ←
          decompress m.host.creates
            (compressed_name filename)
            filename
            (write_file (compressed_name filename) contents files)
      some (finished true t, done))
unfolding handle_rrq_request rrq_received
handle_rrq_request_lem m server filename events t files contents sent run got = rw (sent, run, got)

module _ (m : Machine) (server from : Address) (filename : Bytes) (full : List Bytes) (last : Bytes)
    (files : Files) (delivered : m.delivered ≡ true)
    (accepts : (c b : Bytes) → m.host.accepts c b ≡ true) (named : length filename ≢ 0)
    (free : NulFree (compressed_name filename))
    (creates : m.host.creates (compressed_name filename) ≡ true) (same : from.ip ≡ server.ip)
    (hf : All IsFull full) (short : length last < 512) where
  -- A read request, where the request can be sent, the local file be created and every write
  -- succeeds, and the thread of the server, at any port of its address, sends the DATA packets of
  -- full blocks and a shorter last one, once each: the handler writes the bytes of all blocks to
  -- the file of the compressed name and is what their decompression is, so undefined where that
  -- is undefined, and a success with the files that it leaves where it is defined. It sent its
  -- request for the compressed name to the server, and every acknowledgment to the address in its
  -- member clientAddress.
  pub handle_rrq_request-stores :
      (t : ClientState) × (handle_rrq_request m server filename
          (data_from from 1 (full ++ last ∷ []))
          files
        ≡ (do
          done ←
              decompress m.host.creates
                (compressed_name filename)
                filename
                (write_file (compressed_name filename) (joined_blocks (full ++ last ∷ [])) files)
          some (finished true t, done)))
      × (t.sent
          ≡ (server, 0 ∷ 1 ∷ request_body (compressed_name filename) octet)
            ∷ addressed m.stray (acks 1 (full ++ last ∷ [])))
  handle_rrq_request-stores =
      let (t, run, got, acked) =
        receive_file-stores m.host m.stray server from filename full last accepts named free creates
          same hf short in
      (t, handle_rrq_request_lem m server filename _ t files _ delivered run got, acked)

  -- Only a repeated block is acknowledged to the server: in a read request, where the request can
  -- be sent, the local file be created and every write succeeds, and the thread of the server, at
  -- any port of its address, sends each full block twice and a shorter last one once, with
  -- anything behind it, the handler is what the decompression of the bytes of all blocks is; the
  -- server got one acknowledgment for each full block and none for the last, and the
  -- acknowledgments of the first copies and of the last block went to the address in
  -- clientAddress.
  pub handle_rrq_request-repeated :
      (late : List Incoming)
      → (t : ClientState) × (handle_rrq_request m server filename
            (data_twice from 1 full last ++ late)
            files
          ≡ (do
            done ←
                decompress m.host.creates
                  (compressed_name filename)
                  filename
                  (write_file (compressed_name filename) (joined_blocks (full ++ last ∷ [])) files)
            some (finished true t, done)))
        × (t.sent
            ≡ (server, 0 ∷ 1 ∷ request_body (compressed_name filename) octet)
              ∷ answers_twice m.stray from 1 full)
  handle_rrq_request-repeated late =
      let (t, run, got, answered) =
        receive_file-repeated m.host m.stray server from filename full last late accepts named free
          creates same hf short in
      (t, handle_rrq_request_lem m server filename _ t files _ delivered run got, answered)
