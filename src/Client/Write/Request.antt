-- ===== src/Client/Write/Request.antt =====
-- `handleWRQRequest` as a whole.
use tftp.Base.{
  ℕ, suc, ◌+◌, ◌*◌, ◌<◌, Bytes, Bool, true, false, ◌≡◌, ◌≢◌, inl, refl, ◌∙◌, some, List, [], ◌∷◌,
  ◌++◌, length, length-replicate, replicate, All, ne→==, arith,
}
use tftp.Packet.{octet}
use tftp.Packet.Store.{NulFree}
use tftp.Packet.Layout.{request_body, request_layout}
use tftp.Packet.File.{blocks, blocks-all}
use tftp.Wire.{Address, Incoming}
use tftp.Server.Read.Transfer.{block_packets}
use tftp.Server.Read.Request.{IsFullPacket, full_packets}
use tftp.Client.{ClientState, Outbox, finished, compressed_name, send_wrq_packet}
use tftp.Client.Read.Transfer.{addressed}
use tftp.Client.Write.{wrq_loop, wrq_start, handle_wrq_request}
use tftp.Client.Write.Transfer.{acks_from, wrq_loop_sends, wrq_loop_sends_full}

send_wrq_packet_lem :
    (server : Address) (filename : Bytes)
    → NulFree filename
    → send_wrq_packet server filename ≡ some ((server, 0 ∷ 2 ∷ request_body filename octet) ∷ [])
unfolding send_wrq_packet
send_wrq_packet_lem server filename h = rw (
    (request_layout (replicate (4 + length filename + length octet) 0) filename octet h
      (omega arith) (length-replicate {A = ℕ} (4 + length filename + length octet) 0)).1)

-- What is sent first.
abbrev pub write_request : Address → Bytes → Outbox
write_request server filename = (server, 0 ∷ 2 ∷ request_body (compressed_name filename) octet) ∷ []

module _ (contents : Bytes) (delivers : ℕ → Bool) (stray server from : Address) (filename : Bytes)
    (named : length filename ≢ 0) (free : NulFree (compressed_name filename))
    (delivered : (n : ℕ) → delivers n ≡ true) (same : from.ip ≡ server.ip) where
  -- The handler behind its request.
  handle_wrq_request-loop :
      (events : List Incoming)
      → handle_wrq_request (some contents) delivers stray true server filename events
        ≡ wrq_loop contents delivers (wrq_start server (write_request server filename)) events
  unfolding handle_wrq_request
  handle_wrq_request-loop events =
      rw (
        ne→== (length filename) 0 named,
        send_wrq_packet_lem server (compressed_name filename) free,
      )

  -- A write request, where the request and every block can be sent, for a compressed file whose
  -- last block is neither full nor empty, of fewer than 65535 blocks, and the thread of the
  -- server, at any port of its address, acknowledges block 0 and each block but the last:
  -- whatever comes later, the client reports success; it sent its request to the server and then
  -- the DATA packets of all blocks in order to the thread, and the blocks put together are the
  -- file. It does not wait for the last acknowledgment.
  pub handle_wrq_request-sends :
      (k : ℕ) (later : List Incoming)
      → k < 65535
      → k * 512 < length contents
      → length contents < k * 512 + 512
      → (t : ClientState) × (handle_wrq_request
            (some contents)
            delivers
            stray
            true
            server
            filename
            (acks_from from 0 (suc k) ++ later)
          ≡ some (finished true t))
        × (t.sent
            ≡ write_request server filename ++ addressed from (block_packets contents 0 (suc k)))
        × (blocks contents 0 (suc k) ≡ contents)
  unfolding wrq_start
  handle_wrq_request-sends k later small lower upper =
      let (t, run, got) =
        wrq_loop_sends contents delivers delivered k 0
          (wrq_start server (write_request server filename)) from later
          (omega arith, (same, inl refl), refl) (omega arith) (omega arith) (omega arith) in
      (
        t,
        handle_wrq_request-loop (acks_from from 0 (suc k) ++ later) ∙ run,
        got,
        blocks-all contents (suc k) (omega arith),
      )

  -- A write request for a compressed file of fewer than 65535 blocks and of a length that is a
  -- multiple of 512, where the request and every block can be sent, and the thread of the server,
  -- at any port of its address, acknowledges block 0 and each block: the client reports failure,
  -- and every packet that it sent after its request was a full DATA packet, so that nothing told
  -- the server that the file was at its end.
  pub handle_wrq_request-unended :
      (k : ℕ)
      → k < 65535
      → length contents ≡ k * 512
      → (t : ClientState) × (handle_wrq_request
            (some contents)
            delivers
            stray
            true
            server
            filename
            (acks_from from 0 (suc k))
          ≡ some (finished false t))
        × (t.sent ≡ write_request server filename ++ addressed from (block_packets contents 0 k))
        × All IsFullPacket (block_packets contents 0 k)
  unfolding wrq_start
  handle_wrq_request-unended k small whole =
      let (t, run, got) =
        wrq_loop_sends_full contents delivers delivered k 0
          (wrq_start server (write_request server filename)) from
          (omega arith, (same, inl refl), refl) (omega arith) (omega arith) in
      (
        t,
        handle_wrq_request-loop (acks_from from 0 (suc k)) ∙ run,
        got,
        full_packets contents k 0 (omega arith),
      )
