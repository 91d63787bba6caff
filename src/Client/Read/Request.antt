-- ===== src/Client/Read/Request.antt =====
-- `handleRRQRequest` up to the decompression, where the file is received whole.
use tftp.Base.{
  ℕ, ◌+◌, ◌<◌, Bytes, true, ◌≡◌, ◌≢◌, inl, refl, ◌∙◌, some, List, [], ◌∷◌, ◌++◌, length,
  length-replicate, replicate, All, ne→==, arith,
}
use tftp.Packet.{octet}
use tftp.Packet.Store.{NulFree}
use tftp.Packet.Layout.{request_body, request_layout}
use tftp.Wire.{Address, Incoming}
use tftp.Server.{Host}
use tftp.Server.Write.Transfer.{acks, joined_blocks, IsFull}
use tftp.Client.{ClientState, Outbox, finished, compressed_name, send_rrq_packet}
use tftp.Client.Read.{rrq_loop, rrq_start, receive_file}
use tftp.Client.Read.Repeats.{data_twice, answers_twice, rrq_loop_repeated}
use tftp.Client.Read.Transfer.{data_from, addressed, rrq_loop_receives}

send_rrq_packet_lem :
    (server : Address) (filename : Bytes)
    → NulFree filename
    → send_rrq_packet server filename ≡ some ((server, 0 ∷ 1 ∷ request_body filename octet) ∷ [])
unfolding send_rrq_packet
send_rrq_packet_lem server filename h = rw (
    (request_layout (replicate (4 + length filename + length octet) 0) filename octet h
      (omega arith) (length-replicate {A = ℕ} (4 + length filename + length octet) 0)).0)

-- The handler behind its request.
receive_file-loop :
    (host : Host) (stray server : Address) (filename : Bytes) (events : List Incoming)
    → length filename ≢ 0
    → NulFree (compressed_name filename)
    → host.creates (compressed_name filename) ≡ true
    → receive_file host stray true server filename events
      ≡ rrq_loop host stray
          (rrq_start server ((server, 0 ∷ 1 ∷ request_body (compressed_name filename) octet) ∷ []))
          events
unfolding receive_file
receive_file-loop host stray server filename events named free creates = rw (
  ne→== (length filename) 0 named,
  send_rrq_packet_lem server (compressed_name filename) free,
  creates,
)

pub receive_file-stores :
    (host : Host) (stray server from : Address) (filename : Bytes) (full : List Bytes)
    (last : Bytes)
    → ((c b : Bytes) → host.accepts c b ≡ true)
    → length filename ≢ 0
    → NulFree (compressed_name filename)
    → host.creates (compressed_name filename) ≡ true
    → from.ip ≡ server.ip
    → All IsFull full
    → length last < 512
    → (t : ClientState) × (receive_file host stray true server filename
          (data_from from 1 (full ++ last ∷ []))
        ≡ some (finished true t))
      × (t.contents ≡ joined_blocks (full ++ last ∷ []))
      × (t.sent
          ≡ (server, 0 ∷ 1 ∷ request_body (compressed_name filename) octet)
            ∷ addressed stray (acks 1 (full ++ last ∷ [])))
unfolding rrq_start
receive_file-stores host stray server from filename full last accepts named free creates same hf
      short =
    let out : Outbox = (server, 0 ∷ 1 ∷ request_body (compressed_name filename) octet) ∷ [] in
    let (t, run, got, acked) =
      rrq_loop_receives host stray accepts full last (rrq_start server out) from 1
        (omega arith, length-replicate {A = ℕ} 516 0, (same, inl refl), refl, omega arith) hf
        short in
    (t, receive_file-loop host stray server filename _ named free creates ∙ run, got, acked)

pub receive_file-repeated :
    (host : Host) (stray server from : Address) (filename : Bytes) (full : List Bytes)
    (last : Bytes) (late : List Incoming)
    → ((c b : Bytes) → host.accepts c b ≡ true)
    → length filename ≢ 0
    → NulFree (compressed_name filename)
    → host.creates (compressed_name filename) ≡ true
    → from.ip ≡ server.ip
    → All IsFull full
    → length last < 512
    → (t : ClientState) × (receive_file host stray true server filename
          (data_twice from 1 full last ++ late)
        ≡ some (finished true t))
      × (t.contents ≡ joined_blocks (full ++ last ∷ []))
      × (t.sent
          ≡ (server, 0 ∷ 1 ∷ request_body (compressed_name filename) octet)
            ∷ answers_twice stray from 1 full)
unfolding rrq_start
receive_file-repeated host stray server from filename full last late accepts named free creates same
      hf short =
    let out : Outbox = (server, 0 ∷ 1 ∷ request_body (compressed_name filename) octet) ∷ [] in
    let (t, run, got, answered) =
      rrq_loop_repeated host stray accepts full last late (rrq_start server out) from 1
        (omega arith, length-replicate {A = ℕ} 516 0, (same, inl refl), refl, omega arith) hf
        short in
    (t, receive_file-loop host stray server filename _ named free creates ∙ run, got, answered)
