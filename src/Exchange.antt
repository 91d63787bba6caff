-- ===== src/Exchange.antt =====
-- Both ends of a write: `handleWRQRequest` of src/TFTPClient.cpp and `handleWriteRequest` of
-- src/TFTPServer.cpp, each given what the other sends.
pub mod Deletion
pub mod Late
pub mod Delivery
use tftp.Base.{
  ℕ, zero, suc, ◌+◌, ◌*◌, ◌≤◌, ◌<◌, Bytes, Bool, true, false, ◌≡◌, ◌≢◌, refl, ap, ap₂, ◌∙◌, sym,
  some, List, [], ◌∷◌, ◌++◌, length, map, All, u16, append-nil, arith,
}
use tftp.Base.Int.{pos}
use tftp.Base.Names.{text_key}
use tftp.Base.StdMap.{find}
use tftp.Packet.{read_data_block}
use tftp.Packet.File.{blocks, blocks-all, length-read_data_block}
use tftp.Packet.Store.{NulFree}
use tftp.Wire.{Address, Incoming}
use tftp.Wire.Words.{header}
use tftp.Server.{Server, Host, Event, datagram, path_of, file_exists}
use tftp.Server.Write.{returned, handle_write_request}
use tftp.Server.Write.Transfer.{
  data_packets, acks, joined_blocks, IsFull, handle_write_request-stores,
}
use tftp.Server.Read.Transfer.{block_packets}
use tftp.Client.{ClientState, finished, compressed_name}
use tftp.Client.Read.Transfer.{addressed}
use tftp.Client.Write.{handle_wrq_request}
use tftp.Client.Write.Transfer.{ack_headers, acks_from}
use tftp.Client.Write.Request.{write_request, handle_wrq_request-sends}

-- The first blocks behind block `n` of a file.
abbrev pub front : Bytes → ℕ → ℕ → List Bytes
front contents n zero = []
front contents n (suc count) =
    read_data_block (some contents) (suc n) ∷ front contents (suc n) count

module _ (contents : Bytes) where
  abbrev block : ℕ → Bytes
  block n = read_data_block (some contents) (suc n)

  pub front-IsFull : (m n : ℕ) → (n + m) * 512 ≤ length contents → All IsFull (front contents n m)
  front-IsFull zero n h = tt
  front-IsFull (suc m) n h =
      (omega (arith, length-read_data_block contents n), front-IsFull m (suc n) (omega arith))

  -- The client's packets are what the server's theorem is about.
  data_packets-front :
      (m n k : ℕ)
      → k ≡ n + m
      → k < 65535
      → data_packets (suc n) (front contents n m ++ block k ∷ [])
        ≡ map datagram (block_packets contents n (suc m))
  data_packets-front zero n k e small =
      let same : k ≡ n = omega (arith, e) in
      ap (λ (i : ℕ). datagram (header 3 (suc n) (block i)) ∷ []) same
  data_packets-front (suc m) n k e small =
      let next : u16 (suc n + 1) ≡ suc (suc n) = omega (arith, e) in
      rw next (
        ap (◌∷◌ (datagram (header 3 (suc n) (block n))))
          (data_packets-front m (suc n) k (omega (arith, e)) small))

  pub joined_blocks-front :
      (m n k : ℕ)
      → k ≡ n + m
      → joined_blocks (front contents n m ++ block k ∷ []) ≡ blocks contents n (suc m)
  joined_blocks-front zero n k e =
      let same : k ≡ n = omega (arith, e) in ap (λ (i : ℕ). block i ++ []) same
  joined_blocks-front (suc m) n k e =
      ap (◌++◌ (block n)) (joined_blocks-front m (suc n) k (omega (arith, e)))

  -- The server's acknowledgments are what the client's theorem is about.
  acks-front :
      (m n k : ℕ) (last : Bytes)
      → k ≡ n + m
      → k < 65535
      → acks (suc n) (front contents n m ++ last ∷ []) ≡ ack_headers (suc n) (suc m)
  acks-front zero n k last e small = refl
  acks-front (suc m) n k last e small =
      let next : u16 (suc n + 1) ≡ suc (suc n) = omega (arith, e) in
      rw next
        (ap (◌∷◌ (header 4 (suc n) [])) (acks-front m (suc n) k last (omega (arith, e)) small))

-- The last acknowledgment is one more than the client looks at.
ack_headers-snoc :
    (from : Address) (n m : ℕ)
    → (rest : List Incoming) × (map (Incoming.datagram from) (ack_headers n (suc m))
        ≡ acks_from from n m ++ rest)
ack_headers-snoc from n zero = (map (Incoming.datagram from) (ack_headers n 1), refl)
ack_headers-snoc from n (suc m) =
    let (rest, e) = ack_headers-snoc from (suc n) m in
    (rest, ap (◌∷◌ (Incoming.datagram from (header 4 n []))) e)

-- A write of a compressed file of fewer than 65535 blocks, the last one neither full nor empty,
-- under a name that the server does not have, where the server can create the file and all its
-- writes succeed, and nothing is lost: there are packets and acknowledgments such that the
-- client, given the acknowledgments, sends its request and then the packets and reports success;
-- the server, given the packets, sends the acknowledgments and returns; and the disk of the
-- server holds the file of the client under the compressed name, which is in the table with no
-- reader.
pub upload :
    (host : Host) (server : Server) (contents filename : Bytes) (stray listener thread : Address)
    (delivers : ℕ → Bool) (k : ℕ)
    → ((c b : Bytes) → host.accepts c b ≡ true)
    → ((n : ℕ) → delivers n ≡ true)
    → file_exists (compressed_name filename) server.files ≡ false
    → host.creates (path_of (compressed_name filename)) ≡ true
    → length filename ≢ 0
    → NulFree (compressed_name filename)
    → thread.ip ≡ listener.ip
    → k < 65535
    → k * 512 < length contents
    → length contents < k * 512 + 512
    → (packets replies : List Bytes) × (t : ClientState) × (server' : Server) × (handle_wrq_request
          (some contents)
          delivers
          stray
          true
          listener
          filename
          (map (Incoming.datagram thread) replies)
        ≡ some (finished true t))
      × (t.sent ≡ write_request listener filename ++ addressed thread packets)
      × (handle_write_request host server (compressed_name filename) (map datagram packets)
          ≡ some (returned server' replies))
      × (server'.disk (path_of (compressed_name filename)) ≡ some contents)
      × (find (compressed_name filename) server'.files ≡ some (pos 0))
upload host server contents filename stray listener thread delivers k accepts delivered new creates
      named free same small lower upper =
    let name = compressed_name filename in
    let full = front contents 0 k in
    let last = read_data_block (some contents) (suc k) in
    let at_k : k ≡ 0 + k = omega arith in
    let packets = block_packets contents 0 (suc k) in
    let replies = header 4 0 [] ∷ acks 1 (full ++ last ∷ []) in
    let (server', served, disk, found) =
      handle_write_request-stores host name accepts server full last new creates
        (front-IsFull contents k 0 (omega arith))
        (omega (arith, length-read_data_block contents k)) in
    let (later, shape) = ack_headers-snoc thread 0 (suc k) in
    let events : map (Incoming.datagram thread) replies ≡ acks_from thread 0 (suc k) ++ later =
      ap (λ tail. Incoming.datagram thread (header 4 0 []) ∷ map (Incoming.datagram thread) tail)
        (acks-front contents k 0 k last at_k small)
      ∙ shape in
    let (t, run, sent, whole) =
      handle_wrq_request-sends contents delivers stray listener thread filename named free delivered
        same k later small lower upper in
    (
      packets,
      replies,
      t,
      server',
      rw events run,
      sent,
      ap (handle_write_request host server name)
            (sym (data_packets-front contents k 0 k at_k small))
          ∙ served,
      disk ∙ ap some (joined_blocks-front contents k 0 k at_k ∙ whole),
      found,
    )
