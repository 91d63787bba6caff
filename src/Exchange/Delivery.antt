-- ===== src/Exchange/Delivery.antt =====
-- A text from one client to another: WRITE with its compression, the server, and READ with its
-- decompression.
use tftp.Base.{
  ℕ, suc, ◌+◌, ◌*◌, ◌/◌, ◌<◌, Bytes, true, false, ◌≡◌, ◌≢◌, refl, ap, ◌∙◌, sym, some, List, [], ◌∷◌,
  ◌++◌, length, replicate, map, ne→==, arith,
}
use tftp.Base.Names.{text_key}
use tftp.Base.StdMap.{find}
use tftp.Base.Text.{codes}
use tftp.Packet.{read_data_block, octet}
use tftp.Packet.File.{blocks-all, length-read_data_block}
use tftp.Packet.Store.{NulFree}
use tftp.Packet.Layout.{request_body}
use tftp.Wire.{Address, Incoming}
use tftp.Wire.Words.{header}
use tftp.Server.{Server, Host, Event, path_of, file_exists}
use tftp.Server.Readers.{found→file_exists}
use tftp.Server.Write.{returned, handle_write_request}
use tftp.Server.Write.Transfer.{acks, joined_blocks}
use tftp.Server.Read.{after_read, handle_read_request}
use tftp.Compression.Files.{Files, write_file, without_extension, deflate}
use tftp.Compression.Files.RoundTrip.{written}
use tftp.Compression.Files.Recovered.{IsText, IsApart, decompress-deflate}
use tftp.Client.{ClientState, finished, compressed_name}
use tftp.Client.Read.Transfer.{addressed}
use tftp.Client.Read.Repeats.{answers_twice}
use tftp.Client.Write.{handle_wrq_request}
use tftp.Client.Write.Request.{write_request}
use tftp.Client.Start.{Machine, handle_rrq_request, wrq_files}
use tftp.Client.Start.Received.{handle_rrq_request-repeated}
use tftp.Exchange.{front, front-IsFull, joined_blocks-front, upload}
use tftp.Exchange.Late.{
  same_address, packets_to, packets_to-request, packets_to-answers, late_replies, packets_twice,
  packets_twice-data, handle_read_request-late,
}

-- Every file can be opened for writing, every write and every `sendto` succeeds.
pub record IsWorking (m : Machine) : Type 0 where
  pub opens : (name : Bytes) → m.host.creates name ≡ true
  pub accepts : (c b : Bytes) → m.host.accepts c b ≡ true
  pub delivered : m.delivered ≡ true
  pub delivers : (n : ℕ) → m.delivers n ≡ true

-- The handler of a write behind its compression.
wrq_files-upload :
    (m : Machine) (server : Address) (filename : Bytes) (events : List Incoming) (t : ClientState)
    (files after : Files) (contents : Bytes)
    → IsWorking m
    → length filename ≢ 0
    → deflate m.host.creates filename files ≡ some after
    → find (compressed_name filename) after ≡ some contents
    → handle_wrq_request (some contents) m.delivers m.stray true server filename events
      ≡ some (finished true t)
    → wrq_files m server filename events files ≡ some (finished true t, after)
unfolding wrq_files
wrq_files-upload m server filename events t files after contents w named deflated found run =
    rw (ne→== (length filename) 0 named, deflated, found, w.delivered, run)

-- A text of bytes with two different characters at least, 254 at most, and fewer than 2^31 in all
-- is written by one client and read by another under the same name, each end getting what the
-- other sends. All files can be opened for writing, all writes and sends succeed, deflate does
-- not write its packed file over the text or the table's file, the server does not have the
-- compressed name, the compressed file has at most 127 blocks, the last one neither full nor
-- empty, and what clientAddress of the reader happens to hold and the listening address are not
-- the address of the server's thread. The write loses nothing. In the read the server's thread
-- gets only what the reader sends to its address, each packet behind a timeout, and nothing
-- behind the last one, and the reader gets all that the thread sends, without a timeout. Both
-- clients report success, and the reader has acknowledged each full block to the thread once it
-- came again. The file that the reader leaves in its clientDatabase is the text and, behind it,
-- copies of some character, seven at most.
pub delivery :
    (host : Host) (server : Server) (writer reader : Machine) (filename text : Bytes)
    (files after others : Files) (contents : Bytes) (listener thread thread' : Address)
    (ack_buffer : Bytes) (k : ℕ)
    → IsWorking writer
    → IsWorking reader
    → ((c b : Bytes) → host.accepts c b ≡ true)
    → host.creates (path_of (compressed_name filename)) ≡ true
    → file_exists (compressed_name filename) server.files ≡ false
    → length filename ≢ 0
    → NulFree (compressed_name filename)
    → thread.ip ≡ listener.ip
    → thread'.ip ≡ listener.ip
    → same_address reader.stray thread' ≡ false
    → same_address listener thread' ≡ false
    → length ack_buffer ≡ 4
    → IsText text
    → IsApart filename
    → find filename files ≡ some text
    → deflate writer.host.creates filename files ≡ some after
    → find (compressed_name filename) after ≡ some contents
    → k < 127
    → k * 512 < length contents
    → length contents < k * 512 + 512
    → (packets replies data_sent : List Bytes) × (t u : ClientState) × (server' server'' : Server)
      × (done : Files) × (c copies : ℕ) × (wrq_files writer listener filename
            (map (Incoming.datagram thread) replies)
            files
          ≡ some (finished true t, after))
      × (t.sent ≡ write_request listener filename ++ addressed thread packets)
      × (handle_write_request host server (compressed_name filename) (map Event.datagram packets)
          ≡ some (returned server' replies))
      × (handle_read_request server'
            (compressed_name filename)
            (late_replies ack_buffer (packets_to thread' u.sent))
          ≡ some (returned server'' data_sent))
      × (handle_rrq_request reader listener filename
            (map (Incoming.datagram thread') data_sent)
            others
          ≡ some (finished true u, done))
      × (u.sent
          ≡ (listener, 0 ∷ 1 ∷ request_body (compressed_name filename) octet)
            ∷ answers_twice reader.stray thread' 1 (front contents 0 k))
      × (copies < 8)
      × (find (codes "clientDatabase/" ++ filename) done ≡ some (text ++ replicate copies c))
unfolding compressed_name without_extension
delivery host server writer reader filename text files after others contents listener thread thread'
      ack_buffer k w r accepts creates new named free same same' stray other size v apart there
      deflated found small lower upper =
    let name = compressed_name filename in
    let (packets, replies, t, server', wrote, sent, stored, disk, entry) =
      upload host server contents filename writer.stray listener thread writer.delivers k accepts
        w.delivers new creates named free same (omega arith) lower upper in
    let full = front contents 0 k in
    let last = read_data_block (some contents) (suc k) in
    let (u, read, answered) =
      handle_rrq_request-repeated reader listener thread' filename full last others r.delivered
        r.accepts named free (r.opens name) same' (front-IsFull contents k 0 (omega arith))
        (omega (arith, length-read_data_block contents k))
        (replicate 4 (Incoming.datagram thread' (header 3 (suc k) last))) in
    let at_k : k ≡ 0 + k = omega arith in
    let whole : joined_blocks (full ++ last ∷ []) ≡ contents =
      joined_blocks-front contents k 0 k at_k ∙ blocks-all contents (suc k) (omega arith) in
    let received = write_file name (joined_blocks (full ++ last ∷ [])) others in
    let same_contents : find name received ≡ find name after =
      written name (joined_blocks (full ++ last ∷ [])) others ∙ ap some whole ∙ sym found in
    let (_, c, len, pad, done, _, _, positive, few, _, decompressed, out) =
      decompress-deflate writer.host.creates w.opens reader.host.creates r.opens filename text files
        after name filename received v apart there deflated same_contents in
    let request : Bytes = 0 ∷ 1 ∷ request_body name octet in
    let got : packets_to thread' u.sent ≡ acks 1 full =
      ap (packets_to thread') answered
      ∙ packets_to-request listener thread' request _ other
      ∙ packets_to-answers reader.stray thread' full 1 stray in
    (
      packets,
      replies,
      packets_twice contents ack_buffer size 0 k,
      t,
      u,
      server',
      after_read server' name,
      done,
      c,
      pad / len,
      wrq_files-upload writer listener filename _ t files after contents w named deflated found
          wrote,
      sent,
      stored,
      ap (λ ps. handle_read_request server' name (late_replies ack_buffer ps)) got
          ∙ handle_read_request-late contents ack_buffer size server' name k
              (found→file_exists name server'.files entry) disk small lower,
      ap (λ events. handle_rrq_request reader listener filename events others)
            (packets_twice-data contents ack_buffer size thread' k 0 k at_k (omega arith))
          ∙ read
          ∙ rw decompressed refl,
      answered,
      div_small pad len few positive,
      out,
    )
  where
    div_small : (pad len : ℕ) → pad < 8 → 0 < len → pad / len < 8
    div_small pad len few positive = grind arith
