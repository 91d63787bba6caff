-- ===== src/Exchange/Late.antt =====
-- A read where the client's acknowledgments of new blocks are lost: `handleReadRequest` of
-- src/TFTPServer.cpp sends each block again, and is answered then.
use tftp.Base.{
  ℕ, zero, suc, ◌+◌, ◌-◌, ◌*◌, ◌<◌, Bytes, Bool, true, false, ◌&&◌, ◌≡◌, refl, ap, ◌∙◌, sym, some,
  List, [], ◌∷◌, ◌++◌, length, replicate, map, u16, ◌==◌, ==-self, if◌then◌else◌, append_assoc,
  append-nil, arith,
}
use tftp.Packet.{read_data_block}
use tftp.Wire.{Address, Incoming}
use tftp.Wire.Words.{header}
use tftp.Server.{max_retry}
use tftp.Server.Write.{again, stop}
use tftp.Server.Write.Transfer.{acks}
use tftp.Server.Read.{Reply, timeout, datagram, ReadState, read_loop}
use tftp.Server.Read.Steps.{transmitted, read_receive_timeout, read_loop_again, read_loop_ended}
use tftp.Server.Read.Transfer.{at_block, block_ne_zero, full_round}
use tftp.Client.{Outbox}
use tftp.Client.Read.Repeats.{data_twice, answers_twice}
use tftp.Base.Names.{text_key}
use tftp.Server.{Server, path_of, file_exists}
use tftp.Server.Write.{returned}
use tftp.Server.Read.{read_start, after_read, handle_read_request}
use tftp.Server.Read.Request.{handle_read_request-stop}
use tftp.Exchange.{front}

abbrev pub same_address : Address → Address → Bool
same_address a b = a.ip == b.ip && a.port == b.port

-- The packets that go to an address.
abbrev pub packets_to : Address → Outbox → List Bytes
packets_to to [] = []
packets_to to ((receiver, packet) ∷ sent) =
    let rest = packets_to to sent in if same_address receiver to then packet ∷ rest else rest

-- What the server's socket yields: each packet that comes in arrives behind a timeout, and when no
-- packet is left nothing comes until the retries are used up.
abbrev pub late_replies : Bytes → List Bytes → List Reply
late_replies ack_buffer [] = replicate max_retry timeout
late_replies ack_buffer (packet ∷ packets) =
    timeout ∷ datagram ack_buffer packet ∷ late_replies ack_buffer packets

-- The client sends to the server's thread only what answers a repeated block.
pub packets_to-answers :
    (stray from : Address) (full : List Bytes) (n : ℕ)
    → same_address stray from ≡ false
    → packets_to from (answers_twice stray from n full) ≡ acks n full
packets_to-answers stray from [] n other = rw other refl
packets_to-answers stray from (block ∷ full) n other =
    rw (other, ==-self from.ip, ==-self from.port)
      (ap (◌∷◌ (header 4 n [])) (packets_to-answers stray from full (u16 (n + 1)) other))

pub packets_to-request :
    (listener from : Address) (request : Bytes) (sent : Outbox)
    → same_address listener from ≡ false
    → packets_to from ((listener, request) ∷ sent) ≡ packets_to from sent
packets_to-request listener from request sent other = rw other refl

module _ (contents ack_buffer : Bytes) (size : length ack_buffer ≡ 4) where
  abbrev packet : ℕ → Bytes
  packet n = header 3 (suc n) (read_data_block (some contents) (suc n))

  -- The blocks twice, and the last one for every retry.
  abbrev pub packets_twice : ℕ → ℕ → List Bytes
  packets_twice n zero = replicate max_retry (packet n)
  packets_twice n (suc m) = packet n ∷ packet n ∷ packets_twice (suc n) m

  timeout_round :
      (n retry : ℕ) (sent : List Bytes) (replies : List Reply)
      → n * 512 < length contents
      → read_loop (some contents) (at_block n (suc retry) sent) (timeout ∷ replies)
        ≡ read_loop (some contents) (at_block n retry (sent ++ packet n ∷ [])) replies
  timeout_round n retry sent replies h =
      read_loop_again (some contents) (at_block n (suc retry) sent)
        (at_block n retry (sent ++ packet n ∷ [])) timeout replies (omega arith)
        (block_ne_zero contents ack_buffer size n h)
        (read_receive_timeout (some contents)
            (transmitted (some contents) (at_block n (suc retry) sent))
          ∙ ap (λ (r : ℕ). some (again (at_block n r (sent ++ packet n ∷ [])))) less)
    where
      less : suc retry - 1 ≡ retry
      less = omega arith

  timeouts_lem :
      (retry n : ℕ) (sent : List Bytes)
      → n * 512 < length contents
      → (t : ReadState) × (read_loop
            (some contents)
            (at_block n retry sent)
            (replicate retry timeout)
          ≡ some (stop t))
        × (t.sent ≡ sent ++ replicate retry (packet n))
  timeouts_lem zero n sent h = (
    at_block n 0 sent,
    read_loop_ended (some contents) (at_block n 0 sent) [] refl,
    sym (append-nil sent),
  )
  timeouts_lem (suc retry) n sent h =
      let (t, run, got) = timeouts_lem retry n (sent ++ packet n ∷ []) h in
      (
        t,
        timeout_round n retry sent (replicate retry timeout) h ∙ run,
        got ∙ append_assoc sent (packet n ∷ []) (replicate retry (packet n)),
      )

  read_loop_late :
      (m n : ℕ) (sent : List Bytes)
      → n + m < 127
      → (n + m) * 512 < length contents
      → (t : ReadState) × (read_loop
            (some contents)
            (at_block n max_retry sent)
            (late_replies ack_buffer (acks (suc n) (front contents n m)))
          ≡ some (stop t))
        × (t.sent ≡ sent ++ packets_twice n m)
  read_loop_late zero n sent small lower = timeouts_lem max_retry n sent (omega arith)
  read_loop_late (suc m) n sent small lower =
      let next : u16 (suc n + 1) ≡ suc (suc n) = omega arith in
      let once = sent ++ packet n ∷ [] in
      let twice = once ++ packet n ∷ [] in
      let rest = packets_twice (suc n) m in
      let (t, run, got) = read_loop_late m (suc n) twice (omega arith) (omega arith) in
      (
        t,
        ap
              (λ (i : ℕ). read_loop (some contents) (at_block n max_retry sent) (
                timeout
                ∷ datagram ack_buffer (header 4 (suc n) [])
                ∷ late_replies ack_buffer (acks i (front contents (suc n) m))))
              next
            ∙ timeout_round n 4 sent _ (omega arith)
            ∙ read_loop_again (some contents) (at_block n 4 once) (at_block (suc n) max_retry twice)
                _ _ (omega arith) (block_ne_zero contents ack_buffer size n (omega arith))
                (full_round contents ack_buffer size n 4 once (omega arith) (omega arith))
            ∙ run,
        got
            ∙ append_assoc once (packet n ∷ []) rest
            ∙ append_assoc sent (packet n ∷ []) (packet n ∷ rest),
      )

  -- The handler that is answered late.
  pub handle_read_request-late :
      (server : Server) (filename : Bytes) (k : ℕ)
      → file_exists filename server.files ≡ true
      → server.disk (path_of filename) ≡ some contents
      → k < 127
      → k * 512 < length contents
      → handle_read_request server filename (late_replies ack_buffer (acks 1 (front contents 0 k)))
        ≡ some (returned (after_read server filename) (packets_twice 0 k))
  unfolding read_start
  handle_read_request-late server filename k known disk small lower =
      let (t, run, got) = read_loop_late k 0 [] (omega arith) (omega arith) in
      handle_read_request-stop contents ack_buffer size server filename _ t known disk run
      ∙ ap (λ sent. some (returned (after_read server filename) sent)) got

  -- What the client receives is each full block twice, the last block, and what is too late.
  pub packets_twice-data :
      (from : Address) (m n k : ℕ)
      → k ≡ n + m
      → k < 65535
      → map (Incoming.datagram from) (packets_twice n m)
        ≡ data_twice from (suc n) (front contents n m) (read_data_block (some contents) (suc k))
          ++ replicate 4 (Incoming.datagram from (packet k))
  packets_twice-data from zero n k e small =
      let same : n ≡ k = omega (arith, e) in
      ap (λ (i : ℕ). replicate 5 (Incoming.datagram from (packet i))) same
      ∙ ap
          (λ (i : ℕ).
            Incoming.datagram from (header 3 (suc i) (read_data_block (some contents) (suc k)))
            ∷ replicate 4 (Incoming.datagram from (packet k)))
          (sym same)
  packets_twice-data from (suc m) n k e small =
      let next : u16 (suc n + 1) ≡ suc (suc n) = omega (arith, e) in
      rw next (
        ap
          (λ (rest : List Incoming).
            Incoming.datagram from (packet n) ∷ Incoming.datagram from (packet n) ∷ rest)
          (packets_twice-data from m (suc n) k (omega (arith, e)) small))
