-- ===== src/Client/Delete/Answers.antt =====
-- `handleDELETERequest` against the two answers of a server.
use tftp.Base.{
  ℕ, ◌+◌, ◌≤◌, ◌<◌, Bytes, Bool, true, false, ◌≡◌, ◌≢◌, refl, some, List, [], ◌∷◌, ◌++◌, length,
  length-append, length-replicate, replicate, ne→==, arith,
}
use tftp.Packet.{octet}
use tftp.Packet.Store.{NulFree}
use tftp.Packet.Layout.{request_body, delete_layout}
use tftp.Wire.{Address, Incoming, datagram, received}
use tftp.Wire.Words.{header}
use tftp.Server.{max_retry}
use tftp.Server.Listen.Strings.{c_string-append}
use tftp.Server.Write.Steps.{error_reply}
use tftp.Client.{ClientState, Outbox, finished, send_delete_packet, print_error}
use tftp.Client.Checks.{check_ip_lem, opcode_of-received, block_of-received, received_data-header}
use tftp.Client.Delete.{
  delete_packet, delete_checked, delete_step, delete_loop, delete_start, handle_delete_request,
}

send_delete_packet_lem :
    (server : Address) (filename : Bytes)
    → NulFree filename
    → send_delete_packet server filename ≡ some ((server, 0 ∷ 6 ∷ request_body filename octet) ∷ [])
unfolding send_delete_packet
send_delete_packet_lem server filename h = rw (
    delete_layout (replicate (4 + length filename + length octet) 0) filename h
      (length-replicate {A = ℕ} (4 + length filename + length octet) 0))

module _ (s : ClientState) (from : Address) (size : length s.recieved_buffer ≡ 516)
    (same : from.ip ≡ s.server.ip) where
  -- The state after a datagram of the server arrived.
  abbrev heard : Bytes → ClientState
  heard payload = record s {
    retry = max_retry;
    recieved_buffer = received s.recieved_buffer payload;
  }

  delete_step_ack :
      delete_step s (datagram from (header 4 0 [])) ≡ some (finished true (heard (header 4 0 [])))
  unfolding delete_step delete_checked delete_packet
  delete_step_ack = rw (check_ip_lem s from (header 4 0 []) size same) (
      rw (
        opcode_of-received s.recieved_buffer 4 0 [] size (omega arith) (omega arith),
        block_of-received s.recieved_buffer 4 0 [] size (omega arith) (omega arith),
      ))

  delete_step_error :
      (code : ℕ) (message : Bytes)
      → NulFree message
      → length message < 512
      → delete_step s (datagram from (error_reply code message))
        ≡ some (finished false (heard (error_reply code message)))
  unfolding delete_step delete_checked delete_packet print_error
  delete_step_error code message free short =
      let text : Bytes = message ++ 0 ∷ [] in
      let room : length text ≤ 512 = omega (arith, length-append message (0 ∷ [])) in
      rw (check_ip_lem s from (error_reply code message) size same) (
        rw (
          opcode_of-received s.recieved_buffer 5 code text size room (omega arith),
          received_data-header s.recieved_buffer 5 code text size room,
          c_string-append message [] free,
        ))

delete_loop_finished :
    (s t : ClientState) (b : Bool) (e : Incoming) (later : List Incoming)
    → 0 < s.retry
    → delete_step s e ≡ some (finished b t)
    → delete_loop s (e ∷ later) ≡ some (finished b t)
unfolding delete_loop
delete_loop_finished s t b e later live h = rw (ne→== s.retry 0 (omega arith), h)

module _ (buffer : Bytes) (size : length buffer ≡ 516) (server from : Address) (filename : Bytes)
    (named : length filename ≢ 0) (free : NulFree filename) (same : from.ip ≡ server.ip) where
  abbrev request : Outbox
  request = (server, 0 ∷ 6 ∷ request_body filename octet) ∷ []

  -- How the handler ends by its first datagram, and what it sent: the request alone.
  abbrev pub EndsWith : List Incoming → Bool → Type 0
  EndsWith events b =
      (t : ClientState) × (handle_delete_request buffer true server filename events
        ≡ some (finished b t))
      × (t.sent ≡ request)

  handle_delete_request-ends :
      (e : Incoming) (later : List Incoming) (b : Bool) (t : ClientState)
      → delete_step (delete_start buffer server request) e ≡ some (finished b t)
      → t.sent ≡ request
      → EndsWith (e ∷ later) b
  unfolding handle_delete_request delete_start
  handle_delete_request-ends e later b t h sent = (
    t,
    rw (ne→== (length filename) 0 named, send_delete_packet_lem server filename free)
        (delete_loop_finished (delete_start buffer server request) t b e later (omega arith) h),
    sent,
  )

  pub handle_delete_request-ack :
      (later : List Incoming) → EndsWith (datagram from (header 4 0 []) ∷ later) true
  unfolding delete_start
  handle_delete_request-ack later =
      handle_delete_request-ends _ later true _
        (delete_step_ack (delete_start buffer server request) from size same) refl

  pub handle_delete_request-error :
      (code : ℕ) (message : Bytes) (later : List Incoming)
      → NulFree message
      → length message < 512
      → EndsWith (datagram from (error_reply code message) ∷ later) false
  unfolding delete_start
  handle_delete_request-error code message later clean short =
      handle_delete_request-ends _ later false _
        (delete_step_error (delete_start buffer server request) from size same code message clean
          short)
        refl
