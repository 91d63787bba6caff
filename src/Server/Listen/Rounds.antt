-- ===== src/Server/Listen/Rounds.antt =====
-- A round of the loop of `start` in src/TFTPServer.cpp, on a sound listener.
use tftp.Base.{
  ℕ, suc, ◌+◌, ◌-◌, ◌^◌, ◌≤◌, ◌<◌, Bytes, false, ◌||◌, ◌≡◌, refl, Option, some, [], ◌∷◌, ◌++◌,
  length, map, replicate, length-replicate, ltb, ◌==◌, Bool-cases, inl, inr, lt→ltb, le→ltb, arith,
  min,
}
use tftp.Base.Names.{same_text, number_key}
use tftp.Packet.{octet}
use tftp.Wire.{read_bytes, opcode_of}
use tftp.Server.{illegal_operation}
use tftp.Server.Replies.{error_packet_lem}
use tftp.Wire.Words.{header}
use tftp.Server.Listen.{
  Listener, Request, Address, Incoming, timeout, datagram, to_lower, listen, listen_named,
  start_thread, take_client_id, refuse,
}
use tftp.Server.Listen.Strings.{c_string-drop, received_zeros}
use tftp.Server.Listen.Threads.{IsOrdered, IsOrdered-weaken, assign_thread-IsOrdered}

-- Every entry has a thread, under ids in order that were given out.
abbrev pub IsSound : Listener → Type 0
IsSound l = IsOrdered 9801 (9800 + l.next_client_id) l.client_threads

-- The result is there and sound, and its next id is bounded.
abbrev pub Keeps : ℕ → Option Listener → Type 0
Keeps limit result =
    (after : Listener) × (result ≡ some after) × IsSound after × (after.next_client_id ≤ limit)

refuse-Keeps :
    (limit : ℕ) (l : Listener) (client : Address)
    → IsSound l
    → l.next_client_id ≤ limit
    → Keeps limit (refuse l client)
unfolding refuse illegal_operation
refuse-Keeps limit l client h bound =
    let packet = header 5 4 (illegal_operation ++ 0 ∷ []) in
    (
      record l { sent = l.sent ++ (client, packet) ∷ [] },
      rw (
          error_packet_lem (replicate (4 + length illegal_operation + 1) 0) 4 illegal_operation
            (omega arith) (length-replicate {A = ℕ} (4 + length illegal_operation + 1) 0)),
      h,
      bound,
    )

-- The listener after `nextClientId++`.
abbrev counted : Listener → Listener
counted l = record l { next_client_id = l.next_client_id + 1 }

counted-IsSound : (l : Listener) → IsSound l → IsSound (counted l)
counted-IsSound l h =
    IsOrdered-weaken 9801 9801 (9800 + l.next_client_id) (9800 + (l.next_client_id + 1))
      l.client_threads (omega arith) (omega arith) h

start_thread-Keeps :
    (l : Listener) (request : Request)
    → IsSound l
    → Keeps (l.next_client_id + 1) (start_thread (counted l) (9800 + l.next_client_id) request)
unfolding start_thread
start_thread-Keeps l request h =
    let (threads, e, o) =
      assign_thread-IsOrdered 9801 (9800 + l.next_client_id) request l.client_threads h in
    let same : suc (9800 + l.next_client_id) ≡ 9800 + (l.next_client_id + 1) = omega arith in
    (
      record { next_client_id = l.next_client_id + 1; client_threads = threads; sent = l.sent },
      rw e,
      rw same at o,
      omega arith,
    )

-- A buffer of which the last bytes are zeros has a filename and a mode.
listen_named-Keeps :
    (l : Listener) (client : Address) (opcode : ℕ) (payload : Bytes)
    → IsSound l
    → 9800 + l.next_client_id < 2 ^ 31
    → length payload ≤ 516
    → Keeps
        (l.next_client_id + 1)
        (listen_named l client opcode (payload ++ replicate (1024 - length payload) 0))
unfolding listen_named take_client_id
listen_named-Keeps l client opcode payload h room short =
    let zeros : ℕ = 1024 - length payload in
    let (filename, e, le) = c_string-drop 2 payload zeros (omega arith) (omega arith) in
    let (mode, f, _) =
      c_string-drop (2 + length filename + 1) payload zeros (omega arith) (omega arith) in
    rw (lt→ltb (9800 + l.next_client_id) (2 ^ 31) room, e, f)
      (elim (Bool-cases (same_text (map to_lower mode) octet)) [
        | inl same ↦ rw same (
            start_thread-Keeps l (record { opcode = opcode; filename = filename; client = client })
              h)
        | inr other ↦ rw other (
            refuse-Keeps (l.next_client_id + 1) (counted l) client (counted-IsSound l h)
              (omega arith))
      ])

listen_small-Keeps :
    (l : Listener) (client : Address) (payload : Bytes)
    → IsSound l
    → 9800 + l.next_client_id < 2 ^ 31
    → length payload ≤ 516
    → Keeps (l.next_client_id + 1) (listen l (datagram client payload))
unfolding listen take_client_id
listen_small-Keeps l client payload h room short =
    let buffer : Bytes = payload ++ replicate (1024 - length payload) 0 in
    let opcode : ℕ = opcode_of buffer in
    rw
      (
        received_zeros 1024 payload (omega arith),
        le→ltb 516 (read_bytes (replicate 1024 0) payload) (omega arith),
      )
      (elim (Bool-cases (opcode == 7)) [
        | inl e ↦
            rw (e, lt→ltb (9800 + l.next_client_id) (2 ^ 31) room)
              (start_thread-Keeps l (record { opcode = opcode; filename = []; client = client }) h)
        | inr e ↦ rw e (elim (Bool-cases (opcode == 1 || (opcode == 2 || opcode == 6))) [
          | inl f ↦ rw f (listen_named-Keeps l client opcode payload h room short)
          | inr f ↦ rw f (refuse-Keeps (l.next_client_id + 1) l client h (omega arith))
        ])
      ])

fits_lem : (n : ℕ) → ltb 516 (min n 1024) ≡ false → n ≤ 516
fits_lem n h = ground arith

pub listen-Keeps :
    (l : Listener) (e : Incoming)
    → IsSound l
    → 9800 + l.next_client_id < 2 ^ 31
    → Keeps (l.next_client_id + 1) (listen l e)
unfolding listen
listen-Keeps l timeout h room = (l, refl, h, omega arith)
listen-Keeps l (datagram client payload) h room =
    elim (Bool-cases (ltb 516 (read_bytes (replicate 1024 0) payload))) [
      | inl large ↦ rw large (refuse-Keeps (l.next_client_id + 1) l client h (omega arith))
      | inr fits ↦
          listen_small-Keeps l client payload h room
            (fits_lem (length payload) (ground (arith, fits)))
    ]
