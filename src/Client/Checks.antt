-- ===== src/Client/Checks.antt =====
-- A datagram from the server passes the checks of the client's handlers.
use tftp.Base.{
  ℕ, ◌+◌, ◌-◌, ◌≤◌, ◌<◌, Bytes, Bool, true, false, ◌≡◌, ◌⊎◌, inl, inr, ap, ◌∙◌, sym, some, [], ◌∷◌,
  ◌++◌, length, drop, take_prefix, length-replicate, replicate, ==_iff, Bool-cases, le→ltb, arith,
}
use tftp.Packet.Layout.{ack_layout}
use tftp.Wire.{Address, received, read_bytes, opcode_of, block_of}
use tftp.Wire.Words.{header, opcode_of-header, block_of-header}
use tftp.Server.{max_retry}
use tftp.Server.Write.Steps.{received-header}
use tftp.Client.{ClientState, Outbox, verified, check_ip, check_port, received_data, send_ack}

-- The sender has the server's address, and its port unless that is not known yet.
abbrev pub Trusts : ClientState → Address → Type 0
Trusts s from = (from.ip ≡ s.server.ip) × ((s.initial_packet ≡ true) ⊎ (s.server.port ≡ from.port))

-- The state after a datagram from there, before its opcode is looked at.
abbrev pub settled : ClientState → Address → Bytes → ClientState
settled s from payload = record s {
  server = from;
  initial_packet = false;
  retry = max_retry;
  recieved_buffer = received s.recieved_buffer payload;
}

pub check_ip_lem :
    (s : ClientState) (from : Address) (payload : Bytes)
    → length s.recieved_buffer ≡ 516
    → from.ip ≡ s.server.ip
    → check_ip s from payload
      ≡ some (
          verified
            (record s { retry = max_retry; recieved_buffer = received s.recieved_buffer payload })
            (read_bytes s.recieved_buffer payload))
unfolding check_ip
check_ip_lem s from payload size same = rw (
  le→ltb 516 (read_bytes s.recieved_buffer payload) (omega arith),
  (==_iff from.ip s.server.ip).1 same,
)

-- The state with another server.
abbrev with_server : ClientState → ℕ → ℕ → Bool → ClientState
with_server s ip port initial = record s {
  server = record { ip = ip; port = port };
  initial_packet = initial;
}

pub check_port_lem :
    (s : ClientState) (from : Address) (bytes : ℕ)
    → Trusts s from
    → check_port s from bytes
      ≡ some (verified (record s { server = from; initial_packet = false }) bytes)
unfolding check_port
check_port_lem s from bytes (ip, inl first) =
    rw first (ap (λ (i : ℕ). some (verified (with_server s i from.port false) bytes)) (sym ip))
check_port_lem s from bytes (ip, inr port) = elim (Bool-cases s.initial_packet) [
  | inl first ↦
      rw first (ap (λ (i : ℕ). some (verified (with_server s i from.port false) bytes)) (sym ip))
  | inr later ↦
      let set = λ (i p : ℕ) (b : Bool). some (verified (with_server s i p b) bytes) in
      rw (later, (==_iff s.server.port from.port).1 port)
        (ap (λ (i : ℕ). set i s.server.port false) (sym ip)
          ∙ ap (λ (p : ℕ). set from.ip p false) port)
]

-- What stands behind the header of a packet.
pub received_data-header :
    (buffer : Bytes) (opcode word : ℕ) (block : Bytes)
    → length buffer ≡ 516
    → length block ≤ 512
    → received_data
        (received buffer (header opcode word block))
        (read_bytes buffer (header opcode word block))
      ≡ some block
unfolding received_data
received_data-header buffer opcode word block size short =
    let rest = drop (length (header opcode word block)) buffer in
    let bytes : read_bytes buffer (header opcode word block) ≡ 4 + length block = omega arith in
    rw
      (
        bytes,
        le→ltb (4 + length block) 4 (omega arith),
        received-header buffer opcode word block (omega arith),
      )
      (ap some (take_prefix (4 + length block - 4) block rest (omega arith)))

pub send_ack_lem :
    (sent : Outbox) (n : ℕ) (to : Address)
    → send_ack sent n to ≡ some (sent ++ (to, header 4 n []) ∷ [])
unfolding send_ack
send_ack_lem sent n to = rw (ack_layout (replicate 4 0) n (length-replicate {A = ℕ} 4 0))

-- The opcode and the number of a packet in the buffer.
pub opcode_of-received :
    (buffer : Bytes) (opcode word : ℕ) (block : Bytes)
    → length buffer ≡ 516
    → length block ≤ 512
    → opcode < 256
    → opcode_of (received buffer (header opcode word block)) ≡ opcode
opcode_of-received buffer opcode word block size short small =
    ap opcode_of (received-header buffer opcode word block (omega arith))
    ∙ opcode_of-header opcode word (block ++ drop (length (header opcode word block)) buffer) small

pub block_of-received :
    (buffer : Bytes) (opcode word : ℕ) (block : Bytes)
    → length buffer ≡ 516
    → length block ≤ 512
    → word < 65536
    → block_of (received buffer (header opcode word block)) ≡ word
block_of-received buffer opcode word block size short small =
    ap block_of (received-header buffer opcode word block (omega arith))
    ∙ block_of-header opcode word (block ++ drop (length (header opcode word block)) buffer) small
