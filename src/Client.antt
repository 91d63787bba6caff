-- ===== src/Client.antt =====
-- The state of a transfer of src/TFTPClient.cpp, the packets that the client sends, and the checks
-- that its four handlers share.
pub mod Names
pub mod Checks
pub mod Read
pub mod Write
pub mod Delete
pub mod Listing
pub mod Start
use Prim.Native.String.{String}
use tftp.Base.{
  ℕ, ◌+◌, Bytes, Bool, true, false, not, Option, none, some, List, [], ◌∷◌, ◌++◌, length, replicate,
  take, drop, ◌-◌, ltb, ◌==◌, if◌then◌else◌, ◌>>=◌,
}
use tftp.Base.Text.{codes}
use tftp.Packet.{
  octet, max_packet_size, create_rrq_packet, create_wrq_packet, create_delete_packet,
  create_ls_packet, create_ack_packet, error_access_violation, error_unknown_tid,
}
use tftp.Wire.{Address, received, read_bytes, c_string}
use tftp.Server.{error_packet, illegal_operation, max_retry}
use tftp.Compression.{stem}

abbrev pub server_default_port : ℕ
server_default_port = 69

unfoldable pub unknown_tid : Bytes
unknown_tid = codes "Unknown transfer ID"

-- `strFilename.substr(0, strFilename.find_last_of(".")) + "compress.bin"`
unfoldable pub compressed_name : Bytes → Bytes
compressed_name name = elim (stem name) [ some front ↦ front | none ↦ name ] ++ codes "compress.bin"

-- The packets sent, with the addresses that they are sent to.
abbrev pub Outbox : Type 0
Outbox = List (Address × Bytes)

-- The arrays of the send functions are not initialised; what they hold is overwritten.
pub send_rrq_packet : Address → Bytes → Option Outbox
send_rrq_packet server filename = do
  packet ← create_rrq_packet (replicate (4 + length filename + length octet) 0) filename octet
  some ((server, packet) ∷ [])

pub send_wrq_packet : Address → Bytes → Option Outbox
send_wrq_packet server filename = do
  packet ← create_wrq_packet (replicate (4 + length filename + length octet) 0) filename octet
  some ((server, packet) ∷ [])

pub send_delete_packet : Address → Bytes → Option Outbox
send_delete_packet server filename = do
  packet ← create_delete_packet (replicate (4 + length filename + length octet) 0) filename
  some ((server, packet) ∷ [])

unfoldable pub send_ls_packet : Address → Option Outbox
send_ls_packet server = do packet ← create_ls_packet (replicate 3 0); some ((server, packet) ∷ [])

unfoldable pub send_error : Outbox → ℕ → Bytes → Address → Option Outbox
send_error sent error_code error_msg to = do
  packet ← error_packet (replicate (4 + length error_msg + 1) 0) error_code error_msg
  some (sent ++ (to, packet) ∷ [])

-- A `sendto` that fails is tried five times; one of them is taken to succeed.
unfoldable pub send_ack : Outbox → ℕ → Address → Option Outbox
send_ack sent block_number to = do
  packet ← create_ack_packet (replicate 4 0) block_number
  some (sent ++ (to, packet) ∷ [])

-- The variables of a handler's loop, what its local file has been written, and the packets sent.
pub record ClientState : Type 0 where
  pub server : Address
  pub initial_packet : Bool
  pub expected_block_number : ℕ
  pub retry : ℕ
  pub recieved_buffer : Bytes
  pub contents : Bytes
  pub sent : Outbox

-- A round ends at the loop's test, or the handler returns.
pub data Round : Type 0 where
  again : ClientState → Round
  finished : Bool → ClientState → Round

-- A datagram is answered or ignored at once, or its source is verified.
pub data Reception : Type 0 where
  rejected : ClientState → Reception
  verified : ClientState → ℕ → Reception

-- From `recvfrom` to the test of the sender's address.
unfoldable pub check_ip : ClientState → Address → Bytes → Option Reception
check_ip s from payload =
    let bytes = read_bytes s.recieved_buffer payload in
    let t = record s { recieved_buffer = received s.recieved_buffer payload } in
    if ltb max_packet_size bytes
    then (do
      out ← send_error t.sent error_access_violation illegal_operation from
      some (rejected (record t { sent = out })))
    else if not (from.ip == s.server.ip)
    then (do
      out ← send_error t.sent error_unknown_tid unknown_tid from
      some (rejected (record t { retry = max_retry; sent = out })))
    else some (verified (record t { retry = max_retry }) bytes)

-- The test of the sender's port, which the first packet sets.
unfoldable pub check_port : ClientState → Address → ℕ → Option Reception
check_port s from bytes =
    if s.initial_packet
    then some (
        verified
          (record s {
            server = record { ip = s.server.ip; port = from.port };
            initial_packet = false;
          })
          bytes)
    else if not (s.server.port == from.port)
    then (do
      out ← send_error s.sent error_unknown_tid unknown_tid from
      some (rejected (record s { sent = out })))
    else some (verified s bytes)

-- `recvData` has `readBytes - 4` elements: an array of a negative size is undefined.
unfoldable pub received_data : Bytes → ℕ → Option Bytes
received_data buffer bytes = if ltb bytes 4 then none else some (take (bytes - 4) (drop 4 buffer))

-- The message of an error packet is printed as a string, up to a NUL inside `recvData`.
pub print_error : ClientState → Bytes → Option Round
print_error s recv_data = do message ← c_string recv_data; some (finished false s)
