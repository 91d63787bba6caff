-- ===== src/Server/Listing.antt =====
-- `handleLSRequest` of src/TFTPServer.cpp: the listing of the table, and its transfer.
pub mod Loop
pub mod Outcome
use Prim.Native.String.{String}
use tftp.Base.{
  ℕ, zero, suc, ◌+◌, ◌-◌, ◌/◌, ◌%◌, Bytes, Bool, true, false, not, ◌||◌, Option, none, some, List,
  [], ◌∷◌, ◌++◌, length, take, u16, ltb, ◌==◌, if◌then◌else◌, ◌>>=◌,
}
use tftp.Base.Int.{ℤ, pos, negsuc}
use tftp.Base.Names.{same_text}
use tftp.Base.Text.{codes}
use tftp.Packet.{max_packet_size, error_access_violation, read_data_block}
use tftp.Wire.{received, read_bytes, ack_opcode_of, ack_block_of}
use tftp.Server.{Server, Host, FileMap, max_retry, path_of, send_error, illegal_operation}
use tftp.Server.Write.{Progress, again, stop, Handled, returned, waiting}
use tftp.Server.Read.{Reply, timeout, datagram, ReadState, read_start, read_send}

-- Decimal digits; `fuel` of them are enough for a number below 10 ^ fuel.
unfoldable pub digits : ℕ → ℕ → Bytes
digits zero n = []
digits (suc fuel) n =
    let front = digits fuel (n / 10) in
    if ltb n 10 then (48 + n) ∷ [] else front ++ (48 + n % 10) ∷ []

-- `operator<<` for an `int`, which has ten digits at most.
unfoldable pub show_int : ℤ → Bytes
show_int (pos n) = digits 10 n
show_int (negsuc n) = 45 ∷ digits 10 (suc n)

unfoldable pub active_readers : Bytes
active_readers = 9 ∷ codes " [Active Readers] : "

-- The text written to ls.txt.
unfoldable pub listing : FileMap → Bytes
listing [] = []
listing ((name, readers) ∷ files) =
    name ++ (active_readers ++ (show_int readers ++ 10 ∷ listing files))

unfoldable pub ls_path : Bytes
ls_path = path_of (codes "ls.txt")

-- What the socket yields in a round: `sendto` fails, or it is followed by a return of `recvfrom`.
pub data Turn : Type 0 where
  unsent : Turn
  answered : Reply → Turn

module _ (contents : Option Bytes) where
  -- The round from `recvfrom` on. A wrong acknowledgment is not answered.
  pub ls_receive : ReadState → Reply → Option (Progress ReadState)
  ls_receive s timeout = some (again (record s { retry = s.retry - 1 }))
  ls_receive s (datagram ack_buffer payload) =
      let buffer = received ack_buffer payload in
      let t = record s { retry = max_retry } in
      if ltb max_packet_size (read_bytes ack_buffer payload)
      then (do
        sent ← send_error s.sent error_access_violation illegal_operation
        some (stop (record s { sent = sent })))
      else if not (ack_opcode_of buffer == 4) || not (ack_block_of buffer == s.block_number)
      then some (again t)
      else some (
          if ltb (length (read_data_block contents s.block_number)) 512
          then stop t
          else again (record t { block_number = u16 (s.block_number + 1) }))

  -- `while (retry)`. The round up to `sendto` is the one of `handleReadRequest`.
  pub ls_loop : ReadState → List Turn → Option (Progress ReadState)
  ls_loop s [] = if s.retry == 0 then some (stop s) else read_send contents s
  ls_loop s (e ∷ turns) = if s.retry == 0 then some (stop s) else (do
    sending ← read_send contents s
    elim sending [
      | stop t ↦ some (stop t)
      | again t ↦ elim e [
        | unsent ↦ some (stop s)
        | answered reply ↦ (do
          round ← ls_receive t reply
          elim round [ stop u ↦ some (stop u) | again u ↦ ls_loop u turns ])
      ]
    ])

-- What ls.txt holds when it is closed.
pub ls_contents : Host → FileMap → Bytes
ls_contents host files =
    let text = listing files in
    if host.accepts [] text then text else take (host.partial [] text) text

abbrev pub listed : Server → Bytes → Server
listed server contents = record server {
  disk = λ path. if same_text path ls_path then some contents else server.disk path;
}

pub handle_ls_request : Host → Server → List Turn → Option Handled
handle_ls_request host server turns =
    if not (host.creates ls_path)
    then some (returned server [])
    else let contents = ls_contents host server.files in
      (do
        outcome ← ls_loop (some contents) read_start turns
        some (elim outcome [
          | stop t ↦ returned (listed server contents) t.sent
          | again t ↦ waiting (listed server contents) t.sent
        ]))
