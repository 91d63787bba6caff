-- ===== src/Packet.antt =====
-- The packets of src/TFTPPacket.h and src/TFTPPacket.cpp.
-- A packet is built by writes into a caller's buffer of a fixed size; a write outside it is `none`.
pub mod Store
pub mod Layout
pub mod File
use tftp.Base.{
  ℕ, zero, suc, ◌+◌, ◌-◌, ◌*◌, ◌/◌, ◌%◌, Bytes, Option, none, some, List, [], ◌∷◌, ◌++◌, length,
  set, take, drop, ltb, ◌==◌, if◌then◌else◌, ◌>>=◌,
}

abbrev pub tftp_opcode_rrq : ℕ
tftp_opcode_rrq = 1

abbrev pub tftp_opcode_wrq : ℕ
tftp_opcode_wrq = 2

abbrev pub tftp_opcode_data : ℕ
tftp_opcode_data = 3

abbrev pub tftp_opcode_ack : ℕ
tftp_opcode_ack = 4

abbrev pub tftp_opcode_error : ℕ
tftp_opcode_error = 5

abbrev pub tftp_opcode_delete : ℕ
tftp_opcode_delete = 6

abbrev pub tftp_opcode_ls : ℕ
tftp_opcode_ls = 7

abbrev pub max_packet_size : ℕ
max_packet_size = 516

abbrev pub ack_ok : ℕ
ack_ok = 0

abbrev pub error_not_defined : ℕ
error_not_defined = 0

abbrev pub error_file_not_found : ℕ
error_file_not_found = 1

abbrev pub error_access_violation : ℕ
error_access_violation = 2

abbrev pub error_disk_full : ℕ
error_disk_full = 3

abbrev pub error_illegal_tftp_operation : ℕ
error_illegal_tftp_operation = 4

abbrev pub error_unknown_tid : ℕ
error_unknown_tid = 5

abbrev pub error_file_already_exists : ℕ
error_file_already_exists = 6

-- "octet"
abbrev pub octet : Bytes
octet = b'o' ∷ b'c' ∷ b't' ∷ b'e' ∷ b't' ∷ []

-- packet[index] = value
unfoldable pub store : Bytes → ℕ → ℕ → Option Bytes
store packet index value = if ltb index (length packet) then some (set packet index value) else none

-- `for (char c : text) { packet[index++] = c; if (c == '\0') break; }`, with the index after it.
unfoldable pub copy_string : Bytes → ℕ → Bytes → Option (ℕ × Bytes)
copy_string packet index [] = some (index, packet)
copy_string packet index (c ∷ text) = do
  written ← store packet index c
  let rest = copy_string written (index + 1) text
  if c == 0 then some (index + 1, written) else rest

-- The source's parameter `opcode` is not used by its body.
unfoldable pub create_request_packet : Bytes → ℕ → Bytes → Bytes → Option Bytes
create_request_packet packet opcode filename mode = do
  (i, named) ← copy_string packet 2 filename
  ended ← store named i 0
  (j, moded) ← copy_string ended (i + 1) mode
  store moded j 0

-- packet[0] = 0x00; packet[1] = opcode;
unfoldable pub put_opcode : Bytes → ℕ → Option Bytes
put_opcode packet opcode = do p ← store packet 0 0; store p 1 opcode

unfoldable pub create_rrq_packet : Bytes → Bytes → Bytes → Option Bytes
create_rrq_packet packet filename mode = do
  p ← put_opcode packet 1
  create_request_packet p tftp_opcode_rrq filename mode

pub create_wrq_packet : Bytes → Bytes → Bytes → Option Bytes
create_wrq_packet packet filename mode = do
  p ← put_opcode packet 2
  create_request_packet p tftp_opcode_wrq filename mode

pub create_delete_packet : Bytes → Bytes → Option Bytes
create_delete_packet packet filename = do
  p ← put_opcode packet 6
  create_request_packet p tftp_opcode_delete filename octet

pub create_ls_packet : Bytes → Option Bytes
create_ls_packet packet = do p ← put_opcode packet 7; store p 2 0

-- packet[2] = (word >> 8) & 0xFF; packet[3] = word & 0xFF;
pub put_word : Bytes → ℕ → Option Bytes
put_word packet word = do p ← store packet 2 (word / 256 % 256); store p 3 (word % 256)

-- memcpy(packet + index, data, size): all `size` bytes must lie inside both buffers.
pub copy_bytes : Bytes → ℕ → Bytes → ℕ → Option Bytes
copy_bytes packet index block size =
    if ltb (length block) size
    then none
    else if ltb (length packet) (index + size)
    then none
    else some (take index packet ++ (take size block ++ drop (index + size) packet))

pub create_data_packet : Bytes → ℕ → Bytes → ℕ → Option Bytes
create_data_packet packet block_number block data_size = do
  p ← put_opcode packet 3
  q ← put_word p block_number
  copy_bytes q 4 block data_size

pub create_ack_packet : Bytes → ℕ → Option Bytes
create_ack_packet packet block_number = do p ← put_opcode packet 4; put_word p block_number

pub create_error_packet : Bytes → ℕ → Bytes → Option Bytes
create_error_packet packet error_code error_msg = do
  p ← put_opcode packet 5
  q ← put_word p error_code
  (i, r) ← copy_string q 4 error_msg
  some r

-- What `readDataBlock` reads from a file that holds `contents` (`none`: it cannot be opened).
-- The offset is an `int`: for block 0 it is -512, `seekg` fails, and the read yields nothing.
unfoldable pub read_data_block : Option Bytes → ℕ → Bytes
read_data_block none block_number = []
read_data_block (some contents) zero = []
read_data_block (some contents) (suc n) = take 512 (drop (n * 512) contents)
