-- ===== src/Server.antt =====
-- The state of the server of src/TFTPServer.h and src/TFTPServer.cpp, the operations on its table of
-- files, and the packets that its handlers send.
pub mod Replies
pub mod Readers
pub mod Write
pub mod Read
pub mod Delete
pub mod Sessions
pub mod Listing
pub mod Listen
pub mod Shutdown
pub mod Dispatch
use Prim.Native.String.{String}
use tftp.Base.{
  ℕ, zero, suc, ◌+◌, Bytes, Bool, true, false, Option, none, some, List, [], ◌∷◌, ◌++◌, length,
  replicate, if◌then◌else◌, ◌>>=◌,
}
use tftp.Base.Int.{ℤ, pos, negsuc, succ, pred}
use tftp.Base.Names.{text_key}
use tftp.Base.StdMap.{StdMap, find, insert, erase}
use tftp.Base.Text.{codes}
use tftp.Packet.{create_error_packet, create_ack_packet, store}

-- The files of the database with the number of their readers: `std::map<std::string, int> files`.
abbrev pub FileMap : Type 0
FileMap = StdMap Bytes ℤ

-- The file system: the contents of the file at a path.
abbrev pub Disk : Type 0
Disk = Bytes → Option Bytes

pub record Server : Type 0 where
  pub files : FileMap
  pub disk : Disk

-- What the file system decides: whether a file can be created, whether a write of some bytes behind
-- those written so far succeeds, how many of them a failed one leaves, and whether a file can be
-- removed without an exception.
pub record Host : Type 0 where
  pub creates : Bytes → Bool
  pub accepts : Bytes → Bytes → Bool
  pub partial : Bytes → Bytes → ℕ
  pub removes : Bytes → Bool

-- One return of `recvfrom` on a socket with a timeout.
pub data Event : Type 0 where
  timeout : Event
  datagram : Bytes → Event

abbrev pub max_retry : ℕ
max_retry = 5

unfoldable pub directory : Bytes
directory = codes "serverDatabase/"

abbrev pub path_of : Bytes → Bytes
path_of filename = directory ++ filename

pub illegal_operation : Bytes
illegal_operation = codes "Illegal TFTP operation"

unfoldable pub already_exists : Bytes
already_exists = codes "File already exists."

pub disk_full : Bytes
disk_full = codes "Disk full or allocation exceeded."

pub wrong_block : Bytes
wrong_block = codes "Incorrect Block Number Recieved. Resend"

unfoldable pub not_found : Bytes
not_found = codes "File not found"

unfoldable pub has_readers : Bytes
has_readers = codes "File has active readers. Cannot delete file."

unfoldable pub exception_occured : Bytes
exception_occured = codes "Exception Occured. cannot delete file"

-- `sendError`: the packet is built in an array of `4 + errorMsg.size() + 1` bytes, and ended there.
pub error_packet : Bytes → ℕ → Bytes → Option Bytes
error_packet scratch error_code error_msg = do
  packet ← create_error_packet scratch error_code error_msg
  store packet (4 + length error_msg) 0

-- The packets sent so far, with one more. All go to the client's address.
pub send_error : List Bytes → ℕ → Bytes → Option (List Bytes)
send_error sent error_code error_msg = do
  packet ← error_packet (replicate (4 + length error_msg + 1) 0) error_code error_msg
  some (sent ++ packet ∷ [])

unfoldable pub send_ack : List Bytes → ℕ → Option (List Bytes)
send_ack sent block_number = do
  packet ← create_ack_packet (replicate 4 0) block_number
  some (sent ++ packet ∷ [])

unfoldable pub file_exists : Bytes → FileMap → Bool
file_exists filename files = elim (find filename files) [ some readers ↦ true | none ↦ false ]

-- files[filename], which makes an entry where there is none; here only its value.
unfoldable pub readers_of : Bytes → FileMap → ℤ
readers_of filename files = elim (find filename files) [ some readers ↦ readers | none ↦ pos 0 ]

abbrev pub is_zero : ℤ → Bool
is_zero (pos zero) = true
is_zero (pos (suc n)) = false
is_zero (negsuc n) = false

unfoldable pub can_delete : Bytes → FileMap → Bool
can_delete filename files = elim (find filename files) [
  | some readers ↦ is_zero readers
  | none ↦ false
]

-- The start of `handleReadRequest` counts the reader in, by erasing and inserting the entry.
unfoldable pub add_reader : Bytes → FileMap → FileMap
add_reader filename files =
    insert filename (succ (readers_of filename files)) (erase filename files)

-- Its end counts the reader out.
unfoldable pub remove_reader : Bytes → FileMap → FileMap
remove_reader filename files =
    insert filename (pred (readers_of filename files)) (erase filename files)

-- `initializeFileMap`, over the names of the regular files in the directory as they are iterated.
unfoldable pub initialize_file_map : List Bytes → FileMap → FileMap
initialize_file_map [] files = files
initialize_file_map (name ∷ names) files = initialize_file_map names (insert name (pos 0) files)
