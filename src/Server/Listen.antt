-- ===== src/Server/Listen.antt =====
-- The loop of `TFTPServer::start` in src/TFTPServer.cpp, over what arrives at the server's socket,
-- and the map of the client threads with `destroyClientThreads`.
pub mod Strings
pub mod Parse
pub mod Threads
pub mod Cleanup
pub mod Rounds
pub mod Runs
pub mod Early
use tftp.Base.{
  ℕ, zero, suc, ◌+◌, ◌^◌, Bytes, Bool, true, false, not, ◌&&◌, ◌||◌, Option, none, some, List, [],
  ◌∷◌, ◌++◌, length, drop, replicate, map, ltb, ◌==◌, if◌then◌else◌, ◌>>=◌,
}
use tftp.Base.Names.{same_text, number_key}
use tftp.Base.StdMap.{StdMap, find, insert, erase}
use tftp.Packet.{
  octet, tftp_opcode_rrq, tftp_opcode_wrq, tftp_opcode_delete, tftp_opcode_ls,
  error_illegal_tftp_operation,
}
pub use tftp.Wire.{Address, Incoming, timeout, datagram}
use tftp.Wire.{c_string, received, read_bytes, opcode_of}
use tftp.Server.{error_packet, illegal_operation}

-- What a client thread is started with.
pub record Request : Type 0 where
  pub opcode : ℕ
  pub filename : Bytes
  pub client : Address

-- `std::tuple<std::thread, bool>`; `none` is a `std::thread` that runs nothing.
pub record Entry : Type 0 where
  pub thread : Option Request
  pub done : Bool

abbrev pub ThreadMap : Type 0
ThreadMap = StdMap ℕ Entry

pub record Listener : Type 0 where
  pub next_client_id : ℕ
  pub client_threads : ThreadMap
  pub sent : List (Address × Bytes)

-- `std::tolower` in the "C" locale.
unfoldable pub to_lower : ℕ → ℕ
to_lower c = if ltb 64 c && ltb c 91 then c + 32 else c

-- clientThreads[clientId] = std::make_tuple(std::thread(...), false);
-- an assignment to a thread that is still joinable ends the program.
unfoldable pub assign_thread : ℕ → Request → ThreadMap → Option ThreadMap
assign_thread id request threads =
    let entry : Entry = record { thread = some request; done = false } in
    elim (find id threads) [
      | none ↦ some (insert id entry threads)
      | some old ↦ elim old.thread [
        | none ↦ some (insert id entry (erase id threads))
        | some running ↦ none
      ]
    ]

-- std::get<1>(clientThreads[clientId]) = true; an entry that is missing is made.
unfoldable pub finish_thread : ℕ → ThreadMap → ThreadMap
finish_thread id threads = elim (find id threads) [
  | none ↦ insert id (record { thread = none; done = true }) threads
  | some old ↦ insert id (record old { done = true }) (erase id threads)
]

-- The first loop of `destroyClientThreads` joins what is done: a thread sets its flag as its last
-- action, so that the join does not wait. A join of no thread throws.
unfoldable pub joined_keys : ThreadMap → Option (List ℕ)
joined_keys [] = some []
joined_keys ((id, entry) ∷ threads) =
    let rest = joined_keys threads in
    if entry.done
    then elim entry.thread [ none ↦ none | some request ↦ (do keys ← rest; some (id ∷ keys)) ]
    else rest

-- Its second loop erases the keys.
unfoldable pub erase_keys : List ℕ → ThreadMap → ThreadMap
erase_keys [] threads = threads
erase_keys (id ∷ keys) threads = erase_keys keys (erase id threads)

-- One round of the loop of `destroyClientThreads`.
unfoldable pub destroy_round : ThreadMap → Option ThreadMap
destroy_round threads = do keys ← joined_keys threads; some (erase_keys keys threads)

-- Behind that loop all threads that are left are joined, and the map is cleared. This is what the
-- joins leave once every thread has come to its end; Server/Shutdown has their wait.
unfoldable pub destroy_all : ThreadMap → Option ThreadMap
destroy_all [] = some []
destroy_all ((id, entry) ∷ threads) =
    let rest = destroy_all threads in elim entry.thread [ none ↦ none | some request ↦ rest ]

-- `sendError` to the client.
pub refuse : Listener → Address → Option Listener
refuse l client = do
  packet ←
      error_packet (replicate (4 + length illegal_operation + 1) 0) error_illegal_tftp_operation
        illegal_operation
  some (record l { sent = l.sent ++ (client, packet) ∷ [] })

-- 9800 + nextClientId++, over `int`.
unfoldable pub take_client_id : Listener → Option (ℕ × Listener)
take_client_id l =
    if ltb (9800 + l.next_client_id) (2 ^ 31)
    then some (9800 + l.next_client_id, record l { next_client_id = l.next_client_id + 1 })
    else none

-- The thread is taken to find its port free, and to end only behind the assignment of its entry;
-- Listen/Early has one that ends in between.
unfoldable pub start_thread : Listener → ℕ → Request → Option Listener
start_thread l id request = do
  threads ← assign_thread id request l.client_threads
  some (record l { client_threads = threads })

-- The read of `filename` and `mode`, in the branch of the requests that name a file.
unfoldable pub listen_named : Listener → Address → ℕ → Bytes → Option Listener
listen_named l client opcode buffer = do
  (id, counted) ← take_client_id l
  filename ← c_string (drop 2 buffer)
  mode ← c_string (drop (2 + length filename + 1) buffer)
  if not (same_text (map to_lower mode) octet)
      then refuse counted client
      else start_thread counted id
          (record { opcode = opcode; filename = filename; client = client })

-- One round of the loop, from `recvfrom` on.
unfoldable pub listen : Listener → Incoming → Option Listener
listen l timeout = some l
listen l (datagram client payload) =
    let buffer = received (replicate 1024 0) payload in
    let opcode = opcode_of buffer in
    if ltb 516 (read_bytes (replicate 1024 0) payload)
    then refuse l client
    else if opcode == tftp_opcode_ls
    then (do
      (id, counted) ← take_client_id l
      start_thread counted id (record { opcode = opcode; filename = []; client = client }))
    else if opcode == tftp_opcode_rrq || (opcode == tftp_opcode_wrq || opcode == tftp_opcode_delete)
    then listen_named l client opcode buffer
    else refuse l client
