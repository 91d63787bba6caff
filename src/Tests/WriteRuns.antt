-- ===== src/Tests/WriteRuns.antt =====
-- Runs of `handleWriteRequest`.
use tftp.Base.{Bytes, true, ◌≡◌, refl, some, none, List, [], ◌∷◌, ◌++◌, replicate, arith}
use tftp.Base.Int.{pos}
use tftp.Base.Names.{text_key}
use tftp.Base.StdMap.{find}
use tftp.Base.Text.{codes}
use tftp.Wire.{opcode_of, block_of, joined, ntohs}
use tftp.Wire.Words.{header}
use tftp.Server.{Server, Host, Event, timeout, datagram, path_of, file_exists}
use tftp.Server.Write.{
  WriteState, again, stop, returned, write_step, write_loop, write_start, handle_write_request,
}
use tftp.Server.Write.Steps.{arrived}
use tftp.Server.Write.Transfer.{data_packets, handle_write_request-stores}
use tftp.Server.Write.Safety.{IsExpected, rejection, write_step-eq-none, write_step_rejects}
use tftp.Server.Write.Invariant.{KeptBy, IsAligned, write_loop_keeps, write_loop_gives_up}

abbrev file_name : Bytes
file_name = codes "a.txt"

abbrev open_host : Host
open_host = record {
  creates = λ path. true;
  accepts = λ contents block. true;
  partial = λ contents block. 0;
  removes = λ path. true;
}

abbrev empty_server : Server
empty_server = record { files = []; disk = λ path. none }

-- A file of 515 bytes: one full block, and three bytes.
stores_example :
    (server' : Server) × (handle_write_request open_host empty_server file_name
        (data_packets 1 (replicate 512 7 ∷ (1 ∷ 2 ∷ 3 ∷ []) ∷ []))
      ≡ some (returned server' (header 4 0 [] ∷ header 4 1 [] ∷ header 4 2 [] ∷ [])))
    × (server'.disk (path_of file_name) ≡ some (replicate 512 7 ++ 1 ∷ 2 ∷ 3 ∷ []))
    × (find file_name server'.files ≡ some (pos 0))
unfolding file_exists find
stores_example =
    handle_write_request-stores open_host file_name (λ c b. refl) empty_server
      (replicate 512 7 ∷ []) (1 ∷ 2 ∷ 3 ∷ []) refl refl (omega arith) (omega arith)

-- A DATA packet with the wrong number, 5 low: its last byte stays in the buffer.
abbrev waiting_state : WriteState
waiting_state = record {
  files = [];
  contents = [];
  expected_block_number = 5;
  retry = 5;
  recieved_buffer = 0 ∷ 3 ∷ 1 ∷ 5 ∷ replicate 512 0;
  sent = [];
}

waiting_IsExpected : IsExpected waiting_state (0 ∷ 3 ∷ 0 ∷ [])
unfolding opcode_of block_of joined ntohs
waiting_IsExpected = (refl, refl)

-- The theorem gives both directions; here the three bytes that fault.
write_step_fault_example :
    write_step open_host file_name waiting_state (datagram (0 ∷ 3 ∷ 0 ∷ [])) ≡ none
write_step_fault_example =
    (write_step-eq-none open_host file_name waiting_state (0 ∷ 3 ∷ 0 ∷ []) refl).1
      (waiting_IsExpected, omega arith)

not_IsExpected : ¬ IsExpected waiting_state (header 3 6 [])
unfolding opcode_of block_of joined ntohs
not_IsExpected h = omega arith

write_step_rejects_example :
    write_step open_host file_name waiting_state (datagram (header 3 6 []))
    ≡ some (
        again (record (arrived waiting_state (header 3 6 [])) {
          sent = rejection waiting_state (header 3 6 []) ∷ [];
        }))
write_step_rejects_example =
    write_step_rejects open_host file_name waiting_state (header 3 6 []) refl not_IsExpected

abbrev history : List Event
history =
    timeout ∷ datagram (header 3 1 (replicate 512 7)) ∷ timeout ∷ datagram (header 3 1 []) ∷ []

start_IsAligned : IsAligned 0 (write_start [] [])
unfolding write_start
start_IsAligned = record {
  full_blocks = refl;
  next_number = refl;
  buffer_size = refl;
  retries = omega arith;
}

write_loop_keeps_example :
    KeptBy open_host file_name [] (write_loop open_host file_name (write_start [] []) history)
unfolding write_start
write_loop_keeps_example =
    write_loop_keeps open_host file_name (write_start [] []) 0 history start_IsAligned (omega arith)

write_loop_gives_up_example :
    write_loop open_host file_name waiting_state (replicate 5 timeout ++ history)
    ≡ some (stop (record waiting_state { retry = 0 }))
write_loop_gives_up_example = write_loop_gives_up open_host file_name 5 waiting_state history refl
