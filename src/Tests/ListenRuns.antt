-- ===== src/Tests/ListenRuns.antt =====
-- Runs of the listening loop of src/TFTPServer.cpp.
use tftp.Base.{
  Bytes, true, false, ◌≡◌, refl, some, none, List, [], ◌∷◌, map, replicate, ◌>>=◌, arith,
}
use tftp.Base.Names.{number_key}
use tftp.Base.StdMap.{find, insert}
use tftp.Base.Text.{codes}
use tftp.Packet.{create_rrq_packet, create_wrq_packet, create_delete_packet, octet}
use tftp.Packet.Layout.{request_body}
use tftp.Server.Listen.{
  Request, ThreadMap, Address, timeout, datagram, to_lower, listen, assign_thread, finish_thread,
  destroy_round,
}
use tftp.Server.Listen.Parse.{with_thread, IsFresh, listen-create}
use tftp.Server.Listen.Threads.{IsOrdered}
use tftp.Server.Listen.Cleanup.{remaining, destroy_round-remaining}
use tftp.Server.Listen.Early.{finish_thread_early}
use tftp.Server.Listen.Runs.{Step, arrive, finish, destroy, started}

abbrev peer : Address
peer = record { ip = 1; port = 4000 }

abbrev file_name : Bytes
file_name = codes "a.txt"

abbrev request : Request
request = record { opcode = 1; filename = file_name; client = peer }

IsFresh-start : IsFresh started
unfolding find
IsFresh-start = (omega arith, refl)

lower_mode : map to_lower (codes "OCTET") ≡ octet
unfolding to_lower
lower_mode = refl

listen_example :
    ((create_rrq_packet (replicate 14 9) file_name (codes "OCTET") >>= λ sent.
    listen started (datagram peer sent))
      ≡ some (with_thread started request))
    × ((create_wrq_packet (replicate 14 9) file_name (codes "OCTET") >>= λ sent.
          listen started (datagram peer sent))
        ≡ some (with_thread started (record request { opcode = 2 })))
    × ((create_delete_packet (replicate 14 9) file_name >>= λ sent.
          listen started (datagram peer sent))
        ≡ some (with_thread started (record request { opcode = 6 })))
listen_example =
    listen-create started peer file_name (codes "OCTET") (replicate 14 9) (replicate 14 9)
      IsFresh-start (omega arith) (omega arith) lower_mode (omega arith) refl refl

abbrev two_threads : ThreadMap
two_threads =
    (9801, record { thread = some request; done = true })
    ∷ (9802, record { thread = some request; done = false })
    ∷ []

IsOrdered-two : IsOrdered 9801 9803 two_threads
IsOrdered-two = (omega arith, (request, refl), (omega arith, (request, refl), omega arith))

destroy_example : destroy_round two_threads ≡ some (remaining two_threads)
destroy_example = destroy_round-remaining 9801 9803 two_threads IsOrdered-two

absent : find 9803 two_threads ≡ none
unfolding find
absent = refl

early_example :
    (assign_thread 9803 request (finish_thread 9803 two_threads)
      ≡ some (insert 9803 (record { thread = some request; done = false }) two_threads))
    × (destroy_round (finish_thread 9803 two_threads) ≡ none)
early_example = finish_thread_early 9803 request two_threads absent

abbrev day : List Step
day =
    arrive timeout
    ∷ arrive (datagram peer (0 ∷ 1 ∷ request_body file_name octet))
    ∷ arrive (datagram peer (0 ∷ 7 ∷ []))
    ∷ finish 9801
    ∷ destroy
    ∷ finish 9802
    ∷ arrive (datagram peer (0 ∷ 7 ∷ []))
    ∷ []
