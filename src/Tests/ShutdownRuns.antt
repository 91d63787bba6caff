-- ===== src/Tests/ShutdownRuns.antt =====
-- Runs of `TFTPServer::start` of src/TFTPServer.cpp to the end of the server, and without one.
use tftp.Base.{ℕ, Bytes, true, false, ◌≡◌, refl, none, some, List, [], ◌∷◌, ◌++◌}
use tftp.Base.Names.{number_key, same_text}
use tftp.Base.StdMap.{find, insert, erase, place}
use tftp.Base.Text.{codes}
use tftp.Wire.{c_string, opcode_of, ntohs, joined}
use tftp.Server.Listen.{
  Request, Address, Incoming, datagram, to_lower, listen, listen_named, take_client_id,
  start_thread, assign_thread, finish_thread, destroy_round, joined_keys, erase_keys, destroy_all,
}
use tftp.Server.Listen.Runs.{step}
use tftp.Server.Shutdown.{
  prompt, receiving, joining, over, sweeping, draining, ended, Running, Happening, test, serve,
  leave, sweep, drain, join, signal, test_flag, next_main, next_sweeper, destroy_tftp, advance,
  drain_threads, work, happen, run, initial,
}
use tftp.Server.Shutdown.Ending.{to_joins}

abbrev client : Address
client = record { ip = 1; port = 4000 }

-- A read request for a file a, in octet.
abbrev read_request : Incoming
read_request = datagram client (0 ∷ 1 ∷ 97 ∷ 0 ∷ codes "octet" ++ 0 ∷ [])

abbrev list_request : Incoming
list_request = datagram client (0 ∷ 7 ∷ [])

-- The loop serves a read request, and the user agrees to the end, after an answer that is none.
abbrev agreed : List Happening
agreed = test true ∷ serve read_request ∷ test true ∷ signal (codes "x yn") ∷ []

abbrev request_of : ℕ → Bytes → Request
request_of opcode filename = record { opcode = opcode; filename = filename; client = client }

abbrev shutting_down : Running
shutting_down = record {
  listener = record {
    next_client_id = 2;
    client_threads = (9801, record { thread = some (request_of 1 (codes "a")); done = false }) ∷ [];
    sent = [];
  };
  control = record {
    main = receiving;
    sweeper = sweeping;
    destroy_tftp_server = true;
    input = codes "n";
  };
}

abbrev all_left : Running
all_left = record {
  listener = record {
    next_client_id = 3;
    client_threads =
        (9801, record { thread = some (request_of 1 (codes "a")); done = true })
        ∷ (9802, record { thread = some (request_of 7 []); done = true })
        ∷ [];
    sent = [];
  };
  control = record {
    main = joining;
    sweeper = draining;
    destroy_tftp_server = true;
    input = codes "n";
  };
}

abbrev ended_run : List Happening
ended_run =
    agreed
    ++ to_joins (signal (codes "n") ∷ []) list_request (join ∷ []) false []
        (drain ∷ leave 9801 ∷ drain ∷ leave 9802 ∷ drain ∷ (sweep ∷ [] ++ join ∷ []))

-- `setsockopt` fails, and every thread goes on as long as it can.
abbrev failed_run : List Happening
failed_run =
    test true
    ∷ serve list_request
    ∷ test false
    ∷ leave 9801
    ∷ sweep
    ∷ drain
    ∷ join
    ∷ signal (codes "n")
    ∷ sweep
    ∷ join
    ∷ []

-- Nobody answers what is typed before the input ends: the handler does not return.
unanswered : prompt (codes "stop") ≡ none
unfolding prompt
unanswered = refl

-- A list request that is served after the thread of `destroyClientThreads` has ended.
abbrev late_run : List Happening
late_run =
    test true ∷ signal (codes "y") ∷ sweep ∷ drain ∷ serve list_request ∷ test true ∷ join ∷ []

-- The process ends while the thread of the request runs.
late_thread :
    run initial late_run
    ≡ some (record {
      listener = record {
        next_client_id = 2;
        client_threads = (9801, record { thread = some (request_of 7 []); done = false }) ∷ [];
        sent = [];
      };
      control = record { main = over; sweeper = ended; destroy_tftp_server = true; input = [] };
    })
unfolding run happen work step listen listen_named take_client_id start_thread assign_thread
    finish_thread destroy_round joined_keys erase_keys advance next_main next_sweeper test_flag
    destroy_tftp prompt find insert erase place c_string opcode_of ntohs joined to_lower same_text
    drain_threads destroy_all
late_thread = refl
