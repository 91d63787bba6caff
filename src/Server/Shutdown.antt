-- ===== src/Server/Shutdown.antt =====
-- The life of the server in src/TFTPServer.cpp: the prompt of `destroyTFTP`, the test of its flag in
-- the loop of `start` and of `destroyClientThreads`, and the end of `start`. The main thread, the
-- client threads, the thread of `destroyClientThreads` and the signals take steps in any order.
pub mod Progress
pub mod Stages
pub mod Steps
pub mod Ending
pub mod Unasked
use tftp.Base.{
  ℕ, ◌+◌, Bytes, Bool, true, false, ◌&&◌, ◌||◌, Option, none, some, List, [], ◌∷◌, ◌++◌, ltb, ◌==◌,
  if◌then◌else◌, ◌>>=◌,
}
use tftp.Server.Listen.{Listener, Incoming, ThreadMap, destroy_all}
use tftp.Server.Listen.Runs.{Step, arrive, finish, destroy, step, is_timely, started}

-- std::cin >> ans, with the switch on ans and its goto, over the characters that are typed, and what
-- is left of them; an operator that meets the end of the input leaves ans as it is, and the prompt
-- is repeated for ever: none. White space is skipped by >>, any other character by the switch.
unfoldable pub prompt : Bytes → Option (Bool × Bytes)
prompt [] = none
prompt (ans ∷ typed) =
    let again = prompt typed in
    if ans == 110 then some (false, typed) else if ans == 121 then some (true, typed) else again

-- Where the main thread is: before the test of the loop, in `recvfrom`, in the join of the thread of
-- `destroyClientThreads`, or nowhere, since the process is over.
pub data Main : Type 0 where
  testing : Main
  receiving : Main
  joining : Main
  over : Main

-- The thread of `destroyClientThreads`: in its loop, in the joins behind it, or at its end.
pub data Sweeper : Type 0 where
  sweeping : Sweeper
  draining : Sweeper
  ended : Sweeper

pub record Control : Type 0 where
  pub main : Main
  pub sweeper : Sweeper
  pub destroy_tftp_server : Bool
  pub input : Bytes

pub record Running : Type 0 where
  pub listener : Listener
  pub control : Control

-- The test of the loop, with what `setsockopt` returns; the rest of the loop, with what `recvfrom`
-- gives, a signal that interrupts it like a timeout; the end of a client thread; a round of
-- `destroyClientThreads` with the test behind it; the joins behind its loop; the join in `start`; a
-- signal, with what is typed; a client thread that cannot bind its socket.
pub data Happening : Type 0 where
  test : Bool → Happening
  serve : Incoming → Happening
  leave : ℕ → Happening
  sweep : Happening
  drain : Happening
  join : Happening
  signal : Bytes → Happening
  unbound : Happening

-- Whether every client thread has come to its end, so that no join waits.
abbrev pub all_done : ThreadMap → Bool
all_done [] = true
all_done ((id, entry) ∷ threads) = entry.done && all_done threads

-- while (!destroyTFTPServer) with the break behind setsockopt
unfoldable pub test_flag : Bool → Bool → Main
test_flag flag set = if flag then joining else if set then receiving else joining

-- A client thread without its port ends the process by exit(1), as `start` does by SIGTERM.
unfoldable pub next_main : Control → Happening → Main
next_main c (test set) = elim c.main [
  | testing ↦ test_flag c.destroy_tftp_server set
  | receiving ↦ receiving
  | joining ↦ joining
  | over ↦ over
]
next_main c (serve e) = elim c.main [
  | testing ↦ testing
  | receiving ↦ testing
  | joining ↦ joining
  | over ↦ over
]
next_main c (leave id) = c.main
next_main c sweep = c.main
next_main c drain = c.main
next_main c join = elim c.main [
  | testing ↦ testing
  | receiving ↦ receiving
  | joining ↦ elim c.sweeper [ sweeping ↦ joining | draining ↦ joining | ended ↦ over ]
  | over ↦ over
]
next_main c (signal typed) = c.main
next_main c unbound = over

-- `free` is whether no join would wait.
unfoldable pub next_sweeper : Control → Bool → Happening → Sweeper
next_sweeper c free sweep = elim c.sweeper [
  | sweeping ↦ if c.destroy_tftp_server then draining else sweeping
  | draining ↦ draining
  | ended ↦ ended
]
next_sweeper c free drain = elim c.sweeper [
  | sweeping ↦ sweeping
  | draining ↦ if free then ended else draining
  | ended ↦ ended
]
next_sweeper c free (test set) = c.sweeper
next_sweeper c free (serve e) = c.sweeper
next_sweeper c free (leave id) = c.sweeper
next_sweeper c free join = c.sweeper
next_sweeper c free (signal typed) = c.sweeper
next_sweeper c free unbound = c.sweeper

-- The handler, which sets the flag when the answer is y.
unfoldable pub destroy_tftp : Control → Bytes → Option Control
destroy_tftp c typed = do
  (agreed, rest) ← prompt (c.input ++ typed)
  some (record c { destroy_tftp_server = c.destroy_tftp_server || agreed; input = rest })

unfoldable pub advance : Control → Bool → Happening → Option Control
advance c free (signal typed) = destroy_tftp c typed
advance c free (test set) = some (record c { main = next_main c (test set) })
advance c free (serve e) = some (record c { main = next_main c (serve e) })
advance c free (leave id) = some c
advance c free sweep = some (record c { sweeper = next_sweeper c free sweep })
advance c free drain = some (record c { sweeper = next_sweeper c free drain })
advance c free join = some (record c { main = next_main c join })
advance c free unbound = some (record c { main = next_main c unbound })

-- The joins behind the loop of `destroyClientThreads`, which wait while a client thread runs.
unfoldable pub drain_threads : Listener → Option Listener
drain_threads l =
    if all_done l.client_threads
    then (do threads ← destroy_all l.client_threads; some (record l { client_threads = threads }))
    else some l

-- What becomes of the listener.
unfoldable pub work : Running → Happening → Option Listener
work r (serve e) = elim r.control.main [
  | testing ↦ some r.listener
  | receiving ↦ step r.listener (arrive e)
  | joining ↦ some r.listener
  | over ↦ some r.listener
]
work r (leave id) = step r.listener (finish id)
work r sweep = elim r.control.sweeper [
  | sweeping ↦ step r.listener destroy
  | draining ↦ some r.listener
  | ended ↦ some r.listener
]
work r drain = elim r.control.sweeper [
  | sweeping ↦ some r.listener
  | draining ↦ drain_threads r.listener
  | ended ↦ some r.listener
]
work r (test set) = some r.listener
work r join = some r.listener
work r (signal typed) = some r.listener
work r unbound = some r.listener

unfoldable pub happen : Running → Happening → Option Running
happen r h =
    let moved = (do
      l ← work r h
      c ← advance r.control (all_done r.listener.client_threads) h
      some (record { listener = l; control = c })) in
    elim r.control.main [ testing ↦ moved | receiving ↦ moved | joining ↦ moved | over ↦ some r ]

unfoldable pub run : Running → List Happening → Option Running
run r [] = some r
run r (h ∷ rest) = do after ← happen r h; run after rest

-- Whether a character of the typed ones answers the prompt.
abbrev pub answers : Bytes → Bool
answers [] = false
answers (ans ∷ typed) = ans == 110 || (ans == 121 || answers typed)

-- Every prompt is answered, a thread ends only behind the assignment of its entry, and has its port.
abbrev pub is_regular : Running → Happening → Bool
is_regular r (signal typed) = answers typed
is_regular r (leave id) = is_timely r.listener (finish id)
is_regular r unbound = false
is_regular r (test set) = true
is_regular r (serve e) = true
is_regular r sweep = true
is_regular r drain = true
is_regular r join = true

-- So is every step of a run.
abbrev pub all_regular : Running → List Happening → Bool
all_regular r [] = true
all_regular r (h ∷ rest) =
    is_regular r h && elim (happen r h) [ none ↦ true | some after ↦ all_regular after rest ]

-- The server when `start` comes to its loop.
abbrev pub initial : Running
initial = record {
  listener = started;
  control = record { main = testing; sweeper = sweeping; destroy_tftp_server = false; input = [] };
}
