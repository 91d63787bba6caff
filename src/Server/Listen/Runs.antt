-- ===== src/Server/Listen/Runs.antt =====
-- The listening loop, the ends of client threads and the rounds of `destroyClientThreads`, in every
-- order. Each is taken to be atomic, though the program has no lock around `clientThreads`.
use tftp.Base.{
  ℕ, Bool, true, false, ◌&&◌, ◌+◌, ◌^◌, ◌<◌, ◌≡◌, refl, Option, none, some, List, [], ◌∷◌,
  Option-cases, inl, inr, ◌>>=◌, arith,
}
use tftp.Base.Names.{number_key}
use tftp.Base.StdMap.{find}
use tftp.Server.Listen.{Listener, Incoming, listen, finish_thread, destroy_round}
use tftp.Server.Listen.Rounds.{IsSound, Keeps, listen-Keeps}
use tftp.Server.Listen.Threads.{finish_thread-IsOrdered}
use tftp.Server.Listen.Cleanup.{remaining, remaining-IsOrdered, destroy_round-remaining}

-- A datagram or a timeout, the end of a client thread, a round of `destroyClientThreads`.
pub data Step : Type 0 where
  arrive : Incoming → Step
  finish : ℕ → Step
  destroy : Step

unfoldable pub step : Listener → Step → Option Listener
step l (arrive e) = listen l e
step l (finish id) = some (record l { client_threads = finish_thread id l.client_threads })
step l destroy = do
  threads ← destroy_round l.client_threads
  some (record l { client_threads = threads })

pub steps : Listener → List Step → Option Listener
steps l [] = some l
steps l (s ∷ rest) = do m ← step l s; steps m rest

-- The id of a thread that ends has its entry.
abbrev pub is_timely : Listener → Step → Bool
is_timely l (arrive e) = true
is_timely l (finish id) = elim (find id l.client_threads) [ none ↦ false | some entry ↦ true ]
is_timely l destroy = true

-- So has every one in a run.
abbrev pub all_timely : Listener → List Step → Bool
all_timely l [] = true
all_timely l (s ∷ rest) =
    is_timely l s && elim (step l s) [ none ↦ true | some m ↦ all_timely m rest ]

-- The listener as the constructor leaves it.
abbrev pub started : Listener
started = record { next_client_id = 1; client_threads = []; sent = [] }

pub step-Keeps :
    (l : Listener) (s : Step)
    → IsSound l
    → 9800 + l.next_client_id < 2 ^ 31
    → is_timely l s ≡ true
    → Keeps (l.next_client_id + 1) (step l s)
unfolding step
step-Keeps l (arrive e) h room timely = listen-Keeps l e h room
step-Keeps l (finish id) h room timely = elim (Option-cases (find id l.client_threads)) [
  | inl e ↦ ground (arith, rw (is_timely, e) at timely)
  | inr (entry, e) ↦ (
    record l { client_threads = finish_thread id l.client_threads },
    refl,
    finish_thread-IsOrdered id 9801 (9800 + l.next_client_id) entry l.client_threads h e,
    omega arith,
  )
]
step-Keeps l destroy h room timely =
    let high : ℕ = 9800 + l.next_client_id in
    rw (destroy_round-remaining 9801 high l.client_threads h) (
      record l { client_threads = remaining l.client_threads },
      refl,
      remaining-IsOrdered 9801 high l.client_threads h,
      omega arith,
    )
