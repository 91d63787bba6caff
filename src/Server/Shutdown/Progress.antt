-- ===== src/Server/Shutdown/Progress.antt =====
-- What the steps of src/TFTPServer.cpp towards the end of the server lead to.
use tftp.Base.{
  ◌+◌, ◌^◌, ◌<◌, Bytes, Bool, true, false, ◌||◌, ◌≡◌, refl, some, [], ◌∷◌, ◌++◌, ◌==◌, Bool-cases,
  inl, inr, arith,
}
use tftp.Server.Listen.{Listener, Incoming}
use tftp.Server.Listen.Rounds.{IsSound, Keeps}
use tftp.Server.Listen.Runs.{arrive, finish, destroy, step-Keeps}
use tftp.Server.Listen.Threads.{IsOrdered-le}
use tftp.Server.Listen.Cleanup.{destroy_all_lem}
use tftp.Server.Shutdown.{
  over, draining, drain, unbound, all_done, answers, is_regular, drain_threads, prompt, Main,
  testing, receiving, joining, Sweeper, sweeping, ended, Control, Running, Happening, test, serve,
  leave, sweep, join, signal, destroy_tftp, advance, work,
}

pub prompt-answers :
    (typed : Bytes) → answers typed ≡ true → (answer : Bool × Bytes) × (prompt typed ≡ some answer)
unfolding prompt
prompt-answers [] h = ground (arith, h)
prompt-answers (ans ∷ typed) h = elim (Bool-cases (ans == 110)) [
  | inl n ↦ ((false, typed), rw n refl)
  | inr n ↦ elim (Bool-cases (ans == 121)) [
    | inl y ↦ ((true, typed), rw (n, y) refl)
    | inr y ↦ let (answer, e) = prompt-answers typed (rw (n, y) at h) in (answer, rw (n, y) e)
  ]
]

pub answers_behind : (a b : Bytes) → answers b ≡ true → answers (a ++ b) ≡ true
answers_behind [] b h = h
answers_behind (c ∷ a) b h = let rest = answers_behind a b h in ground (arith, rest)

-- Whether a prompt is answered, and no socket is without its port.
abbrev pub is_answered : Happening → Bool
is_answered (signal typed) = answers typed
is_answered unbound = false
is_answered (test set) = true
is_answered (serve e) = true
is_answered (leave id) = true
is_answered sweep = true
is_answered drain = true
is_answered join = true

pub is_regular-answered :
    (r : Running) (h : Happening) → is_regular r h ≡ true → is_answered h ≡ true
is_regular-answered r (signal typed) k = k
is_regular-answered r unbound k = k
is_regular-answered r (test set) k = refl
is_regular-answered r (serve e) k = refl
is_regular-answered r (leave id) k = refl
is_regular-answered r sweep k = refl
is_regular-answered r drain k = refl
is_regular-answered r join k = refl

pub advance-total :
    (c : Control) (free : Bool) (h : Happening)
    → is_answered h ≡ true
    → (after : Control) × (advance c free h ≡ some after)
unfolding advance destroy_tftp
advance-total c free (signal typed) h =
    let ((agreed, rest), e) = prompt-answers (c.input ++ typed) (answers_behind c.input typed h) in
    (record c { destroy_tftp_server = c.destroy_tftp_server || agreed; input = rest }, rw e refl)
advance-total c free (test set) h = (_, refl)
advance-total c free (serve e) h = (_, refl)
advance-total c free (leave id) h = (_, refl)
advance-total c free sweep h = (_, refl)
advance-total c free drain h = (_, refl)
advance-total c free join h = (_, refl)
advance-total c free unbound h = (_, refl)

drain_threads-Keeps : (l : Listener) → IsSound l → Keeps (l.next_client_id + 1) (drain_threads l)
unfolding drain_threads
drain_threads-Keeps l h = elim (Bool-cases (all_done l.client_threads)) [
  | inl f ↦
      rw (f, destroy_all_lem 9801 (9800 + l.next_client_id) l.client_threads h)
        (
          record l { client_threads = [] },
          refl,
          IsOrdered-le 9801 (9800 + l.next_client_id) l.client_threads h,
          omega arith,
        )
  | inr f ↦ rw f (l, refl, h, omega arith)
]

work_serve :
    (l : Listener) (m : Main) (s : Sweeper) (flag : Bool) (input : Bytes) (e : Incoming)
    → IsSound l
    → 9800 + l.next_client_id < 2 ^ 31
    → let r : Running = record {
      listener = l;
      control = record { main = m; sweeper = s; destroy_tftp_server = flag; input = input };
    } in
      Keeps (l.next_client_id + 1) (work r (serve e))
unfolding work
work_serve l testing s flag input e h room = (l, refl, h, omega arith)
work_serve l receiving s flag input e h room = step-Keeps l (arrive e) h room refl
work_serve l joining s flag input e h room = (l, refl, h, omega arith)
work_serve l over s flag input e h room = (l, refl, h, omega arith)

work_sweep :
    (l : Listener) (m : Main) (s : Sweeper) (flag : Bool) (input : Bytes)
    → IsSound l
    → 9800 + l.next_client_id < 2 ^ 31
    → let r : Running = record {
      listener = l;
      control = record { main = m; sweeper = s; destroy_tftp_server = flag; input = input };
    } in
      Keeps (l.next_client_id + 1) (work r sweep) × Keeps (l.next_client_id + 1) (work r drain)
unfolding work
work_sweep l m sweeping flag input h room =
    (step-Keeps l destroy h room refl, (l, refl, h, omega arith))
work_sweep l m draining flag input h room = ((l, refl, h, omega arith), drain_threads-Keeps l h)
work_sweep l m ended flag input h room = ((l, refl, h, omega arith), (l, refl, h, omega arith))

pub work-Keeps :
    (r : Running) (h : Happening)
    → IsSound r.listener
    → 9800 + r.listener.next_client_id < 2 ^ 31
    → is_regular r h ≡ true
    → Keeps (r.listener.next_client_id + 1) (work r h)
unfolding work
work-Keeps r (serve e) h room k =
    let c = r.control in
    work_serve r.listener c.main c.sweeper c.destroy_tftp_server c.input e h room
work-Keeps r (leave id) h room k = step-Keeps r.listener (finish id) h room k
work-Keeps r sweep h room k =
    let c = r.control in
    (work_sweep r.listener c.main c.sweeper c.destroy_tftp_server c.input h room).0
work-Keeps r drain h room k =
    let c = r.control in
    (work_sweep r.listener c.main c.sweeper c.destroy_tftp_server c.input h room).1
work-Keeps r (test set) h room k = (r.listener, refl, h, omega arith)
work-Keeps r join h room k = (r.listener, refl, h, omega arith)
work-Keeps r (signal typed) h room k = (r.listener, refl, h, omega arith)
work-Keeps r unbound h room k = (r.listener, refl, h, omega arith)
