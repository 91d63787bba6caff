-- ===== src/Server/Shutdown/Stages.antt =====
-- How far the threads of src/TFTPServer.cpp have come to the end of the server once the flag is set.
use tftp.Base.{ℕ, ◌≤◌, ◌<◌, Bytes, Bool, true, false, ◌++◌, ◌≡◌, refl, sym, subst, some, arith}
use tftp.Server.Listen.{Incoming}
use tftp.Server.Shutdown.{
  Main, testing, receiving, joining, over, Sweeper, sweeping, draining, ended, Control, Happening,
  test, serve, leave, sweep, drain, join, signal, unbound, test_flag, next_main, next_sweeper,
  destroy_tftp, advance,
}
use tftp.Server.Shutdown.Progress.{prompt-answers, answers_behind, is_answered}

-- How far the end of the server has come once its flag is set.
abbrev pub progress : Control → ℕ
progress c = elim c.main [
  | testing ↦ 1
  | receiving ↦ 0
  | joining ↦ elim c.sweeper [ sweeping ↦ 2 | draining ↦ 3 | ended ↦ 4 ]
  | over ↦ 5
]

-- The progress that a step needs to add to it.
abbrev pub stage : Happening → ℕ
stage (serve e) = 0
stage (test set) = 1
stage sweep = 2
stage drain = 3
stage join = 4
stage (signal typed) = 5
stage (leave id) = 5
stage unbound = 5

-- The joins need all threads to be done.
abbrev pub is_free : Bool → Happening → Bool
is_free free drain = free
is_free free (serve e) = true
is_free free (test set) = true
is_free free sweep = true
is_free free join = true
is_free free (signal typed) = true
is_free free (leave id) = true
is_free free unbound = true

-- What `after` is to `c`: as far, and further when it was that far.
abbrev pub Advances : Control → Bool → Happening → Control → Type 0
Advances c free h after =
    (after.destroy_tftp_server ≡ true)
    × (progress c ≤ progress after)
    × (stage h ≤ progress c → stage h < 5 → is_free free h ≡ true → stage h < progress after)

-- The control once the flag is set.
abbrev shutting : Main → Sweeper → Bytes → Control
shutting m s input = record { main = m; sweeper = s; destroy_tftp_server = true; input = input }

abbrev pub Progresses : Control → Bool → Happening → Type 0
Progresses c free h = (after : Control) × (advance c free h ≡ some after) × Advances c free h after

test-Progresses :
    (m : Main) (s : Sweeper) (input : Bytes) (free : Bool) (set : Bool)
    → Progresses (shutting m s input) free (test set)
unfolding advance next_main test_flag
test-Progresses testing sweeping input free set =
    (_, refl, (refl, omega arith, λ a b f. omega (arith, a, b)))
test-Progresses testing draining input free set =
    (_, refl, (refl, omega arith, λ a b f. omega (arith, a, b)))
test-Progresses testing ended input free set =
    (_, refl, (refl, omega arith, λ a b f. omega (arith, a, b)))
test-Progresses receiving s input free set =
    (_, refl, (refl, omega arith, λ a b f. omega (arith, a, b)))
test-Progresses joining sweeping input free set =
    (_, refl, (refl, omega arith, λ a b f. omega (arith, a, b)))
test-Progresses joining draining input free set =
    (_, refl, (refl, omega arith, λ a b f. omega (arith, a, b)))
test-Progresses joining ended input free set =
    (_, refl, (refl, omega arith, λ a b f. omega (arith, a, b)))
test-Progresses over s input free set = (_, refl, (refl, omega arith, λ a b f. omega (arith, a, b)))

serve-Progresses :
    (m : Main) (s : Sweeper) (input : Bytes) (free : Bool) (e : Incoming)
    → Progresses (shutting m s input) free (serve e)
unfolding advance next_main
serve-Progresses testing s input free e =
    (_, refl, (refl, omega arith, λ a b f. omega (arith, a, b)))
serve-Progresses receiving s input free e =
    (_, refl, (refl, omega arith, λ a b f. omega (arith, a, b)))
serve-Progresses joining sweeping input free e =
    (_, refl, (refl, omega arith, λ a b f. omega (arith, a, b)))
serve-Progresses joining draining input free e =
    (_, refl, (refl, omega arith, λ a b f. omega (arith, a, b)))
serve-Progresses joining ended input free e =
    (_, refl, (refl, omega arith, λ a b f. omega (arith, a, b)))
serve-Progresses over s input free e = (_, refl, (refl, omega arith, λ a b f. omega (arith, a, b)))

sweep-Progresses :
    (m : Main) (s : Sweeper) (input : Bytes) (free : Bool)
    → Progresses (shutting m s input) free sweep
unfolding advance next_sweeper
sweep-Progresses testing s input free = (_, refl, (refl, omega arith, λ a b f. omega (arith, a, b)))
sweep-Progresses receiving s input free =
    (_, refl, (refl, omega arith, λ a b f. omega (arith, a, b)))
sweep-Progresses joining sweeping input free =
    (_, refl, (refl, omega arith, λ a b f. omega (arith, a, b)))
sweep-Progresses joining draining input free =
    (_, refl, (refl, omega arith, λ a b f. omega (arith, a, b)))
sweep-Progresses joining ended input free =
    (_, refl, (refl, omega arith, λ a b f. omega (arith, a, b)))
sweep-Progresses over s input free = (_, refl, (refl, omega arith, λ a b f. omega (arith, a, b)))

join-Progresses :
    (m : Main) (s : Sweeper) (input : Bytes) (free : Bool)
    → Progresses (shutting m s input) free join
unfolding advance next_main
join-Progresses testing s input free = (_, refl, (refl, omega arith, λ a b f. omega (arith, a, b)))
join-Progresses receiving s input free =
    (_, refl, (refl, omega arith, λ a b f. omega (arith, a, b)))
join-Progresses joining sweeping input free =
    (_, refl, (refl, omega arith, λ a b f. omega (arith, a, b)))
join-Progresses joining draining input free =
    (_, refl, (refl, omega arith, λ a b f. omega (arith, a, b)))
join-Progresses joining ended input free =
    (_, refl, (refl, omega arith, λ a b f. omega (arith, a, b)))
join-Progresses over s input free = (_, refl, (refl, omega arith, λ a b f. omega (arith, a, b)))

drain-Progresses :
    (m : Main) (s : Sweeper) (input : Bytes) (free : Bool)
    → Progresses (shutting m s input) free drain
unfolding advance next_sweeper
drain-Progresses testing s input free = (_, refl, (refl, omega arith, λ a b f. omega (arith, a, b)))
drain-Progresses receiving s input free =
    (_, refl, (refl, omega arith, λ a b f. omega (arith, a, b)))
drain-Progresses joining sweeping input free =
    (_, refl, (refl, omega arith, λ a b f. omega (arith, a, b)))
drain-Progresses joining draining input true =
    (_, refl, (refl, omega arith, λ a b f. omega (arith, a, b)))
drain-Progresses joining draining input false =
    (_, refl, (refl, omega arith, λ a b f. ground (arith, f)))
drain-Progresses joining ended input free =
    (_, refl, (refl, omega arith, λ a b f. omega (arith, a, b)))
drain-Progresses over s input free = (_, refl, (refl, omega arith, λ a b f. omega (arith, a, b)))

shutting-Progresses :
    (m : Main) (s : Sweeper) (input : Bytes) (free : Bool) (h : Happening)
    → is_answered h ≡ true
    → Progresses (shutting m s input) free h
unfolding advance destroy_tftp
shutting-Progresses m s input free (test set) h = test-Progresses m s input free set
shutting-Progresses m s input free (serve e) h = serve-Progresses m s input free e
shutting-Progresses m s input free sweep h = sweep-Progresses m s input free
shutting-Progresses m s input free drain h = drain-Progresses m s input free
shutting-Progresses m s input free join h = join-Progresses m s input free
shutting-Progresses m s input free (leave id) h =
    (shutting m s input, refl, (refl, omega arith, λ a b f. omega (arith, b)))
shutting-Progresses m s input free unbound h = ground (arith, h)
shutting-Progresses m s input free (signal typed) h =
    let ((agreed, rest), e) = prompt-answers (input ++ typed) (answers_behind input typed h) in
    (shutting m s rest, rw e refl, (refl, omega arith, λ a b f. omega (arith, b)))

pub advance-Progresses :
    (c : Control) (free : Bool) (h : Happening)
    → is_answered h ≡ true
    → c.destroy_tftp_server ≡ true
    → Progresses c free h
advance-Progresses c free h asked set =
    subst (λ flag. Progresses (record c { destroy_tftp_server = flag }) free h) (sym set)
      (shutting-Progresses c.main c.sweeper c.input free h asked)
