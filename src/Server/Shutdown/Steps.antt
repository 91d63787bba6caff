-- ===== src/Server/Shutdown/Steps.antt =====
-- One step of a server of src/TFTPServer.cpp that runs in order.
use tftp.Base.{
  ◌+◌, ◌^◌, ◌≤◌, ◌<◌, Bytes, Bool, true, ◌&&◌, ◌≡◌, refl, Option, some, List, ◌∷◌, length,
  Bool-cases, inl, inr, ◌>>=◌, arith,
}
use tftp.Server.Listen.{Listener}
use tftp.Server.Listen.Rounds.{IsSound}
use tftp.Server.Shutdown.{
  Main, testing, receiving, joining, over, Sweeper, Running, Happening, all_done, advance, work,
  happen, is_regular, all_regular,
}
use tftp.Server.Shutdown.Progress.{is_regular-answered, advance-total, work-Keeps}
use tftp.Server.Shutdown.Stages.{Advances, advance-Progresses}

pub and_left : (a b : Bool) → a && b ≡ true → a ≡ true
and_left a b h = ground arith

pub and_right : (a b : Bool) → a && b ≡ true → b ≡ true
and_right a b h = ground arith

pub same_some : (a b : Running) → some a ≡ some b → a ≡ b
same_some a b h = ground arith

-- What a step leaves.
abbrev Follows : Running → Happening → Option Running → Type 0
Follows r h result =
    (after : Running) × (result ≡ some after)
    × IsSound after.listener
    × (after.listener.next_client_id ≤ r.listener.next_client_id + 1)
    × (r.control.destroy_tftp_server ≡ true
        → Advances r.control (all_done r.listener.client_threads) h after.control)

-- A step of a process that is not over.
moved-Follows :
    (r : Running) (h : Happening)
    → IsSound r.listener
    → 9800 + r.listener.next_client_id < 2 ^ 31
    → is_regular r h ≡ true
    → Follows r h (do
      l ← work r h
      c ← advance r.control (all_done r.listener.client_threads) h
      some (record { listener = l; control = c }))
moved-Follows r h sound room k =
    let (l, e, o, n) = work-Keeps r h sound room k in
    let free = all_done r.listener.client_threads in
    let asked = is_regular-answered r h k in
    elim (Bool-cases r.control.destroy_tftp_server) [
      | inl set ↦
          let (c, f, a) = advance-Progresses r.control free h asked set in
          (record { listener = l; control = c }, rw (e, f) refl, o, n, λ flag. a)
      | inr unset ↦
          let (c, f) = advance-total r.control free h asked in
          (
            record { listener = l; control = c },
            rw (e, f) refl,
            o,
            n,
            λ flag. ground (arith, flag, unset),
          )
    ]

happen-Follows :
    (l : Listener) (m : Main) (s : Sweeper) (flag : Bool) (input : Bytes) (h : Happening)
    → let r : Running = record {
      listener = l;
      control = record { main = m; sweeper = s; destroy_tftp_server = flag; input = input };
    } in
      IsSound l
      → 9800 + l.next_client_id < 2 ^ 31
      → is_regular r h ≡ true
      → Follows r h (happen r h)
unfolding happen
happen-Follows l testing s flag input h sound room k = moved-Follows _ h sound room k
happen-Follows l receiving s flag input h sound room k = moved-Follows _ h sound room k
happen-Follows l joining s flag input h sound room k = moved-Follows _ h sound room k
happen-Follows l over s flag input h sound room k =
    (_, refl, sound, omega arith, λ set. (set, omega arith, λ a b f. omega (arith, b)))

-- A running server that can take so many steps more, and takes them in order.
abbrev pub Ready : Running → List Happening → Type 0
Ready r rest =
    IsSound r.listener
    × (9800 + r.listener.next_client_id + length rest ≤ 2 ^ 31)
    × (all_regular r rest ≡ true)

-- One step, and what it leaves for the others.
abbrev pub Leaves : Running → Happening → List Happening → Type 0
Leaves r h rest =
    (after : Running) × (happen r h ≡ some after)
    × Ready after rest
    × (r.control.destroy_tftp_server ≡ true
        → Advances r.control (all_done r.listener.client_threads) h after.control)

pub happen-Leaves :
    (r : Running) (h : Happening) (rest : List Happening) → Ready r (h ∷ rest) → Leaves r h rest
happen-Leaves r h rest (sound, fits, regular) =
    let c = r.control in
    let first : is_regular r h ≡ true = and_left (is_regular r h) _ regular in
    let (m, e, o, n, a) =
      happen-Follows r.listener c.main c.sweeper c.destroy_tftp_server c.input h sound
        (omega (arith, fits)) first in
    (m, e, (o, omega (arith, fits, n), rw e at (and_right (is_regular r h) _ regular)), a)
