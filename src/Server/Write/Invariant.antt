-- ===== src/Server/Write/Invariant.antt =====
-- The invariant of the loop of `handleWriteRequest`, over every history of the socket.
use native.Mathlib.Decide.{dec_lt, ℕ_discrete}
use tftp.Base.{
  ℕ, zero, suc, ◌+◌, ◌-◌, ◌*◌, ◌≤◌, ◌<◌, Bytes, true, false, ◌≡◌, ◌≢◌, ◌⊎◌, inl, inr, refl, ap, ◌∙◌,
  subst, ==_iff, Option, none, some, List, [], ◌∷◌, ◌++◌, length, All, drop, replicate,
  length-append, length-take, u16, Bool-cases, ne→==, le→ltb, lt→ltb, arith,
}
use tftp.Base.Int.{pos}
use tftp.Base.Names.{text_key}
use tftp.Base.StdMap.{insert}
use tftp.Wire.{received, read_bytes}
use tftp.Server.{Host, FileMap, Event, timeout, datagram, max_retry}
use tftp.Server.Write.{WriteState, Progress, again, stop, write_block, write_step, write_loop}
use tftp.Server.Write.Steps.{
  length-received, arrived, send_disk_full, write_block_lem, write_loop_again, write_loop_stop,
}
use tftp.Server.Write.Safety.{
  IsWhole, IsExpected-cases, data_of, write_step_rejects, write_step_whole, write_step_timeout,
}

-- `k` full blocks are in the file, and the next number is expected.
pub record IsAligned (k : ℕ) (s : WriteState) : Type 0 where
  pub full_blocks : length s.contents ≡ 512 * k
  pub next_number : s.expected_block_number ≡ u16 (k + 1)
  pub buffer_size : length s.recieved_buffer ≡ 516
  pub retries : s.retry ≤ max_retry

-- One block more, which is shorter than the others: the end of the file.
pub record IsComplete (k : ℕ) (s : WriteState) : Type 0 where
  pub short_block : (512 * k ≤ length s.contents) × (length s.contents < 512 * k + 512)
  pub last_number : s.expected_block_number ≡ u16 (u16 (k + 1) + 1)

length-data_of :
    (s : WriteState) (payload : Bytes)
    → length s.recieved_buffer ≡ 516
    → length (data_of s payload) ≤ 512
length-data_of s payload size = omega (
  arith,
  length-take (read_bytes s.recieved_buffer payload - 4)
      (drop 4 (received s.recieved_buffer payload)),
)

module _ (host : Host) (filename : Bytes) where
  -- The table is as before until a short block is written, which enters the name; a loop that ends
  -- in another way leaves the table alone.
  abbrev pub Kept : FileMap → Progress WriteState → Type 0
  Kept files (again t) = (k : ℕ) × IsAligned k t × (t.files ≡ files)
  Kept files (stop t) =
      (t.files ≡ files) ⊎ ((k : ℕ) × IsComplete k t × (t.files ≡ insert filename (pos 0) files))

  abbrev pub KeptBy : FileMap → Option (Progress WriteState) → Type 0
  KeptBy files none = ⊥
  KeptBy files (some r) = Kept files r

  write_block_accepted :
      (s : WriteState) (k : ℕ) (block : Bytes)
      → IsAligned k s
      → length block ≤ 512
      → host.accepts s.contents block ≡ true
      → KeptBy s.files (write_block host filename s block)
  write_block_accepted s k block inv short h =
      rw (write_block_lem host filename s block h) (elim (dec_lt (length block) 512) [
        | yes p ↦ rw (lt→ltb (length block) 512 p) (
            inr (
              k,
              record {
                short_block = omega (arith, inv, length-append s.contents block);
                last_number = ap (λ (i : ℕ). u16 (i + 1)) inv.next_number;
              },
              refl,
            ))
        | no p ↦ rw (le→ltb (length block) 512 (omega arith)) (
          suc k,
          record {
            full_blocks = omega (arith, inv, length-append s.contents block);
            next_number = omega (arith, inv);
            buffer_size = inv.buffer_size;
            retries = inv.retries;
          },
          refl,
        )
      ])

  write_block_failed :
      (s : WriteState) (block : Bytes)
      → host.accepts s.contents block ≡ false
      → KeptBy s.files (write_block host filename s block)
  unfolding write_block
  write_block_failed s block h = rw (h, send_disk_full s.sent) (inl refl)

  write_block_keeps :
      (s : WriteState) (k : ℕ) (block : Bytes)
      → IsAligned k s
      → length block ≤ 512
      → KeptBy s.files (write_block host filename s block)
  write_block_keeps s k block inv short = elim (Bool-cases (host.accepts s.contents block)) [
    | inl h ↦ write_block_accepted s k block inv short h
    | inr h ↦ write_block_failed s block h
  ]

  arrived-IsAligned :
      (s : WriteState) (k : ℕ) (payload : Bytes) → IsAligned k s → IsAligned k (arrived s payload)
  arrived-IsAligned s k payload inv = record {
    full_blocks = inv.full_blocks;
    next_number = inv.next_number;
    buffer_size = length-received s.recieved_buffer payload ∙ inv.buffer_size;
    retries = omega arith;
  }

  pub write_step_keeps :
      (s : WriteState) (k : ℕ) (e : Event)
      → IsAligned k s
      → IsWhole e
      → KeptBy s.files (write_step host filename s e)
  write_step_keeps s k timeout inv whole = rw (write_step_timeout host filename s) (
    k,
    record {
      full_blocks = inv.full_blocks;
      next_number = inv.next_number;
      buffer_size = inv.buffer_size;
      retries = omega (arith, inv.retries);
    },
    refl,
  )
  write_step_keeps s k (datagram payload) inv whole =
      let inv' = arrived-IsAligned s k payload inv in
      elim (IsExpected-cases s payload) [
        | inr n ↦ rw (write_step_rejects host filename s payload inv.buffer_size n) (
          k,
          record {
            full_blocks = inv'.full_blocks;
            next_number = inv'.next_number;
            buffer_size = inv'.buffer_size;
            retries = inv'.retries;
          },
          refl,
        )
        | inl h ↦ rw (write_step_whole host filename s payload inv.buffer_size h whole) (
            write_block_keeps (arrived s payload) k (data_of s payload) inv'
              (length-data_of s payload inv.buffer_size))
      ]

  write_loop_ended :
      (s : WriteState) (events : List Event)
      → s.retry ≡ 0
      → write_loop host filename s events ≡ some (stop s)
  unfolding write_loop
  write_loop_ended s [] h = rw ((==_iff s.retry 0).1 h)
  write_loop_ended s (e ∷ events) h = rw ((==_iff s.retry 0).1 h)

  write_loop_waits : (s : WriteState) → s.retry ≢ 0 → write_loop host filename s [] ≡ some (again s)
  unfolding write_loop
  write_loop_waits s h = rw (ne→== s.retry 0 h)

  -- One round, and what the rest of the loop keeps.
  write_loop_round :
      (s : WriteState) (e : Event) (events : List Event) (round : Option (Progress WriteState))
      → 0 < s.retry
      → write_step host filename s e ≡ round
      → KeptBy s.files round
      → ((t : WriteState) (k : ℕ)
          → IsAligned k t
          → KeptBy t.files (write_loop host filename t events))
      → KeptBy s.files (write_loop host filename s (e ∷ events))
  write_loop_round s e events none live h kept rest = absurd kept
  write_loop_round s e events (some (stop t)) live h kept rest =
      rw (write_loop_stop host filename s t e events live h) kept
  write_loop_round s e events (some (again t)) live h kept rest =
      rw (write_loop_again host filename s t e events live h) (
        subst (λ files. KeptBy files (write_loop host filename t events)) kept.2
          (rest t kept.0 kept.1))

  -- From an aligned state, over every list of timeouts and datagrams of at least four bytes, the
  -- write loop is defined; while it waits the file holds full blocks only, as many as the
  -- expected number says modulo 2^16, with the table unchanged; when it stops the table is
  -- unchanged, or the name was entered after a short block behind full ones.
  pub write_loop_keeps :
      (s : WriteState) (k : ℕ) (events : List Event)
      → IsAligned k s
      → All IsWhole events
      → KeptBy s.files (write_loop host filename s events)
  write_loop_keeps s k [] inv whole = elim (ℕ_discrete s.retry 0) [
    | yes h ↦ rw (write_loop_ended s [] h) (inl refl)
    | no n ↦ rw (write_loop_waits s n) (k, inv, refl)
  ]
  write_loop_keeps s k (e ∷ events) inv whole = elim (ℕ_discrete s.retry 0) [
    | yes h ↦ rw (write_loop_ended s (e ∷ events) h) (inl refl)
    | no n ↦
        write_loop_round s e events (write_step host filename s e) (omega arith) refl
          (write_step_keeps s k e inv whole.0)
          (λ t j inv'. write_loop_keeps t j events inv' whole.1)
  ]

  -- As many timeouts in a row as there are retries left end the write loop, whatever would come
  -- later, with nothing changed but the retries.
  pub write_loop_gives_up :
      (n : ℕ) (s : WriteState) (later : List Event)
      → s.retry ≡ n
      → write_loop host filename s (replicate n timeout ++ later)
        ≡ some (stop (record s { retry = 0 }))
  write_loop_gives_up zero s later h =
      write_loop_ended s later h ∙ ap (λ (i : ℕ). some (stop (record s { retry = i }))) h
  write_loop_gives_up (suc n) s later h =
      write_loop_again host filename s (record s { retry = s.retry - 1 }) timeout
        (replicate n timeout ++ later) (omega arith) (write_step_timeout host filename s)
      ∙ write_loop_gives_up n (record s { retry = s.retry - 1 }) later (omega arith)
