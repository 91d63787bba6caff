-- ===== src/Client/Read/Repeats.antt =====
-- A read request against a server that sends each full block again before the next.
use tftp.Base.{
  ℕ, ◌+◌, ◌≤◌, ◌<◌, Bytes, true, ◌≡◌, inr, refl, ap, ◌∙◌, sym, some, List, [], ◌∷◌, ◌++◌, length,
  append_assoc, append-nil, All, u16, ne→==, arith,
}
use tftp.Wire.{Address, Incoming, datagram}
use tftp.Wire.Words.{header}
use tftp.Server.{Host}
use tftp.Server.Write.Steps.{length-received}
use tftp.Server.Write.Transfer.{joined_blocks, IsFull}
use tftp.Client.{ClientState, Outbox, again, finished}
use tftp.Client.Checks.{settled}
use tftp.Client.Read.{rrq_step, rrq_loop}
use tftp.Client.Read.Transfer.{
  accepted, IsWaiting, accepted-IsWaiting, rrq_step_data, rrq_loop_again, rrq_loop_finished,
  full_step, last_step,
}

-- Each full block twice, and the last one once.
abbrev pub data_twice : Address → ℕ → List Bytes → Bytes → List Incoming
data_twice from n [] last = datagram from (header 3 n last) ∷ []
data_twice from n (block ∷ full) last =
    datagram from (header 3 n block)
    ∷ datagram from (header 3 n block)
    ∷ data_twice from (u16 (n + 1)) full last

-- What the client answers, one line for each datagram.
abbrev pub answers_twice : Address → Address → ℕ → List Bytes → Outbox
answers_twice stray from n [] = (stray, header 4 n []) ∷ []
answers_twice stray from n (block ∷ full) =
    (stray, header 4 n []) ∷ (from, header 4 n []) ∷ answers_twice stray from (u16 (n + 1)) full

module _ (host : Host) (stray : Address) (accepts : (c b : Bytes) → host.accepts c b ≡ true) where
  -- The state after a block that was written before.
  abbrev repeated : ClientState → Address → ℕ → Bytes → ClientState
  repeated s from n block = record (settled s from (header 3 n block)) {
    sent = s.sent ++ (from, header 4 n []) ∷ [];
  }

  stale_step :
      (s : ClientState) (from : Address) (n : ℕ) (block : Bytes)
      → IsWaiting host stray s from (u16 (n + 1))
      → n < 65536
      → length block ≤ 512
      → rrq_step host stray s (datagram from (header 3 n block))
        ≡ some (again (repeated s from n block))
  stale_step s from n block w small short =
      let before : u16 (s.expected_block_number + 65535) ≡ n = omega (arith, w.3) in
      rrq_step_data host stray s from n block w.1 w.2 short small
      ∙ rw (ne→== n s.expected_block_number (λ e. omega (arith, w.3, e)), before)

  repeated-IsWaiting :
      (s : ClientState) (from : Address) (n k : ℕ) (block : Bytes)
      → IsWaiting host stray s from k
      → IsWaiting host stray (repeated s from n block) from k
  repeated-IsWaiting s from n k block w = (
    omega arith,
    length-received s.recieved_buffer (header 3 n block) ∙ w.1,
    (refl, inr refl),
    w.3,
    w.4,
  )

  -- What comes behind the last block is not received.
  pub rrq_loop_repeated :
      (full : List Bytes) (last : Bytes) (late : List Incoming) (s : ClientState) (from : Address)
      (n : ℕ)
      → IsWaiting host stray s from n
      → All IsFull full
      → length last < 512
      → (t : ClientState) × (rrq_loop host stray s (data_twice from n full last ++ late)
          ≡ some (finished true t))
        × (t.contents ≡ s.contents ++ joined_blocks (full ++ last ∷ []))
        × (t.sent ≡ s.sent ++ answers_twice stray from n full)
  rrq_loop_repeated [] last late s from n w hf short = (
    accepted host stray (settled s from (header 3 n last)) last,
    rrq_loop_finished host stray s _ true _ late w.0
        (last_step host stray accepts s from n last w short),
    ap (◌++◌ s.contents) (sym (append-nil last)),
    ap (λ (i : ℕ). s.sent ++ (stray, header 4 i []) ∷ []) (sym w.3),
  )
  rrq_loop_repeated (block ∷ full) last late s from n w hf short =
      let next = accepted host stray (settled s from (header 3 n block)) block in
      let waits = accepted-IsWaiting host stray s from n block w in
      let again_next = repeated next from n block in
      let (t, run, got, answered) =
        rrq_loop_repeated full last late again_next from (u16 (n + 1))
          (repeated-IsWaiting next from n (u16 (n + 1)) block waits) hf.1 short in
      let rest = answers_twice stray from (u16 (n + 1)) full in
      (
        t,
        rrq_loop_again host stray s next _ _ w.0
              (full_step host stray accepts s from n block w hf.0)
            ∙ rrq_loop_again host stray next again_next _ _ waits.0
                (stale_step next from n block waits w.4 (omega (arith, hf.0)))
            ∙ run,
        got ∙ append_assoc s.contents block (joined_blocks (full ++ last ∷ [])),
        answered
            ∙ append_assoc (s.sent ++ (stray, header 4 s.expected_block_number []) ∷ [])
                ((from, header 4 n []) ∷ []) rest
            ∙ append_assoc s.sent ((stray, header 4 s.expected_block_number []) ∷ [])
                ((from, header 4 n []) ∷ rest)
            ∙ ap (λ (i : ℕ). s.sent ++ (stray, header 4 i []) ∷ (from, header 4 n []) ∷ rest)
                (sym w.3),
      )
