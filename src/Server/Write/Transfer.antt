-- ===== src/Server/Write/Transfer.antt =====
-- A whole transfer: the DATA packets of a file, in order, are received as that file.
use tftp.Base.{
  ℕ, false, none, length-replicate, ◌+◌, ◌<◌, Bytes, true, ◌≡◌, refl, ap, ◌∙◌, sym, some, List, [],
  ◌∷◌, ◌++◌, All, length, append_assoc, append-nil, u16, lt→ltb, le→ltb, arith,
}
use tftp.Base.Int.{pos}
use tftp.Base.Names.{text_key, same_text}
use tftp.Base.StdMap.{insert, find, find-insert, same_self}
use tftp.Wire.Words.{header}
use tftp.Server.{Host, Event, datagram, FileMap, Server, path_of, file_exists}
use tftp.Server.Replies.{send_ack_lem}
use tftp.Server.Write.{
  WriteState, again, stop, write_step, write_loop, write_start, handle_write_request, returned,
  after_write,
}
use tftp.Server.Write.Steps.{
  acknowledged, arrived, write_block_lem, write_step_data, length-received, write_loop_again,
  write_loop_stop,
}

-- The DATA packets of some blocks, numbered from `n` on by a `uint16_t`.
abbrev pub data_packets : ℕ → List Bytes → List Event
data_packets n [] = []
data_packets n (block ∷ blocks) = datagram (header 3 n block) ∷ data_packets (u16 (n + 1)) blocks

abbrev pub acks : ℕ → List Bytes → List Bytes
acks n [] = []
acks n (block ∷ blocks) = header 4 n [] ∷ acks (u16 (n + 1)) blocks

abbrev pub joined_blocks : List Bytes → Bytes
joined_blocks [] = []
joined_blocks (block ∷ blocks) = block ++ joined_blocks blocks

-- The blocks in the source's sense: all of 512 bytes, and a shorter one at the end.
abbrev pub IsFull : Bytes → Type 0
IsFull block = length block ≡ 512

module _ (host : Host) (filename : Bytes) (accepts : (c b : Bytes) → host.accepts c b ≡ true) where
  -- A full block leaves the loop waiting for the next.
  full_step :
      (s : WriteState) (n : ℕ) (block : Bytes)
      → length s.recieved_buffer ≡ 516
      → n ≡ s.expected_block_number
      → n < 65536
      → IsFull block
      → write_step host filename s (datagram (header 3 n block))
        ≡ some (again (acknowledged (arrived s (header 3 n block)) block))
  full_step s n block size e small full =
      write_step_data host filename s n block size (omega arith) e small
      ∙ rw (le→ltb (length block) 512 (omega arith)) at (
          write_block_lem host filename (arrived s (header 3 n block)) block
            (accepts s.contents block))

  -- A shorter one ends it.
  last_step :
      (s : WriteState) (n : ℕ) (block : Bytes)
      → length s.recieved_buffer ≡ 516
      → n ≡ s.expected_block_number
      → n < 65536
      → length block < 512
      → write_step host filename s (datagram (header 3 n block))
        ≡ some (
            stop (record (acknowledged (arrived s (header 3 n block)) block) {
              files = insert filename (pos 0) s.files;
            }))
  last_step s n block size e small short =
      write_step_data host filename s n block size (omega arith) e small
      ∙ rw (lt→ltb (length block) 512 short) at (
          write_block_lem host filename (arrived s (header 3 n block)) block
            (accepts s.contents block))

  -- What the loop ends with when it received `blocks` from the state `s` on.
  abbrev Receives : WriteState → List Bytes → WriteState → Type 0
  Receives s blocks t =
      (t.contents ≡ s.contents ++ joined_blocks blocks)
      × (t.files ≡ insert filename (pos 0) s.files)
      × (t.sent ≡ s.sent ++ acks s.expected_block_number blocks)

  write_loop-Receives :
      (full : List Bytes) (last : Bytes) (s : WriteState) (n : ℕ)
      → 0 < s.retry
      → length s.recieved_buffer ≡ 516
      → n ≡ s.expected_block_number
      → n < 65536
      → All IsFull full
      → length last < 512
      → (t : WriteState) × (write_loop host filename s (data_packets n (full ++ last ∷ []))
          ≡ some (stop t))
        × Receives s (full ++ last ∷ []) t
  write_loop-Receives [] last s n live size e small hf short = (
    _,
    write_loop_stop host filename s _ _ [] live (last_step s n last size e small short),
    (ap (◌++◌ s.contents) (sym (append-nil last)), refl, refl),
  )
  write_loop-Receives (block ∷ full) last s n live size e small hf short =
      let next : WriteState = acknowledged (arrived s (header 3 n block)) block in
      let (t, run, got) =
        write_loop-Receives full last next (u16 (n + 1)) (omega arith)
          (length-received s.recieved_buffer (header 3 n block) ∙ size)
          (ap (λ (i : ℕ). u16 (i + 1)) e) (omega arith) hf.1 short in
      (
        t,
        write_loop_again host filename s next _ _ live (full_step s n block size e small hf.0)
            ∙ run,
        (
          got.0 ∙ append_assoc s.contents block (joined_blocks (full ++ last ∷ [])),
          got.1,
          got.2
              ∙ append_assoc s.sent (header 4 s.expected_block_number [] ∷ [])
                  (acks (u16 (s.expected_block_number + 1)) (full ++ last ∷ [])),
        ),
      )

  file_exists→none :
      (files : FileMap) → file_exists filename files ≡ false → find filename files ≡ none
  unfolding file_exists
  file_exists→none files h = ground arith

  find_new :
      (files : FileMap)
      → file_exists filename files ≡ false
      → find filename (insert filename (pos 0) files) ≡ some (pos 0)
  find_new files h =
      rw (find-insert filename filename (pos 0) files, file_exists→none files h, same_self filename)

  same_text_self : same_text (path_of filename) (path_of filename) ≡ true
  same_text_self = same_self (path_of filename)

  -- A write request for a new name, where the file can be created and every write succeeds,
  -- answered by the DATA packets of full blocks and a shorter last one in order: the handler
  -- returns, the disk holds the bytes of all the blocks under the path, the name is in the table
  -- with no reader, and block 0 and each block were acknowledged; block numbers wrap at 2^16.
  pub handle_write_request-stores :
      (server : Server) (full : List Bytes) (last : Bytes)
      → file_exists filename server.files ≡ false
      → host.creates (path_of filename) ≡ true
      → All IsFull full
      → length last < 512
      → (server' : Server) × (handle_write_request host server filename
            (data_packets 1 (full ++ last ∷ []))
          ≡ some (returned server' (header 4 0 [] ∷ acks 1 (full ++ last ∷ []))))
        × (server'.disk (path_of filename) ≡ some (joined_blocks (full ++ last ∷ [])))
        × (find filename server'.files ≡ some (pos 0))
  unfolding handle_write_request write_start
  handle_write_request-stores server full last new creates hf short =
      let (t, run, got) =
        write_loop-Receives full last (write_start server.files (header 4 0 [] ∷ [])) 1
          (omega arith) (length-replicate {A = ℕ} 516 0) refl (omega arith) hf short in
      (
        after_write server filename t,
        rw (new, creates, send_ack_lem [] 0, run) (rw got.2),
        rw same_text_self (ap some got.0),
        rw got.1 (find_new server.files new),
      )
