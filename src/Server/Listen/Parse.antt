-- ===== src/Server/Listen/Parse.antt =====
-- The requests that the client builds, as `TFTPServer::start` understands them.
use tftp.Base.{
  ℕ, suc, ◌+◌, ◌-◌, ◌^◌, ◌≤◌, ◌<◌, Bytes, ◌≡◌, ◌⊎◌, inl, inr, refl, ap, ◌∙◌, sym, none, some, false,
  [], ◌∷◌, ◌++◌, length, drop, map, replicate, length-append, append_assoc, drop_prefix, le→ltb,
  lt→ltb, ◌>>=◌, arith,
}
use tftp.Base.Names.{same_text, number_key}
use tftp.Base.StdMap.{find, insert}
use tftp.Packet.{create_rrq_packet, create_wrq_packet, create_delete_packet, octet}
use tftp.Packet.Store.{NulFree}
use tftp.Packet.Layout.{request_body, request_layout, delete_layout}
use tftp.Wire.{read_bytes}
use tftp.Wire.Words.{opcode_of-front}
use tftp.Server.Listen.{
  Listener, Request, Address, datagram, to_lower, listen, listen_named, start_thread,
  take_client_id,
}
use tftp.Server.Listen.Threads.{assign_thread-free}
use tftp.Server.Listen.Strings.{c_string-append, received_zeros}

-- The listener with one more thread, under the next id.
abbrev pub with_thread : Listener → Request → Listener
with_thread l request = record l {
  next_client_id = l.next_client_id + 1;
  client_threads =
      insert (9800 + l.next_client_id) (record { thread = some request; done = false })
        l.client_threads;
}

-- The next id is an `int`, and no thread has it.
abbrev pub IsFresh : Listener → Type 0
IsFresh l =
    (9800 + l.next_client_id < 2 ^ 31) × (find (9800 + l.next_client_id) l.client_threads ≡ none)

take_client_id-fresh :
    (l : Listener)
    → IsFresh l
    → take_client_id l
      ≡ some (9800 + l.next_client_id, record l { next_client_id = l.next_client_id + 1 })
unfolding take_client_id
take_client_id-fresh l h = rw (lt→ltb (9800 + l.next_client_id) (2 ^ 31) h.0)

start_thread-fresh :
    (l : Listener) (request : Request)
    → IsFresh l
    → start_thread
        (record l { next_client_id = l.next_client_id + 1 })
        (9800 + l.next_client_id)
        request
      ≡ some (with_thread l request)
unfolding start_thread
start_thread-fresh l request h =
    rw (assign_thread-free (9800 + l.next_client_id) request l.client_threads h.1)

-- A buffer that reads as a filename and a mode in octets starts a thread for them.
named_lem :
    (l : Listener) (client : Address) (opcode : ℕ) (filename mode rest : Bytes)
    → IsFresh l
    → NulFree filename
    → NulFree mode
    → map to_lower mode ≡ octet
    → listen_named l client opcode (0 ∷ opcode ∷ (filename ++ 0 ∷ (mode ++ 0 ∷ rest)))
      ≡ some (with_thread l (record { opcode = opcode; filename = filename; client = client }))
unfolding listen_named same_text
named_lem l client opcode filename mode rest fresh hf hm lower =
    let front : Bytes = 0 ∷ opcode ∷ (filename ++ 0 ∷ []) in
    let behind : drop (2 + length filename + 1) (0 ∷ opcode ∷ (filename ++ 0 ∷ (mode ++ 0 ∷ rest)))
        ≡ mode ++ 0 ∷ rest =
      rw (append_assoc filename (0 ∷ []) (mode ++ 0 ∷ rest)) at (
        drop_prefix (2 + length filename + 1) front (mode ++ 0 ∷ rest)
          (omega (arith, length-append filename (0 ∷ [])))) in
    rw
      (
        take_client_id-fresh l fresh,
        c_string-append filename (mode ++ 0 ∷ rest) hf,
        behind,
        c_string-append mode rest hm,
        lower,
      )
      (start_thread-fresh l (record { opcode = opcode; filename = filename; client = client })
        fresh)

-- A datagram of at most 516 bytes is looked at by its opcode.
listen_small :
    (l : Listener) (client : Address) (opcode : ℕ) (body : Bytes)
    → (opcode ≡ 1) ⊎ ((opcode ≡ 2) ⊎ (opcode ≡ 6))
    → length body ≤ 514
    → listen l (datagram client (0 ∷ opcode ∷ body))
      ≡ listen_named l client opcode (0 ∷ opcode ∷ (body ++ replicate (1024 - (2 + length body)) 0))
unfolding listen
listen_small l client opcode body known short =
    let payload : Bytes = 0 ∷ opcode ∷ body in
    rw
      (
        received_zeros 1024 payload (omega arith),
        opcode_of-front opcode (body ++ replicate (1024 - length payload) 0) (ground arith),
        le→ltb 516 (read_bytes (replicate 1024 0) payload) (omega arith),
      )
      (ground arith)

listen_body :
    (l : Listener) (client : Address) (opcode : ℕ) (filename mode : Bytes)
    → (opcode ≡ 1) ⊎ ((opcode ≡ 2) ⊎ (opcode ≡ 6))
    → IsFresh l
    → NulFree filename
    → NulFree mode
    → map to_lower mode ≡ octet
    → 4 + length filename + length mode ≤ 516
    → listen l (datagram client (0 ∷ opcode ∷ request_body filename mode))
      ≡ some (with_thread l (record { opcode = opcode; filename = filename; client = client }))
listen_body l client opcode filename mode known fresh hf hm lower short =
    let body : Bytes = request_body filename mode in
    let zeros : Bytes = replicate (1024 - (2 + length body)) 0 in
    let grouped : body ++ zeros ≡ filename ++ 0 ∷ (mode ++ 0 ∷ zeros) =
      append_assoc filename (0 ∷ (mode ++ 0 ∷ [])) zeros
      ∙ ap (λ (tail : Bytes). filename ++ 0 ∷ tail) (append_assoc mode (0 ∷ []) zeros) in
    let size : length body ≤ 514 =
      omega (arith, length-append filename (0 ∷ (mode ++ 0 ∷ [])), length-append mode (0 ∷ [])) in
    rw (listen_small l client opcode body known size, grouped)
      (named_lem l client opcode filename mode zeros fresh hf hm lower)

octet_lower : map to_lower octet ≡ octet
unfolding to_lower
octet_lower = refl

length-map : (f : ℕ → ℕ) (xs : Bytes) → length (map f xs) ≡ length xs
length-map f [] = refl
length-map f (x ∷ xs) = ap suc (length-map f xs)

length-octet : (mode : Bytes) → map to_lower mode ≡ octet → length mode ≡ 5
length-octet mode lower = sym (length-map to_lower mode) ∙ ap length lower

-- For a filename and a mode without NUL, the mode reading octet in any case, in a packet of at
-- most 516 bytes, the read, write and delete requests that the packet functions build each start
-- a thread with their opcode, the filename and the client, under the next id, where that is an
-- int that no thread has; nothing else changes, and nothing is sent.
pub listen-create :
    (l : Listener) (client : Address) (filename mode packet other : Bytes)
    → IsFresh l
    → NulFree filename
    → NulFree mode
    → map to_lower mode ≡ octet
    → 4 + length filename + length mode ≤ 516
    → length packet ≡ 4 + length filename + length mode
    → length other ≡ 4 + length filename + length octet
    → ((create_rrq_packet packet filename mode >>= λ sent. listen l (datagram client sent))
        ≡ some (with_thread l (record { opcode = 1; filename = filename; client = client })))
      × ((create_wrq_packet packet filename mode >>= λ sent. listen l (datagram client sent))
          ≡ some (with_thread l (record { opcode = 2; filename = filename; client = client })))
      × ((create_delete_packet other filename >>= λ sent. listen l (datagram client sent))
          ≡ some (with_thread l (record { opcode = 6; filename = filename; client = client })))
listen-create l client filename mode packet other fresh hf hm lower short size size_octet =
    let layout = request_layout packet filename mode hf hm size in
    let five : length mode ≡ 5 = length-octet mode lower in
    (
      rw layout.0 (listen_body l client 1 filename mode (inl refl) fresh hf hm lower short),
      rw layout.1 (listen_body l client 2 filename mode (inr (inl refl)) fresh hf hm lower short),
      rw (delete_layout other filename hf size_octet) (
          listen_body l client 6 filename octet (inr (inr refl)) fresh hf (omega arith) octet_lower
            (omega arith)),
    )
