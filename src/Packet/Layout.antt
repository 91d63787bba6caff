-- ===== src/Packet/Layout.antt =====
-- What each packet of src/TFTPPacket.cpp looks like when the caller's buffer is large enough.
use tftp.Base.{
  ℕ, suc, ◌+◌, ◌/◌, ◌%◌, ◌≤◌, Bytes, ◌≡◌, refl, some, [], ◌∷◌, ◌++◌, length, drop, length-append,
  length-drop, drop_all, arith, take, le→ltb,
}
use tftp.Packet.{
  create_request_packet, create_rrq_packet, create_wrq_packet, create_delete_packet,
  create_ls_packet, create_data_packet, create_ack_packet, create_error_packet, store, put_opcode,
  put_word, copy_bytes, octet,
}
use tftp.Packet.Store.{
  copied, copied-le, copied_all, NulFree, copy_string-front, copy_string-snoc, store-drop,
  store-drop_snoc,
}

-- A request behind its two bytes of opcode.
abbrev pub request_body : Bytes → Bytes → Bytes
request_body filename mode = filename ++ 0 ∷ (mode ++ 0 ∷ [])

create_request_packet_lem :
    (a b opcode : ℕ) (filename mode old : Bytes)
    → length (copied filename) + length (copied mode) + 2 ≤ length old
    → create_request_packet (a ∷ b ∷ old) opcode filename mode
      ≡ some (
          a
          ∷ b
          ∷ (copied filename
              ++ 0
                ∷ (copied mode
                    ++ 0
                      ∷ drop
                          (suc (length (copied mode)))
                          (drop (suc (length (copied filename))) old))))
unfolding create_request_packet
create_request_packet_lem a b opcode filename mode old room =
    let l : ℕ = length (copied filename) in
    let k : ℕ = length (copied mode) in
    let front : Bytes = a ∷ b ∷ copied filename in
    let tail : Bytes = drop (suc l) old in
    rw (
      copy_string-front filename (a ∷ b ∷ []) old 2 refl (omega arith),
      store-drop front old l (2 + l) 0 (omega arith) (omega arith),
      copy_string-snoc mode front tail 0 (2 + l + 1) (omega arith)
          (omega (arith, length-drop (suc l) old)),
      store-drop_snoc front 0 (copied mode) tail k (2 + l + 1 + k) 0 (omega arith)
          (omega (arith, length-drop (suc l) old)),
    )

-- Two bytes of opcode, in any buffer that has them.
put_opcode_lem :
    (x y : ℕ) (old : Bytes) (opcode : ℕ) → put_opcode (x ∷ y ∷ old) opcode ≡ some (0 ∷ opcode ∷ old)
unfolding put_opcode store
put_opcode_lem x y old opcode = ground arith

put_word_lem :
    (a b x y : ℕ) (old : Bytes) (word : ℕ)
    → put_word (a ∷ b ∷ x ∷ y ∷ old) word ≡ some (a ∷ b ∷ (word / 256 % 256) ∷ (word % 256) ∷ old)
unfolding put_word store
put_word_lem a b x y old word = ground arith

copy_bytes_header :
    (a b x y : ℕ) (old block : Bytes) (size : ℕ)
    → size ≤ length block
    → size ≤ length old
    → copy_bytes (a ∷ b ∷ x ∷ y ∷ old) 4 block size
      ≡ some (a ∷ b ∷ x ∷ y ∷ (take size block ++ drop size old))
unfolding copy_bytes
copy_bytes_header a b x y old block size hb hp =
    let e : 4 + size ≡ suc (suc (suc (suc size))) = omega arith in
    rw (e, le→ltb (length block) size hb)
      (rw (le→ltb (length (a ∷ b ∷ x ∷ y ∷ old)) (suc (suc (suc (suc size)))) (omega arith)))

-- A request in a buffer of exactly the size that the client gives it.
request_exact :
    (a b opcode : ℕ) (filename mode old : Bytes)
    → NulFree filename
    → NulFree mode
    → length old ≡ length filename + length mode + 2
    → create_request_packet (a ∷ b ∷ old) opcode filename mode
      ≡ some (a ∷ b ∷ request_body filename mode)
request_exact a b opcode filename mode old hf hm size =
    rw (copied_all filename hf, copied_all mode hm, rest) at
      (create_request_packet_lem a b opcode filename mode old
        (omega (arith, copied-le filename, copied-le mode)))
  where
    rest : drop (suc (length mode)) (drop (suc (length filename)) old) ≡ []
    rest =
        drop_all (suc (length mode)) (drop (suc (length filename)) old)
          (omega (arith, length-drop (suc (length filename)) old))

-- In a buffer of 4 + |filename| + |mode| bytes, for a filename and a mode without NUL,
-- createRRQPacket and createWRQPacket write the opcode, the filename, a NUL, the mode and a NUL,
-- and fill the buffer.
pub request_layout :
    (packet filename mode : Bytes)
    → NulFree filename
    → NulFree mode
    → length packet ≡ 4 + length filename + length mode
    → (create_rrq_packet packet filename mode ≡ some (0 ∷ 1 ∷ request_body filename mode))
      × (create_wrq_packet packet filename mode ≡ some (0 ∷ 2 ∷ request_body filename mode))
unfolding create_rrq_packet create_wrq_packet
request_layout [] filename mode hf hm size = absurd (omega arith)
request_layout (x ∷ []) filename mode hf hm size = absurd (omega arith)
request_layout (x ∷ y ∷ old) filename mode hf hm size = (
  rw (put_opcode_lem x y old 1) (request_exact 0 1 1 filename mode old hf hm (omega arith)),
  rw (put_opcode_lem x y old 2) (request_exact 0 2 2 filename mode old hf hm (omega arith)),
)

pub delete_layout :
    (packet filename : Bytes)
    → NulFree filename
    → length packet ≡ 4 + length filename + length octet
    → create_delete_packet packet filename ≡ some (0 ∷ 6 ∷ request_body filename octet)
unfolding create_delete_packet
delete_layout [] filename hf size = absurd (omega arith)
delete_layout (x ∷ []) filename hf size = absurd (omega arith)
delete_layout (x ∷ y ∷ old) filename hf size =
    rw (put_opcode_lem x y old 6)
      (request_exact 0 6 6 filename octet old hf (omega arith) (omega arith))

-- In a buffer of at least 4 + |filename| + |mode| bytes createRRQPacket writes only inside the
-- buffer and keeps its size, whatever bytes the filename and the mode hold.
pub request_in_bounds :
    (packet filename mode : Bytes)
    → 4 + length filename + length mode ≤ length packet
    → (written : Bytes) × (create_rrq_packet packet filename mode ≡ some written)
      × (length written ≡ length packet)
unfolding create_rrq_packet
request_in_bounds [] filename mode size = absurd (omega arith)
request_in_bounds (x ∷ []) filename mode size = absurd (omega arith)
request_in_bounds (x ∷ y ∷ old) filename mode size =
    let l : ℕ = length (copied filename) in
    let k : ℕ = length (copied mode) in
    let tail : Bytes = drop (suc k) (drop (suc l) old) in
    let room : l + k + 2 ≤ length old = omega (arith, copied-le filename, copied-le mode) in
    (
      0 ∷ 1 ∷ (copied filename ++ 0 ∷ (copied mode ++ 0 ∷ tail)),
      rw (put_opcode_lem x y old 1) (create_request_packet_lem 0 1 1 filename mode old room),
      omega (
        arith,
        length-append (copied filename) (0 ∷ (copied mode ++ 0 ∷ tail)),
        length-append (copied mode) (0 ∷ tail),
        length-drop (suc k) (drop (suc l) old),
        length-drop (suc l) old,
      ),
    )

-- createDataPacket, given size bytes of block and 4 + size bytes of buffer, writes the opcode 3,
-- the two bytes of the block number and the first size bytes of the block, and keeps what is
-- behind them.
pub data_layout :
    (packet : Bytes) (n : ℕ) (block : Bytes) (size : ℕ)
    → size ≤ length block
    → 4 + size ≤ length packet
    → create_data_packet packet n block size
      ≡ some (0 ∷ 3 ∷ (n / 256 % 256) ∷ (n % 256) ∷ (take size block ++ drop (4 + size) packet))
unfolding create_data_packet
data_layout [] n block size hb hp = absurd (omega arith)
data_layout (a ∷ []) n block size hb hp = absurd (omega arith)
data_layout (a ∷ b ∷ []) n block size hb hp = absurd (omega arith)
data_layout (a ∷ b ∷ x ∷ []) n block size hb hp = absurd (omega arith)
data_layout (a ∷ b ∷ x ∷ y ∷ old) n block size hb hp =
    let e : 4 + size ≡ suc (suc (suc (suc size))) = omega arith in
    rw (put_opcode_lem a b (x ∷ y ∷ old) 3, put_word_lem 0 3 x y old n, e)
      (copy_bytes_header 0 3 (n / 256 % 256) (n % 256) old block size hb (omega arith))

pub ack_layout :
    (packet : Bytes) (n : ℕ)
    → length packet ≡ 4
    → create_ack_packet packet n ≡ some (0 ∷ 4 ∷ (n / 256 % 256) ∷ (n % 256) ∷ [])
unfolding create_ack_packet
ack_layout [] n size = absurd (omega arith)
ack_layout (a ∷ []) n size = absurd (omega arith)
ack_layout (a ∷ b ∷ []) n size = absurd (omega arith)
ack_layout (a ∷ b ∷ x ∷ []) n size = absurd (omega arith)
ack_layout (a ∷ b ∷ x ∷ y ∷ []) n size =
    rw (put_opcode_lem a b (x ∷ y ∷ []) 4) (put_word_lem 0 4 x y [] n)
ack_layout (a ∷ b ∷ x ∷ y ∷ z ∷ old) n size = absurd (omega arith)

pub ls_layout :
    (packet : Bytes) → length packet ≡ 3 → create_ls_packet packet ≡ some (0 ∷ 7 ∷ 0 ∷ [])
unfolding create_ls_packet store
ls_layout [] size = absurd (omega arith)
ls_layout (a ∷ []) size = absurd (omega arith)
ls_layout (a ∷ b ∷ []) size = absurd (omega arith)
ls_layout (a ∷ b ∷ x ∷ []) size = rw (put_opcode_lem a b (x ∷ []) 7) (ground arith)
ls_layout (a ∷ b ∷ x ∷ y ∷ old) size = absurd (omega arith)

-- An error message behind its header; the byte after it is left to the caller.
pub error_layout :
    (packet : Bytes) (code : ℕ) (message : Bytes)
    → NulFree message
    → 4 + length message ≤ length packet
    → create_error_packet packet code message
      ≡ some (
          0 ∷ 5 ∷ (code / 256 % 256) ∷ (code % 256) ∷ (message ++ drop (4 + length message) packet))
unfolding create_error_packet
error_layout [] code message hm size = absurd (omega arith)
error_layout (a ∷ []) code message hm size = absurd (omega arith)
error_layout (a ∷ b ∷ []) code message hm size = absurd (omega arith)
error_layout (a ∷ b ∷ x ∷ []) code message hm size = absurd (omega arith)
error_layout (a ∷ b ∷ x ∷ y ∷ old) code message hm size =
    let e : 4 + length message ≡ suc (suc (suc (suc (length message)))) = omega arith in
    let whole = copied_all message hm in
    let hi = code / 256 % 256 in
    let lo = code % 256 in
    rw (
      put_opcode_lem a b (x ∷ y ∷ old) 5,
      put_word_lem 0 5 x y old code,
      e,
      copy_string-front message (0 ∷ 5 ∷ hi ∷ lo ∷ []) old 4 refl
          (omega (arith, copied-le message)),
      whole,
    )
