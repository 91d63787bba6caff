-- ===== src/Server/Listing/Outcome.antt =====
-- `handleLSRequest` as a whole.
use native.Mathlib.Numerals.{unary_clauses}
use tftp.Base.{
  ℕ, zero, suc, ◌+◌, ◌-◌, ◌*◌, ◌/◌, ◌%◌, ◌^◌, ◌<◌, Bytes, true, ◌≡◌, refl, ap, ◌∙◌, some, List, [],
  ◌∷◌, ◌++◌, length, map, All, ltb, Bool-cases, inl, inr, arith,
}
use tftp.Base.Names.{text_key}
use tftp.Packet.{read_data_block}
use tftp.Packet.File.{blocks, blocks-all}
use tftp.Wire.Words.{header}
use tftp.Server.{Server, Host, FileMap, max_retry}
use tftp.Server.Write.{stop, returned}
use tftp.Server.Read.{ReadState, read_start}
use tftp.Server.Read.Transfer.{ack_replies, block_packets, read_loop_sends}
use tftp.Server.Listing.{
  digits, listing, ls_path, ls_contents, answered, Turn, ls_loop, listed, handle_ls_request,
}
use tftp.Base.StdMap.{same_self}
use tftp.Server.Listing.Loop.{IsSmall, quiet, quietly, data_only, ls_loop-read_loop}

-- What a text of decimal digits says, behind the digits read so far.
abbrev pub decimal : ℕ → Bytes → ℕ
decimal value [] = value
decimal value (digit ∷ text) = decimal (value * 10 + (digit - 48)) text

decimal-append :
    (value : ℕ) (front : Bytes) (digit : ℕ)
    → decimal value (front ++ digit ∷ []) ≡ decimal value front * 10 + (digit - 48)
decimal-append value [] digit = refl
decimal-append value (c ∷ front) digit = decimal-append (value * 10 + (c - 48)) front digit

-- The decimal digits printed for a number of at most fuel digits say that number.
pub decimal-digits : (fuel n : ℕ) → n < 10 ^ fuel → decimal 0 (digits fuel n) ≡ n
unfolding digits
decimal-digits zero n small = omega arith
decimal-digits (suc fuel) n small = elim (Bool-cases (ltb n 10)) [
  | inl e ↦ rw e (omega arith)
  | inr e ↦
      let next : n < 10 ^ fuel * 10 = simp unary_clauses at small in
      rw e (
        decimal-append 0 (digits fuel (n / 10)) (48 + n % 10)
        ∙ omega (arith, decimal-digits fuel (n / 10) (omega arith)))
]

ls_contents_lem :
    (host : Host) (files : FileMap)
    → host.accepts [] (listing files) ≡ true
    → ls_contents host files ≡ listing files
unfolding ls_contents
ls_contents_lem host files accepts = rw accepts

IsSmall-acks :
    (ack_buffer : Bytes) (n count : ℕ)
    → length ack_buffer ≡ 4
    → All IsSmall (ack_replies ack_buffer n count)
IsSmall-acks ack_buffer n zero size = tt
IsSmall-acks ack_buffer n (suc count) size = (size, IsSmall-acks ack_buffer (suc n) count size)

data_only-blocks :
    (contents : Bytes) (n count : ℕ)
    → data_only (block_packets contents n count) ≡ block_packets contents n count
data_only-blocks contents n zero = refl
data_only-blocks contents n (suc count) =
    ap (◌∷◌ (header 3 (suc n) (read_data_block (some contents) (suc n))))
      (data_only-blocks contents (suc n) count)

module _ (host : Host) (server : Server) (ack_buffer : Bytes) (size : length ack_buffer ≡ 4) where
  handle_ls_request-stop :
      (turns : List Turn) (t : ReadState)
      → host.creates ls_path ≡ true
      → host.accepts [] (listing server.files) ≡ true
      → ls_loop (some (listing server.files)) read_start turns ≡ some (stop t)
      → handle_ls_request host server turns
        ≡ some (returned (listed server (listing server.files)) t.sent)
  unfolding handle_ls_request
  handle_ls_request-stop turns t creates accepts run =
      let holds = ls_contents_lem host server.files accepts in
      rw (creates, holds, run)
        (ap (λ contents. some (returned (listed server contents) t.sent)) holds)

  -- A list request, where ls.txt can be created and written and the listing has at most 127
  -- blocks, the last one neither full nor empty: a client that acknowledges each block is sent
  -- the DATA packets of all blocks in order, the blocks put together are the listing of the
  -- table, ls.txt holds it, and the handler returns with the table as it was.
  pub handle_ls_request-sends :
      (k : ℕ)
      → host.creates ls_path ≡ true
      → host.accepts [] (listing server.files) ≡ true
      → k < 127
      → k * 512 < length (listing server.files)
      → length (listing server.files) < k * 512 + 512
      → (server' : Server) × (handle_ls_request host server
            (map answered (ack_replies ack_buffer 0 (suc k)))
          ≡ some (returned server' (block_packets (listing server.files) 0 (suc k))))
        × (blocks (listing server.files) 0 (suc k) ≡ listing server.files)
        × (server'.disk ls_path ≡ some (listing server.files))
        × (server'.files ≡ server.files)
  unfolding read_start
  handle_ls_request-sends k creates accepts small lower upper =
      let contents = listing server.files in
      let (t, run, got) =
        read_loop_sends contents ack_buffer size k 0 max_retry [] (omega arith) (omega arith)
          (omega arith) (omega arith) in
      let acks = ack_replies ack_buffer 0 (suc k) in
      let same =
        ls_loop-read_loop (some contents) read_start acks
          (IsSmall-acks ack_buffer 0 (suc k) size) in
      (
        listed server contents,
        handle_ls_request-stop (map answered acks) (quiet t) creates accepts (same ∙ ap quietly run)
            ∙ ap (λ sent. some (returned (listed server contents) sent))
                (ap data_only got ∙ data_only-blocks contents 0 (suc k)),
        blocks-all contents (suc k) (omega arith),
        rw (same_self ls_path),
        refl,
      )
