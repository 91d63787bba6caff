-- ===== src/Wire.antt =====
-- How both sides read a received datagram: `recvfrom` into a fixed buffer, and the two ways in which
-- src/TFTPServer.cpp and src/TFTPClient.cpp put a 16-bit word together from two `char`s of it.
-- The host is little-endian and its `char` is signed, as with gcc on x86-64.
pub mod Words
use Prim.Native.Nat.{bit_and, bit_or}
use tftp.Base.{
  ℕ, Option, none, some, [], ◌∷◌, ◌==◌, ◌>>=◌, ◌+◌, ◌*◌, ◌/◌, ◌%◌, ◌-◌, ◌^◌, min, Bytes, ◌++◌,
  length, take, drop, get_or, u16, ltb, if◌then◌else◌,
}

-- What a buffer holds after `recvfrom` wrote a datagram into it; the rest is cut off.
abbrev pub received : Bytes → Bytes → Bytes
received buffer datagram = take (length buffer) datagram ++ drop (length datagram) buffer

-- What that call returns.
abbrev pub read_bytes : Bytes → Bytes → ℕ
read_bytes buffer datagram = min (length datagram) (length buffer)

-- (uint16_t)(((second & 0xFF) << 8) | (first & 0xFF))
unfoldable pub joined : ℕ → ℕ → ℕ
joined first second = u16 (bit_or (bit_and second 0xff * 2 ^ 8) (bit_and first 0xff))

-- The library's conversion from network order, which swaps the bytes on this host.
unfoldable pub ntohs : ℕ → ℕ
ntohs w = w % 256 * 256 + w / 256

-- The `int` that a `char` is promoted to, as its 32-bit pattern.
pub promoted : ℕ → ℕ
promoted c = if ltb c 128 then c else c + (2 ^ 32 - 256)

-- (uint16_t)((first << 8) | second)
pub joined_signed : ℕ → ℕ → ℕ
joined_signed first second = u16 (bit_or (promoted first * 2 ^ 8 % 2 ^ 32) (promoted second))

-- The opcode of a request or a reply, as the server's `start` and `handleWriteRequest` and the
-- client read it.
unfoldable pub opcode_of : Bytes → ℕ
opcode_of buffer = ntohs (joined (get_or buffer 0 0) (get_or buffer 1 0))

-- The block number or the error code, as `handleWriteRequest` and the client read it.
unfoldable pub block_of : Bytes → ℕ
block_of buffer = ntohs (joined (get_or buffer 2 0) (get_or buffer 3 0))

-- `ackOpcode` and `ackBlockNumber` of `handleReadRequest` and `handleLSRequest`.
pub ack_opcode_of : Bytes → ℕ
ack_opcode_of buffer = joined_signed (get_or buffer 0 0) (get_or buffer 1 0)

pub ack_block_of : Bytes → ℕ
ack_block_of buffer = joined_signed (get_or buffer 2 0) (get_or buffer 3 0)

-- The address and the port of a peer.
pub record Address : Type 0 where
  pub ip : ℕ
  pub port : ℕ

-- One return of `recvfrom` on a socket with a timeout, with the sender.
pub data Incoming : Type 0 where
  timeout : Incoming
  datagram : Address → Bytes → Incoming

-- A `std::string` made from a `char*`: the bytes up to the first NUL. Without one inside the buffer
-- the read leaves it.
unfoldable pub c_string : Bytes → Option Bytes
c_string [] = none
c_string (c ∷ rest) =
    let tail = c_string rest in if c == 0 then some [] else (do t ← tail; some (c ∷ t))
