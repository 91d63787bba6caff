-- ===== src/Lib.antt =====
-- A model of the TFTP server and client of this repository, with the theorems that make it correct.
--
-- The program has four parts. src/TFTPPacket.cpp builds packets and reads blocks of files.
-- src/TFTPServer.cpp listens for requests, and serves each in a thread over one shared table of the
-- files and their readers. src/TFTPClient.cpp sends one request and runs the other side of the
-- transfer, compressing what it writes and decompressing what it reads by src/TFTPCompression.cpp.
--
-- Packet models TFTPPacket.h and TFTPPacket.cpp: `create_rrq_packet` is `createRRQPacket`, and so on;
-- a buffer is the list of its bytes, and a write outside it is `none`. Packet/Store and Packet/Layout
-- prove what the functions write, Packet/File what `readDataBlock` reads.
-- Wire models how both sides read a datagram: `recvfrom` into a buffer of a fixed size, and the two
-- ways in which a word is put together from two `char`s. The host is taken to be little-endian, with
-- a signed `char`, as with gcc on x86-64.
-- Server models the state of TFTPServer: the map `files` with its reader counts, and the disk as
-- the contents of each path. Server/Write is `handleWriteRequest`, Server/Read `handleReadRequest`,
-- Server/Delete `handleDeleteRequest`, Server/Listing `handleLSRequest`, Server/Dispatch
-- `handleClientThread`; Server/Sessions has the operations of the threads on the table in every
-- order, each as one step, though the program has no lock; Sessions/Race has two threads that are
-- not kept apart. Server/Listen is the loop of `start`, with the map of the client threads and
-- `destroyClientThreads`; Listen/Rounds is about one round of the loop, Listen/Runs takes arrivals,
-- ends of threads and clean-ups in every order, each as one step. Server/Shutdown adds the prompt
-- of `destroyTFTP`, the flag `destroyTFTPServer` and the end of `start`, with the main thread and
-- the one of `destroyClientThreads` as state machines. A handler takes the list of what its socket
-- yields, a timeout or a datagram, and returns the new server with the packets sent. The loops
-- recur on that list, so they need no fuel, and a loop that still waits when the list ends says so
-- (`again`, `waiting`). Undefined behaviour is `none`.
-- What the file system decides is the parameter `Host`: whether a file can be created, a write
-- succeeds, a removal throws. The results of `sendto`, which the server's handlers only log (but for
-- `handleLSRequest`), and the log itself are left out.
-- Client models TFTPClient.cpp in the same way, over datagrams with their senders: Client/Read is
-- the loop of `handleRRQRequest`, Client/Write `handleWRQRequest` from the file that
-- `deflate` leaves, Client/Delete `handleDELETERequest`, Client/Listing `handleLSRequest`. Client/Start
-- adds the compression to the first two, on the files of the client's
-- directory, so that `handle_rrq_request` is the whole of `handleRRQRequest`; it has `startClient` and
-- `main` too. The member `clientAddress`, which nothing initialises, is the argument `stray`. Exchange
-- gives each end what the other sends, and Exchange/Delivery takes a text from one client to another;
-- Exchange/Late has a read in which the server hears of a block only when it has sent it again.
-- Compression models TFTPCompression.cpp on the contents of the files: `pack` is the packing of
-- `deflate`, `read_bits` is `readBinaryFile`, `separate` is `separateBinaryFile`, and so on.
-- Compression/Characters is `std::map<char, T>` and the order of the frequencies; Compression/Huffman
-- is `generateHuffmanCodes`: Merging, Rounds and Parents are about its first phase, Scan and Depths
-- about the second, Order, Codes and Assigned about the codes, Words and Table about the map, and
-- Decodable and Padding about what `inflate` makes of them. Compression/Files has the functions on the
-- files of a directory: `deflate`, `inflate_file`, and `decompress`, which is what the client does with
-- a file received.
-- Base holds the shared notation: tests, lists over the native numbers, words, `std::map` (StdMap),
-- `int` counters.
--
-- A word of 16 bits is a number below 65536, with the wrap written out. `digits` is given ten digits of
-- fuel, and an `int` has no more. Client ids are natural numbers, and one that an `int` does not hold is
-- undefined behaviour.
--
-- The second phase of generateHuffmanCodes is given one round of fuel for each frequency, which
-- `code_lengths-Fills` shows to be enough, and decodeBinaryFileToMap one for each byte of its file. A sum
-- of frequencies that an `int` does not hold is `none`.
--
-- Not modelled: sockets and their options, but for the result of `setsockopt` in the loop of `start`;
-- the installation of the signal handler; the `setsockopt` of a client thread; in
-- `decodeBinaryFileToMap`, a length that `len + 1` wraps or for which the stack has no room;
-- what the programs print, but for the last line of the client; `reverseMap`, which nothing calls.
pub mod Base
pub mod Packet
pub mod Wire
pub mod Server
pub mod Client
pub mod Exchange
pub mod Compression
pub mod Tests
