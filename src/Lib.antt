-- ===== src/Lib.antt =====
-- nextppp: the protocol core (crates/core/src), and the client and the server that proxy streams over
-- it (crates/common/src, crates/client/src, crates/server/src).
--
-- A local program asks the client's SOCKS5 inbound for a connection (`read_connect`). The client opens
-- a stream on a tunnel of its pool (`open_round`, `open_on`): an OPEN frame with the address goes to the
-- server, which connects the target and answers with a REPLY (`handle_open`, `answer_open`). From then
-- on both ends pump the stream's bytes as frames (`pump_up`, `pump_down`), which each end's
-- demultiplexer hands to its streams (`run_reader`, `run_demux`). A tunnel's frames go out in batches
-- (`run_writer`) and come back through `next_frame`, as messages of a session.
--
-- A message goes through `encrypt_impl` (transmission.rs): the transport cipher, the 3-byte header
-- under the protocol cipher, the payload transforms, and, before the handshake or where the key asks
-- for it, the base-94 envelope. The counterpart undoes this in memory (`decrypt`), off a stream
-- (`read_buf`), or by polling a growing buffer (`poll_frame`). Bytes are numbers below 256 in lists; a
-- method that changes `self` returns the new state; an error is a value.
--
-- Ssea: crates/core/src/crypto/ssea.rs, with the scalar delta code of simd.rs. `lcg_next`,
--   `lcg_range`, `fast_mod`, `shuffle`, `delta_encode`, `masked_xor_random_next` and inverses.
-- Checksum: crates/core/src/frame/checksum.rs.
-- Modes, Cipher: crates/core/src/crypto/cipher.rs. Modes has CFB and CTR over any block cipher,
--   Cipher the methods, names, key derivation, nonces and `SessionCipher::apply`.
-- Errors: crates/core/src/error.rs, and the random source that the core is generic in.
-- Binary: crates/core/src/frame/binary.rs.
-- Base94: crates/core/src/frame/base94.rs.
-- Key: crates/core/src/config.rs.
-- Handshake: crates/core/src/handshake.rs, the packets and their fields.
-- Transmission: crates/core/src/transmission.rs, `TxCore` and `RxCore`.
-- Connection: crates/core/src/transmission.rs, `Transmission` over a transport, and its handshake.
--   The transport is what is still to be read, with how it ends, and what was written, with the number
--   of bytes after which writing fails, if ever: a write that fails puts what still went.
-- Session: crates/core/src/session.rs, the polled reader of a session's frames.
-- Mux: crates/common/src/mux.rs, the frames that the messages after the handshake carry.
-- Addr: crates/common/src/addr.rs. A name is its bytes, an address its octets.
-- Pump: crates/common/src/pump.rs, which errors are routine, and connecting a target.
-- Tunnel: crates/common/src/tunnel.rs. The module itself has the frame reader and the frame writer over
--   both carriers, Tunnel.Pumps the two directions of a stream and how it ends. What is written to a
--   carrier waits in it until a flush, and a flush may fail too.
-- Link: crates/common/src/link.rs, the sending half of a bond link.
-- Dns: crates/common/src/dns.rs, the cache of names.
-- Config: crates/common/src/config.rs, from a parsed file on.
-- Socket: a socket of the tokio crate as a reader and a writer, in a small monad of steps.
-- Socks5: crates/client/src/socks5.rs.
-- Pool: crates/client/src/pool.rs, a tunnel with its streams and the choice among tunnels. Dial: the
--   retries there.
-- Server: crates/server/src/lib.rs, the gates at accept, the demultiplexer and the streams.
-- Prelude: shared names and lemmas. Samples: concrete ciphers, codec and generator for the tests.
--
-- Parameters. `Cipher.Backend` stands for the crates aes, chacha20 and hkdf, of which only is used
-- that they yield bytes; `Base94.Defs.Codec` for the base94 crate, with the laws that its
-- documentation states; `Errors.Rng` for a generator of the rand crate, with the bounds of its draws.
-- Samples instantiates all three.
--
-- Tasks. What a task does between two awaits is one operation on the tunnel's state, and what it waits
-- for comes in as an argument: the outcome of a channel's send, of a timeout or of a connection
-- attempt, a reading of the clock, an answer of the resolver. What other tasks make of the tunnel during
-- an await is an argument too: a function where it stands within one definition (`open_on`,
-- `route_event`, `route`, `others_ran`), a list of stores for the cache of names, whose lock is free
-- during a lookup and between its phases. The relations `Reachable` of Pool.Streams and Server.Registry
-- put the operations in any order, with the end of an awaited send as an operation of its own.
--
-- Loops. Structural where the source walks a slice. CFB decryption has one round of fuel for each
-- block, CTR one for each byte, the base-32 text 26 digits, the decimal text 40,
-- a stream id five bytes, the fold of the checksum two rounds, a dial one for each attempt
-- allowed; the theorems on them hold for the fuel that the code is given here. The loops that wait
-- (readers, writers, pumps) walk the list of what they get.
--
-- Not modelled. Scratch buffers, which are cleared before use; the vector instructions of simd.rs;
-- the receiving half of a bond link (link.rs) and the bonds (bond.rs), whose aggregator is a
-- library; the maintainer of the pool; listeners, signals, heartbeats and log lines; the limits of
-- time of the negotiation and of a send, but for their outcome; the reading and parsing of files;
-- the program's start.
pub mod Prelude
pub mod Ssea
pub mod Checksum
pub mod Modes
pub mod Cipher
pub mod Errors
pub mod Binary
pub mod Addr
pub mod Base94
pub mod Key
pub mod Handshake
pub mod Transmission
pub mod Connection
pub mod Session
pub mod Mux
pub mod Config
pub mod Dns
pub mod Pump
pub mod Tunnel
pub mod Link
pub mod Socket
pub mod Socks5
pub mod Pool
pub mod Dial
pub mod Server
pub mod Samples
