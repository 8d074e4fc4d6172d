-- ===== src/Session.antt =====
-- The polled session of crates/core/src/session.rs: frames off the front of a caller's buffer. A
-- poll gives its result, the receiving half after it and the buffer after it.
pub mod Polling
pub mod Refines
mod Tests
use nextppp.Prelude.{ℕ, ◌+◌, ltb, if◌then◌else◌, Bool, true, false, not, ◌||◌, Option, none, some}
use nextppp.Prelude.{List, [], ◌++◌, length, take, drop, Result, ok, err}
use nextppp.Errors.{Error, Rng}
use nextppp.Cipher.{Backend, SessionCipher}
use nextppp.Binary
use nextppp.Base94.Defs.{Codec, peek_frame_len, decode_packet_into}
use nextppp.Transmission.{RxCore, TxCore, parse_binary_header, open_body, unwrapped, encrypt_impl}

-- The receiving half. `pending_binary` keeps a header that was decrypted, its length and its key,
-- while the body is still to come; `consumed` is the size of the last frame in the buffer.
pub record SessionRx : Type 0 where
  pub core : RxCore
  pub pending_binary : Option (ℕ × ℕ)
  pub consumed : ℕ

abbrev pub Polled : Type 0
Polled = Result (Option (List ℕ)) Error × SessionRx × List ℕ

unfoldable pub is_frame_pending : SessionRx → Bool
is_frame_pending s = elim s.pending_binary [ none ↦ false | some pending ↦ true ]

unfoldable pub take_consumed : SessionRx → ℕ × SessionRx
take_consumed s = (s.consumed, record s { consumed = 0 })

module _ (b : Backend) (c : Codec) where
  -- The message of a whole envelope of `total` bytes.
  unfoldable pub enveloped_message :
      SessionRx → List ℕ → ℕ → Result (List ℕ) Error × RxCore → Polled
  enveloped_message s buf total (err e, core) = (err e, record s { core = core }, buf)
  enveloped_message s buf total (ok message, core) =
      (ok (some message), record s { core = core; consumed = total }, buf)

  unfoldable pub poll_envelope : SessionRx → List ℕ → Result (Option ℕ) Error → Polled
  unfolding enveloped_message
  poll_envelope s buf (err e) = (err e, s, buf)
  poll_envelope s buf (ok none) = (ok none, s, buf)
  poll_envelope s buf (ok (some total)) =
      let opened = unwrapped b c s.core (decode_packet_into c s.core.b94 (take total buf)) in
      if ltb (length buf) total then (ok none, s, buf) else enveloped_message s buf total opened

  -- The message of a whole body, which takes the body's place in the buffer.
  unfoldable pub body_message : SessionRx → ℕ → List ℕ → Result (List ℕ) Error × RxCore → Polled
  body_message s len buf (err e, core) = (err e, record s { core = core }, buf)
  body_message s len buf (ok message, core) = (
    ok (some message),
    record { core = core; pending_binary = none; consumed = len },
    message ++ drop len buf,
  )

  -- With the header parsed and kept.
  unfoldable pub poll_body : SessionRx → ℕ → ℕ → List ℕ → Polled
  unfolding body_message
  poll_body s len header_kf buf =
      if ltb (length buf) len
      then (ok none, s, buf)
      else body_message s len buf (open_body b s.core header_kf (take len buf))

  unfoldable pub poll_parsed : SessionRx → List ℕ → Result (ℕ × ℕ) Error × SessionCipher → Polled
  unfolding poll_body
  poll_parsed s buf (err e, cipher) =
      (err e, record s { core = record s.core { protocol_rx = cipher } }, buf)
  poll_parsed s buf (ok (len, header_kf), cipher) =
      poll_body
        (record s {
          core = record s.core { protocol_rx = cipher };
          pending_binary = some (len, header_kf);
        })
        len header_kf (drop Binary.header_size buf)

  unfoldable pub poll_binary : SessionRx → List ℕ → Option (ℕ × ℕ) → Polled
  unfolding poll_parsed
  poll_binary s buf (some (len, header_kf)) = poll_body s len header_kf buf
  poll_binary s buf none =
      let header = take Binary.header_size buf in
      let parsed = parse_binary_header b s.core.key.kf s.core.protocol_rx header none in
      if ltb (length buf) Binary.header_size then (ok none, s, buf) else poll_parsed s buf parsed

  unfoldable pub poll_frame : SessionRx → List ℕ → Polled
  unfolding poll_envelope poll_binary
  poll_frame s buf =
      if not s.core.handshaked || s.core.key.plaintext
      then poll_envelope s buf (peek_frame_len c s.core.b94 buf)
      else poll_binary s buf s.pending_binary

-- The session, both halves, and its parts.
module _ (b : Backend) (c : Codec) (g : Rng) where
  pub record Session : Type 0 where
    pub tx : TxCore b c g
    pub rx : SessionRx
    pub session_id : ℕ

  unfoldable pub from_cores : TxCore b c g → RxCore → ℕ → Session
  from_cores tx rx session_id = record {
    tx = tx;
    rx = record { core = rx; pending_binary = none; consumed = 0 };
    session_id = session_id;
  }

  unfoldable pub split : Session → TxCore b c g × SessionRx
  split s = (s.tx, s.rx)
