-- ===== src/Tunnel.antt =====
-- The drivers of a mux tunnel in crates/common/src/tunnel.rs: how messages are put on a carrier, the
-- writer task, and the reader that puts frames together. What a channel or a socket has to give next
-- is an argument: a writer gets its frames in the batches that it found queued, a reader its bytes in
-- the chunks that its reads return.
pub mod Reader
pub mod Carried
pub mod Stream
pub mod Pumps
mod Tests
use nextppp.Prelude.{ℕ, zero, suc, ◌+◌, ◌==◌, leb, ltb, if◌then◌else◌, Bool, true, false, ◌&&◌}
use nextppp.Prelude.{Option, none, some, List, [], ◌∷◌, ◌++◌, length, take, drop, Result, ok, err}
use nextppp.Errors.{Error, ErrorKind, io, zero_length, frame_too_large, invalid_frame, Rng}
use nextppp.Cipher.{Backend}
use nextppp.Base94.Defs.{Codec, base94_max_frame}
use nextppp.Transmission.{TxCore, encrypt_impl}
use nextppp.Session.{SessionRx, Polled, poll_frame, take_consumed}
use nextppp.Mux.{FrameKind, frame_header, encode_varint, decode_varint}
use nextppp.Connection
use nextppp.Connection.{write_all}

abbrev pub buf_cap : ℕ
buf_cap = base94_max_frame + 64

abbrev pub prefix_max_frame : ℕ
prefix_max_frame = base94_max_frame

abbrev pub write_batch : ℕ
write_batch = 32

pub record OutFrame : Type 0 where
  pub header : List ℕ
  pub payload : List ℕ

unfoldable pub out_frame : FrameKind → ℕ → List ℕ → OutFrame
out_frame kind stream payload = record { header = frame_header kind stream; payload = payload }

unfoldable pub bare_frame : FrameKind → ℕ → OutFrame
unfolding out_frame
bare_frame kind stream = out_frame kind stream []

-- A length prefix with the message behind it.
unfoldable pub encode_prefix : List ℕ → List ℕ → List ℕ → Result (List ℕ) Error
encode_prefix out header payload =
    let total = length header + length payload in
    if total == 0
    then err zero_length
    else if ltb prefix_max_frame total
    then err (frame_too_large total)
    else ok (out ++ (encode_varint total ++ (header ++ payload)))

-- The length of the message at the front, and the bytes of its prefix.
unfoldable pub peeked : List ℕ → Option (ℕ × ℕ) → Result (Option (ℕ × ℕ)) Error
peeked buf (some (len, vlen)) =
    if len == 0
    then err zero_length
    else if ltb prefix_max_frame len
    then err (frame_too_large len)
    else ok (some (len, vlen))
peeked buf none = if leb 5 (length buf) then err invalid_frame else ok none

unfoldable pub peek_prefix : List ℕ → Result (Option (ℕ × ℕ)) Error
unfolding peeked
peek_prefix buf = peeked buf (decode_varint buf)

pub data RxWire : Type 0 where
  session_rx : SessionRx → RxWire
  prefix_rx : RxWire

pub record FrameReader : Type 0 where
  pub wire : RxWire
  pub buf : List ℕ

abbrev pub Attempt : Type 0
Attempt = Result (Option (List ℕ)) Error × FrameReader

-- The message of a poll, with its bytes drained off the buffer.
unfoldable pub drained : Polled → Attempt
unfolding take_consumed
drained (err e, s, buf) = (err e, record { wire = session_rx s; buf = buf })
drained (ok none, s, buf) = (ok none, record { wire = session_rx s; buf = buf })
drained (ok (some message), s, buf) =
    let (used, s') = take_consumed s in
    (ok (some message), record { wire = session_rx s'; buf = drop used buf })

unfoldable pub prefix_frame : List ℕ → Result (Option (ℕ × ℕ)) Error → Attempt
prefix_frame buf (err e) = (err e, record { wire = prefix_rx; buf = buf })
prefix_frame buf (ok none) = (ok none, record { wire = prefix_rx; buf = buf })
prefix_frame buf (ok (some (total, vlen))) =
    if leb (vlen + total) (length buf)
    then (
      ok (some (take total (drop vlen buf))),
      record { wire = prefix_rx; buf = drop (vlen + total) buf },
    )
    else (ok none, record { wire = prefix_rx; buf = buf })

-- What a reader returns, with the reader after it and the chunks that were not read.
abbrev pub Next : Type 0
Next = Result (Option (List ℕ)) Error × FrameReader × List (List ℕ)

-- How a stream ends: an end of file, or an error.
unfoldable pub stream_end : Option ErrorKind → Result (Option (List ℕ)) Error
stream_end none = ok none
stream_end (some kind) = err (io kind)

module _ (b : Backend) (c : Codec) where
  -- One turn of the loop, up to the read.
  unfoldable pub attempt_on : List ℕ → RxWire → Attempt
  unfolding drained prefix_frame
  attempt_on buf (session_rx s) = drained (poll_frame b c s buf)
  attempt_on buf prefix_rx = prefix_frame buf (peek_prefix buf)

  unfoldable pub attempt_frame : FrameReader → Attempt
  unfolding attempt_on
  attempt_frame r = attempt_on r.buf r.wire

  -- A frame or an error is returned; otherwise the buffer may not be too full, and a read follows.
  unfoldable pub turn : List (List ℕ) → (FrameReader → Next) → Attempt → Next
  turn chunks wait (err e, r) = (err e, r, chunks)
  turn chunks wait (ok (some message), r) = (ok (some message), r, chunks)
  turn chunks wait (ok none, r) =
      let next = wait r in
      if ltb buf_cap (length r.buf) then (err invalid_frame, r, chunks) else next

  -- A read of no bytes is the end of the stream.
  unfoldable pub next_frame : Option ErrorKind → List (List ℕ) → FrameReader → Next
  unfolding turn
  next_frame finish [] r = turn [] (λ r'. (stream_end finish, r', [])) (attempt_frame r)
  next_frame finish (chunk ∷ chunks) r =
      turn (chunk ∷ chunks)
        (λ r'.
          let rest = next_frame finish chunks (record r' { buf = r'.buf ++ chunk }) in
          if length chunk == 0 then (ok none, r', chunks) else rest)
        (attempt_frame r)

-- The sending side of a carrier. What was written may wait in it: `flushed` is what a flush has pushed
-- out. `flush_breaks` is after how many flushes they fail, if ever.
pub record Carrier : Type 0 where
  pub writer : Connection.Writer
  pub flushed : List ℕ
  pub flush_breaks : Option (ℕ × ErrorKind)
  pub shut : Bool

unfoldable pub with_writer :
    Carrier → Result (Unit {0}) Error × Connection.Writer → Result (Unit {0}) Error × Carrier
with_writer carrier (result, w) = (result, record carrier { writer = w })

unfoldable pub write_carrier : List ℕ → Carrier → Result (Unit {0}) Error × Carrier
unfolding with_writer
write_carrier out carrier = with_writer carrier (write_all out carrier.writer)

unfoldable pub flush_on : Carrier → Option (ℕ × ErrorKind) → Result (Unit {0}) Error × Carrier
flush_on carrier none = (ok tt, record carrier { flushed = carrier.writer.written })
flush_on carrier (some (zero, kind)) = (err (io kind), carrier)
flush_on carrier (some (suc n, kind)) =
    (ok tt, record carrier { flushed = carrier.writer.written; flush_breaks = some (n, kind) })

unfoldable pub flush : Carrier → Result (Unit {0}) Error × Carrier
unfolding flush_on
flush carrier = flush_on carrier carrier.flush_breaks

unfoldable pub shutdown : Carrier → Carrier
shutdown carrier = record carrier { shut = true }

module _ (b : Backend) (c : Codec) (g : Rng) where
  pub data TxWire : Type 0 where
    session_tx : TxCore b c g → TxWire
    prefix_tx : TxWire

  -- What a wire appends for one message, and the wire after it.
  unfoldable pub appended :
      List ℕ → Result (List ℕ) Error × TxCore b c g → Result (List ℕ) Error × TxWire
  appended out (err e, tx) = (err e, session_tx tx)
  appended out (ok bytes, tx) = (ok (out ++ bytes), session_tx tx)

  unfoldable pub encode_wire : TxWire → List ℕ → List ℕ → List ℕ → Result (List ℕ) Error × TxWire
  unfolding appended
  encode_wire (session_tx tx) out header payload =
      appended out (encrypt_impl b c g tx header payload)
  encode_wire prefix_tx out header payload = (encode_prefix out header payload, prefix_tx)

  -- The frames of one round, into the bytes of one write.
  unfoldable pub encode_batch :
      List OutFrame → Result (List ℕ) Error × TxWire → Result (List ℕ) Error × TxWire
  encode_batch frames (err e, wire) = (err e, wire)
  encode_batch [] (ok out, wire) = (ok out, wire)
  encode_batch (frame ∷ frames) (ok out, wire) =
      encode_batch frames (encode_wire wire out frame.header frame.payload)

  -- The writer's end of a tunnel.
  pub record Written : Type 0 where
    pub wire : TxWire
    pub carrier : Carrier

  unfoldable pub flush_done :
      (TxWire → Carrier → Written) → TxWire → Result (Unit {0}) Error × Carrier → Written
  unfolding shutdown
  flush_done more wire (ok done, carrier) = more wire carrier
  flush_done more wire (err e, carrier) = record { wire = wire; carrier = shutdown carrier }

  unfoldable pub write_done :
      (TxWire → Carrier → Written) → TxWire → Result (Unit {0}) Error × Carrier → Written
  unfolding flush_done flush shutdown
  write_done more wire (ok done, carrier) = flush_done more wire (flush carrier)
  write_done more wire (err e, carrier) = record { wire = wire; carrier = shutdown carrier }

  unfoldable pub write_round :
      (TxWire → Carrier → Written) → Carrier → Result (List ℕ) Error × TxWire → Written
  unfolding write_done write_carrier shutdown
  write_round more carrier (err e, wire) = record { wire = wire; carrier = shutdown carrier }
  write_round more carrier (ok out, wire) = write_done more wire (write_carrier out carrier)

  -- Until the channel closes, behind its last batch, or something fails.
  unfoldable pub run_writer : TxWire → Carrier → List (List OutFrame) → Written
  unfolding write_round encode_batch encode_wire shutdown
  run_writer wire carrier [] = record { wire = wire; carrier = shutdown carrier }
  run_writer wire carrier (batch ∷ batches) =
      write_round (λ wire' carrier'. run_writer wire' carrier' batches) carrier
        (encode_batch batch (ok [], wire))
