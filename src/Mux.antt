-- ===== src/Mux.antt =====
-- The mux frames of crates/common/src/mux.rs: a kind byte, a stream id of variable length, a payload.
pub mod Varint
pub mod Frames
pub mod Incremental
mod Tests
use nextppp.Prelude.{
  ℕ, zero, suc, ◌+◌, ◌*◌, ◌/◌, ◌%◌, ◌^◌, bit_and, bit_or, ◌==◌, ltb, if◌then◌else◌, Bool, true,
  false,
}
use nextppp.Prelude.{◌&&◌, Option, none, some, List, [], ◌∷◌, ◌++◌, drop, Result, ok, err}
use nextppp.Ssea.{u32}

pub data FrameKind : Type 0 where
  open_stream reply stream_data eof close : FrameKind

pub from_u8 : ℕ → Option FrameKind
from_u8 v =
    if v == 0x00
    then some open_stream
    else if v == 0x01
    then some reply
    else if v == 0x02
    then some stream_data
    else if v == 0x03
    then some eof
    else if v == 0x04
    then some close
    else none

pub as_u8 : FrameKind → ℕ
as_u8 open_stream = 0x00
as_u8 reply = 0x01
as_u8 stream_data = 0x02
as_u8 eof = 0x03
as_u8 close = 0x04

pub data MuxError : Type 0 where
  empty truncated_stream_id : MuxError
  unknown_kind : ℕ → MuxError

-- The bytes written. A 32-bit number takes five at most.
unfoldable pub encode_varint_loop : ℕ → ℕ → List ℕ
encode_varint_loop zero v = []
encode_varint_loop (suc fuel) v =
    let b = bit_and v 0x7f in
    let rest = encode_varint_loop fuel (v / 2 ^ 7) in
    if v / 2 ^ 7 == 0 then b ∷ [] else bit_or b 0x80 ∷ rest

unfoldable pub encode_varint : ℕ → List ℕ
encode_varint v = encode_varint_loop 5 v

-- The bytes from place `i` on, `left` of them at most, with the value so far.
pub decode_varint_loop : ℕ → ℕ → ℕ → List ℕ → Option (ℕ × ℕ)
decode_varint_loop zero i v bytes = none
decode_varint_loop (suc left) i v [] = none
decode_varint_loop (suc left) i v (b ∷ bs) =
    let bits = bit_and b 0x7f in
    let v' = bit_or v (u32 (bits * 2 ^ (7 * i))) in
    let rest = decode_varint_loop left (i + 1) v' bs in
    if (i == 4) && ltb 0x0f bits
    then none
    else if bit_and b 0x80 == 0
    then some (v', i + 1)
    else rest

pub decode_varint : List ℕ → Option (ℕ × ℕ)
decode_varint bytes = decode_varint_loop 5 0 0 bytes

-- The header bytes, `FrameHeader::new` with `as_slice`.
pub frame_header : FrameKind → ℕ → List ℕ
frame_header kind stream = as_u8 kind ∷ encode_varint stream

pub parse_stream : FrameKind → List ℕ → Option (ℕ × ℕ) → Result (FrameKind × ℕ × List ℕ) MuxError
parse_stream kind rest none = err truncated_stream_id
parse_stream kind rest (some (stream, n)) = ok (kind, stream, drop n rest)

pub parse_kind : ℕ → List ℕ → Option FrameKind → Result (FrameKind × ℕ × List ℕ) MuxError
parse_kind byte rest none = err (unknown_kind byte)
parse_kind byte rest (some kind) = parse_stream kind rest (decode_varint rest)

pub parse_frame : List ℕ → Result (FrameKind × ℕ × List ℕ) MuxError
parse_frame [] = err empty
parse_frame (byte ∷ rest) = parse_kind byte rest (from_u8 byte)

-- The verdict that a REPLY carries, crates/common/src/proto.rs.
abbrev pub status_ok : ℕ
status_ok = 0x00

abbrev pub status_refused : ℕ
status_refused = 0x01
