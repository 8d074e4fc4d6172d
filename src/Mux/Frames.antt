-- ===== src/Mux/Frames.antt =====
-- A frame of crates/common/src/mux.rs is parsed as it was built.
use nextppp.Prelude.{ℕ, ◌^◌, ◌<◌, ◌≡◌, refl, drop-append}
use nextppp.Prelude.{some, List, ◌++◌, length, ok}
use nextppp.Mux.{
  FrameKind, open_stream, reply, stream_data, eof, close, as_u8, from_u8, frame_header,
}
use nextppp.Mux.{parse_frame, parse_kind, parse_stream, encode_varint}
use nextppp.Mux.Varint.{decode_varint-encode_varint}

from_u8-as_u8 : (kind : FrameKind) → from_u8 (as_u8 kind) ≡ some kind
unfolding from_u8 as_u8
from_u8-as_u8 open_stream = refl
from_u8-as_u8 reply = refl
from_u8-as_u8 stream_data = refl
from_u8-as_u8 eof = refl
from_u8-as_u8 close = refl

-- A frame of any kind and 32-bit stream id is parsed to its kind, its stream and its payload.
pub parse_frame-frame_header :
    (kind : FrameKind) (stream : ℕ) (payload : List ℕ)
    → stream < 2 ^ 32
    → parse_frame (frame_header kind stream ++ payload) ≡ ok (kind, stream, payload)
unfolding parse_frame frame_header parse_kind parse_stream
parse_frame-frame_header kind stream payload h =
    rw
      (
        from_u8-as_u8 kind,
        decode_varint-encode_varint stream payload h,
        drop-append (length (encode_varint stream)) (encode_varint stream) payload refl,
      )
      refl
