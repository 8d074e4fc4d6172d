-- ===== src/Mux/Tests.antt =====
-- Mux frames at concrete inputs, the source's own among them.
use nextppp.Prelude.{◌≡◌, arith, refl, none, [], ◌∷◌, ◌++◌, ok, err}
use nextppp.Mux.{
  stream_data, frame_header, parse_frame, encode_varint, decode_varint, encode_varint_loop,
}
use nextppp.Mux.{decode_varint_loop, truncated_stream_id, parse_kind, parse_stream, from_u8}
use nextppp.Mux.Frames.{parse_frame-frame_header}

encode_run : encode_varint 300 ≡ 0xac ∷ 0x02 ∷ []
unfolding encode_varint encode_varint_loop
encode_run = refl

overflow_run : decode_varint (0xff ∷ 0xff ∷ 0xff ∷ 0xff ∷ 0x1f ∷ []) ≡ none
unfolding decode_varint decode_varint_loop
overflow_run = refl

truncated_run : parse_frame (0x02 ∷ 0x80 ∷ []) ≡ err truncated_stream_id
unfolding parse_frame parse_kind parse_stream from_u8 decode_varint decode_varint_loop
truncated_run = refl

parse_frame-frame_header_example :
    parse_frame (frame_header stream_data 70000 ++ (1 ∷ 2 ∷ []))
    ≡ ok (stream_data, 70000, 1 ∷ 2 ∷ [])
parse_frame-frame_header_example =
    parse_frame-frame_header stream_data 70000 (1 ∷ 2 ∷ []) (omega arith)
