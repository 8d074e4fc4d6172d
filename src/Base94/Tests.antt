-- ===== src/Base94/Tests.antt =====
-- The base-94 framer at concrete inputs, with a codec of two characters a byte.
use nextppp.Prelude.{arith}
use nextppp.Prelude.{[], ◌∷◌}
use nextppp.Samples.{plain_codec, least_rng}
use nextppp.Base94.Defs.{Framer, new}
use nextppp.Base94.Invariant.{new-IsFramer}
use nextppp.Base94.Stream.{FrameSent, encode_frame-FrameSent}

abbrev framer : Framer
framer = new 1234

encode_frame-FrameSent_example : FrameSent plain_codec least_rng 0 framer (7 ∷ 0 ∷ 255 ∷ [])
encode_frame-FrameSent_example =
    encode_frame-FrameSent plain_codec least_rng 0 framer (7 ∷ 0 ∷ 255 ∷ [])
      (new-IsFramer 1234 (omega arith)) (omega arith, (omega arith, (omega arith, tt)))
      (omega arith) (omega arith)
