-- ===== src/Base94/HeaderSent.antt =====
-- A frame is decoded by the framer that is in phase with its sender.
use nextppp.Prelude.{ℕ, ◌≤◌, ◌<◌, ◌≡◌, arith, refl, ap, ◌∙◌}
use nextppp.Prelude.{bit_xor, xor-lt, ◌==◌, ==_iff, true, false}
use nextppp.Prelude.{List, ◌++◌, length, length-append, take-append, drop-append}
use nextppp.Prelude.{All, All-append, ok, Bool-cases, inl, inr, le→ltb}
use nextppp.Ssea.{u32, unshuffle}
use nextppp.Ssea.Shuffle.{unshuffle-shuffle, length-shuffle, shuffle-All}
use nextppp.Checksum.{inet_chksum}
use nextppp.Checksum.Laws.{inet_chksum_verifies}
use nextppp.Errors.{Rng}
use nextppp.Base94.Defs.{Codec, Framer, hidden, pad, encode_header, IsPrintable}
use nextppp.Base94.Defs.{decode_length, decode_header_extended, decode_header_simple}
use nextppp.Base94.Defs.{decode_header, check_bound, header_size}
use nextppp.Base94.Defs.{base94_max_frame}
use nextppp.Base94.Invariant.{IsFramer}
use nextppp.Base94.HeaderTrip.{InPhase, simple_header, checksum_tail, simple_header-decode}
use nextppp.Base94.HeaderTrip.{simple_header-IsPrintable, encode_header_simple, encode_header_first}
use nextppp.Base94.HeaderTrip.{decode_length-hidden, digits_small, length-pad, pad-IsPrintable}
use nextppp.Base94.HeaderTrip.{printable-IsByte}

-- What the header of a frame of `len` characters is, and what the peer makes of it.
pub record HeaderSent (c : Codec) (g : Rng) (rng : g.State) (f : Framer) (len : ℕ) : Type 0 where
  pub header : List ℕ
  pub sent : (encode_header c g rng f len).result ≡ ok header
  pub sender_after : (encode_header c g rng f len).framer ≡ record f { tx_first = false }
  pub printable : All IsPrintable header
  pub sized : (p : Framer) → InPhase f p → length header ≡ header_size p
  pub decoded : (p : Framer) → InPhase f p → decode_header c p header ≡ ok len

module _ (c : Codec) (g : Rng) (rng : g.State) (f : Framer) (len : ℕ) (v : IsFramer f)
    (low : 1 ≤ len) (high : len ≤ base94_max_frame) where
  small : len < 262144
  small = omega arith

  bounded : check_bound len ≡ ok len
  unfolding check_bound
  bounded = ground arith

  -- The checksum with the length in it, as the decoder finds it behind the simple header.
  mixed : ℕ
  mixed = bit_xor (inet_chksum (simple_header c g rng f len)) (u32 len)

  mixed-lt : mixed < 262144
  unfolding mixed
  mixed-lt =
      let simple : List ℕ = simple_header c g rng f len in
      let bytes = printable-IsByte simple (simple_header-IsPrintable c g rng f len v small) in
      let (chk_lt, _, _) =
        inet_chksum_verifies simple bytes (unfold simple_header in omega arith) in
      xor-lt 18 (inet_chksum simple) (u32 len) (omega (arith, chk_lt)) (omega (arith, small))

  length-checksum_tail : length (checksum_tail c f (simple_header c g rng f len) len) ≡ 3
  unfolding checksum_tail
  length-checksum_tail =
      let digits : List ℕ = c.decimal_encode (hidden f mixed) in
      unfold mixed in
      (length-shuffle (pad 3 digits) f.kf
        ∙ length-pad 3 digits (digits_small c g rng f len v small mixed))

  checksum_tail-IsPrintable : All IsPrintable (checksum_tail c f (simple_header c g rng f len) len)
  unfolding checksum_tail
  checksum_tail-IsPrintable =
      let digits : List ℕ = c.decimal_encode (hidden f mixed) in
      let three = length-pad 3 digits (digits_small c g rng f len v small mixed) in
      unfold mixed in
      shuffle-All IsPrintable (pad 3 digits) f.kf (omega (arith, three)) v.kf_fits
        (pad-IsPrintable 3 digits (c.decimal-IsPrintable (hidden f mixed)))

  -- The test that the decoder makes on the two.
  same_mixed : (mixed == bit_xor (inet_chksum (simple_header c g rng f len)) len) ≡ true
  unfolding mixed
  same_mixed =
      let plain : u32 len ≡ len = omega arith in
      (==_iff mixed _).1 (ap (bit_xor (inet_chksum (simple_header c g rng f len))) plain)

  tail_decode :
      (p : Framer)
      → InPhase f p
      → decode_length c p (unshuffle (checksum_tail c f (simple_header c g rng f len) len) p.kf)
        ≡ ok mixed
  unfolding checksum_tail mixed
  tail_decode p s =
      let digits : List ℕ = c.decimal_encode (hidden f mixed) in
      let three = length-pad 3 digits (digits_small c g rng f len v small mixed) in
      simp s.same_kf (
        rw (unshuffle-shuffle (pad 3 digits) f.kf (omega (arith, three)) v.kf_fits)
          (decode_length-hidden c f p mixed v s mixed-lt))

  -- The header of a later frame.
  simple_sent : f.tx_first ≡ false → HeaderSent c g rng f len
  simple_sent later =
      let simple : List ℕ = simple_header c g rng f len in
      let (sent, after) = encode_header_simple c g rng f len v small later in
      record {
        header = simple;
        sent = sent;
        sender_after = after ∙ λ i. record f { tx_first = later i };
        printable = simple_header-IsPrintable c g rng f len v small;
        sized = λ p s. unfold header_size simple_header in rw (s.same_phase ∙ later) refl;
        decoded = λ p s.
            unfold decode_header decode_header_simple in
            simp (s.same_phase ∙ later)
              (rw (simple_header-decode c g rng f len v small p s, le→ltb len 1 low) bounded);
      }

  -- The header of the first frame of a direction.
  first_sent : f.tx_first ≡ true → HeaderSent c g rng f len
  first_sent first =
      let simple : List ℕ = simple_header c g rng f len in
      let tail : List ℕ = checksum_tail c f simple len in
      let (sent, after) = encode_header_first c g rng f len v small first in
      let four : length simple ≡ 4 = unfold simple_header in refl in
      record {
        header = simple ++ tail;
        sent = sent;
        sender_after = after;
        printable =
            All-append IsPrintable simple tail (simple_header-IsPrintable c g rng f len v small)
              checksum_tail-IsPrintable;
        sized = λ p s.
            unfold header_size in
            rw (s.same_phase ∙ first)
              (omega (arith, length-append simple tail, four, length-checksum_tail));
        decoded = λ p s.
            unfold decode_header decode_header_extended in
            simp (s.same_phase ∙ first) (
              rw
                (
                  take-append 4 simple tail four,
                  drop-append 4 simple tail four,
                  simple_header-decode c g rng f len v small p s,
                  tail_decode p s,
                  le→ltb len 1 low,
                  same_mixed,
                )
                bounded);
      }

  -- The header of a frame of 1 to 131136 characters is always built, printable and of the size that
  -- the peer expects; a framer in phase decodes the length from it, and the sender's next header is
  -- a simple one.
  pub encode_header-HeaderSent : HeaderSent c g rng f len
  encode_header-HeaderSent = elim (Bool-cases f.tx_first) [
    | inl first ↦ first_sent first
    | inr later ↦ simple_sent later
  ]
