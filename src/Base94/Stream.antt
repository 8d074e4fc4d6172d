-- ===== src/Base94/Stream.antt =====
-- Whole frames: in memory, peeked at the front of a buffer, and off a stream.
use nextppp.Prelude.{ℕ, ◌+◌, ◌≤◌, ◌≡◌, arith, refl, sym, ap, ◌∙◌}
use nextppp.Prelude.{◌==◌, ==_iff, ltb, true, false, le→ltb, Option, some}
use nextppp.Prelude.{List, ◌++◌, length, length-append, take-append, drop-append}
use nextppp.Prelude.{All, All-append, Result, ok, append_assoc}
use nextppp.Ssea.{IsByte}
use nextppp.Errors.{Error, Rng, ErrorKind}
use nextppp.Base94.Defs.{Codec, Framer, encode_frame, IsPrintable, read_exact}
use nextppp.Base94.Defs.{decode_header, header_size, decode_body, decode_packet_into, read_body}
use nextppp.Base94.Defs.{
  peek_frame_len, read_frame_into, base94_max_frame, finish_frame, read_declared,
}
use nextppp.Base94.Invariant.{IsFramer}
use nextppp.Base94.HeaderTrip.{InPhase}
use nextppp.Base94.HeaderSent.{encode_header-HeaderSent}

-- What a receiver in phase makes of the frame `wire` of `binary`.
pub record FrameRead (c : Codec) (p : Framer) (binary wire : List ℕ) : Type 0 where
  pub in_memory : decode_packet_into c p wire ≡ (ok binary, record p { rx_first = false })
  pub peeked : (more : List ℕ) → peek_frame_len c p (wire ++ more) ≡ ok (some (length wire))
  pub streamed :
      (more : List ℕ) (finish : Option ErrorKind)
      → read_frame_into c p (record { bytes = wire ++ more; finish = finish })
        ≡ (ok binary, record p { rx_first = false }, record { bytes = more; finish = finish })

pub record FrameSent (c : Codec) (g : Rng) (rng : g.State) (f : Framer) (binary : List ℕ)
    : Type 0 where
  pub wire : List ℕ
  pub sent : (encode_frame c g rng f binary).result ≡ ok wire
  pub sender_after : (encode_frame c g rng f binary).framer ≡ record f { tx_first = false }
  pub printable : All IsPrintable wire
  pub read : (p : Framer) → InPhase f p → FrameRead c p binary wire

-- A read of exactly the front of a stream.
pub read_front :
    (xs ys : List ℕ) (finish : Option ErrorKind) (n : ℕ)
    → length xs ≡ n
    → read_exact n (record { bytes = xs ++ ys; finish = finish })
      ≡ (ok xs, record { bytes = ys; finish = finish })
unfolding read_exact
read_front xs ys finish n h =
    let fits : ltb (length (xs ++ ys)) n ≡ false =
      le→ltb _ _ (omega (arith, length-append xs ys, h)) in
    rw (fits, take-append n xs ys h, drop-append n xs ys h) refl

module _ (c : Codec) (p : Framer) (binary header body : List ℕ)
    (sized : length header ≡ header_size p) (decoded : decode_header c p header ≡ ok (length body))
    (body_ok : c.decode body p.kf ≡ some binary) where
  body_read : decode_body c p body ≡ (ok binary, record p { rx_first = false })
  unfolding decode_body finish_frame
  body_read = rw (body_ok, finish_frame) refl

  packet_read : decode_packet_into c p (header ++ body) ≡ (ok binary, record p { rx_first = false })
  unfolding decode_packet_into
  packet_read =
      let len = length-append header body in
      let fits : ltb (length (header ++ body)) (header_size p) ≡ false =
        le→ltb _ _ (omega (arith, len, sized)) in
      let exact : (length body + header_size p == length (header ++ body)) ≡ true =
        (==_iff _ _).1 (omega (arith, len, sized)) in
      rw
        (
          fits,
          take-append (header_size p) header body sized,
          drop-append (header_size p) header body sized,
          decoded,
          exact,
        )
        body_read

  frame_peeked :
      (more : List ℕ)
      → peek_frame_len c p ((header ++ body) ++ more) ≡ ok (some (length (header ++ body)))
  unfolding peek_frame_len
  frame_peeked more =
      let rest : List ℕ = body ++ more in
      let len = length-append header rest in
      let fits : ltb (length (header ++ rest)) (header_size p) ≡ false =
        le→ltb _ _ (omega (arith, len, sized)) in
      rw (append_assoc header body more) (
        rw (fits, take-append (header_size p) header rest sized, decoded)
          (ap {B = Result (Option ℕ) Error} (λ n. ok (some n))
            (omega (arith, length-append header body, sized))))

  frame_streamed :
      (more : List ℕ) (finish : Option ErrorKind)
      → read_frame_into c p (record { bytes = (header ++ body) ++ more; finish = finish })
        ≡ (ok binary, record p { rx_first = false }, record { bytes = more; finish = finish })
  unfolding read_frame_into read_declared
  frame_streamed more finish =
      rw
        (
          append_assoc header body more,
          read_front header (body ++ more) finish (header_size p) sized,
        )
        (rw (decoded, read_front body more finish (length body) refl)
          (unfold read_body in rw body_read refl))

-- A packet of bytes whose encoding fits a frame is always framed, in printable characters. A framer
-- in phase decodes it in memory, knows its size at the front of any buffer, and reads it off a
-- stream up to the frame's last byte; both framers then go on with simple headers.
pub encode_frame-FrameSent :
    (c : Codec) (g : Rng) (rng : g.State) (f : Framer) (binary : List ℕ)
    → IsFramer f
    → All IsByte binary
    → 1 ≤ length binary
    → c.encoded_len binary f.kf ≤ base94_max_frame
    → FrameSent c g rng f binary
encode_frame-FrameSent c g rng f binary v bytes nonempty fits =
    let len : ℕ = c.encoded_len binary f.kf in
    let body : List ℕ = c.encode binary f.kf in
    let body_len = c.length-encode binary f.kf in
    let (grows, _) = c.encoded_len_bounds binary f.kf in
    let h = encode_header-HeaderSent c g rng f len v (omega (arith, grows)) fits in
    let nonzero : (length binary == 0) ≡ false = positive (length binary) nonempty in
    let small : ltb base94_max_frame len ≡ false = le→ltb base94_max_frame len fits in
    record {
      wire = h.header ++ body;
      sent = unfold encode_frame in rw (nonzero, small, h.sent) refl;
      sender_after = unfold encode_frame in rw (nonzero, small) h.sender_after;
      printable =
          All-append IsPrintable h.header body h.printable (c.encode-IsPrintable binary f.kf);
      read = λ p s.
          let decoded = h.decoded p s ∙ ap ok (sym body_len) in
          let body_ok : c.decode body p.kf ≡ some binary =
            simp s.same_kf (c.decode-encode binary f.kf bytes) in
          record {
            in_memory = packet_read c p binary h.header body (h.sized p s) decoded body_ok;
            peeked = frame_peeked c p binary h.header body (h.sized p s) decoded body_ok;
            streamed = frame_streamed c p binary h.header body (h.sized p s) decoded body_ok;
          };
    }
  where
    positive : (n : ℕ) → 1 ≤ n → (n == 0) ≡ false
    positive n h = ground arith
