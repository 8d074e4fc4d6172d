-- ===== src/Session/Polling.antt =====
-- What a streaming reader would make of the bytes that a poll is given, and the envelope's side of it.
use nextppp.Prelude.{
  ℕ, ◌+◌, ◌≤◌, ◌<◌, ◌≡◌, arith, refl, ltb, ltb→le, ltb→lt, ◌==◌, ==_iff, le→ltb, lt→ltb,
}
use nextppp.Prelude.{if◌then◌else◌, Bool, true, false, not, ◌||◌, Bool-cases, inl, inr}
use nextppp.Prelude.{Option, none, some, List, [], ◌++◌, length, take, drop, Result, ok, err}
use nextppp.Prelude.{
  length-take, length-drop, length-append, take-front, drop-front, take-take, drop-take,
}
use nextppp.Prelude.{drop-drop, ◌>>=◌}
use nextppp.Errors.{Error, ErrorKind}
use nextppp.Cipher.{Backend}
use nextppp.Base94.Defs.{Codec, Framer, Reader, read_exact, header_size, decode_header}
use nextppp.Base94.Defs.{
  peek_frame_len, decode_packet_into, read_frame_into, read_declared, read_body,
}
use nextppp.Base94.Defs.{
  short_read, check_bound, base94_max_frame, decode_header_extended, decode_header_simple,
}
use nextppp.Transmission.{RxCore, read_buf, read_opened}
use nextppp.Session.{SessionRx}

abbrev pub stream_of : List ℕ → List ℕ → Option ErrorKind → Reader
stream_of buf later finish = record { bytes = buf ++ later; finish = finish }

-- Whether the core reads envelopes.
abbrev pub is_enveloped : RxCore → Bool
is_enveloped core = not core.handshaked || core.key.plaintext

module _ (b : Backend) (c : Codec) where
  -- Reading on from where a session stands, as `Transmission::read` would.
  unfoldable pub resume_pending :
      RxCore → Option (ℕ × ℕ) → Reader → Result (List ℕ) Error × RxCore × Reader
  resume_pending core none r = read_buf b c core r
  resume_pending core (some (len, header_kf)) r = read_opened b c core header_kf (read_exact len r)

  unfoldable pub resume : SessionRx → Reader → Result (List ℕ) Error × RxCore × Reader
  unfolding resume_pending
  resume s r = resume_pending s.core s.pending_binary r

pub read_front :
    (n : ℕ) (buf later : List ℕ) (finish : Option ErrorKind)
    → n ≤ length buf
    → read_exact n (stream_of buf later finish)
      ≡ (ok (take n buf), stream_of (drop n buf) later finish)
unfolding read_exact
read_front n buf later finish h =
    let fits : ltb (length (buf ++ later)) n ≡ false =
      le→ltb _ _ (omega (arith, length-append buf later, h)) in
    rw (fits, take-front n buf later h, drop-front n buf later h) refl

-- A read that wants more than there will be.
pub read_short :
    (n : ℕ) (buf : List ℕ) (finish : Option ErrorKind)
    → length buf < n
    → (e : Error) × (r : Reader) × (read_exact n (stream_of buf [] finish) ≡ (err e, r))
unfolding read_exact
read_short n buf finish h =
    let short : ltb (length (buf ++ [])) n ≡ true =
      lt→ltb _ _ (omega (arith, length-append buf [], h)) in
    (short_read (stream_of buf [] finish), stream_of [] [] finish, rw short refl)

module _ (c : Codec) (f : Framer) (buf : List ℕ) where
  -- What a peek says of the header.
  pub peek_none : peek_frame_len c f buf ≡ ok none → length buf < header_size f
  unfolding peek_frame_len
  peek_none h = elim (Bool-cases (ltb (length buf) (header_size f))) [
    | inl short ↦ omega (arith, ltb→lt _ _ short)
    | inr whole ↦
        absurd (some_peeked (decode_header c f (take (header_size f) buf)) (rw whole at h))
  ]
    where
      some_peeked :
          (r : Result ℕ Error) → (r >>= λ len. ok (some (header_size f + len))) ≡ ok none → ⊥
      some_peeked (ok len) e = cc
      some_peeked (err x) e = cc

  pub peek_some :
      (total : ℕ)
      → peek_frame_len c f buf ≡ ok (some total)
      → (len : ℕ) × (total ≡ header_size f + len)
        × (header_size f ≤ length buf)
        × (decode_header c f (take (header_size f) buf) ≡ ok len)
  unfolding peek_frame_len
  peek_some total h = elim (Bool-cases (ltb (length buf) (header_size f))) [
    | inl short ↦ absurd (none_peeked (rw short at h))
    | inr whole ↦
        go (decode_header c f (take (header_size f) buf)) refl (ltb→le _ _ whole) (rw whole at h)
  ]
    where
      none_peeked : ◌≡◌ {A = Result (Option ℕ) Error} (ok none) (ok (some total)) → ⊥
      none_peeked e = cc

      go :
          (r : Result ℕ Error)
          → decode_header c f (take (header_size f) buf) ≡ r
          → header_size f ≤ length buf
          → (r >>= λ len. ok (some (header_size f + len))) ≡ ok (some total)
          → (len : ℕ) × (total ≡ header_size f + len)
            × (header_size f ≤ length buf)
            × (decode_header c f (take (header_size f) buf) ≡ ok len)
      go (ok len) e low k = (len, ground arith, low, e)
      go (err x) e low k = absurd (cc)

module _ (c : Codec) (f : Framer) (buf later : List ℕ) (finish : Option ErrorKind) where
  -- A header that a peek refuses, a streaming reader refuses.
  pub peek_refused :
      (e : Error)
      → peek_frame_len c f buf ≡ err e
      → (r : Reader) × (read_frame_into c f (stream_of buf later finish) ≡ (err e, f, r))
  unfolding peek_frame_len read_frame_into read_declared
  peek_refused e h = elim (Bool-cases (ltb (length buf) (header_size f))) [
    | inl short ↦ absurd (none_peeked (rw short at h))
    | inr whole ↦
        rw (read_front (header_size f) buf later finish (ltb→le _ _ whole))
          (go (decode_header c f (take (header_size f) buf)) refl (rw whole at h))
  ]
    where
      none_peeked : ◌≡◌ {A = Result (Option ℕ) Error} (ok none) (err e) → ⊥
      none_peeked k = cc

      rest : Reader
      rest = stream_of (drop (header_size f) buf) later finish

      go :
          (r : Result ℕ Error)
          → decode_header c f (take (header_size f) buf) ≡ r
          → (r >>= λ len. ok (some (header_size f + len))) ≡ err e
          → (r' : Reader) × (read_declared c f (decode_header c f (take (header_size f) buf)) rest
              ≡ (err e, f, r'))
      go (ok len) d k = absurd (cc)
      go (err x) d k = (rest, rw d (ground arith))

  whole_parts :
      (len : ℕ)
      → header_size f + len ≤ length buf
      → decode_header c f (take (header_size f) buf) ≡ ok len
      → let (out, f') = decode_packet_into c f (take (header_size f + len) buf) in
        read_frame_into c f (stream_of buf later finish)
        ≡ (out, f', stream_of (drop (header_size f + len) buf) later finish)
  unfolding decode_packet_into read_frame_into read_declared read_body
  whole_parts len fits decoded =
      let size : ℕ = header_size f in
      let sized = length-take (size + len) buf in
      let long : ltb (length (take (size + len) buf)) size ≡ false =
        le→ltb _ _ (omega (arith, sized, fits)) in
      let exact : (len + size == length (take (size + len) buf)) ≡ true =
        (==_iff _ _).1 (omega (arith, sized, fits)) in
      let body_fits : len ≤ length (drop size buf) = omega (arith, length-drop size buf, fits) in
      rw
        (
          read_front size buf later finish (omega (arith, fits)),
          long,
          take-take size len buf,
          decoded,
          read_front len (drop size buf) later finish body_fits,
          exact,
          drop-take size len buf,
          drop-drop len size buf,
        )
        refl

  -- A frame that is whole in the buffer is read as it is decoded in memory.
  pub whole_read :
      (total : ℕ)
      → peek_frame_len c f buf ≡ ok (some total)
      → total ≤ length buf
      → let (out, f') = decode_packet_into c f (take total buf) in
        read_frame_into c f (stream_of buf later finish)
        ≡ (out, f', stream_of (drop total buf) later finish)
  whole_read total h fits =
      let (len, e, low, decoded) = peek_some c f buf total h in
      rw e (whole_parts len (omega (arith, e, fits)) decoded)

-- What is incomplete in the buffer at the end of the stream, a streaming reader fails on.
module _ (c : Codec) (f : Framer) (buf : List ℕ) (finish : Option ErrorKind) where
  pub short_header :
      length buf < header_size f
      → (e : Error) × (r : Reader) × (read_frame_into c f (stream_of buf [] finish) ≡ (err e, f, r))
  unfolding read_frame_into read_declared
  short_header h = let (e, r, s) = read_short (header_size f) buf finish h in (e, r, rw s refl)

  pub short_body :
      (total : ℕ)
      → peek_frame_len c f buf ≡ ok (some total)
      → length buf < total
      → (e : Error) × (r : Reader) × (read_frame_into c f (stream_of buf [] finish) ≡ (err e, f, r))
  unfolding read_frame_into read_declared read_body
  short_body total h k =
      let (len, sum, low, decoded) = peek_some c f buf total h in
      let size : ℕ = header_size f in
      let (e, r, s) =
        read_short len (drop size buf) finish (omega (arith, length-drop size buf, k, sum, low)) in
      (e, r, rw (read_front size buf [] finish low, decoded, s) refl)

pub header_bounded :
    (c : Codec) (f : Framer) (h : List ℕ) (len : ℕ)
    → decode_header c f h ≡ ok len
    → len ≤ base94_max_frame
unfolding decode_header
header_bounded c f h len e =
    go (if f.rx_first then decode_header_extended c f h else decode_header_simple c f h) e
  where
    go : (r : Result ℕ Error) → (r >>= check_bound) ≡ ok len → len ≤ base94_max_frame
    go (ok n) k = unfold check_bound in ground arith
    go (err x) k = cc
