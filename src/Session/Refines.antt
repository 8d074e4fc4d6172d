-- ===== src/Session/Refines.antt =====
-- Polling a growing buffer is reading a stream: no poll changes what a streaming reader would make of
-- the bytes that are there and those that are still to come.
use nextppp.Prelude.{ℕ, ◌+◌, ◌≤◌, ◌≡◌, arith, refl, ◌∙◌, ltb, ltb→le, ltb→lt}
use nextppp.Prelude.{Bool, true, false, Bool-cases, inl, inr}
use nextppp.Prelude.{Option, none, some, List, [], length, take, drop, Result, ok, err}
use nextppp.Prelude.{length-take, drop-append}
use nextppp.Errors.{Error, ErrorKind}
use nextppp.Cipher.{Backend, SessionCipher, apply}
use nextppp.Cipher.RoundTrip.{length-apply}
use nextppp.Binary.{Decoded, header_decrypt, payload_deobfuscate}
use nextppp.Binary.Payload.{length-payload_deobfuscate}
use nextppp.Base94.Defs.{Codec, Reader, header_size, base94_max_frame}
use nextppp.Base94.Defs.{peek_frame_len, decode_packet_into}
use nextppp.Transmission.{
  RxCore, read_buf, read_opened, read_binary, read_parsed, parse_binary_header,
}
use nextppp.Transmission.{unwrapped, open_body, check_header, effective_flags}
use nextppp.Session.{SessionRx, Polled, poll_frame, poll_envelope, enveloped_message}
use nextppp.Session.{poll_body, poll_parsed, poll_binary}
use nextppp.Session.Polling.{stream_of, is_enveloped, resume, resume_pending, read_front}
use nextppp.Session.Polling.{
  read_short, short_header, short_body, peek_none, peek_some, peek_refused, whole_read,
  header_bounded,
}

-- A header is pending in binary framing alone, and its length is within bounds.
abbrev pub IsPending : Option (ℕ × ℕ) → Bool → Type 0
IsPending none enveloped = Unit {0}
IsPending (some (len, header_kf)) true = ⊥
IsPending (some (len, header_kf)) false = len ≤ 65536

abbrev pub IsPolled : SessionRx → Type 0
IsPolled s = IsPending s.pending_binary (is_enveloped s.core)

-- The most that a buffer holds while its first frame is incomplete.
abbrev pub incomplete_bound : ℕ
incomplete_bound = base94_max_frame + 8

module _ (b : Backend) (c : Codec) where
  -- What a poll of `buf` comes to, against the result `r` of the streaming reader.
  abbrev pub Agrees :
      List ℕ → Option ErrorKind → Result (List ℕ) Error × RxCore × Reader → Polled → Type 0
  Agrees later finish r (err e, s, buf) = r.0 ≡ err e
  Agrees later finish r (ok none, s, buf) =
      (r ≡ resume b c s (stream_of buf later finish))
      × (length buf ≤ incomplete_bound)
      × IsPolled s
      × (later ≡ [] → (e : Error) × (r.0 ≡ err e))
  Agrees later finish r (ok (some message), s, buf) =
      (r ≡ (ok message, s.core, stream_of (drop s.consumed buf) later finish))
      × (s.pending_binary ≡ none)

  -- A session with the parts given.
  abbrev at : RxCore → Option (ℕ × ℕ) → ℕ → SessionRx
  at core pending consumed = record { core = core; pending_binary = pending; consumed = consumed }

  module _ (buf later : List ℕ) (finish : Option ErrorKind) where
    opened-Agrees :
        (s : SessionRx) (total : ℕ) (opened : Result (List ℕ) Error × RxCore)
        → s.pending_binary ≡ none
        → let (message, core) = opened in
          Agrees later finish
            (message, core, stream_of (drop total buf) later finish)
            (enveloped_message b c s buf total opened)
    unfolding enveloped_message
    opened-Agrees s total (err e, core) idle = refl
    opened-Agrees s total (ok message, core) idle = (refl, idle)

    module _ (core : RxCore) (consumed : ℕ) where
      enveloped_read :
          (total : ℕ)
          → is_enveloped core ≡ true
          → peek_frame_len c core.b94 buf ≡ ok (some total)
          → total ≤ length buf
          → let (message, core') =
              unwrapped b c core (decode_packet_into c core.b94 (take total buf)) in
            read_buf b c core (stream_of buf later finish)
            ≡ (message, core', stream_of (drop total buf) later finish)
      unfolding read_buf
      enveloped_read total mode e fits =
          rw (mode, whole_read c core.b94 buf later finish total e fits) refl

      envelope-Agrees :
          (p : Result (Option ℕ) Error)
          → is_enveloped core ≡ true
          → peek_frame_len c core.b94 buf ≡ p
          → Agrees later finish
              (read_buf b c core (stream_of buf later finish))
              (poll_envelope b c (at core none consumed) buf p)
      unfolding resume resume_pending poll_envelope
      envelope-Agrees (err x) mode e =
          let (r, refused) = peek_refused c core.b94 buf later finish x e in
          unfold read_buf unwrapped in rw (mode, refused) refl
      envelope-Agrees (ok none) mode e = (
        refl,
        unfold header_size in ground (arith, peek_none c core.b94 buf e),
        tt,
        λ last.
            let (x, r, failed) = short_header c core.b94 buf finish (peek_none c core.b94 buf e) in
            (x, unfold read_buf unwrapped in rw (last, mode, failed) refl),
      )
      envelope-Agrees (ok (some total)) mode e = elim (Bool-cases (ltb (length buf) total)) [
        | inl short ↦
            let (len, sum, low, decoded) = peek_some c core.b94 buf total e in
            rw short (
              refl,
              unfold header_size in
                  ground (
                    arith,
                    sum,
                    ltb→lt (length buf) total short,
                    header_bounded c core.b94 _ len decoded,
                  ),
              tt,
              λ last.
                  let (x, r, failed) =
                    short_body c core.b94 buf finish total e (ltb→lt _ _ short) in
                  (x, unfold read_buf unwrapped in rw (last, mode, failed) refl),
            )
        | inr whole ↦
            rw (whole, enveloped_read total mode e (ltb→le _ _ whole))
              (opened-Agrees (at core none consumed) total
                (unwrapped b c core (decode_packet_into c core.b94 (take total buf))) refl)
      ]

  length-open_body :
      (core : RxCore) (header_kf : ℕ) (body : List ℕ)
      → (message : List ℕ) × (core' : RxCore) × (open_body b core header_kf body
          ≡ (ok message, core'))
        × (length message ≡ length body)
  unfolding open_body
  length-open_body core header_kf body =
      let flags = effective_flags core.key core.handshaked in
      let plain = payload_deobfuscate body flags header_kf core.key.kf in
      (
        (apply b core.transport_rx plain).0,
        record core { transport_rx = (apply b core.transport_rx plain).1 },
        refl,
        length-apply b core.transport_rx plain
            ∙ length-payload_deobfuscate body flags header_kf core.key.kf,
      )

  module _ (later : List ℕ) (finish : Option ErrorKind) (consumed : ℕ) where
    body-Agrees :
        (core : RxCore) (len header_kf : ℕ) (buf : List ℕ)
        → is_enveloped core ≡ false
        → len ≤ 65536
        → Agrees later finish
            (resume_pending b c core (some (len, header_kf)) (stream_of buf later finish))
            (poll_body b c (at core (some (len, header_kf)) consumed) len header_kf buf)
    unfolding resume resume_pending poll_body read_opened
    body-Agrees core len header_kf buf mode h = elim (Bool-cases (ltb (length buf) len)) [
      | inl short ↦ rw short (
        refl,
        omega (arith, ltb→lt (length buf) len short, h),
        rw mode h,
        λ last.
            let (x, r, failed) = read_short len buf finish (ltb→lt _ _ short) in
            (x, rw (last, failed) refl),
      )
      | inr whole ↦
          let (message, core', opened, sized) = length-open_body core header_kf (take len buf) in
          let fits = ltb→le (length buf) len whole in
          rw
            (
              whole,
              read_front len buf later finish fits,
              opened,
              drop-append len message (drop len buf)
                  (sized ∙ omega (arith, length-take len buf, fits)),
            )
            (refl, refl)
    ]

    parsed_bounded :
        (core : RxCore) (header : List ℕ) (len header_kf : ℕ) (cipher : SessionCipher)
        → parse_binary_header b core.key.kf core.protocol_rx header none
          ≡ (ok (len, header_kf), cipher)
        → len ≤ 65536
    unfolding parse_binary_header
    parsed_bounded core header len header_kf cipher e =
        go (header_decrypt b core.key.kf (some core.protocol_rx) header) e
      where
        go :
            (r : Result Decoded Error)
            → check_header none core.protocol_rx r ≡ (ok (len, header_kf), cipher)
            → len ≤ 65536
        go (err x) k = unfold check_header in cc
        go (ok d) k = unfold check_header in ground arith

    parsed-Agrees :
        (core : RxCore) (buf : List ℕ) (parsed : Result (ℕ × ℕ) Error × SessionCipher)
        → is_enveloped core ≡ false
        → parse_binary_header b core.key.kf core.protocol_rx (take 3 buf) none ≡ parsed
        → Agrees later finish
            (read_parsed b c core parsed (stream_of (drop 3 buf) later finish))
            (poll_parsed b c (at core none consumed) buf parsed)
    unfolding read_parsed poll_parsed
    parsed-Agrees core buf (err e, cipher) mode p = refl
    parsed-Agrees core buf (ok (len, header_kf), cipher) mode p =
        unfold resume_pending in
        body-Agrees (record core { protocol_rx = cipher }) len header_kf (drop 3 buf) mode
          (parsed_bounded core (take 3 buf) len header_kf cipher p)

    binary-Agrees :
        (core : RxCore) (buf : List ℕ) (pending : Option (ℕ × ℕ))
        → is_enveloped core ≡ false
        → IsPending pending (is_enveloped core)
        → Agrees later finish
            (resume_pending b c core pending (stream_of buf later finish))
            (poll_binary b c (at core pending consumed) buf pending)
    unfolding resume_pending poll_binary read_buf read_binary resume
    binary-Agrees core buf (some (len, header_kf)) mode ok_pending =
        body-Agrees core len header_kf buf mode (rw mode at ok_pending)
    binary-Agrees core buf none mode ok_pending = elim (Bool-cases (ltb (length buf) 3)) [
      | inl short ↦ rw short (
        refl,
        omega (arith, ltb→lt (length buf) 3 short),
        tt,
        λ last.
            let (x, r, failed) = read_short 3 buf finish (ltb→lt _ _ short) in
            (x, rw (last, mode, failed) refl),
      )
      | inr whole ↦
          rw (mode, whole, read_front 3 buf later finish (ltb→le (length buf) 3 whole))
            (parsed-Agrees core buf
              (parse_binary_header b core.key.kf core.protocol_rx (take 3 buf) none) mode refl)
    ]

  -- Polling refines reading. Let a session have no header pending, or one in binary framing with
  -- a length of at most 65536. A poll that wants more bytes leaves what a streaming reader makes
  -- of the buffer and of any later bytes as it was, keeps at most an incomplete frame in the
  -- buffer, and the session fit for the next poll; at the end of the stream the reader fails
  -- then. A poll that gives a message gives the streaming reader's, with its core and with the
  -- bytes behind the frame. A poll that fails gives the streaming reader's error.
  pub poll_frame-Agrees :
      (s : SessionRx) (buf later : List ℕ) (finish : Option ErrorKind)
      → IsPolled s
      → Agrees later finish (resume b c s (stream_of buf later finish)) (poll_frame b c s buf)
  unfolding poll_frame resume
  poll_frame-Agrees s buf later finish ok_s = elim (Bool-cases (is_enveloped s.core)) [
    | inl mode ↦ rw mode (go s.core s.pending_binary s.consumed mode ok_s)
    | inr mode ↦
        rw mode (binary-Agrees later finish s.consumed s.core buf s.pending_binary mode ok_s)
  ]
    where
      go :
          (core : RxCore) (pending : Option (ℕ × ℕ)) (consumed : ℕ)
          → is_enveloped core ≡ true
          → IsPending pending (is_enveloped core)
          → Agrees later finish
              (resume_pending b c core pending (stream_of buf later finish))
              (poll_envelope b c (at core pending consumed) buf (peek_frame_len c core.b94 buf))
      go core none consumed mode h =
          unfold resume_pending in
          envelope-Agrees buf later finish core consumed (peek_frame_len c core.b94 buf) mode refl
      go core (some pending) consumed mode h = absurd (rw mode at h)
