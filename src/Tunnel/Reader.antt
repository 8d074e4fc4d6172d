-- ===== src/Tunnel/Reader.antt =====
-- A reader gives the message that its stream holds next, however the stream is cut into reads.
use nextppp.Prelude.{ℕ, ◌+◌, ◌≤◌, ◌<◌, ◌≡◌, ◌≢◌, arith, refl, sym, ap, ap₂, ◌∙◌, leb, ◌==◌, le→ltb}
use nextppp.Prelude.{false, Bool-cases, inl, inr, leb→le}
use nextppp.Prelude.{Option, none, some, List, [], ◌∷◌, ◌++◌, length, take, drop, Result, ok, err}
use nextppp.Prelude.{
  length-append, length-drop, drop-drop, cut_front, take-append, append_assoc, All,
}
use native.Mathlib.Decide.{dec_le}
use nextppp.Errors.{Error, ErrorKind}
use nextppp.Cipher.{Backend}
use nextppp.Base94.Defs.{Codec, Reader}
use nextppp.Mux.{encode_varint, decode_varint}
use nextppp.Mux.Varint.{decode_varint-encode_varint}
use nextppp.Mux.Incremental.{length-encode_varint, decode_varint_short}
use nextppp.Transmission.{RxCore}
use nextppp.Session.{Polled, poll_frame}
use nextppp.Session.Polling.{stream_of, resume}
use nextppp.Session.Refines.{IsPolled, Agrees, poll_frame-Agrees}
use nextppp.Tunnel.{RxWire, session_rx, prefix_rx, FrameReader, Attempt, attempt_on, attempt_frame}
use nextppp.Tunnel.{
  drained, prefix_frame, peek_prefix, Next, turn, next_frame, buf_cap, prefix_max_frame,
}

-- A session with no header pending and nothing consumed.
abbrev pub idle : RxCore → RxWire
idle core = session_rx (record { core = core; pending_binary = none; consumed = 0 })

module _ (b : Backend) (c : Codec) (finish : Option ErrorKind) where
  -- On `wire`, the stream `bytes` holds `message` next, and `after` and `rest` are what it leaves: in
  -- a session what a streaming reader would give, with prefixes the message behind its length.
  abbrev pub Holds : RxWire → List ℕ → List ℕ → RxWire → List ℕ → Type 0
  Holds (session_rx s) bytes message after rest =
      IsPolled s
      × (core : RxCore) × (resume b c s (record { bytes = bytes; finish = finish })
          ≡ (ok message, core, record { bytes = rest; finish = finish }))
      × (after ≡ idle core)
  Holds prefix_rx bytes message after rest =
      (bytes ≡ encode_varint (length message) ++ (message ++ rest))
      × (1 ≤ length message)
      × (length message ≤ prefix_max_frame)
      × (after ≡ prefix_rx)

  module _ (buf later message : List ℕ) (after : RxWire) (rest : List ℕ) where
    -- What a turn of the loop may come to.
    abbrev Turned : Attempt → Type 0
    Turned (err e, r) = ⊥
    Turned (ok (some m), r) = (m ≡ message) × (r.wire ≡ after) × (r.buf ++ later ≡ rest)
    Turned (ok none, r) =
        Holds r.wire (r.buf ++ later) message after rest × (length r.buf ≤ buf_cap) × (later ≢ [])

    session-Turned :
        (core : RxCore) (r : Result (List ℕ) Error × RxCore × Reader) (p : Polled)
        → Agrees b c later finish r p
        → r ≡ (ok message, core, record { bytes = rest; finish = finish })
        → after ≡ idle core
        → Turned (drained p)
    unfolding drained
    session-Turned core r (err x, s, left) agrees e a = cc
    session-Turned core r (ok none, s, left) agrees e a = (
      (agrees.2, core, sym agrees.0 ∙ e, a),
      omega (arith, agrees.1),
      λ last. let (x, failed) = agrees.3 last in absurd (cc),
    )
    session-Turned core r (ok (some m), s, left) agrees e a =
        let same = sym agrees.0 ∙ e in
        let given : ◌≡◌ {A = Result (List ℕ) Error} (ok m) (ok message) = ap (λ t. t.0) same in
        (
          cc,
          ap₂
                (λ (k : RxCore) (p : Option (ℕ × ℕ)).
                  session_rx (record { core = k; pending_binary = p; consumed = 0 }))
                (ap (λ t. t.1) same) agrees.1
              ∙ sym a,
          ap (λ t. t.2.bytes) same,
        )

    -- The prefix is whole in the buffer, or too little of it to say.
    peeked_whole :
        buf ++ later ≡ encode_varint (length message) ++ (message ++ rest)
        → 1 ≤ length message
        → length message ≤ prefix_max_frame
        → length (encode_varint (length message)) ≤ length buf
        → peek_prefix buf ≡ ok (some (length message, length (encode_varint (length message))))
    unfolding peek_prefix
    peeked_whole e low high fits =
        let len : ℕ = length message in
        let (front, _) = cut_front buf later (encode_varint len) (message ++ rest) e fits in
        let decoded : decode_varint buf ≡ some (len, length (encode_varint len)) =
          ap decode_varint front
          ∙ decode_varint-encode_varint len (drop (length (encode_varint len)) buf) (omega arith) in
        rw (decoded, positive len low, le→ltb prefix_max_frame len high) refl
      where
        positive : (n : ℕ) → 1 ≤ n → (n == 0) ≡ false
        positive n h = ground arith

    peeked_short :
        buf ++ later ≡ encode_varint (length message) ++ (message ++ rest)
        → length message ≤ prefix_max_frame
        → length buf < length (encode_varint (length message))
        → peek_prefix buf ≡ ok none
    unfolding peek_prefix
    peeked_short e high short =
        let few : leb 5 (length buf) ≡ false =
          ground (arith, length-encode_varint (length message)) in
        rw
          (
            decode_varint_short (length message) buf later (message ++ rest) (omega arith) e short,
            few,
          )
          refl

    -- Something is still to come while the message is not whole.
    more_to_come :
        buf ++ later ≡ encode_varint (length message) ++ (message ++ rest)
        → length buf < length (encode_varint (length message)) + length message
        → later ≢ []
    more_to_come e short last = absurd (
        omega (
          arith,
          ap (λ (xs : List ℕ). length xs) e,
          length-append buf later,
          ap (λ (xs : List ℕ). length xs) last,
          length-append (encode_varint (length message)) (message ++ rest),
          length-append message rest,
        ))

    prefix-Turned :
        buf ++ later ≡ encode_varint (length message) ++ (message ++ rest)
        → 1 ≤ length message
        → length message ≤ prefix_max_frame
        → after ≡ prefix_rx
        → Turned (prefix_frame buf (peek_prefix buf))
    unfolding prefix_frame
    prefix-Turned e low high a =
        let len : ℕ = length message in
        let vlen : ℕ = length (encode_varint len) in
        let waits : length buf < vlen + len
            → Holds prefix_rx (buf ++ later) message after rest
              × (length buf ≤ buf_cap)
              × (later ≢ []) =
          λ short. (
            (e, low, high, a),
            omega (arith, length-encode_varint len, high, short),
            more_to_come e short,
          ) in
        elim (dec_le vlen (length buf)) [
          | no short ↦ rw (peeked_short e high (omega arith)) (waits (omega arith))
          | yes fits ↦
              rw (peeked_whole e low high fits) (elim (Bool-cases (leb (vlen + len) (length buf))) [
                | inr short ↦ rw short (waits (ground (arith, short)))
                | inl whole ↦
                    let (_, behind) =
                      cut_front buf later (encode_varint len) (message ++ rest) e fits in
                    let room : len ≤ length (drop vlen buf) =
                      omega (arith, length-drop vlen buf, leb→le _ _ whole) in
                    let (front, left) = cut_front (drop vlen buf) later message rest behind room in
                    rw whole (
                      ap (take len) front ∙ take-append len message _ refl,
                      sym a,
                      ap (λ (xs : List ℕ). xs ++ later) (sym (drop-drop len vlen buf)) ∙ left,
                    )
              ])
        ]

    attempt-Turned :
        (wire : RxWire)
        → Holds wire (buf ++ later) message after rest
        → Turned (attempt_on b c buf wire)
    unfolding attempt_on
    attempt-Turned (session_rx s) (ok_s, core, e, a) =
        session-Turned core (resume b c s (stream_of buf later finish)) (poll_frame b c s buf)
          (poll_frame-Agrees b c s buf later finish ok_s) e a
    attempt-Turned prefix_rx (e, low, high, a) = prefix-Turned e low high a

abbrev pub joined : {A : Type 0} → List (List A) → List A
joined [] = []
joined (chunk ∷ chunks) = chunk ++ joined chunks

abbrev pub IsRead : List ℕ → Type 0
IsRead chunk = 1 ≤ length chunk

-- A reader's result is `message`; its wire is `after`, and `rest` is what it has still to read.
pub record Gives (message : List ℕ) (after : RxWire) (rest : List ℕ) (n : Next) : Type 0 where
  pub gives : n.0 ≡ ok (some message)
  pub goes_on : n.1.wire ≡ after
  pub leaves : n.1.buf ++ joined n.2 ≡ rest
  pub reads : All IsRead n.2

module _ (b : Backend) (c : Codec) (finish : Option ErrorKind) (message : List ℕ) (after : RxWire)
    (rest : List ℕ) where
  turn-Gives :
      (buf : List ℕ) (chunks : List (List ℕ)) (wait : FrameReader → Next) (a : Attempt)
      → All IsRead chunks
      → Turned b c finish buf (joined chunks) message after rest a
      → ((r : FrameReader)
          → joined chunks ≢ []
          → Holds b c finish r.wire (r.buf ++ joined chunks) message after rest
          → Gives message after rest (wait r))
      → Gives message after rest (turn b c chunks wait a)
  unfolding turn
  turn-Gives buf chunks wait (err e, r) reads h more = absurd h
  turn-Gives buf chunks wait (ok (some m), r) reads h more = record {
    gives = ap (λ (m : List ℕ). ok (some m)) h.0;
    goes_on = h.1;
    leaves = h.2;
    reads = reads;
  }
  turn-Gives buf chunks wait (ok none, r) reads h more =
      rw (le→ltb buf_cap (length r.buf) h.1) (more r h.2 h.0)

  -- However the reads cut a stream that holds a message next, the reader returns the message after
  -- finitely many of them, and is left on the rest of the stream.
  pub next_frame-Gives :
      (chunks : List (List ℕ)) (r : FrameReader)
      → All IsRead chunks
      → Holds b c finish r.wire (r.buf ++ joined chunks) message after rest
      → Gives message after rest (next_frame b c finish chunks r)
  unfolding next_frame attempt_frame
  next_frame-Gives [] r reads h =
      turn-Gives r.buf [] _ (attempt_on b c r.buf r.wire) reads
        (attempt-Turned b c finish r.buf [] message after rest r.wire h)
        (λ r' more g. absurd (more refl))
  next_frame-Gives (chunk ∷ chunks) r reads h =
      turn-Gives r.buf (chunk ∷ chunks) _ (attempt_on b c r.buf r.wire) reads
        (attempt-Turned b c finish r.buf (chunk ++ joined chunks) message after rest r.wire h)
        λ r' more g. rw (positive (length chunk) reads.0) (
          next_frame-Gives chunks (record r' { buf = r'.buf ++ chunk }) reads.1
            (rw (append_assoc r'.buf chunk (joined chunks)) g))
    where
      positive : (n : ℕ) → 1 ≤ n → (n == 0) ≡ false
      positive n k = ground arith
