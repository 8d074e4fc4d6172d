-- ===== src/Tunnel/Stream.antt =====
-- The writer and the reader of a tunnel together: frames in order, whatever the batches and the reads.
use nextppp.Prelude.{ℕ, zero, suc, ◌≡◌, refl, sym, ap, ◌∙◌}
use nextppp.Prelude.{true, Option, none, some, List, [], ◌∷◌, ◌++◌, length, map, All, ok, err}
use nextppp.Prelude.{append_assoc, append-nil}
use nextppp.Errors.{ErrorKind, Rng}
use nextppp.Cipher.{Backend}
use nextppp.Base94.Defs.{Codec}
use nextppp.Connection.{write_all, write_result}
use nextppp.Tunnel.{RxWire, FrameReader, Next, next_frame, TxWire, encode_batch}
use nextppp.Tunnel.{OutFrame, Carrier, Written, write_done, flush_done, write_round, run_writer}
use nextppp.Tunnel.{write_carrier, with_writer, flush, flush_on, shutdown}
use nextppp.Tunnel.Reader.{joined, IsRead, Holds, next_frame-Gives}
use nextppp.Tunnel.Carried.{message_of, IsCarried, Paired, encode_wire-Carried}

abbrev behind :
    List ℕ
    → Option (List (List ℕ) × FrameReader × List (List ℕ))
    → Option (List (List ℕ) × FrameReader × List (List ℕ))
behind message none = none
behind message (some (messages, r, left)) = some (message ∷ messages, r, left)

module _ (b : Backend) (c : Codec) where
  -- Reading `n` messages one after the other; `none` if one of the reads gives none.
  got :
      (FrameReader → List (List ℕ) → Option (List (List ℕ) × FrameReader × List (List ℕ)))
      → Next
      → Option (List (List ℕ) × FrameReader × List (List ℕ))
  got more (err e, r, chunks) = none
  got more (ok none, r, chunks) = none
  got more (ok (some message), r, chunks) = behind message (more r chunks)

  got_given :
      (more : FrameReader → List (List ℕ) → Option (List (List ℕ) × FrameReader × List (List ℕ)))
      (n : Next) (message : List ℕ) (messages : List (List ℕ)) (r : FrameReader)
      (left : List (List ℕ))
      → n.0 ≡ ok (some message)
      → more n.1 n.2 ≡ some (messages, r, left)
      → got more n ≡ some (message ∷ messages, r, left)
  unfolding got
  got_given more (err x, r', l) message messages r left e k = cc
  got_given more (ok none, r', l) message messages r left e k = cc
  got_given more (ok (some m), r', l) message messages r left e k =
      let same : m ≡ message = cc in rw same (ap (behind message) k)

  pub read_messages :
      Option ErrorKind
      → ℕ
      → FrameReader
      → List (List ℕ)
      → Option (List (List ℕ) × FrameReader × List (List ℕ))
  unfolding got
  read_messages finish zero r chunks = some ([], r, chunks)
  read_messages finish (suc n) r chunks =
      got (λ r' left. read_messages finish n r' left) (next_frame b c finish chunks r)

  -- On the wire `rx`, `bytes` are the messages of `frames`, and leave `after`: a reader that has them
  -- in its buffer and its reads gives the messages in order, and is left on what is behind them.
  pub Reads : RxWire → List ℕ → List OutFrame → RxWire → Type 0
  Reads rx bytes frames after =
      (r : FrameReader) (chunks : List (List ℕ)) (more : List ℕ) (finish : Option ErrorKind)
      → r.wire ≡ rx
      → All IsRead chunks
      → r.buf ++ joined chunks ≡ bytes ++ more
      → (r' : FrameReader) × (left : List (List ℕ)) × (read_messages finish (length frames) r chunks
          ≡ some (map message_of frames, r', left))
        × (r'.wire ≡ after)
        × (r'.buf ++ joined left ≡ more)
        × All IsRead left

  no_frames : (rx : RxWire) → Reads rx [] [] rx
  unfolding Reads read_messages
  no_frames rx r chunks more finish e reads h = (r, chunks, refl, e, h, reads)

  frame_first :
      (rx mid after : RxWire) (bytes later : List ℕ) (frame : OutFrame) (frames : List OutFrame)
      → ((more : List ℕ) (finish : Option ErrorKind)
          → Holds b c finish rx (bytes ++ more) (message_of frame) mid more)
      → Reads mid later frames after
      → Reads rx (bytes ++ later) (frame ∷ frames) after
  unfolding Reads read_messages
  frame_first rx mid after bytes later frame frames holds rest r chunks more finish e reads h =
      let held : Holds b c finish r.wire (r.buf ++ joined chunks) (message_of frame) mid
          (later ++ more) =
        rw (e, h, append_assoc bytes later more) (holds (later ++ more) finish) in
      let g =
        next_frame-Gives b c finish (message_of frame) mid (later ++ more) chunks r reads held in
      let n = next_frame b c finish chunks r in
      let (r', left, e', w, behind, unread) = rest n.1 n.2 more finish g.goes_on g.reads g.leaves in
      (
        r',
        left,
        got_given (λ r'' left'. read_messages finish (length frames) r'' left') n (message_of frame)
            (map message_of frames) r' left g.gives e',
        w,
        behind,
        unread,
      )

module _ (b : Backend) (c : Codec) (g : Rng) where
  -- What some frames become on the wire `tx`, and what `rx` makes of that.
  pub record Sent (tx : TxWire b c g) (rx : RxWire) (frames : List OutFrame) : Type 0 where
    pub bytes : List ℕ
    pub tx_after : TxWire b c g
    pub rx_after : RxWire
    pub encoded :
        (out : List ℕ) → encode_batch b c g frames (ok out, tx) ≡ (ok (out ++ bytes), tx_after)
    pub paired : Paired b c g tx_after rx_after
    pub read :
        (later : List ℕ) (others : List OutFrame) (after : RxWire)
        → Reads b c rx_after later others after
        → Reads b c rx (bytes ++ later) (frames ++ others) after

  batch_sent :
      (frames : List OutFrame) (tx : TxWire b c g) (rx : RxWire)
      → Paired b c g tx rx
      → All IsCarried frames
      → Sent tx rx frames
  unfolding encode_batch
  batch_sent [] tx rx p carried = record {
    bytes = [];
    tx_after = tx;
    rx_after = rx;
    encoded = λ out. rw (append-nil out) refl;
    paired = p;
    read = λ later others after k. k;
  }
  batch_sent (frame ∷ frames) tx rx p (one, others) =
      let d = encode_wire-Carried b c g tx rx frame p one in
      let rest = batch_sent frames d.tx_after d.rx_after d.paired others in
      record {
        bytes = d.bytes ++ rest.bytes;
        tx_after = rest.tx_after;
        rx_after = rest.rx_after;
        encoded = λ out.
            ap (encode_batch b c g frames) (d.encoded out)
            ∙ rest.encoded (out ++ d.bytes)
            ∙ ap (λ (o : List ℕ). (ok o, rest.tx_after)) (append_assoc out d.bytes rest.bytes);
        paired = rest.paired;
        read = λ later others' after k. rw (append_assoc d.bytes rest.bytes later) (
            frame_first b c rx d.rx_after after d.bytes (rest.bytes ++ later) frame
              (frames ++ others') d.holds (rest.read later others' after k));
      }

  -- A carrier behind a write and its flush.
  abbrev flushed_with : Carrier → List ℕ → Carrier
  flushed_with carrier out = record carrier {
    writer = record carrier.writer { written = carrier.writer.written ++ out };
    flushed = carrier.writer.written ++ out;
  }

  write_open :
      (out : List ℕ) (carrier : Carrier)
      → carrier.writer.broken ≡ none
      → write_carrier out carrier ≡ (
        ok tt,
        record carrier {
          writer = record carrier.writer { written = carrier.writer.written ++ out };
        },
      )
  unfolding write_carrier write_all write_result with_writer
  write_open out carrier whole =
      ap (λ (r : Option (ℕ × ErrorKind)). with_writer carrier (write_result out carrier.writer r))
        whole

  flush_open :
      (carrier : Carrier)
      → carrier.flush_breaks ≡ none
      → flush carrier ≡ (ok tt, record carrier { flushed = carrier.writer.written })
  unfolding flush flush_on
  flush_open carrier whole = ap (flush_on carrier) whole

  -- What the writer puts on the carrier for some batches, and what the other end makes of it.
  pub record Streamed (tx : TxWire b c g) (rx : RxWire) (carrier : Carrier)
      (batches : List (List OutFrame)) : Type 0 where
    pub bytes : List ℕ
    pub rx_after : RxWire
    pub written :
        (run_writer b c g tx carrier batches).carrier.writer.written
        ≡ carrier.writer.written ++ bytes
    pub flushed :
        (run_writer b c g tx carrier batches).carrier.flushed ≡ carrier.writer.written ++ bytes
    pub shut : (run_writer b c g tx carrier batches).carrier.shut ≡ true
    pub read : Reads b c rx bytes (joined batches) rx_after

  -- On paired ends, a carrier on which no write and no flush fails and in which nothing waits, and
  -- frames that can be carried (bytes, and of header and payload together from 1 to 65536 of them),
  -- the writer puts the frames of its batches on the carrier, leaves nothing of them unflushed, and
  -- shuts it down. Of these bytes, cut into reads of any sizes, the reader at the other end makes the
  -- frames' messages: all of them, in order, whatever the batches were, and is left on what follows.
  pub run_writer-Streamed :
      (batches : List (List OutFrame)) (tx : TxWire b c g) (rx : RxWire) (carrier : Carrier)
      → Paired b c g tx rx
      → All (All IsCarried) batches
      → carrier.writer.broken ≡ none
      → carrier.flush_breaks ≡ none
      → carrier.flushed ≡ carrier.writer.written
      → Streamed tx rx carrier batches
  unfolding run_writer shutdown
  run_writer-Streamed [] tx rx carrier p carried whole flushes out = record {
    bytes = [];
    rx_after = rx;
    written = sym (append-nil carrier.writer.written);
    flushed = out ∙ sym (append-nil carrier.writer.written);
    shut = refl;
    read = no_frames b c rx;
  }
  run_writer-Streamed (batch ∷ batches) tx rx carrier p (one, others) whole flushes out =
      let d = batch_sent batch tx rx p one in
      let next = λ (wire' : TxWire b c g) (s : Carrier). run_writer b c g wire' s batches in
      let carrier' = flushed_with carrier d.bytes in
      let put : Carrier = record carrier {
        writer = record carrier.writer { written = carrier.writer.written ++ d.bytes };
      } in
      let rest =
        run_writer-Streamed batches d.tx_after d.rx_after carrier' d.paired others whole flushes
          refl in
      let step : run_writer b c g tx carrier (batch ∷ batches)
          ≡ run_writer b c g d.tx_after carrier' batches =
        ap (write_round b c g next carrier) (d.encoded [])
        ∙ ap (write_done b c g next d.tx_after) (write_open d.bytes carrier whole)
        ∙ ap (flush_done b c g next d.tx_after) (flush_open put flushes) in
      let joins = append_assoc carrier.writer.written d.bytes rest.bytes in
      record {
        bytes = d.bytes ++ rest.bytes;
        rx_after = rest.rx_after;
        written = ap (λ (w : Written b c g). w.carrier.writer.written) step ∙ rest.written ∙ joins;
        flushed = ap (λ (w : Written b c g). w.carrier.flushed) step ∙ rest.flushed ∙ joins;
        shut = ap (λ (w : Written b c g). w.carrier.shut) step ∙ rest.shut;
        read = d.read rest.bytes (joined batches) rest.rx_after rest.read;
      }
