-- ===== src/Tunnel/Carried.antt =====
-- One message on a tunnel: the bytes that the wire of one end appends hold it for the other end.
use nextppp.Prelude.{ℕ, ◌+◌, ◌≤◌, ◌≡◌, arith, refl, sym, ap, ◌∙◌, ◌==◌, le→ltb}
use nextppp.Prelude.{false, Option, List, ◌++◌, length, All, ok}
use nextppp.Prelude.{length-append, append_assoc}
use nextppp.Ssea.{IsByte}
use nextppp.Errors.{ErrorKind, Rng}
use nextppp.Cipher.{Backend}
use nextppp.Base94.Defs.{Codec}
use nextppp.Mux.{encode_varint}
use nextppp.Transmission.{RxCore, TxCore}
use nextppp.Transmission.Linked.{Linked}
use nextppp.Transmission.RoundTrip.{encrypt_impl-Delivered}
use nextppp.Session.Polling.{resume}
use nextppp.Tunnel.{RxWire, prefix_rx, TxWire, session_tx, prefix_tx, encode_wire, appended}
use nextppp.Tunnel.{encode_prefix, prefix_max_frame, OutFrame}
use nextppp.Tunnel.Reader.{idle, Holds}

abbrev pub message_of : OutFrame → List ℕ
message_of frame = frame.header ++ frame.payload

-- The frames that either carrier takes.
pub record IsCarried (frame : OutFrame) : Type 0 where
  pub are_bytes : All IsByte (message_of frame)
  pub some_bytes : 1 ≤ length (message_of frame)
  pub fits : length (message_of frame) ≤ 65536

module _ (b : Backend) (c : Codec) (g : Rng) where
  -- The two ends of one direction: linked cores with no frame begun, or prefixes on both sides.
  abbrev pub Paired : TxWire b c g → RxWire → Type 0
  Paired (session_tx tx) rx = (core : RxCore) × (rx ≡ idle core) × Linked b c g tx core
  Paired prefix_tx rx = rx ≡ prefix_rx

  pub record Carried (tx : TxWire b c g) (rx : RxWire) (frame : OutFrame) : Type 0 where
    pub bytes : List ℕ
    pub tx_after : TxWire b c g
    pub rx_after : RxWire
    pub encoded :
        (out : List ℕ)
        → encode_wire b c g tx out frame.header frame.payload ≡ (ok (out ++ bytes), tx_after)
    pub paired : Paired tx_after rx_after
    pub holds :
        (more : List ℕ) (finish : Option ErrorKind)
        → Holds b c finish rx (bytes ++ more) (message_of frame) rx_after more

  session-Carried :
      (tx : TxCore b c g) (core : RxCore) (frame : OutFrame)
      → Linked b c g tx core
      → IsCarried frame
      → Carried (session_tx tx) (idle core) frame
  unfolding encode_wire
  session-Carried tx core frame l ok_frame =
      let len = length-append frame.header frame.payload in
      let d =
        encrypt_impl-Delivered b c g tx core frame.header frame.payload l ok_frame.are_bytes
          (omega (arith, len, ok_frame.some_bytes)) (omega (arith, len, ok_frame.fits)) in
      record {
        bytes = d.wire;
        tx_after = session_tx d.tx_after;
        rx_after = idle d.rx_after;
        encoded = λ out. ap (appended b c g out) d.sent;
        paired = (d.rx_after, refl, d.linked);
        holds = λ more finish. (tt, d.rx_after, unfold resume in d.streamed more finish, refl);
      }

  prefix-Carried : (frame : OutFrame) → IsCarried frame → Carried prefix_tx prefix_rx frame
  unfolding encode_wire encode_prefix
  prefix-Carried frame ok_frame =
      let message : List ℕ = message_of frame in
      let total : ℕ = length frame.header + length frame.payload in
      let len : total ≡ length message = sym (length-append frame.header frame.payload) in
      record {
        bytes = encode_varint total ++ message;
        tx_after = prefix_tx;
        rx_after = prefix_rx;
        encoded = λ out.
            rw
              (
                positive total (omega (arith, len, ok_frame.some_bytes)),
                le→ltb prefix_max_frame total (omega (arith, len, ok_frame.fits)),
              )
              refl;
        paired = refl;
        holds = λ more finish. (
          append_assoc (encode_varint total) message more
              ∙ ap (λ (n : ℕ). encode_varint n ++ (message ++ more)) len,
          ok_frame.some_bytes,
          omega (arith, ok_frame.fits),
          refl,
        );
      }
    where
      positive : (n : ℕ) → 1 ≤ n → (n == 0) ≡ false
      positive n h = ground arith

  -- Whichever the carrier, a frame of 1 to 65536 bytes is encoded, and its bytes, with any behind
  -- them, hold the frame for the other end; after it the ends are paired again.
  pub encode_wire-Carried :
      (tx : TxWire b c g) (rx : RxWire) (frame : OutFrame)
      → Paired tx rx
      → IsCarried frame
      → Carried tx rx frame
  encode_wire-Carried (session_tx tx) rx frame (core, e, l) ok_frame =
      rw e (session-Carried tx core frame l ok_frame)
  encode_wire-Carried prefix_tx rx frame e ok_frame = rw e (prefix-Carried frame ok_frame)
