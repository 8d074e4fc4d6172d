-- ===== src/Transmission/RoundTrip.antt =====
-- A message that one core encrypts is what its counterpart decrypts, one after the other.
use nextppp.Prelude.{ℕ, ◌+◌, ◌≤◌, ◌≡◌, arith, refl, ap, ◌∙◌, ◌==◌, ltb, le→ltb}
use nextppp.Prelude.{Bool, true, false, not, ◌||◌, Bool-cases, inl, inr, Option, some}
use nextppp.Prelude.{List, ◌++◌, length, length-append, All, Result, ok}
use nextppp.Ssea.{IsByte}
use nextppp.Errors.{Error, ErrorKind, Rng}
use nextppp.Cipher.{Backend, apply}
use nextppp.Cipher.RoundTrip.{InStep, apply-InStep}
use nextppp.Binary.{ppp_buffer_size}
use nextppp.Binary.HeaderTrip.{HeaderRead, header_decrypt-header_encrypt}
use nextppp.Base94.Defs.{Codec, Framer, encode_frame}
use nextppp.Base94.Invariant.{IsFramer}
use nextppp.Base94.HeaderTrip.{InPhase}
use nextppp.Base94.Stream.{FrameSent, encode_frame-FrameSent}
use nextppp.Key.{ObfuscationKey}
use nextppp.Transmission.{
  RxCore, TxCore, kept, encrypt_impl, with_header, enveloped, decrypt, unwrapped,
}
use nextppp.Transmission.{read_buf, decrypt_tail}
use nextppp.Transmission.Linked.{Linked, kept-InStep}
use nextppp.Transmission.Packet.{hidden, body, packet, packet-IsByte, length-body, after}
use nextppp.Transmission.Packet.{packet_decrypted, packet_read}

-- The message went out as the bytes `wire`, and the counterpart has it, in memory and off a stream.
pub record Delivered (b : Backend) (c : Codec) (g : Rng) (tx : TxCore b c g) (rx : RxCore)
    (prefix payload : List ℕ) : Type 0 where
  pub wire : List ℕ
  pub tx_after : TxCore b c g
  pub rx_after : RxCore
  pub sent : encrypt_impl b c g tx prefix payload ≡ (ok wire, tx_after)
  pub in_memory : decrypt b c rx wire ≡ (ok (prefix ++ payload), rx_after)
  pub streamed :
      (more : List ℕ) (finish : Option ErrorKind)
      → read_buf b c rx (record { bytes = wire ++ more; finish = finish })
        ≡ (ok (prefix ++ payload), rx_after, record { bytes = more; finish = finish })
  pub linked : Linked b c g tx_after rx_after
  pub key_kept : tx_after.key ≡ tx.key

module _ (b : Backend) (c : Codec) (g : Rng) (tx : TxCore b c g) (rx : RxCore)
    (prefix payload : List ℕ) (l : Linked b c g tx rx) (bytes : All IsByte (prefix ++ payload))
    (low : 1 ≤ length payload + length prefix) (high : length payload + length prefix ≤ 65536) where
  message : List ℕ
  message = prefix ++ payload

  total : length payload + length prefix ≡ length message
  unfolding message
  total = omega (arith, length-append prefix payload)

  header :
      HeaderRead b g tx.rng tx.key.kf (some tx.protocol_tx) (some rx.protocol_rx) (length message)
  header =
      header_decrypt-header_encrypt b g tx.rng tx.key.kf (some tx.protocol_tx) (some rx.protocol_rx)
        (length message) l.kf_fits (omega (arith, total, low)) (omega (arith, total, high))
        l.protocols

  -- The message is put behind its header.
  headed : encrypt_impl b c g tx prefix payload ≡ with_header b c g tx message (ok header.out)
  unfolding encrypt_impl message
  headed =
      let nonzero : (length message == 0) ≡ false =
        positive (length message) (omega (arith, total, low)) in
      let bounded : ltb ppp_buffer_size (length message) ≡ false =
        le→ltb ppp_buffer_size (length message) (omega (arith, total, high)) in
      rw (total, nonzero, bounded, header.encrypted) refl
    where
      positive : (n : ℕ) → 1 ≤ n → (n == 0) ≡ false
      positive n h = ground arith

  -- The sender after the message, but for what the envelope changes.
  sender : TxCore b c g
  sender = record tx {
    rng = header.out.rng;
    protocol_tx = kept tx.protocol_tx header.out.protocol;
    transport_tx = (apply b tx.transport_tx message).1;
  }

  sealed : List ℕ
  sealed = packet b c g tx message header.out

  -- A receiver with another framer in place of its own.
  receiver : Framer → RxCore
  receiver f = record rx { b94 = f }

  receiver_after : Framer → RxCore
  receiver_after f = after b c g tx message header.out (receiver f) header.rx_after

  wrapped_same : (not rx.handshaked || rx.key.plaintext) ≡ (not tx.handshaked || tx.key.plaintext)
  wrapped_same =
      ap (λ (s : Bool). not s || rx.key.plaintext) l.same_stage
      ∙ ap (λ (k : ObfuscationKey). not tx.handshaked || k.plaintext) l.same_key

  rx_protocols : InStep sender.protocol_tx (kept rx.protocol_rx header.rx_after)
  unfolding sender
  rx_protocols =
      kept-InStep tx.protocol_tx rx.protocol_rx header.out.protocol header.rx_after l.protocols
        header.in_step

  -- The cores after the message are linked, whatever the framers are, so long as these are.
  still-Linked :
      (rng : g.State) (f p : Framer)
      → IsFramer f
      → InPhase f p
      → Linked b c g (record sender { rng = rng; b94 = f }) (receiver_after p)
  unfolding sender receiver_after after receiver hidden
  still-Linked rng f p v phase = record {
    same_key = l.same_key;
    kf_fits = l.kf_fits;
    protocols = unfold sender in rx_protocols;
    transports = apply-InStep b tx.transport_tx rx.transport_rx message _ l.transports;
    same_stage = l.same_stage;
    framer_ok = v;
    framers = phase;
  }

  message-IsByte : All IsByte message
  unfolding message
  message-IsByte = bytes

  opened_by : (p : Framer) → decrypt_tail b (receiver p) sealed ≡ (ok message, receiver_after p)
  unfolding sealed receiver receiver_after
  opened_by p =
      packet_decrypted b c g tx message header.out message-IsByte (omega (arith, total, low))
        (omega (arith, total, high)) header.three_bytes header.key_fits (record rx { b94 = p })
        header.rx_after l.same_key l.same_stage l.transports header.decrypted

  -- The data plane without the envelope.
  bare : (not tx.handshaked || tx.key.plaintext) ≡ false → Delivered b c g tx rx prefix payload
  bare e = record {
    wire = sealed;
    tx_after = sender;
    rx_after = receiver_after rx.b94;
    sent = headed ∙ (unfold with_header sealed packet body hidden sender in rw e refl);
    in_memory = unfold decrypt message receiver in rw (wrapped_same ∙ e) (opened_by rx.b94);
    streamed = λ more finish.
        unfold read_buf sealed receiver_after receiver message in
        rw (wrapped_same ∙ e) (
          packet_read b c g tx message header.out message-IsByte (omega (arith, total, low))
            (omega (arith, total, high)) header.three_bytes header.key_fits rx header.rx_after
            l.same_key l.same_stage l.transports header.decrypted more finish);
    linked = unfold sender in still-Linked header.out.rng tx.b94 rx.b94 l.framer_ok l.framers;
    key_kept = unfold sender in refl;
  }

  length-sealed : length sealed ≡ 3 + length message
  unfolding sealed packet
  length-sealed = omega (
    arith,
    length-append header.out.bytes (body b c g tx message header.out),
    header.three_bytes,
    length-body b c g tx message header.out l.transports.encrypts,
  )

  framed : FrameSent c g header.out.rng tx.b94 sealed
  framed =
      encode_frame-FrameSent c g header.out.rng tx.b94 sealed l.framer_ok
        (unfold sealed in
          packet-IsByte b c g tx message header.out l.transports.encrypts message-IsByte
            (omega (arith, total, high)) header.key_fits header.are_bytes)
        (omega (arith, length-sealed))
        (omega (arith, length-sealed, total, high, c.encoded_len_bounds sealed tx.b94.kf))

  -- The framers after a frame.
  framer-IsFramer : IsFramer (encode_frame c g header.out.rng tx.b94 sealed).framer
  framer-IsFramer =
      let v = l.framer_ok in
      rw framed.sender_after (record {
        kf_fits = v.kf_fits;
        modulus_low = v.modulus_low;
        modulus_high = v.modulus_high;
        kf_mod_lt = v.kf_mod_lt;
      })

  framers-InPhase :
      InPhase
        (encode_frame c g header.out.rng tx.b94 sealed).framer
        (record rx.b94 { rx_first = false })
  framers-InPhase =
      let same = l.framers in
      rw framed.sender_after (record {
        same_kf = same.same_kf;
        same_modulus = same.same_modulus;
        same_kf_mod = same.same_kf_mod;
        same_phase = refl;
      })

  -- In the envelope.
  wrapped : (not tx.handshaked || tx.key.plaintext) ≡ true → Delivered b c g tx rx prefix payload
  wrapped e =
      let s = encode_frame c g header.out.rng tx.b94 sealed in
      let p : Framer = record rx.b94 { rx_first = false } in
      let seen = framed.read rx.b94 l.framers in
      let later : TxCore b c g = record sender { rng = s.rng; b94 = s.framer } in
      let opened : unwrapped b c rx (ok sealed, p) ≡ (ok (prefix ++ payload), receiver_after p) =
        unfold unwrapped receiver message in opened_by p in
      record {
        wire = framed.wire;
        tx_after = later;
        rx_after = receiver_after p;
        sent =
            headed
            ∙ (unfold with_header enveloped sealed packet body hidden sender in
                rw e (
                  ap {B = Result (List ℕ) Error × TxCore b c g}
                    (λ (r : Result (List ℕ) Error). (r, later)) framed.sent));
        in_memory = unfold decrypt in rw (wrapped_same ∙ e, seen.in_memory) opened;
        streamed = λ more finish.
            unfold read_buf in rw (wrapped_same ∙ e, seen.streamed more finish, opened) refl;
        linked = still-Linked s.rng s.framer p framer-IsFramer framers-InPhase;
        key_kept = unfold sender in refl;
      }

  -- From linked cores, a message of 1 to 65536 bytes is always encrypted, before and after the
  -- handshake and in both framings. The receiver's core decrypts the wire bytes to the message, in
  -- memory and off a stream whose later bytes it leaves; and the cores are linked again.
  pub encrypt_impl-Delivered : Delivered b c g tx rx prefix payload
  encrypt_impl-Delivered = elim (Bool-cases (not tx.handshaked || tx.key.plaintext)) [
    | inl e ↦ wrapped e
    | inr e ↦ bare e
  ]
