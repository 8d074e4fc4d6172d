-- ===== src/Transmission/Packet.antt =====
-- The binary packet of a message: its size, and what a counterpart makes of it.
use nextppp.Prelude.{ℕ, ◌+◌, ◌≤◌, ◌≡◌, arith, refl, ap, ◌∙◌, ltb, leb}
use nextppp.Prelude.{Bool, true, false, ◌||◌, Option, none, some, List, ◌++◌, length}
use nextppp.Prelude.{length-append, take-append, drop-append, append_assoc, All, All-append, ok}
use nextppp.Ssea.{IsByte, IsU32}
use nextppp.Errors.{ErrorKind, Rng}
use nextppp.Cipher.{Backend, SessionCipher, apply}
use nextppp.Cipher.RoundTrip.{InStep, apply-apply, length-apply, apply-IsByte}
use nextppp.Binary.{Encoded, Decoded, header_decrypt, header_size, payload_obfuscate}
use nextppp.Binary.{payload_deobfuscate, ppp_buffer_size}
use nextppp.Binary.Payload.{payload_deobfuscate-payload_obfuscate, length-payload_obfuscate}
use nextppp.Binary.Payload.{payload_obfuscate-IsByte}
use nextppp.Base94.Defs.{Codec, read_exact}
use nextppp.Base94.Stream.{read_front}
use nextppp.Key.{ObfuscationKey}
use nextppp.Transmission.{
  RxCore, TxCore, kept, effective_flags, mismatched, check_header, open_body,
}
use nextppp.Transmission.{parse_binary_header, open_parsed, decrypt_tail, read_binary, read_parsed}
use nextppp.Transmission.{read_opened}

-- A header within the bounds and of the size given passes the checks.
parsed :
    (b : Backend) (kf : ℕ) (cipher : SessionCipher) (header : List ℕ) (d : Decoded)
    (total : Option ℕ)
    → header_decrypt b kf (some cipher) header ≡ ok d
    → 1 ≤ d.len
    → d.len ≤ 65536
    → mismatched total d.len ≡ false
    → parse_binary_header b kf cipher header total
      ≡ (ok (d.len, d.header_kf), kept cipher d.protocol)
unfolding parse_binary_header check_header
parsed b kf cipher header d total decrypted low high fits =
    let bounded : (ltb d.len 1 || ltb ppp_buffer_size d.len) ≡ false = within d.len low high in
    rw decrypted (rw (bounded, fits) refl)
  where
    within : (n : ℕ) → 1 ≤ n → n ≤ 65536 → (ltb n 1 || ltb ppp_buffer_size n) ≡ false
    within n h k = ground arith

fits_total : (n : ℕ) → mismatched (some (3 + n)) n ≡ false
unfolding mismatched
fits_total n = ground arith

module _ (b : Backend) (c : Codec) (g : Rng) (tx : TxCore b c g) (message : List ℕ)
    (h : Encoded b g) where
  -- The message under the transport cipher, the body of the packet, and the packet.
  unfoldable pub hidden : List ℕ
  hidden = (apply b tx.transport_tx message).0

  unfoldable pub body : List ℕ
  body = payload_obfuscate hidden (effective_flags tx.key tx.handshaked) h.header_kf tx.key.kf

  unfoldable pub packet : List ℕ
  packet = h.bytes ++ body

  pub length-body : tx.transport_tx.encrypting ≡ true → length body ≡ length message
  unfolding body hidden
  length-body e =
      length-payload_obfuscate hidden (effective_flags tx.key tx.handshaked) h.header_kf tx.key.kf
      ∙ length-apply b tx.transport_tx message

  pub packet-IsByte :
      tx.transport_tx.encrypting ≡ true
      → All IsByte message
      → length message ≤ 65536
      → IsU32 h.header_kf
      → All IsByte h.bytes
      → All IsByte packet
  unfolding packet body hidden
  packet-IsByte e bytes high key_fits header_bytes = All-append IsByte h.bytes body header_bytes (
      payload_obfuscate-IsByte hidden (effective_flags tx.key tx.handshaked) h.header_kf tx.key.kf
        (apply-IsByte b tx.transport_tx message e bytes)
        (omega (arith, length-apply b tx.transport_tx message)) key_fits)

  -- The receiver after the packet, with the protocol cipher that its header left.
  unfoldable pub after : RxCore → Option SessionCipher → RxCore
  after rx rx_protocol = record rx {
    protocol_rx = kept rx.protocol_rx rx_protocol;
    transport_rx = (apply b rx.transport_rx hidden).1;
  }

  module _ (bytes : All IsByte message) (low : 1 ≤ length message) (high : length message ≤ 65536)
      (three : length h.bytes ≡ 3) (key_fits : IsU32 h.header_kf) (rx : RxCore)
      (rx_protocol : Option SessionCipher) (same_key : rx.key ≡ tx.key)
      (same_stage : rx.handshaked ≡ tx.handshaked)
      (transports : InStep tx.transport_tx rx.transport_rx)
      (decrypted : header_decrypt b tx.key.kf (some rx.protocol_rx) h.bytes
        ≡ ok (record {
          len = length message;
          header_kf = h.header_kf;
          protocol = rx_protocol;
        })) where
    deobfuscated :
        (k : ObfuscationKey) (s : Bool)
        → k ≡ tx.key
        → s ≡ tx.handshaked
        → payload_deobfuscate body (effective_flags k s) h.header_kf k.kf ≡ hidden
    unfolding body hidden
    deobfuscated k s ek es =
        rw (ek, es)
          (payload_deobfuscate-payload_obfuscate hidden (effective_flags tx.key tx.handshaked)
            h.header_kf tx.key.kf (apply-IsByte b tx.transport_tx message transports.encrypts bytes)
            (omega (arith, length-apply b tx.transport_tx message)) key_fits)

    opened :
        open_body b (record rx { protocol_rx = kept rx.protocol_rx rx_protocol }) h.header_kf body
        ≡ (ok message, after rx rx_protocol)
    unfolding open_body after
    opened = rw (deobfuscated rx.key rx.handshaked same_key same_stage) (
        unfold hidden in rw (apply-apply b tx.transport_tx rx.transport_rx message transports) refl)

    header_parsed :
        (total : Option ℕ)
        → mismatched total (length message) ≡ false
        → parse_binary_header b rx.key.kf rx.protocol_rx h.bytes total
          ≡ (ok (length message, h.header_kf), kept rx.protocol_rx rx_protocol)
    header_parsed total fits =
        parsed b rx.key.kf rx.protocol_rx h.bytes
          (record { len = length message; header_kf = h.header_kf; protocol = rx_protocol }) total
          (ap (λ (k : ObfuscationKey). header_decrypt b k.kf (some rx.protocol_rx) h.bytes) same_key
            ∙ decrypted)
          low high fits

    pub packet_decrypted : decrypt_tail b rx packet ≡ (ok message, after rx rx_protocol)
    unfolding decrypt_tail packet open_parsed
    packet_decrypted =
        let len : length (h.bytes ++ body) ≡ 3 + length message =
          omega (arith, length-append h.bytes body, three, length-body transports.encrypts) in
        let long : leb (length (h.bytes ++ body)) header_size ≡ false = ground (arith, len) in
        rw
          (
            long,
            len,
            take-append 3 h.bytes body three,
            drop-append 3 h.bytes body three,
            header_parsed (some (3 + length message)) (fits_total (length message)),
          )
          opened

    pub packet_read :
        (more : List ℕ) (finish : Option ErrorKind)
        → read_binary b c rx
            (read_exact header_size (record { bytes = packet ++ more; finish = finish }))
          ≡ (ok message, after rx rx_protocol, record { bytes = more; finish = finish })
    unfolding packet read_binary read_parsed
    packet_read more finish =
        rw
          (
            append_assoc h.bytes body more,
            read_front h.bytes (body ++ more) finish 3 three,
            header_parsed none (unfold mismatched in refl),
            read_front body more finish (length message) (length-body transports.encrypts),
          )
          (unfold read_opened in rw opened refl)
