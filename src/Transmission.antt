-- ===== src/Transmission.antt =====
-- The codec state of the two directions of crates/core/src/transmission.rs, whole messages in and
-- out. The scratch buffers of the source are cleared before each use and carry nothing from call to
-- call, so the state has no field for them.
pub mod Linked
pub mod Packet
pub mod RoundTrip
mod Tests
use nextppp.Prelude.{
  ℕ, ◌+◌, ◌==◌, ltb, leb, if◌then◌else◌, Bool, true, false, not, ◌||◌, Option, none, some,
}
use nextppp.Prelude.{List, [], ◌∷◌, ◌++◌, length, take, drop, Result, ok, err}
use nextppp.Errors.{Error, invalid_frame, zero_length, frame_too_large, Rng}
use nextppp.Cipher.{Backend, SessionCipher, apply, for_decryption, derive, protocol, transport}
use nextppp.Binary.{PayloadFlags, flags_safest, Encoded, Decoded, header_encrypt, header_decrypt}
use nextppp.Binary.{payload_obfuscate, payload_deobfuscate, ppp_buffer_size, header_size}
use nextppp.Base94.Defs.{
  Codec, Framer, new, Sent, encode_frame, decode_packet_into, read_frame_into,
}
use nextppp.Base94.Defs.{Reader, read_exact}
use nextppp.Key.{ObfuscationKey}

-- The cipher that a call on `Some(&mut cipher)` leaves.
pub kept : SessionCipher → Option SessionCipher → SessionCipher
kept c none = c
kept c (some c') = c'

pub effective_flags : ObfuscationKey → Bool → PayloadFlags
effective_flags key handshaked =
    if handshaked
    then record { masked = key.masked; shuffled = key.shuffle_data; delta = key.delta_encode }
    else flags_safest

-- Whether the packet has another size than its header declares; streams give no size.
pub mismatched : Option ℕ → ℕ → Bool
mismatched none len = false
mismatched (some total) len = not (len + header_size == total)

-- The checks on a decrypted header.
unfoldable pub check_header :
    Option ℕ → SessionCipher → Result Decoded Error → Result (ℕ × ℕ) Error × SessionCipher
check_header total cipher (err e) = (err e, cipher)
check_header total cipher (ok d) = (
  if ltb d.len 1 || ltb ppp_buffer_size d.len
      then err (frame_too_large d.len)
      else if mismatched total d.len
      then err invalid_frame
      else ok (d.len, d.header_kf),
  kept cipher d.protocol,
)

unfoldable pub parse_binary_header :
    Backend → ℕ → SessionCipher → List ℕ → Option ℕ → Result (ℕ × ℕ) Error × SessionCipher
parse_binary_header b kf cipher header total =
    check_header total cipher (header_decrypt b kf (some cipher) header)

pub record RxCore : Type 0 where
  pub key : ObfuscationKey
  pub b94 : Framer
  pub protocol_rx : SessionCipher
  pub transport_rx : SessionCipher
  pub handshaked : Bool

module _ (b : Backend) where
  -- A direction's cipher under its two passwords, before (`none`) and after the rekeying.
  pub new_rx : ObfuscationKey → RxCore
  new_rx key = record {
    key = key;
    b94 = new key.kf;
    protocol_rx = for_decryption (derive b key.protocol protocol key.protocol_key none);
    transport_rx = for_decryption (derive b key.transport transport key.transport_key none);
    handshaked = false;
  }

  unfoldable pub rekey_rx : RxCore → ℕ → RxCore
  rekey_rx rx ivv =
      let key = rx.key in
      record rx {
        protocol_rx = for_decryption (derive b key.protocol protocol key.protocol_key (some ivv));
        transport_rx =
            for_decryption (derive b key.transport transport key.transport_key (some ivv));
      }

  -- The message of a body, with the keys of its header.
  unfoldable pub open_body : RxCore → ℕ → List ℕ → Result (List ℕ) Error × RxCore
  open_body rx header_kf body =
      let flags = effective_flags rx.key rx.handshaked in
      let (message, cipher) =
        apply b rx.transport_rx (payload_deobfuscate body flags header_kf rx.key.kf) in
      (ok message, record rx { transport_rx = cipher })

  pub open_parsed :
      RxCore → List ℕ → Result (ℕ × ℕ) Error × SessionCipher → Result (List ℕ) Error × RxCore
  open_parsed rx body (err e, cipher) = (err e, record rx { protocol_rx = cipher })
  open_parsed rx body (ok (len, header_kf), cipher) =
      open_body (record rx { protocol_rx = cipher }) header_kf body

  pub decrypt_tail : RxCore → List ℕ → Result (List ℕ) Error × RxCore
  decrypt_tail rx buf =
      let header = take header_size buf in
      let parsed = parse_binary_header b rx.key.kf rx.protocol_rx header (some (length buf)) in
      if leb (length buf) header_size
      then (err invalid_frame, rx)
      else open_parsed rx (drop header_size buf) parsed

unfoldable pub on_handshake_complete_rx : RxCore → RxCore
on_handshake_complete_rx rx = record rx { handshaked = true }

module _ (b : Backend) (c : Codec) where
  -- What follows the base-94 decoding of a packet.
  unfoldable pub unwrapped :
      RxCore → Result (List ℕ) Error × Framer → Result (List ℕ) Error × RxCore
  unwrapped rx (err e, f) = (err e, record rx { b94 = f })
  unwrapped rx (ok binary, f) = decrypt_tail b (record rx { b94 = f }) binary

  pub decrypt : RxCore → List ℕ → Result (List ℕ) Error × RxCore
  decrypt rx packet =
      if not rx.handshaked || rx.key.plaintext
      then unwrapped rx (decode_packet_into c rx.b94 packet)
      else decrypt_tail b rx packet

  -- The body of a binary frame, once its header is parsed.
  unfoldable pub read_opened :
      RxCore → ℕ → Result (List ℕ) Error × Reader → Result (List ℕ) Error × RxCore × Reader
  read_opened rx header_kf (err e, r) = (err e, rx, r)
  read_opened rx header_kf (ok body, r) =
      let (message, rx') = open_body b rx header_kf body in (message, rx', r)

  unfoldable pub read_parsed :
      RxCore
      → Result (ℕ × ℕ) Error × SessionCipher
      → Reader
      → Result (List ℕ) Error × RxCore × Reader
  read_parsed rx (err e, cipher) r = (err e, record rx { protocol_rx = cipher }, r)
  read_parsed rx (ok (len, header_kf), cipher) r =
      read_opened (record rx { protocol_rx = cipher }) header_kf (read_exact len r)

  unfoldable pub read_binary :
      RxCore → Result (List ℕ) Error × Reader → Result (List ℕ) Error × RxCore × Reader
  read_binary rx (err e, r) = (err e, rx, r)
  read_binary rx (ok header, r) =
      read_parsed rx (parse_binary_header b rx.key.kf rx.protocol_rx header none) r

  unfoldable pub read_buf : RxCore → Reader → Result (List ℕ) Error × RxCore × Reader
  read_buf rx r =
      let (binary, f, rest) = read_frame_into c rx.b94 r in
      let (message, rx') = unwrapped rx (binary, f) in
      if not rx.handshaked || rx.key.plaintext
      then (message, rx', rest)
      else read_binary rx (read_exact header_size r)

module _ (b : Backend) (c : Codec) (g : Rng) where
  pub record TxCore : Type 0 where
    pub rng : g.State
    pub key : ObfuscationKey
    pub b94 : Framer
    pub protocol_tx : SessionCipher
    pub transport_tx : SessionCipher
    pub handshaked : Bool

  unfoldable pub new_tx : ObfuscationKey → g.State → TxCore
  new_tx key rng = record {
    rng = rng;
    key = key;
    b94 = new key.kf;
    protocol_tx = derive b key.protocol protocol key.protocol_key none;
    transport_tx = derive b key.transport transport key.transport_key none;
    handshaked = false;
  }

  unfoldable pub rekey_tx : TxCore → ℕ → TxCore
  rekey_tx tx ivv =
      let key = tx.key in
      record tx {
        protocol_tx = derive b key.protocol protocol key.protocol_key (some ivv);
        transport_tx = derive b key.transport transport key.transport_key (some ivv);
      }

  unfoldable pub on_handshake_complete_tx : TxCore → TxCore
  on_handshake_complete_tx tx = record tx { handshaked = true }

  pub enveloped : TxCore → Sent c g → Result (List ℕ) Error × TxCore
  enveloped tx s = (s.result, record tx { rng = s.rng; b94 = s.framer })

  -- The binary packet behind its header.
  pub with_header : TxCore → List ℕ → Result (Encoded b g) Error → Result (List ℕ) Error × TxCore
  with_header tx message (err e) = (err e, tx)
  with_header tx message (ok h) =
      let (hidden, cipher) = apply b tx.transport_tx message in
      let flags = effective_flags tx.key tx.handshaked in
      let packet = h.bytes ++ payload_obfuscate hidden flags h.header_kf tx.key.kf in
      let tx' : TxCore = record tx {
        rng = h.rng;
        protocol_tx = kept tx.protocol_tx h.protocol;
        transport_tx = cipher;
      } in
      if not tx.handshaked || tx.key.plaintext
      then enveloped tx' (encode_frame c g h.rng tx.b94 packet)
      else (ok packet, tx')

  -- The wire bytes that are appended to the output.
  pub encrypt_impl : TxCore → List ℕ → List ℕ → Result (List ℕ) Error × TxCore
  encrypt_impl tx prefix payload =
      let total = length payload + length prefix in
      let header = header_encrypt b g tx.rng tx.key.kf (some tx.protocol_tx) total in
      if total == 0
      then (err zero_length, tx)
      else if ltb ppp_buffer_size total
      then (err (frame_too_large total), tx)
      else with_header tx (prefix ++ payload) header
