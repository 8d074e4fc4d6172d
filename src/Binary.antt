-- ===== src/Binary.antt =====
-- The inner packet layout of crates/core/src/frame/binary.rs: a 3-byte header that hides the length
-- and a transformed payload.
pub mod HeaderTrip
pub mod Payload
mod Tests
use nextppp.Prelude.{ℕ, ◌+◌, ◌-◌, ◌*◌, ◌/◌, ◌%◌, ◌^◌, bit_and, bit_or, bit_xor, ◌==◌, ltb, ◌||◌}
use nextppp.Prelude.{if◌then◌else◌, Bool, true, false, Option, none, some, Result, ok, err}
use nextppp.Prelude.{List, [], ◌∷◌, map, drop, get_or}
use nextppp.Ssea.{u8, shuffle, unshuffle, delta_encode, delta_decode, masked_xor_random_next}
use nextppp.Cipher.{Backend, SessionCipher, apply}
use nextppp.Errors.{Error, frame_too_large, Rng}

abbrev pub ppp_buffer_size : ℕ
ppp_buffer_size = 65536

abbrev pub header_size : ℕ
header_size = 3

pub record PayloadFlags : Type 0 where
  pub masked : Bool
  pub shuffled : Bool
  pub delta : Bool

abbrev pub flags_none : PayloadFlags
flags_none = record { masked = false; shuffled = false; delta = false }

abbrev pub flags_safest : PayloadFlags
flags_safest = record { masked = true; shuffled = true; delta = true }

-- The transform chain: mask, shuffle, delta.
pub payload_obfuscate : List ℕ → PayloadFlags → ℕ → ℕ → List ℕ
payload_obfuscate bytes flags header_kf kf =
    let xs = if flags.masked then masked_xor_random_next bytes header_kf else bytes in
    let ys = if flags.shuffled then shuffle xs header_kf else xs in
    if flags.delta then delta_encode ys kf else ys

pub payload_deobfuscate : List ℕ → PayloadFlags → ℕ → ℕ → List ℕ
payload_deobfuscate bytes flags header_kf kf =
    let xs = if flags.delta then delta_decode bytes kf else bytes in
    let ys = if flags.shuffled then unshuffle xs header_kf else xs in
    if flags.masked then masked_xor_random_next ys header_kf else ys

-- `if let Some(cipher) = protocol { cipher.apply(..) }`
pub apply_optional : Backend → Option SessionCipher → List ℕ → List ℕ × Option SessionCipher
apply_optional b none bytes = (bytes, none)
apply_optional b (some c) bytes = let (bytes', c') = apply b c bytes in (bytes', some c')

-- `array[1] ^= header_kf as u8; array[2] ^= header_kf as u8` on the two length bytes.
pub mask_length : ℕ → List ℕ → List ℕ
mask_length header_kf = map (λ x. bit_xor x (u8 header_kf))

module _ (b : Backend) (g : Rng) where
  -- The header and its key, with the random source and the cipher after them.
  pub record Encoded : Type 0 where
    pub bytes : List ℕ
    pub header_kf : ℕ
    pub rng : g.State
    pub protocol : Option SessionCipher

  pub header_encrypt : g.State → ℕ → Option SessionCipher → ℕ → Result Encoded Error
  header_encrypt rng kf protocol payload_len =
      let adjusted = payload_len - 1 in
      let (seed, rng') = g.range 1 0xff rng in
      let header_kf = bit_xor kf seed in
      let length_bytes = u8 (adjusted / 2 ^ 8) ∷ u8 (bit_and adjusted 0xff) ∷ [] in
      let (hidden, protocol') = apply_optional b protocol length_bytes in
      if payload_len == 0 || ltb ppp_buffer_size payload_len
      then err (frame_too_large payload_len)
      else ok (record {
        bytes = delta_encode (seed ∷ shuffle (mask_length header_kf hidden) header_kf) kf;
        header_kf = header_kf;
        rng = rng';
        protocol = protocol';
      })

-- The payload length and the header's key, with the cipher after them.
pub record Decoded : Type 0 where
  pub len : ℕ
  pub header_kf : ℕ
  pub protocol : Option SessionCipher

pub header_decrypt : Backend → ℕ → Option SessionCipher → List ℕ → Result Decoded Error
header_decrypt b kf protocol header =
    let array = delta_decode header kf in
    let header_kf = bit_xor kf (get_or array 0 0) in
    let hidden = mask_length header_kf (unshuffle (drop 1 array) header_kf) in
    let (length_bytes, protocol') = apply_optional b protocol hidden in
    ok (record {
      len = bit_or (get_or length_bytes 0 0 * 2 ^ 8 % 2 ^ 16) (get_or length_bytes 1 0) + 1;
      header_kf = header_kf;
      protocol = protocol';
    })
