-- ===== src/Handshake/Canary.antt =====
-- What the canary and the role tag tell the peer.
use nextppp.Prelude.{
  ℕ, ◌+◌, ◌*◌, ◌/◌, ◌%◌, ◌^◌, ◌<◌, ◌≤◌, ◌≡◌, ◌↔◌, arith, refl, sym, ap, ap₂, ◌∙◌, bit_or, or_comm,
  or_fields, and_mask,
}
use nextppp.Prelude.{Bool, true, false}
use nextppp.Key.{ObfuscationKey}
use nextppp.Handshake.{
  SessionRole, mux_tunnel, bond_link, role_tag, role_from_ivv, role_flags, from_bool,
}
use nextppp.Handshake.{canary_flags, flag_canary, canary_magic}

-- The server reads the role that the client tagged, whatever the client's 64-bit nonce is.
pub role_from_ivv-role_tag :
    (role : SessionRole) (nonce : ℕ)
    → nonce < 2 ^ 64
    → role_from_ivv (bit_or (role_tag role * 2 ^ 64) nonce) ≡ role
unfolding role_from_ivv role_tag role_flags
role_from_ivv-role_tag mux_tunnel nonce h =
    let tag : ℕ = 0xfeed_c0de_5eed in
    let high : bit_or (tag * 2 ^ 64) nonce / 2 ^ 64 % 2 ^ 64 ≡ tag =
      omega (arith, or_fields 64 tag nonce h) in
    rw high refl
role_from_ivv-role_tag bond_link nonce h =
    let tag : ℕ = 0x1_feed_c0de_5eed in
    let high : bit_or (tag * 2 ^ 64) nonce / 2 ^ 64 % 2 ^ 64 ≡ tag =
      omega (arith, or_fields 64 tag nonce h) in
    rw high refl

flags_sum :
    (m p d s : Bool)
    → bit_or
        (bit_or (bit_or (from_bool m) (from_bool p * 2 ^ 1)) (from_bool d * 2 ^ 2))
        (from_bool s * 2 ^ 3)
      ≡ from_bool m + from_bool p * 2 + from_bool d * 4 + from_bool s * 8
flags_sum true true true true = refl
flags_sum true true true false = refl
flags_sum true true false true = refl
flags_sum true true false false = refl
flags_sum true false true true = refl
flags_sum true false true false = refl
flags_sum true false false true = refl
flags_sum true false false false = refl
flags_sum false true true true = refl
flags_sum false true true false = refl
flags_sum false true false true = refl
flags_sum false true false false = refl
flags_sum false false true true = refl
flags_sum false false true false = refl
flags_sum false false false true = refl
flags_sum false false false false = refl

from_bool-le : (b : Bool) → from_bool b ≤ 1
from_bool-le true = omega arith
from_bool-le false = omega arith

from_bool_injective : (a b : Bool) → from_bool a ≡ from_bool b → a ≡ b
from_bool_injective true true h = refl
from_bool_injective true false h = absurd (omega arith)
from_bool_injective false true h = absurd (omega arith)
from_bool_injective false false h = refl

pub canary_flags-lt : (key : ObfuscationKey) → canary_flags key < 16
unfolding canary_flags
canary_flags-lt key = omega (
  arith,
  flags_sum key.masked key.plaintext key.delta_encode key.shuffle_data,
  from_bool-le key.masked,
  from_bool-le key.plaintext,
  from_bool-le key.delta_encode,
  from_bool-le key.shuffle_data,
)

-- The canary as a sum of its fields.
pub flag_canary_lem :
    (key : ObfuscationKey)
    → flag_canary key ≡ key.kf % 2 ^ 12 * 2 ^ 52 + canary_flags key * 2 ^ 48 + canary_magic
unfolding flag_canary
flag_canary_lem key =
    let flags : ℕ = canary_flags key in
    let low : ℕ = bit_or canary_magic (flags * 2 ^ 48) in
    let low_sum : low ≡ flags * 2 ^ 48 + canary_magic =
      or_comm canary_magic (flags * 2 ^ 48) ∙ or_fields 48 flags canary_magic (omega arith) in
    let high : ℕ = key.kf % 2 ^ 12 in
    rw (and_mask 12 key.kf) (
      or_comm low (high * 2 ^ 52)
      ∙ or_fields 52 high low (omega (arith, low_sum, canary_flags-lt key))
      ∙ omega (arith, low_sum))

flags_value :
    (key : ObfuscationKey)
    → canary_flags key
      ≡ from_bool key.masked
        + from_bool key.plaintext * 2
        + from_bool key.delta_encode * 4
        + from_bool key.shuffle_data * 8
unfolding canary_flags
flags_value key = flags_sum key.masked key.plaintext key.delta_encode key.shuffle_data

-- Fields of one bit, and the key above them, are read off the sum.
canary_digits :
    (m p d s m' p' d' s' k k' : ℕ)
    → m ≤ 1
    → p ≤ 1
    → d ≤ 1
    → s ≤ 1
    → m' ≤ 1
    → p' ≤ 1
    → d' ≤ 1
    → s' ≤ 1
    → k * 2 ^ 4 + (m + p * 2 + d * 4 + s * 8) ≡ k' * 2 ^ 4 + (m' + p' * 2 + d' * 4 + s' * 8)
    → (m ≡ m') × (p ≡ p') × (d ≡ d') × (s ≡ s') × (k ≡ k')
canary_digits m p d s m' p' d' s' k k' hm hp hd hs hm' hp' hd' hs' e = omega arith

-- Two keys have one canary exactly when their four switches agree and the low twelve bits of `kf`.
pub flag_canary_iff :
    (key key' : ObfuscationKey)
    → (flag_canary key ≡ flag_canary key') ↔ (
        (key.masked ≡ key'.masked)
        × (key.plaintext ≡ key'.plaintext)
        × (key.delta_encode ≡ key'.delta_encode)
        × (key.shuffle_data ≡ key'.shuffle_data)
        × (key.kf % 2 ^ 12 ≡ key'.kf % 2 ^ 12))
flag_canary_iff key key' = (
  λ e. (
    from_bool_injective key.masked key'.masked (digits e).0,
    from_bool_injective key.plaintext key'.plaintext (digits e).1,
    from_bool_injective key.delta_encode key'.delta_encode (digits e).2,
    from_bool_injective key.shuffle_data key'.shuffle_data (digits e).3,
    (digits e).4,
  ),
  λ h.
      flag_canary_lem key
      ∙ ap₂ (λ (k f : ℕ). k * 2 ^ 52 + f * 2 ^ 48 + canary_magic) h.4 (same_flags h.0 h.1 h.2 h.3)
      ∙ sym (flag_canary_lem key'),
)
  where
    digits :
        flag_canary key ≡ flag_canary key'
        → (from_bool key.masked ≡ from_bool key'.masked)
          × (from_bool key.plaintext ≡ from_bool key'.plaintext)
          × (from_bool key.delta_encode ≡ from_bool key'.delta_encode)
          × (from_bool key.shuffle_data ≡ from_bool key'.shuffle_data)
          × (key.kf % 2 ^ 12 ≡ key'.kf % 2 ^ 12)
    digits e =
        canary_digits (from_bool key.masked) (from_bool key.plaintext) (from_bool key.delta_encode)
          (from_bool key.shuffle_data) (from_bool key'.masked) (from_bool key'.plaintext)
          (from_bool key'.delta_encode) (from_bool key'.shuffle_data) (key.kf % 2 ^ 12)
          (key'.kf % 2 ^ 12) (from_bool-le key.masked) (from_bool-le key.plaintext)
          (from_bool-le key.delta_encode) (from_bool-le key.shuffle_data) (from_bool-le key'.masked)
          (from_bool-le key'.plaintext) (from_bool-le key'.delta_encode)
          (from_bool-le key'.shuffle_data)
          (omega (
            arith,
            flag_canary_lem key,
            flag_canary_lem key',
            e,
            flags_value key,
            flags_value key',
          ))

    same_flags :
        key.masked ≡ key'.masked
        → key.plaintext ≡ key'.plaintext
        → key.delta_encode ≡ key'.delta_encode
        → key.shuffle_data ≡ key'.shuffle_data
        → canary_flags key ≡ canary_flags key'
    same_flags m p d s = omega (
      arith,
      flags_value key,
      flags_value key',
      ap from_bool m,
      ap from_bool p,
      ap from_bool d,
      ap from_bool s,
    )

-- A tagged ivv is a 128-bit number above 0.
pub ivv_bounds :
    (role : SessionRole) (nonce : ℕ)
    → nonce < 2 ^ 64
    → let ivv = bit_or (role_tag role * 2 ^ 64) nonce in (1 ≤ ivv) × (ivv < 2 ^ 128)
unfolding role_tag role_flags
ivv_bounds mux_tunnel nonce h = omega (arith, or_fields 64 0xfeed_c0de_5eed nonce h)
ivv_bounds bond_link nonce h = omega (arith, or_fields 64 0x1_feed_c0de_5eed nonce h)
