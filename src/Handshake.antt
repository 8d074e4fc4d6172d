-- ===== src/Handshake.antt =====
-- The handshake packets of crates/core/src/handshake.rs. A method that draws returns the state of the
-- random source after it. Numbers are bounded as in the source: `u128` ids, 64-bit words.
pub mod Digits
pub mod Mask
pub mod SessionIds
pub mod Canary
pub mod Nops
pub mod Packets
mod Tests
use nextppp.Prelude.{
  ℕ, zero, suc, ◌+◌, ◌-◌, ◌*◌, ◌/◌, ◌%◌, ◌^◌, min, bit_and, bit_or, bit_xor, ◌==◌, ltb, leb,
}
use nextppp.Prelude.{
  if◌then◌else◌, Bool, true, false, ◌&&◌, not, List, [], ◌∷◌, ◌++◌, map, length, get_or, take, drop,
}
use nextppp.Prelude.{Result, ok, err}
use mathlib.Core.List.{reverse}
use nextppp.Ssea.{u8}
use nextppp.Errors.{Error, invalid_frame, invalid_session_id, Rng}
use nextppp.Key.{ObfuscationKey}

abbrev pub canary_magic : ℕ
canary_magic = 0xc0de_c0de_c0de

abbrev pub canary_magic_mask : ℕ
canary_magic_mask = 0x0000_ffff_ffff_ffff

abbrev pub role_magic : ℕ
role_magic = 0xfeed_c0de_5eed

abbrev pub role_magic_mask : ℕ
role_magic_mask = 0x0000_ffff_ffff_ffff

abbrev pub role_bond_link : ℕ
role_bond_link = 2 ^ 48

pub data SessionRole : Type 0 where
  mux_tunnel bond_link : SessionRole

pub role_flags : SessionRole → ℕ
role_flags mux_tunnel = 0
role_flags bond_link = role_bond_link

pub role_tag : SessionRole → ℕ
role_tag role = bit_or role_magic (role_flags role)

pub role_from_ivv : ℕ → SessionRole
role_from_ivv ivv =
    let high = ivv / 2 ^ 64 % 2 ^ 64 in
    if (bit_and high role_magic_mask == role_magic) && not (bit_and high role_bond_link == 0)
    then bond_link
    else mux_tunnel

pub data SessionPacket : Type 0 where
  dummy : SessionPacket
  session : ℕ → SessionPacket

-- `u64::from` of a switch.
abbrev pub from_bool : Bool → ℕ
from_bool true = 1
from_bool false = 0

pub canary_flags : ObfuscationKey → ℕ
canary_flags key =
    bit_or
      (bit_or (bit_or (from_bool key.masked) (from_bool key.plaintext * 2 ^ 1))
        (from_bool key.delta_encode * 2 ^ 2))
      (from_bool key.shuffle_data * 2 ^ 3)

pub flag_canary : ObfuscationKey → ℕ
flag_canary key =
    bit_or (bit_or canary_magic (canary_flags key * 2 ^ 48)) (bit_and key.kf 0x0fff * 2 ^ 52)

-- `1u32 << exponent`, whose exponent counts modulo 32.
abbrev pub power_u32 : ℕ → ℕ
power_u32 exponent = 2 ^ (exponent % 32)

pub max_nop_packets : ObfuscationKey → ℕ
max_nop_packets key = power_u32 (if ltb key.kl key.kh then key.kh else key.kl)

-- `append_decimal`: the digits from the lowest on, and their reversal. A 128-bit number has 39.
pub decimal_loop : ℕ → ℕ → List ℕ
decimal_loop zero v = []
decimal_loop (suc fuel) v =
    let rest = decimal_loop fuel (v / 10) in (b'0' + v % 10) ∷ (if v / 10 == 0 then [] else rest)

pub decimal : ℕ → List ℕ
decimal v = reverse (decimal_loop 40 v)

-- The rounds over the four key bytes, in both directions.
pub mask_rounds : ℕ → List ℕ → List ℕ → List ℕ
mask_rounds kf [] body = body
mask_rounds kf (k ∷ ks) body =
    let kf' = bit_xor kf k in mask_rounds kf' ks (map (λ b. bit_xor b (u8 kf')) body)

module _ (g : Rng) where
  pub nop_rounds : ObfuscationKey → g.State → ℕ × g.State
  nop_rounds key rng =
      let kl = power_u32 key.kl in
      let kh = power_u32 key.kh in
      let lo = if ltb kh kl then kh else kl in
      let hi = if ltb kh kl then kl else kh in
      let (drawn, rng') = g.range lo hi rng in
      if lo == hi then ((lo + 1399) / 1400, rng) else ((drawn + 1399) / 1400, rng')

  -- Printable filler.
  pub filler : ℕ → g.State → List ℕ × g.State
  filler zero rng = ([], rng)
  filler (suc n) rng =
      let (c, rng') = g.range 0x20 0x7e rng in let (cs, rng'') = filler n rng' in (c ∷ cs, rng'')

  -- What follows the digits, `digits` of them: the separator and the two runs of filler.
  pub padding : ℕ → ℕ → g.State → List ℕ × g.State
  padding kx digits rng =
      let (separator, rng1) = g.range 0x20 0x2f rng in
      let amount = kx % 0x100 in
      let (first, rng2) = filler amount rng1 in
      let least = digits + 1 + amount + 1 + 4 in
      let most = if ltb amount least then least else amount in
      let (loops, rng3) = g.range 1 (most * 2 ^ 2) rng2 in
      let (second, rng4) = filler loops rng3 in
      if ltb 0 amount
      then (separator ∷ (first ++ (b'/' ∷ second)), rng4)
      else (separator ∷ [], rng1)

  -- The number of a packet: the id, or for id 0 a random one above 0.
  pub numeral : ℕ → g.State → ℕ × g.State
  numeral id rng =
      let (v, rng') = g.bits 128 rng in
      if id == 0 then (if v == 0 then 1 else v, rng') else (id, rng)

  -- The four key bytes; the first tells noise from an id.
  pub key_bytes : ℕ → g.State → List ℕ × g.State
  key_bytes id rng =
      let (k0, rng0) =
        g.range (if id == 0 then 0x80 else 0x00) (if id == 0 then 0xff else 0x7f) rng in
      let (k1, rng1) = g.range 0x01 0xff rng0 in
      let (k2, rng2) = g.range 0x01 0xff rng1 in
      let (k3, rng3) = g.range 0x01 0xff rng2 in (k0 ∷ k1 ∷ k2 ∷ k3 ∷ [], rng3)

  pub pack_session_id : ObfuscationKey → ℕ → g.State → List ℕ × g.State
  pack_session_id key id rng =
      let (kfs, rng1) = key_bytes id rng in
      let (number, rng2) = numeral id rng1 in
      let digits = decimal number in
      let (pad, rng3) = padding key.kx (length digits) rng2 in
      (kfs ++ mask_rounds key.kf kfs (digits ++ pad), rng3)

pub is_digit : ℕ → Bool
is_digit b = leb b'0' b && leb b b'9'

-- The decimal prefix, with the number and the count of the digits so far.
pub parse_decimal : ℕ → ℕ → List ℕ → Result ℕ Error
parse_decimal id digits [] = if digits == 0 then err invalid_session_id else ok id
parse_decimal id digits (b ∷ bs) =
    let next = id * 10 + (b - b'0') in
    let rest = parse_decimal next (digits + 1) bs in
    if not (is_digit b)
    then (if digits == 0 then err invalid_session_id else ok id)
    else if leb (2 ^ 128) next
    then err invalid_session_id
    else rest

pub parsed_session : Result ℕ Error → Result SessionPacket Error
parsed_session (err e) = err e
parsed_session (ok id) = ok (session id)

pub unpack_session_id : ObfuscationKey → List ℕ → Result SessionPacket Error
unpack_session_id key packet =
    let body = mask_rounds key.kf (take 4 packet) (drop 4 packet) in
    if ltb (length packet) 4
    then err invalid_frame
    else if not (bit_and (get_or packet 0 0) 0x80 == 0)
    then ok dummy
    else if length packet == 4
    then err invalid_frame
    else parsed_session (parse_decimal 0 0 body)
