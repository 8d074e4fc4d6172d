-- ===== src/Handshake/SessionIds.antt =====
-- A packed session id is unpacked by the peer, and noise is told from it.
use nextppp.Prelude.{ℕ, ◌%◌, ◌^◌, ◌≤◌, ◌<◌, ◌≡◌, arith, refl, ap, ◌∙◌, ◌==◌, ltb}
use nextppp.Prelude.{if◌then◌else◌, true, false, bit_and, and_bit, le→ltb, Bool-cases, inl, inr}
use nextppp.Prelude.{List, [], ◌∷◌, ◌++◌, length, drop, get_or, length-append, Result, ok}
use nextppp.Errors.{Rng, Error}
use nextppp.Key.{ObfuscationKey}
use nextppp.Handshake.{SessionPacket, dummy, session, pack_session_id, unpack_session_id, padding}
use nextppp.Handshake.{
  numeral, key_bytes, decimal, parse_decimal, parsed_session, is_digit, mask_rounds,
}
use nextppp.Handshake.Digits.{parse_decimal-decimal}
use nextppp.Handshake.Mask.{mask_rounds_twice, mask_rounds_any_key, length-mask_rounds}

-- What a packet of an id announces: 0 stands for noise.
unfoldable pub announced : ℕ → SessionPacket
announced id = if id == 0 then dummy else session id

-- The high bit of a byte.
high_bit : (k : ℕ) → k < 128 → (bit_and k 0x80 == 0) ≡ true
high_bit k h = ground (arith, and_bit 7 k)

no_high_bit : (k : ℕ) → 128 ≤ k → k < 256 → (bit_and k 0x80 == 0) ≡ false
no_high_bit k low h = ground (arith, and_bit 7 k)

module _ (g : Rng) where
  -- The padding starts with the separator.
  padding_head :
      (kx digits : ℕ) (rng : g.State)
      → (rest : List ℕ) × ((padding g kx digits rng).0 ≡ (g.range 0x20 0x2f rng).0 ∷ rest)
  unfolding padding
  padding_head kx digits rng = (
    drop 1 (padding g kx digits rng).0,
    elim (Bool-cases (ltb 0 (kx % 0x100))) [ inl e ↦ rw e refl | inr e ↦ rw e refl ],
  )

  module _ (key key' : ObfuscationKey) (k0 k1 k2 k3 : ℕ) (body : List ℕ) where
    keys : List ℕ
    keys = k0 ∷ k1 ∷ k2 ∷ k3 ∷ []

    packet : List ℕ
    packet = keys ++ mask_rounds key.kf keys body

    long : ltb (length packet) 4 ≡ false
    unfolding packet keys
    long = le→ltb _ 4 (omega arith)

    noise : 128 ≤ k0 → k0 < 256 → unpack_session_id key' packet ≡ ok dummy
    unfolding unpack_session_id
    noise low high =
        let head : (bit_and k0 0x80 == 0) ≡ false = no_high_bit k0 low high in
        rw long (unfold packet keys in rw head refl)

    unmasked : mask_rounds key'.kf keys (mask_rounds key.kf keys body) ≡ body
    unfolding keys
    unmasked =
        mask_rounds_any_key key'.kf key.kf k0 k1 k2 k3 (mask_rounds key.kf keys body)
        ∙ mask_rounds_twice key.kf keys body

    real :
        (id : ℕ)
        → k0 < 128
        → 1 ≤ length body
        → parse_decimal 0 0 body ≡ ok id
        → unpack_session_id key' packet ≡ ok (session id)
    unfolding unpack_session_id
    real id high nonempty parsed =
        let head : (bit_and k0 0x80 == 0) ≡ true = high_bit k0 high in
        let some_body : (length packet == 4) ≡ false =
          more (length packet)
            (unfold packet keys in omega (arith, length-mask_rounds key.kf keys body)) in
        rw (long, some_body)
          (unfold packet keys in rw (head, unmasked) (rw parsed (unfold parsed_session in refl)))
      where
        more : (n : ℕ) → 5 ≤ n → (n == 4) ≡ false
        more n h = ground arith

  -- The first key byte tells noise from an id.
  first_key : (id : ℕ) (rng : g.State) → ℕ
  first_key id rng =
      (g.range (if id == 0 then 0x80 else 0x00) (if id == 0 then 0xff else 0x7f) rng).0

  first_key_noise :
      (id : ℕ) (rng : g.State)
      → (id == 0) ≡ true
      → (128 ≤ first_key id rng) × (first_key id rng < 256)
  unfolding first_key
  first_key_noise id rng e =
      rw (first_key, e) (omega (arith, g.range_bounds 0x80 0xff rng (omega arith)))

  first_key_real : (id : ℕ) (rng : g.State) → (id == 0) ≡ false → first_key id rng < 128
  unfolding first_key
  first_key_real id rng e =
      rw (first_key, e) (omega (arith, g.range_bounds 0x00 0x7f rng (omega arith)))

  numeral_real : (id : ℕ) (rng : g.State) → (id == 0) ≡ false → (numeral g id rng).0 ≡ id
  unfolding numeral
  numeral_real id rng e = rw e refl

  separates : (rng : g.State) → is_digit (g.range 0x20 0x2f rng).0 ≡ false
  unfolding is_digit
  separates rng =
      let c : ℕ = (g.range 0x20 0x2f rng).0 in
      let bounds = g.range_bounds 0x20 0x2f rng (omega arith) in ground (arith, bounds)

  -- The body of a packet, before the mask, is parsed to its numeral.
  body_parsed :
      (kx number : ℕ) (rng : g.State)
      → number < 2 ^ 128
      → let body = decimal number ++ (padding g kx (length (decimal number)) rng).0 in
        (1 ≤ length body) × (parse_decimal 0 0 body ≡ ok number)
  body_parsed kx number rng h =
      let separator : ℕ = (g.range 0x20 0x2f rng).0 in
      let (rest, starts) = padding_head kx (length (decimal number)) rng in
      (
        omega (
          arith,
          length-append (decimal number) (padding g kx (length (decimal number)) rng).0,
          ap length starts,
        ),
        rw starts (parse_decimal-decimal number separator rest h (separates rng)),
      )

  -- Under any keys on the two sides, an id of 128 bits other than 0 is unpacked as it was packed, and
  -- a packet of id 0 as noise.
  pub unpack_session_id-pack_session_id :
      (key key' : ObfuscationKey) (id : ℕ) (rng : g.State)
      → id < 2 ^ 128
      → unpack_session_id key' (pack_session_id g key id rng).0 ≡ ok (announced id)
  unfolding pack_session_id announced
  unpack_session_id-pack_session_id key key' id rng h =
      let keys : List ℕ × g.State = key_bytes g id rng in
      let number : ℕ × g.State = numeral g id keys.1 in
      let rest = padding g key.kx (length (decimal number.0)) number.1 in
      let body : List ℕ = decimal number.0 ++ rest.0 in
      let k1 : ℕ = get_or keys.0 1 0 in
      let k2 : ℕ = get_or keys.0 2 0 in
      let k3 : ℕ = get_or keys.0 3 0 in
      elim (Bool-cases (id == 0)) [
        | inl e ↦
            let (low, high) = first_key_noise id rng e in
            rw e (
              unfold key_bytes first_key packet keys in
              noise key key' (first_key id rng) k1 k2 k3 body low high)
        | inr e ↦
            let same = numeral_real id keys.1 e in
            let (nonempty, parsed) =
              body_parsed key.kx number.0 number.1 (omega (arith, same, h)) in
            rw e (
              unfold key_bytes first_key packet keys in
              real key key' (first_key id rng) k1 k2 k3 body id (first_key_real id rng e) nonempty
                (parsed ∙ ap {B = Result ℕ Error} ok same))
      ]
