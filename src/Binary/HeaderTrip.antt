-- ===== src/Binary/HeaderTrip.antt =====
-- A header is read back by the peer whose cipher is in step.
use nextppp.Prelude.{ℕ, ◌+◌, ◌-◌, ◌*◌, ◌/◌, ◌%◌, ◌^◌, ◌≤◌, ◌<◌, ◌≡◌, arith, refl, ap, ap₂, ◌∙◌}
use nextppp.Prelude.{
  bit_and, bit_or, bit_xor, xor-lt, xor_cancel, and_mask, or_fields, Option, none, some,
}
use nextppp.Prelude.{List, [], ◌∷◌, length, length-map, All, Result, ok, err, get_or}
use nextppp.Prelude.{ltb, ◌==◌, ◌||◌, true, false, ◌⊎◌}
use nextppp.Ssea.{IsByte, IsU32, u8, shuffle, delta_encode}
use nextppp.Ssea.Shuffle.{unshuffle-shuffle, length-shuffle, shuffle-IsByte}
use nextppp.Ssea.Delta.{delta_decode-delta_encode, length-delta_encode, delta_encode-IsByte}
use nextppp.Cipher.{Backend, SessionCipher}
use nextppp.Cipher.RoundTrip.{InStep, apply-apply, apply-InStep, length-apply, apply-IsByte}
use nextppp.Errors.{Error, frame_too_large, Rng}
use nextppp.Binary.{Encoded, Decoded, apply_optional, mask_length, header_encrypt, header_decrypt}
use nextppp.Binary.{ppp_buffer_size}

-- Both ends have no protocol cipher, or ciphers in step.
abbrev pub OptionInStep : Option SessionCipher → Option SessionCipher → Type 0
OptionInStep none none = Unit
OptionInStep (some tx) (some rx) = InStep tx rx
OptionInStep _ _ = ⊥

mask_length_twice : (k : ℕ) (xs : List ℕ) → mask_length k (mask_length k xs) ≡ xs
unfolding mask_length
mask_length_twice k [] = refl
mask_length_twice k (x ∷ xs) = ap₂ ◌∷◌ (xor_cancel x (u8 k)) (mask_length_twice k xs)

length-mask_length : (k : ℕ) (xs : List ℕ) → length (mask_length k xs) ≡ length xs
unfolding mask_length
length-mask_length k xs = length-map (λ x. bit_xor x (u8 k)) xs

mask_length-IsByte : (k : ℕ) (xs : List ℕ) → All IsByte xs → All IsByte (mask_length k xs)
unfolding mask_length
mask_length-IsByte k [] h = tt
mask_length-IsByte k (x ∷ xs) (hx, hxs) =
    (xor-lt 8 x (u8 k) hx (omega arith), mask_length-IsByte k xs hxs)

module _ (b : Backend) where
  optional_roundtrip :
      (tx rx : Option SessionCipher) (xs : List ℕ)
      → OptionInStep tx rx
      → (apply_optional b rx (apply_optional b tx xs).0).0 ≡ xs
  unfolding apply_optional
  optional_roundtrip none none xs h = refl
  optional_roundtrip none (some rx) xs h = absurd h
  optional_roundtrip (some tx) none xs h = absurd h
  optional_roundtrip (some tx) (some rx) xs h = apply-apply b tx rx xs h

  optional-InStep :
      (tx rx : Option SessionCipher) (xs ys : List ℕ)
      → OptionInStep tx rx
      → OptionInStep (apply_optional b tx xs).1 (apply_optional b rx ys).1
  unfolding apply_optional
  optional-InStep none none xs ys h = tt
  optional-InStep none (some rx) xs ys h = absurd h
  optional-InStep (some tx) none xs ys h = absurd h
  optional-InStep (some tx) (some rx) xs ys h = apply-InStep b tx rx xs ys h

  length-apply_optional :
      (tx rx : Option SessionCipher) (xs : List ℕ)
      → OptionInStep tx rx
      → length (apply_optional b tx xs).0 ≡ length xs
  unfolding apply_optional
  length-apply_optional none rx xs h = refl
  length-apply_optional (some tx) none xs h = absurd h
  length-apply_optional (some tx) (some rx) xs h = length-apply b tx xs

  apply_optional-IsByte :
      (tx rx : Option SessionCipher) (xs : List ℕ)
      → OptionInStep tx rx
      → All IsByte xs
      → All IsByte (apply_optional b tx xs).0
  unfolding apply_optional
  apply_optional-IsByte none rx xs h bytes = bytes
  apply_optional-IsByte (some tx) none xs h bytes = absurd h
  apply_optional-IsByte (some tx) (some rx) xs h bytes = apply-IsByte b tx xs h.encrypts bytes

  -- The length field of 16 bits, split and joined.
  join_length :
      (n : ℕ)
      → 1 ≤ n
      → n ≤ 65536
      → bit_or (u8 ((n - 1) / 2 ^ 8) * 2 ^ 8 % 2 ^ 16) (u8 (bit_and (n - 1) 0xff)) + 1 ≡ n
  join_length n lo hi =
      let low = and_mask 8 (n - 1) in
      let high : u8 ((n - 1) / 2 ^ 8) * 2 ^ 8 % 2 ^ 16 ≡ (n - 1) / 2 ^ 8 * 2 ^ 8 = omega arith in
      rw (low, high)
        (omega (arith, or_fields 8 ((n - 1) / 2 ^ 8) (u8 ((n - 1) % 2 ^ 8)) (omega arith)))

  -- The peer's decoding of a header whose hidden length bytes are given.
  decrypt_hidden :
      (kf seed : ℕ) (rx : Option SessionCipher) (hidden : List ℕ)
      → IsU32 kf
      → IsByte seed
      → All IsByte hidden
      → length hidden ≡ 2
      → let key = bit_xor kf seed in
        let back = apply_optional b rx hidden in
        header_decrypt b kf rx (delta_encode (seed ∷ shuffle (mask_length key hidden) key) kf)
        ≡ ok (record {
          len = bit_or (get_or back.0 0 0 * 2 ^ 8 % 2 ^ 16) (get_or back.0 1 0) + 1;
          header_kf = key;
          protocol = back.1;
        })
  unfolding header_decrypt
  decrypt_hidden kf seed rx hidden kf_fits seed_byte bytes two =
      let key : ℕ = bit_xor kf seed in
      let masked : List ℕ = mask_length key hidden in
      let masked_len = length-mask_length key hidden in
      let short : length masked < 2 ^ 32 = omega (arith, masked_len, two) in
      let key_fits = xor-lt 32 kf seed kf_fits (omega arith) in
      let plain = delta_decode-delta_encode (seed ∷ shuffle masked key) kf (
        seed_byte,
        shuffle-IsByte masked key short key_fits (mask_length-IsByte key hidden bytes),
      ) in
      let order = unshuffle-shuffle masked key short key_fits in
      rw (plain, order, mask_length_twice key hidden) refl

module _ (b : Backend) (g : Rng) where
  -- The header of a payload of `len` bytes, built with `tx`, was read with `rx`.
  pub record HeaderRead (rng : g.State) (kf : ℕ) (tx rx : Option SessionCipher) (len : ℕ)
      : Type 0 where
    pub out : Encoded b g
    pub encrypted : header_encrypt b g rng kf tx len ≡ ok out
    pub three_bytes : length out.bytes ≡ 3
    pub are_bytes : All IsByte out.bytes
    pub key_fits : IsU32 out.header_kf
    pub rx_after : Option SessionCipher
    pub decrypted :
        header_decrypt b kf rx out.bytes
        ≡ ok (record { len = len; header_kf = out.header_kf; protocol = rx_after })
    pub in_step : OptionInStep out.protocol rx_after

  -- A payload length from 1 to 65536 is always encrypted, into three bytes; a peer in step reads
  -- the length and the header's key back, and the two ends stay in step.
  pub header_decrypt-header_encrypt :
      (rng : g.State) (kf : ℕ) (tx rx : Option SessionCipher) (len : ℕ)
      → IsU32 kf
      → 1 ≤ len
      → len ≤ 65536
      → OptionInStep tx rx
      → HeaderRead rng kf tx rx len
  header_decrypt-header_encrypt rng kf tx rx len kf_fits lo hi s =
      let seed : ℕ = (g.range 1 0xff rng).0 in
      let seed_byte : IsByte seed = omega (arith, g.range_bounds 1 0xff rng (omega arith)) in
      let key : ℕ = bit_xor kf seed in
      let plain : List ℕ = u8 ((len - 1) / 2 ^ 8) ∷ u8 (bit_and (len - 1) 0xff) ∷ [] in
      let hidden : List ℕ = (apply_optional b tx plain).0 in
      let masked : List ℕ = mask_length key hidden in
      let back = optional_roundtrip b tx rx plain s in
      let bytes = apply_optional-IsByte b tx rx plain s (omega arith, (omega arith, tt)) in
      let two = length-apply_optional b tx rx plain s in
      let array : List ℕ = seed ∷ shuffle masked key in
      let after : Option SessionCipher = (apply_optional b rx hidden).1 in
      let field : List ℕ → ℕ = λ xs. bit_or (get_or xs 0 0 * 2 ^ 8 % 2 ^ 16) (get_or xs 1 0) + 1 in
      record {
        out = record {
          bytes = delta_encode array kf;
          header_kf = key;
          rng = (g.range 1 0xff rng).1;
          protocol = (apply_optional b tx plain).1;
        };
        encrypted = unfold header_encrypt in rw (valid len lo hi);
        three_bytes = omega (
          arith,
          length-delta_encode array kf,
          length-shuffle masked key,
          length-mask_length key hidden,
          two,
        );
        are_bytes = delta_encode-IsByte array kf;
        key_fits = xor-lt 32 kf seed kf_fits (omega arith);
        rx_after = (apply_optional b rx hidden).1;
        decrypted =
            decrypt_hidden b kf seed rx hidden kf_fits seed_byte bytes two
            ∙ ap {B = Result Decoded Error}
                (λ n. ok (record { len = n; header_kf = key; protocol = after }))
                (ap field back ∙ join_length b len lo hi);
        in_step = optional-InStep b tx rx plain hidden s;
      }
    where
      valid : (n : ℕ) → 1 ≤ n → n ≤ 65536 → (n == 0 || ltb ppp_buffer_size n) ≡ false
      valid n h k = ground arith

  -- Any other payload length is refused as too large, and nothing is drawn or encrypted.
  pub header_encrypt_refuses :
      (rng : g.State) (kf : ℕ) (tx : Option SessionCipher) (len : ℕ)
      → (len ≡ 0) ⊎ (65536 < len)
      → header_encrypt b g rng kf tx len ≡ err (frame_too_large len)
  unfolding header_encrypt
  header_encrypt_refuses rng kf tx len h = rw (invalid len h)
    where
      invalid : (n : ℕ) → (n ≡ 0) ⊎ (65536 < n) → (n == 0 || ltb ppp_buffer_size n) ≡ true
      invalid n h = ground arith
