-- ===== src/Modes/Serial.antt =====
-- The batches of CTR in crates/core/src/crypto/cipher.rs, against one block after the other.
use nextppp.Prelude.{ℕ, zero, suc, ◌+◌, ◌*◌, ◌/◌, ◌%◌, ◌^◌, ◌≤◌, ◌≡◌, arith, refl, ap, ◌∙◌}
use nextppp.Prelude.{
  false, ap₂, sym, leb, leb→le, Bool-cases, inl, inr, append-nil, append_assoc, bit_xor,
}
use nextppp.Prelude.{
  List, [], ◌∷◌, ◌++◌, map, length, take, drop, length-drop, length-take, drop-append,
}
use nextppp.Prelude.{take-all, take-take, drop-take, drop-drop}
use nextppp.Modes.{xor_bytes, flatten, to_be_bytes, counter_blocks, ctr_batches, ctr_apply}
use nextppp.Modes.{from_be_bytes}
use nextppp.Modes.Bytes.{length-to_be_bytes}
use nextppp.Modes.Ctr.{ctr_batches-suc, keystream, batch_size}

-- The counter `n` blocks later.
counter_after : ℕ → ℕ → ℕ
counter_after zero counter = counter
counter_after (suc n) counter = counter_after n ((counter + 1) % 2 ^ 128)

counter_after_lem : (n counter : ℕ) → counter_after (suc n) counter ≡ (counter + suc n) % 2 ^ 128
unfolding counter_after
counter_after_lem zero counter = refl
counter_after_lem (suc n) counter = counter_after_lem n ((counter + 1) % 2 ^ 128) ∙ omega arith

xor_bytes-append :
    (bytes k ks : List ℕ)
    → xor_bytes bytes (k ++ ks)
      ≡ xor_bytes (take (length k) bytes) k ++ xor_bytes (drop (length k) bytes) ks
unfolding xor_bytes
xor_bytes-append bytes [] ks = refl
xor_bytes-append [] (a ∷ k) ks = refl
xor_bytes-append (b ∷ bytes) (a ∷ k) ks =
    ap (λ (l : List ℕ). bit_xor b a ∷ l) (xor_bytes-append bytes k ks)

module _ (encrypt : List ℕ → List ℕ) where
  -- `n` blocks of CTR: each 16 bytes under the encrypted counter, which goes up by one and wraps.
  pub ctr_serial : ℕ → ℕ → List ℕ → List ℕ
  ctr_serial zero counter bytes = []
  ctr_serial (suc n) counter bytes =
      xor_bytes (take 16 bytes) (encrypt (to_be_bytes 16 counter))
      ++ ctr_serial n ((counter + 1) % 2 ^ 128) (drop 16 bytes)

  module _ (whole : (block : List ℕ) → length block ≡ 16 → length (encrypt block) ≡ 16) where
    keystream-serial :
        (n counter : ℕ) (bytes : List ℕ)
        → length bytes ≤ n * 16
        → xor_bytes bytes (flatten (map encrypt (counter_blocks n counter)))
          ≡ ctr_serial n counter bytes
    unfolding flatten counter_blocks ctr_serial
    keystream-serial zero counter [] h = unfold xor_bytes in refl
    keystream-serial zero counter (b ∷ bytes) h = absurd (omega (arith, h))
    keystream-serial (suc n) counter bytes h =
        let k = encrypt (to_be_bytes 16 counter) in
        let next = (counter + 1) % 2 ^ 128 in
        let ks = flatten (map encrypt (counter_blocks n next)) in
        let size : length k ≡ 16 = whole (to_be_bytes 16 counter) (length-to_be_bytes 16 counter) in
        xor_bytes-append bytes k ks
        ∙ ap (λ (l : ℕ). xor_bytes (take l bytes) k ++ xor_bytes (drop l bytes) ks) size
        ∙ ap (λ (l : List ℕ). xor_bytes (take 16 bytes) k ++ l)
            (keystream-serial n next (drop 16 bytes) (omega (arith, h, length-drop 16 bytes)))

    ctr_serial-add :
        (n m counter : ℕ) (bytes : List ℕ)
        → ctr_serial (n + m) counter bytes
          ≡ ctr_serial n counter (take (n * 16) bytes)
            ++ ctr_serial m (counter_after n counter) (drop (n * 16) bytes)
    unfolding ctr_serial counter_after
    ctr_serial-add zero m counter bytes =
        ap (λ (k : ℕ). ctr_serial k counter bytes) {x = 0 + m} {y = m} (omega arith)
    ctr_serial-add (suc n) m counter bytes =
        let next = (counter + 1) % 2 ^ 128 in
        let size : suc n * 16 ≡ 16 + n * 16 = omega arith in
        let more : suc n + m ≡ suc (n + m) = omega arith in
        let first = xor_bytes (take 16 bytes) (encrypt (to_be_bytes 16 counter)) in
        rw (more, size, take-take 16 (n * 16) bytes, drop-take 16 (n * 16) bytes)
          (ap (λ (l : List ℕ). first ++ l) (ctr_serial-add n m next (drop 16 bytes))
            ∙ rw (drop-drop (n * 16) 16 bytes) (sym (append_assoc first _ _)))

    -- One batch and the rest of the loop.
    short :
        (fuel counter : ℕ) (bytes : List ℕ)
        → length bytes ≤ 128
        → ctr_batches encrypt (suc fuel) counter bytes
          ≡ ctr_serial ((length bytes + 15) / 16) counter bytes
    short fuel counter bytes h =
        let size : batch_size encrypt bytes ≡ length bytes =
          unfold batch_size in omega (arith, h) in
        let nothing : drop (length bytes) bytes ≡ [] =
          ap (drop (length bytes)) (sym (append-nil bytes))
          ∙ drop-append (length bytes) bytes [] refl in
        let n = (length bytes + 15) / 16 in
        ctr_batches-suc encrypt fuel counter bytes
        ∙ rw (size, nothing, take-all (length bytes) bytes (omega arith))
            (ap (λ (l : List ℕ). xor_bytes bytes (keystream encrypt (length bytes) counter) ++ l)
                (none_left fuel ((counter + n) % 2 ^ 128))
              ∙ append-nil _
              ∙ unfold keystream in keystream-serial n counter bytes (omega arith))
      where
        none_left : (fuel c : ℕ) → ctr_batches encrypt fuel c [] ≡ []
        none_left zero c = unfold ctr_batches in refl
        none_left (suc f) c = unfold ctr_batches in refl

    long :
        (fuel counter : ℕ) (bytes : List ℕ)
        → 128 ≤ length bytes
        → ((c : ℕ)
            → ctr_batches encrypt fuel c (drop 128 bytes)
              ≡ ctr_serial ((length (drop 128 bytes) + 15) / 16) c (drop 128 bytes))
        → ctr_batches encrypt (suc fuel) counter bytes
          ≡ ctr_serial ((length bytes + 15) / 16) counter bytes
    long fuel counter bytes h rest =
        let size : batch_size encrypt bytes ≡ 128 = unfold batch_size in omega (arith, h) in
        let m = (length (drop 128 bytes) + 15) / 16 in
        let all : (length bytes + 15) / 16 ≡ 8 + m = omega (arith, h, length-drop 128 bytes) in
        let front : length (take 128 bytes) ≤ 8 * 16 = omega (arith, length-take 128 bytes) in
        let block : xor_bytes (take 128 bytes) (keystream encrypt 128 counter)
            ≡ ctr_serial 8 counter (take 128 bytes) =
          unfold keystream in keystream-serial 8 counter (take 128 bytes) front in
        ctr_batches-suc encrypt fuel counter bytes
        ∙ rw (size, all)
            (ap₂ (λ (l l' : List ℕ). l ++ l') block
                (rest ((counter + 8) % 2 ^ 128)
                  ∙ ap (λ (c : ℕ). ctr_serial m c (drop 128 bytes))
                      (sym (counter_after_lem 7 counter)))
              ∙ sym (ctr_serial-add 8 m counter bytes))

    ctr_batches-serial :
        (fuel counter : ℕ) (bytes : List ℕ)
        → length bytes ≤ fuel
        → ctr_batches encrypt fuel counter bytes
          ≡ ctr_serial ((length bytes + 15) / 16) counter bytes
    ctr_batches-serial zero counter [] h = unfold ctr_batches ctr_serial in refl
    ctr_batches-serial zero counter (b ∷ bytes) h = absurd (omega (arith, h))
    ctr_batches-serial (suc fuel) counter bytes h = elim (Bool-cases (leb (length bytes) 128)) [
      | inl e ↦ short fuel counter bytes (leb→le (length bytes) 128 e)
      | inr e ↦
          long fuel counter bytes (over (length bytes) e) λ c.
            ctr_batches-serial fuel c (drop 128 bytes) (omega (arith, h, length-drop 128 bytes))
    ]
      where
        over : (n : ℕ) → leb n 128 ≡ false → 128 ≤ n
        over n e = ground arith

    -- Over a block cipher that makes 16 bytes of 16 bytes, CTR in batches of up to 8 blocks is CTR one block
    -- after the other: each 16 bytes of the data, and the shorter rest, under the encryption of the
    -- 128-bit counter, which starts as the initial block read big-endian and goes up by one, with a
    -- wrap, for each block.
    pub ctr_apply-serial :
        (iv bytes : List ℕ)
        → ctr_apply encrypt iv bytes
          ≡ ctr_serial ((length bytes + 15) / 16) (from_be_bytes 0 iv) bytes
    unfolding ctr_apply
    ctr_apply-serial iv bytes =
        ctr_batches-serial (length bytes) (from_be_bytes 0 iv) bytes (omega arith)
