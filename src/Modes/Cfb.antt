-- ===== src/Modes/Cfb.antt =====
-- CFB: the batched decryption is the serial one, which undoes the encryption.
use nextppp.Prelude.{
  ℕ, zero, suc, ◌+◌, ◌-◌, ◌*◌, ◌/◌, ◌≤◌, ◌<◌, ◌≡◌, min, arith, refl, sym, ap, ap₂, ◌∙◌,
}
use nextppp.Prelude.{List, [], ◌∷◌, ◌++◌, map, length, take, drop, append_assoc, xor_cancel}
use nextppp.Prelude.{length-append, length-take, drop-drop, length-drop, take-append, drop-append}
use nextppp.Prelude.{take-append-drop}
use nextppp.Modes.{xor_bytes, xor_tail, cfb_encrypt_chunks, cfb_encrypt, feedbacks, xor_blocks}
use native.Mathlib.Nat.{zero-add, suc-add}
use nextppp.Modes.{cfb_decrypt_batches, cfb_decrypt}

pub xor_bytes_twice : (xs ks : List ℕ) → xor_bytes (xor_bytes xs ks) ks ≡ xs
unfolding xor_bytes
xor_bytes_twice [] ks = refl
xor_bytes_twice (b ∷ bs) [] = refl
xor_bytes_twice (b ∷ bs) (k ∷ ks) = ap₂ ◌∷◌ (xor_cancel b k) (xor_bytes_twice bs ks)

pub length-xor_bytes : (xs ks : List ℕ) → length (xor_bytes xs ks) ≡ length xs
unfolding xor_bytes
length-xor_bytes [] ks = refl
length-xor_bytes (b ∷ bs) [] = refl
length-xor_bytes (b ∷ bs) (k ∷ ks) = ap suc (length-xor_bytes bs ks)

module _ (encrypt : List ℕ → List ℕ) where
  -- Decryption block by block, with no batches.
  pub cfb_decrypt_serial : ℕ → List ℕ → List ℕ → List ℕ
  cfb_decrypt_serial zero prev bytes = xor_tail encrypt prev bytes
  cfb_decrypt_serial (suc n) prev bytes =
      xor_bytes (take 16 bytes) (encrypt prev)
      ++ cfb_decrypt_serial n (take 16 bytes) (drop 16 bytes)

  xor_tail-xor_bytes : (fb xs : List ℕ) → xor_tail encrypt fb xs ≡ xor_bytes xs (encrypt fb)
  unfolding xor_tail
  xor_tail-xor_bytes fb [] = unfold xor_bytes in refl
  xor_tail-xor_bytes fb (b ∷ bs) = refl

  xor_tail_twice : (fb xs : List ℕ) → xor_tail encrypt fb (xor_tail encrypt fb xs) ≡ xs
  xor_tail_twice fb xs =
      rw (xor_tail-xor_bytes fb xs, xor_tail-xor_bytes fb (xor_bytes xs (encrypt fb)))
        (xor_bytes_twice xs (encrypt fb))

  -- The last ciphertext block of the first `n`, `prev` if there is none.
  last_block : ℕ → List ℕ → List ℕ → List ℕ
  last_block zero prev bytes = prev
  last_block (suc n) prev bytes = take 16 (drop (n * 16) bytes)

  drop_block : (n : ℕ) (bytes : List ℕ) → drop (n * 16) (drop 16 bytes) ≡ drop (suc n * 16) bytes
  drop_block n bytes =
      drop-drop (n * 16) 16 bytes
      ∙ ap (λ (t : ℕ). drop t bytes) {x = 16 + n * 16} {y = suc n * 16} (omega arith)

  last_block-suc :
      (n : ℕ) (prev bytes : List ℕ)
      → last_block n (take 16 bytes) (drop 16 bytes) ≡ last_block (suc n) prev bytes
  unfolding last_block
  last_block-suc zero prev bytes = refl
  last_block-suc (suc n) prev bytes = ap (take 16) (drop_block n bytes)

  -- The serial decryption does its first `n` blocks as a batch would.
  serial_batch :
      (n m : ℕ) (prev bytes : List ℕ)
      → cfb_decrypt_serial (n + m) prev bytes
        ≡ xor_blocks (map encrypt (feedbacks n prev bytes)) bytes
          ++ cfb_decrypt_serial m (last_block n prev bytes) (drop (n * 16) bytes)
  unfolding cfb_decrypt_serial xor_blocks feedbacks
  serial_batch zero m prev bytes = rw (zero-add m) (unfold last_block in refl)
  serial_batch (suc n) m prev bytes = rw (suc-add n m) (
      rw
        (
          serial_batch n m (take 16 bytes) (drop 16 bytes),
          last_block-suc n prev bytes,
          drop_block n bytes,
        )
        (sym (append_assoc (xor_bytes (take 16 bytes) (encrypt prev)) _ _)))

  last_block_pos :
      (n : ℕ) (prev bytes : List ℕ)
      → 0 < n
      → last_block n prev bytes ≡ take 16 (drop ((n - 1) * 16) bytes)
  unfolding last_block
  last_block_pos zero prev bytes h = absurd (omega arith)
  last_block_pos (suc n) prev bytes h =
      ap (λ (t : ℕ). take 16 (drop t bytes)) {x = n * 16} {y = (suc n - 1) * 16} (omega arith)

  -- Batches of eight blocks decrypt as one block after the other does.
  pub cfb_decrypt_batches-serial :
      (fuel left : ℕ) (prev bytes : List ℕ)
      → left ≤ fuel
      → cfb_decrypt_batches encrypt fuel left prev bytes ≡ cfb_decrypt_serial left prev bytes
  unfolding cfb_decrypt_batches
  cfb_decrypt_batches-serial fuel zero prev bytes h = unfold cfb_decrypt_serial in refl
  cfb_decrypt_batches-serial zero (suc left) prev bytes h = absurd (omega arith)
  cfb_decrypt_batches-serial (suc fuel) (suc left) prev bytes h =
      let n : ℕ = min (suc left) 8 in
      let m : ℕ = suc left - n in
      let pos : 0 < n = omega arith in
      let rest =
        cfb_decrypt_batches-serial fuel m (last_block n prev bytes) (drop (n * 16) bytes)
          (omega arith) in
      rw (sym (last_block_pos n prev bytes pos), rest)
        (sym (serial_batch n m prev bytes)
          ∙ ap (λ (t : ℕ). cfb_decrypt_serial t prev bytes) {x = n + m} {y = suc left}
              (omega arith))

  length-take_block :
      (n : ℕ) (bytes : List ℕ) → suc n * 16 ≤ length bytes → length (take 16 bytes) ≡ 16
  length-take_block n bytes h = omega (arith, length-take 16 bytes)

  -- Block by block, what was encrypted comes back.
  serial-encrypt :
      (n : ℕ) (fb bytes : List ℕ)
      → n * 16 ≤ length bytes
      → cfb_decrypt_serial n fb (cfb_encrypt_chunks encrypt n fb bytes) ≡ bytes
  unfolding cfb_decrypt_serial cfb_encrypt_chunks
  serial-encrypt zero fb bytes h = xor_tail_twice fb bytes
  serial-encrypt (suc n) fb bytes h =
      let block : List ℕ = take 16 bytes in
      let ct : List ℕ = xor_bytes block (encrypt fb) in
      let ct_len = length-xor_bytes block (encrypt fb) ∙ length-take_block n bytes h in
      let rest : List ℕ = cfb_encrypt_chunks encrypt n ct (drop 16 bytes) in
      let enough : n * 16 ≤ length (drop 16 bytes) = omega (arith, length-drop 16 bytes) in
      rw
        (
          take-append 16 ct rest ct_len,
          drop-append 16 ct rest ct_len,
          xor_bytes_twice block (encrypt fb),
          serial-encrypt n ct (drop 16 bytes) enough,
        )
        (take-append-drop 16 bytes)

  length-xor_tail : (fb xs : List ℕ) → length (xor_tail encrypt fb xs) ≡ length xs
  length-xor_tail fb xs = ap length (xor_tail-xor_bytes fb xs) ∙ length-xor_bytes xs (encrypt fb)

  length-cfb_encrypt_chunks :
      (n : ℕ) (fb bytes : List ℕ)
      → n * 16 ≤ length bytes
      → length (cfb_encrypt_chunks encrypt n fb bytes) ≡ length bytes
  unfolding cfb_encrypt_chunks
  length-cfb_encrypt_chunks zero fb bytes h = length-xor_tail fb bytes
  length-cfb_encrypt_chunks (suc n) fb bytes h =
      let block : List ℕ = take 16 bytes in
      let ct : List ℕ = xor_bytes block (encrypt fb) in
      omega (
        arith,
        length-append ct (cfb_encrypt_chunks encrypt n ct (drop 16 bytes)),
        length-xor_bytes block (encrypt fb),
        length-take 16 bytes,
        length-drop 16 bytes,
        length-cfb_encrypt_chunks n ct (drop 16 bytes),
      )

  pub length-cfb_encrypt :
      (iv bytes : List ℕ) → length (cfb_encrypt encrypt iv bytes) ≡ length bytes
  unfolding cfb_encrypt
  length-cfb_encrypt iv bytes = length-cfb_encrypt_chunks (length bytes / 16) iv bytes (omega arith)

  -- Decryption in batches undoes the encryption under the same block cipher and initial block, for
  -- data of every length.
  pub cfb_decrypt-cfb_encrypt :
      (iv bytes : List ℕ) → cfb_decrypt encrypt iv (cfb_encrypt encrypt iv bytes) ≡ bytes
  unfolding cfb_decrypt
  cfb_decrypt-cfb_encrypt iv bytes =
      let n : ℕ = length bytes / 16 in
      rw
        (
          length-cfb_encrypt iv bytes,
          cfb_decrypt_batches-serial n n iv (cfb_encrypt encrypt iv bytes) (omega arith),
        )
        (unfold cfb_encrypt in serial-encrypt n iv bytes (omega arith))

  length-cfb_decrypt_serial :
      (n : ℕ) (prev bytes : List ℕ)
      → n * 16 ≤ length bytes
      → length (cfb_decrypt_serial n prev bytes) ≡ length bytes
  unfolding cfb_decrypt_serial
  length-cfb_decrypt_serial zero prev bytes h = length-xor_tail prev bytes
  length-cfb_decrypt_serial (suc n) prev bytes h = omega (
    arith,
    length-append (xor_bytes (take 16 bytes) (encrypt prev))
        (cfb_decrypt_serial n (take 16 bytes) (drop 16 bytes)),
    length-xor_bytes (take 16 bytes) (encrypt prev),
    length-take 16 bytes,
    length-drop 16 bytes,
    length-cfb_decrypt_serial n (take 16 bytes) (drop 16 bytes)
        (omega (arith, length-drop 16 bytes)),
  )

  pub length-cfb_decrypt :
      (iv bytes : List ℕ) → length (cfb_decrypt encrypt iv bytes) ≡ length bytes
  unfolding cfb_decrypt
  length-cfb_decrypt iv bytes =
      let nb : ℕ = length bytes / 16 in
      ap length (cfb_decrypt_batches-serial nb nb iv bytes (omega arith))
      ∙ length-cfb_decrypt_serial nb iv bytes (omega arith)
