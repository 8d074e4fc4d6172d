-- ===== src/Modes/Ctr.antt =====
-- CTR: the keystream depends on the initial block alone, so it is its own inverse.
use nextppp.Prelude.{ℕ, zero, suc, ◌+◌, ◌/◌, ◌%◌, ◌^◌, ◌≤◌, ◌≡◌, min, arith, refl, ap, ◌∙◌}
use nextppp.Prelude.{List, [], ◌∷◌, ◌++◌, map, length, take, drop, length-append, length-take}
use nextppp.Prelude.{length-drop, take-append, drop-append, take-append-drop}
use nextppp.Modes.{xor_bytes, flatten, counter_blocks, ctr_batches, ctr_apply, from_be_bytes}
use nextppp.Modes.Cfb.{xor_bytes_twice, length-xor_bytes}

module _ (encrypt : List ℕ → List ℕ) where
  -- The keystream of a batch of `taken` bytes.
  unfoldable pub keystream : ℕ → ℕ → List ℕ
  keystream taken counter = flatten (map encrypt (counter_blocks ((taken + 15) / 16) counter))

  unfoldable pub batch_size : List ℕ → ℕ
  batch_size bytes = min (length bytes) 128

  -- One round of the loop.
  pub ctr_batches-suc :
      (fuel counter : ℕ) (bytes : List ℕ)
      → ctr_batches encrypt (suc fuel) counter bytes
        ≡ xor_bytes (take (batch_size bytes) bytes) (keystream (batch_size bytes) counter)
          ++ ctr_batches encrypt fuel
              ((counter + (batch_size bytes + 15) / 16) % 2 ^ 128)
              (drop (batch_size bytes) bytes)
  unfolding ctr_batches keystream batch_size
  ctr_batches-suc fuel counter [] = unfold xor_bytes in refl
  ctr_batches-suc fuel counter (b ∷ rest) = refl

  length-ctr_batches :
      (fuel counter : ℕ) (bytes : List ℕ)
      → length (ctr_batches encrypt fuel counter bytes) ≡ length bytes
  length-ctr_batches zero counter [] = unfold ctr_batches in refl
  length-ctr_batches zero counter (b ∷ rest) = unfold ctr_batches in refl
  length-ctr_batches (suc fuel) counter bytes =
      let t : ℕ = batch_size bytes in
      let c : ℕ = (counter + (t + 15) / 16) % 2 ^ 128 in
      let front : List ℕ = xor_bytes (take t bytes) (keystream t counter) in
      let size : t ≤ length bytes = unfold batch_size in omega arith in
      omega (
        arith,
        ap length (ctr_batches-suc fuel counter bytes),
        length-append front (ctr_batches encrypt fuel c (drop t bytes)),
        length-xor_bytes (take t bytes) (keystream t counter),
        length-take t bytes,
        length-drop t bytes,
        length-ctr_batches fuel c (drop t bytes),
        size,
      )

  ctr_batches_twice :
      (fuel counter : ℕ) (bytes : List ℕ)
      → length bytes ≤ fuel
      → ctr_batches encrypt fuel counter (ctr_batches encrypt fuel counter bytes) ≡ bytes
  unfolding ctr_batches
  ctr_batches_twice zero counter [] h = refl
  ctr_batches_twice zero counter (b ∷ rest) h = refl
  ctr_batches_twice (suc fuel) counter bytes h =
      let t : ℕ = batch_size bytes in
      let c : ℕ = (counter + (t + 15) / 16) % 2 ^ 128 in
      let ks : List ℕ = keystream t counter in
      let front : List ℕ = xor_bytes (take t bytes) ks in
      let rest : List ℕ = ctr_batches encrypt fuel c (drop t bytes) in
      let size : t ≡ min (length bytes) 128 = unfold batch_size in refl in
      let front_len : length front ≡ t =
        omega (arith, length-xor_bytes (take t bytes) ks, length-take t bytes, size) in
      let out_len : length (front ++ rest) ≡ length bytes = omega (
        arith,
        front_len,
        length-append front rest,
        length-ctr_batches fuel c (drop t bytes),
        length-drop t bytes,
        size,
      ) in
      let same_size : batch_size (front ++ rest) ≡ t =
        unfold batch_size in ap (λ (l : ℕ). min l 128) out_len in
      ap (ctr_batches encrypt (suc fuel) counter) (ctr_batches-suc fuel counter bytes)
      ∙ ctr_batches-suc fuel counter (front ++ rest)
      ∙ rw
          (
            same_size,
            take-append t front rest front_len,
            drop-append t front rest front_len,
            xor_bytes_twice (take t bytes) ks,
            ctr_batches_twice fuel c (drop t bytes) (omega (arith, length-drop t bytes, size)),
          )
          (take-append-drop t bytes)

  pub length-ctr_apply : (iv bytes : List ℕ) → length (ctr_apply encrypt iv bytes) ≡ length bytes
  unfolding ctr_apply
  length-ctr_apply iv bytes = length-ctr_batches (length bytes) (from_be_bytes 0 iv) bytes

  -- Applied twice from one initial block, CTR restores data of every length.
  pub ctr_apply_twice :
      (iv bytes : List ℕ) → ctr_apply encrypt iv (ctr_apply encrypt iv bytes) ≡ bytes
  unfolding ctr_apply
  ctr_apply_twice iv bytes =
      rw (length-ctr_batches (length bytes) (from_be_bytes 0 iv) bytes)
        (ctr_batches_twice (length bytes) (from_be_bytes 0 iv) bytes (omega arith))
