-- ===== src/Modes/Bytes.antt =====
-- The modes turn bytes into bytes where the block cipher yields bytes.
use nextppp.Prelude.{ℕ, zero, suc, ◌≡◌, refl, ap, ◌+◌, ◌/◌, ◌%◌, ◌^◌, min, xor-lt}
use nextppp.Prelude.{List, [], ◌∷◌, map, length, take, drop, All, All-append, All-take, All-drop}
use nextppp.Ssea.{IsByte}
use nextppp.Modes.{xor_bytes, flatten, counter_blocks, xor_tail, cfb_encrypt_chunks, cfb_encrypt}
use nextppp.Modes.{ctr_batches, ctr_apply, from_be_bytes, to_be_bytes}

pub xor_bytes-IsByte :
    (xs ks : List ℕ) → All IsByte xs → All IsByte ks → All IsByte (xor_bytes xs ks)
unfolding xor_bytes
xor_bytes-IsByte [] ks h k = tt
xor_bytes-IsByte (b ∷ bs) [] h k = h
xor_bytes-IsByte (b ∷ bs) (x ∷ xs) (hb, hbs) (hx, hxs) =
    (xor-lt 8 b x hb hx, xor_bytes-IsByte bs xs hbs hxs)

module _ (encrypt : List ℕ → List ℕ) (bytes_out : (b : List ℕ) → All IsByte (encrypt b)) where
  flatten-IsByte : (blocks : List (List ℕ)) → All IsByte (flatten (map encrypt blocks))
  unfolding flatten
  flatten-IsByte [] = tt
  flatten-IsByte (b ∷ bs) =
      All-append IsByte (encrypt b) (flatten (map encrypt bs)) (bytes_out b) (flatten-IsByte bs)

  cfb_encrypt_chunks-IsByte :
      (n : ℕ) (fb xs : List ℕ) → All IsByte xs → All IsByte (cfb_encrypt_chunks encrypt n fb xs)
  unfolding cfb_encrypt_chunks xor_tail
  cfb_encrypt_chunks-IsByte zero fb [] h = tt
  cfb_encrypt_chunks-IsByte zero fb (x ∷ xs) h =
      xor_bytes-IsByte (x ∷ xs) (encrypt fb) h (bytes_out fb)
  cfb_encrypt_chunks-IsByte (suc n) fb xs h =
      let ct : List ℕ = xor_bytes (take 16 xs) (encrypt fb) in
      All-append IsByte ct (cfb_encrypt_chunks encrypt n ct (drop 16 xs))
        (xor_bytes-IsByte (take 16 xs) (encrypt fb) (All-take IsByte 16 xs h) (bytes_out fb))
        (cfb_encrypt_chunks-IsByte n ct (drop 16 xs) (All-drop IsByte 16 xs h))

  pub cfb_encrypt-IsByte : (iv xs : List ℕ) → All IsByte xs → All IsByte (cfb_encrypt encrypt iv xs)
  unfolding cfb_encrypt
  cfb_encrypt-IsByte iv xs h = cfb_encrypt_chunks-IsByte (length xs / 16) iv xs h

  ctr_batches-IsByte :
      (fuel counter : ℕ) (xs : List ℕ)
      → All IsByte xs
      → All IsByte (ctr_batches encrypt fuel counter xs)
  unfolding ctr_batches
  ctr_batches-IsByte fuel counter [] h = tt
  ctr_batches-IsByte zero counter (x ∷ xs) h = h
  ctr_batches-IsByte (suc fuel) counter (x ∷ xs) h =
      let bytes : List ℕ = x ∷ xs in
      let t : ℕ = min (length bytes) 128 in
      let n : ℕ = (t + 15) / 16 in
      let c : ℕ = (counter + n) % 2 ^ 128 in
      let ks : List ℕ = flatten (map encrypt (counter_blocks n counter)) in
      All-append IsByte (xor_bytes (take t bytes) ks) (ctr_batches encrypt fuel c (drop t bytes))
        (xor_bytes-IsByte (take t bytes) ks (All-take IsByte t bytes h)
          (flatten-IsByte (counter_blocks n counter)))
        (ctr_batches-IsByte fuel c (drop t bytes) (All-drop IsByte t bytes h))

  pub ctr_apply-IsByte : (iv xs : List ℕ) → All IsByte xs → All IsByte (ctr_apply encrypt iv xs)
  unfolding ctr_apply
  ctr_apply-IsByte iv xs h = ctr_batches-IsByte (length xs) (from_be_bytes 0 iv) xs h

pub length-to_be_bytes : (n v : ℕ) → length (to_be_bytes n v) ≡ n
unfolding to_be_bytes
length-to_be_bytes zero v = refl
length-to_be_bytes (suc n) v = ap suc (length-to_be_bytes n v)
