-- ===== src/Handshake/Mask.antt =====
-- The four rounds of the mask are one mask, in which the key has no part.
use nextppp.Prelude.{ℕ, ◌≡◌, arith, refl, sym, ap, ap₂, ◌∙◌, bit_xor, xor_assoc}
use nextppp.Prelude.{
  xor-zero, xor_self, zero-xor, xor-mod, xor-lt, List, [], ◌∷◌, map, length, length-map, All,
}
use nextppp.Ssea.{u8, IsByte}
use nextppp.Handshake.{mask_rounds}

-- The mask that the rounds make together.
total_mask : ℕ → List ℕ → ℕ
total_mask kf [] = 0
total_mask kf (k ∷ ks) = bit_xor (u8 (bit_xor kf k)) (total_mask (bit_xor kf k) ks)

abbrev masked : ℕ → List ℕ → List ℕ
masked m = map (λ b. bit_xor b m)

masked-zero : (body : List ℕ) → masked 0 body ≡ body
masked-zero [] = refl
masked-zero (b ∷ bs) = ap₂ ◌∷◌ (xor-zero b) (masked-zero bs)

masked_masked : (m n : ℕ) (body : List ℕ) → masked n (masked m body) ≡ masked (bit_xor m n) body
masked_masked m n [] = refl
masked_masked m n (b ∷ bs) = ap₂ ◌∷◌ (xor_assoc b m n) (masked_masked m n bs)

mask_rounds-masked :
    (kf : ℕ) (ks body : List ℕ) → mask_rounds kf ks body ≡ masked (total_mask kf ks) body
unfolding mask_rounds total_mask
mask_rounds-masked kf [] body = sym (masked-zero body)
mask_rounds-masked kf (k ∷ ks) body =
    let kf' : ℕ = bit_xor kf k in
    mask_rounds-masked kf' ks (masked (u8 kf') body)
    ∙ masked_masked (u8 kf') (total_mask kf' ks) body

-- Unmasking is masking again.
pub mask_rounds_twice :
    (kf : ℕ) (ks body : List ℕ) → mask_rounds kf ks (mask_rounds kf ks body) ≡ body
mask_rounds_twice kf ks body =
    let m : ℕ = total_mask kf ks in
    rw
      (
        mask_rounds-masked kf ks body,
        mask_rounds-masked kf ks (masked m body),
        masked_masked m m body,
        xor_self m,
      )
      (masked-zero body)

-- What two rounds have in common cancels.
total_mask_pair :
    (kf j k : ℕ) (ks : List ℕ)
    → total_mask kf (j ∷ k ∷ ks) ≡ bit_xor (u8 k) (total_mask (bit_xor (bit_xor kf j) k) ks)
unfolding total_mask
total_mask_pair kf j k ks =
    let x : ℕ = u8 (bit_xor kf j) in
    let rest : ℕ = total_mask (bit_xor (bit_xor kf j) k) ks in
    rw (xor-mod 8 (bit_xor kf j) k) (
      sym (xor_assoc x (bit_xor x (u8 k)) rest)
      ∙ ap (λ t. bit_xor t rest)
          (sym (xor_assoc x x (u8 k)) ∙ ap (λ t. bit_xor t (u8 k)) (xor_self x))
      ∙ ap (λ t. bit_xor t rest) (zero-xor (u8 k)))

four_keys :
    (kf a b c d : ℕ) → total_mask kf (a ∷ b ∷ c ∷ d ∷ []) ≡ bit_xor (u8 b) (bit_xor (u8 d) 0)
four_keys kf a b c d =
    total_mask_pair kf a b (c ∷ d ∷ [])
    ∙ ap (bit_xor (u8 b))
        (total_mask_pair (bit_xor (bit_xor kf a) b) c d [] ∙ (unfold total_mask in refl))

-- The key cancels over the four rounds: every key masks a body the same way.
pub mask_rounds_any_key :
    (kf kf' a b c d : ℕ) (body : List ℕ)
    → mask_rounds kf (a ∷ b ∷ c ∷ d ∷ []) body ≡ mask_rounds kf' (a ∷ b ∷ c ∷ d ∷ []) body
mask_rounds_any_key kf kf' a b c d body =
    let ks : List ℕ = a ∷ b ∷ c ∷ d ∷ [] in
    mask_rounds-masked kf ks body
    ∙ ap (λ m. masked m body) (four_keys kf a b c d ∙ sym (four_keys kf' a b c d))
    ∙ sym (mask_rounds-masked kf' ks body)

pub length-mask_rounds : (kf : ℕ) (ks body : List ℕ) → length (mask_rounds kf ks body) ≡ length body
length-mask_rounds kf ks body =
    ap length (mask_rounds-masked kf ks body) ∙ length-map (λ b. bit_xor b (total_mask kf ks)) body

masked-IsByte : (m : ℕ) (body : List ℕ) → IsByte m → All IsByte body → All IsByte (masked m body)
masked-IsByte m [] hm h = tt
masked-IsByte m (b ∷ bs) hm (hb, hs) = (xor-lt 8 b m hb hm, masked-IsByte m bs hm hs)

total_mask-IsByte : (kf : ℕ) (ks : List ℕ) → IsByte (total_mask kf ks)
unfolding total_mask
total_mask-IsByte kf [] = omega arith
total_mask-IsByte kf (k ∷ ks) =
    xor-lt 8 (u8 (bit_xor kf k)) (total_mask (bit_xor kf k) ks) (omega arith)
      (total_mask-IsByte (bit_xor kf k) ks)

pub mask_rounds-IsByte :
    (kf : ℕ) (ks body : List ℕ) → All IsByte body → All IsByte (mask_rounds kf ks body)
mask_rounds-IsByte kf ks body h =
    rw (mask_rounds-masked kf ks body)
      (masked-IsByte (total_mask kf ks) body (total_mask-IsByte kf ks) h)
