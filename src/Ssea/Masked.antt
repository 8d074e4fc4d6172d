-- ===== src/Ssea/Masked.antt =====
-- The evolving mask is its own inverse.
use nextppp.Prelude.{ℕ, ◌%◌, ◌^◌, ◌<◌, ◌≡◌, arith, refl, ap, ap₂, ◌∙◌}
use nextppp.Prelude.{List, [], ◌∷◌, length, All, bit_xor, xor-lt, xor_cancel}
use nextppp.Ssea.{IsByte, IsU32, u8, le32, le16, byte_of, lcg_next}
use nextppp.Ssea.{xor_rest, xor_words, masked_xor_random_next}
use nextppp.Ssea.Lcg.{lcg_next-lt}

-- The bytes of a word give the word back.
le32-byte_of :
    (v : ℕ) → v < 2 ^ 32 → le32 (byte_of v 0) (byte_of v 1) (byte_of v 2) (byte_of v 3) ≡ v
le32-byte_of v h = omega arith

le16-byte_of : (v : ℕ) → v < 2 ^ 16 → le16 (byte_of v 0) (byte_of v 1) ≡ v
le16-byte_of v h = omega arith

byte_of-le32 :
    (a b c d : ℕ)
    → IsByte a
    → IsByte b
    → IsByte c
    → IsByte d
    → let w = le32 a b c d in
      (byte_of w 0 ≡ a) × (byte_of w 1 ≡ b) × (byte_of w 2 ≡ c) × (byte_of w 3 ≡ d)
byte_of-le32 a b c d ha hb hc hd = omega arith

-- A word masked twice is the word.
unmask_word :
    (a b c d kf : ℕ)
    → IsByte a
    → IsByte b
    → IsByte c
    → IsByte d
    → IsU32 kf
    → let v = bit_xor (le32 a b c d) kf in
      bit_xor (le32 (byte_of v 0) (byte_of v 1) (byte_of v 2) (byte_of v 3)) kf ≡ le32 a b c d
unmask_word a b c d kf ha hb hc hd hk =
    let w_lt : le32 a b c d < 2 ^ 32 = omega arith in
    ap (λ t. bit_xor t kf) (le32-byte_of _ (xor-lt 32 (le32 a b c d) kf w_lt hk))
    ∙ xor_cancel (le32 a b c d) kf

unmask_half :
    (a b k : ℕ)
    → IsByte a
    → IsByte b
    → k < 2 ^ 16
    → let v = bit_xor (le16 a b) k in bit_xor (le16 (byte_of v 0) (byte_of v 1)) k ≡ le16 a b
unmask_half a b k ha hb hk =
    ap (λ t. bit_xor t k) (le16-byte_of _ (xor-lt 16 (le16 a b) k (omega arith) hk))
    ∙ xor_cancel (le16 a b) k

xor_rest_twice : (kf : ℕ) (xs : List ℕ) → All IsByte xs → xor_rest kf (xor_rest kf xs) ≡ xs
unfolding xor_rest
xor_rest_twice kf [] h = refl
xor_rest_twice kf (a ∷ []) h = ap (λ t. t ∷ []) (xor_cancel a (u8 kf))
xor_rest_twice kf (a ∷ b ∷ rest) (ha, (hb, hr)) =
    let half = unmask_half a b (kf % 2 ^ 16) ha hb (omega arith) in
    rw (half, xor_rest_twice (lcg_next kf).0 rest hr)
      (ap₂ (λ x y. x ∷ y ∷ rest) (omega arith) (omega arith))

xor_words_twice :
    (xs : List ℕ) (kf : ℕ) → IsU32 kf → All IsByte xs → xor_words kf (xor_words kf xs) ≡ xs
unfolding xor_words xor_rest
xor_words_twice (a ∷ b ∷ c ∷ d ∷ rest) kf hk (ha, (hb, (hc, (hd, hr)))) =
    let word = unmask_word a b c d kf ha hb hc hd hk in
    let next = xor_words_twice rest (lcg_next kf).0 (omega (arith, lcg_next-lt kf)) hr in
    let (e0, e1, e2, e3) = byte_of-le32 a b c d ha hb hc hd in rw (word, next, e0, e1, e2, e3)
xor_words_twice [] kf hk h = xor_rest_twice kf [] h
xor_words_twice (a ∷ []) kf hk h = xor_rest_twice kf (a ∷ []) h
xor_words_twice (a ∷ b ∷ []) kf hk h = xor_rest_twice kf (a ∷ b ∷ []) h
xor_words_twice (a ∷ b ∷ c ∷ []) kf hk h = xor_rest_twice kf (a ∷ b ∷ c ∷ []) h

-- Masking twice from one key restores every byte slice, at every length.
pub masked_xor_random_next_twice :
    (xs : List ℕ) (kf : ℕ)
    → All IsByte xs
    → masked_xor_random_next (masked_xor_random_next xs kf) kf ≡ xs
unfolding masked_xor_random_next
masked_xor_random_next_twice xs kf h =
    xor_words_twice xs (lcg_next kf).0 (omega (arith, lcg_next-lt kf)) h

length-xor_rest : (kf : ℕ) (xs : List ℕ) → length (xor_rest kf xs) ≡ length xs
unfolding xor_rest
length-xor_rest kf [] = refl
length-xor_rest kf (a ∷ []) = refl
length-xor_rest kf (a ∷ b ∷ rest) = omega (arith, length-xor_rest (lcg_next kf).0 rest)

length-xor_words : (xs : List ℕ) (kf : ℕ) → length (xor_words kf xs) ≡ length xs
unfolding xor_words
length-xor_words (a ∷ b ∷ c ∷ d ∷ rest) kf = omega (arith, length-xor_words rest (lcg_next kf).0)
length-xor_words [] kf = length-xor_rest kf []
length-xor_words (a ∷ []) kf = length-xor_rest kf (a ∷ [])
length-xor_words (a ∷ b ∷ []) kf = length-xor_rest kf (a ∷ b ∷ [])
length-xor_words (a ∷ b ∷ c ∷ []) kf = length-xor_rest kf (a ∷ b ∷ c ∷ [])

pub length-masked_xor_random_next :
    (xs : List ℕ) (kf : ℕ) → length (masked_xor_random_next xs kf) ≡ length xs
unfolding masked_xor_random_next
length-masked_xor_random_next xs kf = length-xor_words xs (lcg_next kf).0

xor_rest-IsByte : (kf : ℕ) (xs : List ℕ) → All IsByte xs → All IsByte (xor_rest kf xs)
unfolding xor_rest
xor_rest-IsByte kf [] h = tt
xor_rest-IsByte kf (a ∷ []) (ha, _) = (xor-lt 8 a (u8 kf) ha (omega arith), tt)
xor_rest-IsByte kf (a ∷ b ∷ rest) (ha, (hb, hr)) =
    (omega arith, (omega arith, xor_rest-IsByte (lcg_next kf).0 rest hr))

xor_words-IsByte : (xs : List ℕ) (kf : ℕ) → All IsByte xs → All IsByte (xor_words kf xs)
unfolding xor_words
xor_words-IsByte (a ∷ b ∷ c ∷ d ∷ rest) kf (ha, (hb, (hc, (hd, hr)))) = (
  omega arith,
  (omega arith, (omega arith, (omega arith, xor_words-IsByte rest (lcg_next kf).0 hr))),
)
xor_words-IsByte [] kf h = xor_rest-IsByte kf [] h
xor_words-IsByte (a ∷ []) kf h = xor_rest-IsByte kf (a ∷ []) h
xor_words-IsByte (a ∷ b ∷ []) kf h = xor_rest-IsByte kf (a ∷ b ∷ []) h
xor_words-IsByte (a ∷ b ∷ c ∷ []) kf h = xor_rest-IsByte kf (a ∷ b ∷ c ∷ []) h

pub masked_xor_random_next-IsByte :
    (xs : List ℕ) (kf : ℕ) → All IsByte xs → All IsByte (masked_xor_random_next xs kf)
unfolding masked_xor_random_next
masked_xor_random_next-IsByte xs kf h = xor_words-IsByte xs (lcg_next kf).0 h
