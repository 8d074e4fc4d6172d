-- ===== src/Ssea/Delta.antt =====
-- `delta_decode` sums up what `delta_encode` differenced.
use nextppp.Prelude.{ℕ, suc, ◌+◌, ◌-◌, ◌≡◌, arith, refl, ap}
use nextppp.Prelude.{List, [], ◌∷◌, length, All}
use nextppp.Ssea.{IsByte, u8, delta_encode_from, delta_encode, delta_decode_from, delta_decode}

pub length-delta_encode_from :
    (prev : ℕ) (xs : List ℕ) → length (delta_encode_from prev xs) ≡ length xs
unfolding delta_encode_from
length-delta_encode_from prev [] = refl
length-delta_encode_from prev (x ∷ xs) = ap suc (length-delta_encode_from x xs)

pub length-delta_encode : (xs : List ℕ) (kf : ℕ) → length (delta_encode xs kf) ≡ length xs
unfolding delta_encode
length-delta_encode xs kf = length-delta_encode_from (u8 kf) xs

delta_encode_from-IsByte : (prev : ℕ) (xs : List ℕ) → All IsByte (delta_encode_from prev xs)
unfolding delta_encode_from
delta_encode_from-IsByte prev [] = tt
delta_encode_from-IsByte prev (x ∷ xs) = (omega arith, delta_encode_from-IsByte x xs)

pub delta_encode-IsByte : (xs : List ℕ) (kf : ℕ) → All IsByte (delta_encode xs kf)
unfolding delta_encode
delta_encode-IsByte xs kf = delta_encode_from-IsByte (u8 kf) xs

delta_from_roundtrip :
    (prev : ℕ) (xs : List ℕ)
    → IsByte prev
    → All IsByte xs
    → delta_decode_from prev (delta_encode_from prev xs) ≡ xs
unfolding delta_decode_from delta_encode_from
delta_from_roundtrip prev [] h bs = refl
delta_from_roundtrip prev (x ∷ xs) h (hx, hxs) =
    let back : u8 (prev + u8 (x + 256 - prev)) ≡ x = omega arith in
    rw back (ap (◌∷◌ x) (delta_from_roundtrip x xs hx hxs))

-- Decoding restores every byte slice, at every key.
pub delta_decode-delta_encode :
    (xs : List ℕ) (kf : ℕ) → All IsByte xs → delta_decode (delta_encode xs kf) kf ≡ xs
unfolding delta_decode delta_encode
delta_decode-delta_encode xs kf h = delta_from_roundtrip (u8 kf) xs (omega arith) h

pub length-delta_decode_from :
    (prev : ℕ) (xs : List ℕ) → length (delta_decode_from prev xs) ≡ length xs
unfolding delta_decode_from
length-delta_decode_from prev [] = refl
length-delta_decode_from prev (x ∷ xs) = ap suc (length-delta_decode_from (u8 (prev + x)) xs)

pub length-delta_decode : (xs : List ℕ) (kf : ℕ) → length (delta_decode xs kf) ≡ length xs
unfolding delta_decode
length-delta_decode xs kf = length-delta_decode_from (u8 kf) xs
