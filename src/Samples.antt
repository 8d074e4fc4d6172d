-- ===== src/Samples.antt =====
-- Concrete values of what the model leaves open, for the tests of all parts.
use nextppp.Prelude.{
  ℕ, zero, suc, ◌+◌, ◌-◌, ◌*◌, ◌/◌, ◌%◌, ◌^◌, ◌<◌, ◌≡◌, arith, refl, ap, ◌∙◌, two-pow-pos,
}
use nextppp.Prelude.{Option, none, some, List, [], ◌∷◌, ◌++◌, length, replicate, All, get_or}
use nextppp.Ssea.{IsByte}
use nextppp.Errors.{Rng}
use nextppp.Cipher.{Backend}
use nextppp.Base94.Defs.{Codec, IsPrintable}

-- A block cipher that only mixes in the key's first byte.
pub keystream-IsByte : (x n : ℕ) → All IsByte (replicate n (x % 256))
keystream-IsByte x zero = tt
keystream-IsByte x (suc n) = (omega arith, keystream-IsByte x n)

abbrev pub plain_backend : Backend
plain_backend = record {
  aes_block = λ key block. replicate 16 ((get_or key 0 0 + get_or block 8 0) % 256);
  chacha20_keystream = λ key nonce n. replicate n (get_or key 0 0 % 256);
  hkdf_sha256 = λ salt ikm info n. replicate n 90;
  aes_block-IsByte = λ key block. keystream-IsByte (get_or key 0 0 + get_or block 8 0) 16;
  chacha20_keystream-IsByte = λ key nonce n. keystream-IsByte (get_or key 0 0) n;
}

-- A byte as two characters, its halves from 0x20 on.
pub two_characters : List ℕ → List ℕ
two_characters [] = []
two_characters (b ∷ bs) = (b / 16 % 16 + 0x20) ∷ (b % 16 + 0x20) ∷ two_characters bs

pub with_byte : ℕ → Option (List ℕ) → Option (List ℕ)
with_byte b none = none
with_byte b (some bs) = some (b ∷ bs)

pub from_two : List ℕ → Option (List ℕ)
from_two [] = some []
from_two (_ ∷ []) = none
from_two (a ∷ b ∷ cs) = with_byte ((a - 0x20) * 16 + (b - 0x20)) (from_two cs)

pub length-two_characters : (bytes : List ℕ) → length (two_characters bytes) ≡ 2 * length bytes
unfolding two_characters
length-two_characters [] = refl
length-two_characters (b ∷ bs) = omega (arith, length-two_characters bs)

pub from_two-two_characters :
    (bytes : List ℕ) → All IsByte bytes → from_two (two_characters bytes) ≡ some bytes
unfolding from_two two_characters with_byte
from_two-two_characters [] h = refl
from_two-two_characters (b ∷ bs) (hb, hs) = rw (from_two-two_characters bs hs) (
    ap {B = Option (List ℕ)} (λ x. some (x ∷ bs))
      {x = (b / 16 % 16 + 0x20 - 0x20) * 16 + (b % 16 + 0x20 - 0x20)} {y = b} (omega arith))

pub two_characters-IsPrintable : (bytes : List ℕ) → All IsPrintable (two_characters bytes)
unfolding two_characters
two_characters-IsPrintable [] = tt
two_characters-IsPrintable (b ∷ bs) =
    ((omega arith, omega arith), ((omega arith, omega arith), two_characters-IsPrintable bs))

-- Three digits to the base 94.
pub three_digits : ℕ → List ℕ
three_digits n = (n / 94 / 94 % 94 + 0x20) ∷ (n / 94 % 94 + 0x20) ∷ (n % 94 + 0x20) ∷ []

pub digits_value : ℕ → List ℕ → ℕ
digits_value acc [] = acc
digits_value acc (c ∷ cs) = digits_value (acc * 94 + (c - 0x20)) cs

pub digits_value-zeros :
    (k : ℕ) (cs : List ℕ) → digits_value 0 (replicate k 0x20 ++ cs) ≡ digits_value 0 cs
unfolding digits_value
digits_value-zeros zero cs = refl
digits_value-zeros (suc k) cs = digits_value-zeros k cs

pub digits_value-three_digits : (n : ℕ) → n < 94 ^ 3 → digits_value 0 (three_digits n) ≡ n
unfolding digits_value three_digits
digits_value-three_digits n h = omega arith

pub length-three_digits : (n : ℕ) → length (three_digits n) ≡ 3
unfolding three_digits
length-three_digits n = refl

pub three_digits-IsPrintable : (n : ℕ) → All IsPrintable (three_digits n)
unfolding three_digits
three_digits-IsPrintable n =
    ((omega arith, omega arith), ((omega arith, omega arith), ((omega arith, omega arith), tt)))

abbrev pub plain_codec : Codec
plain_codec = record {
  encoded_len = λ bytes kf. 2 * length bytes;
  encode = λ bytes kf. two_characters bytes;
  decode = λ chars kf. from_two chars;
  decimal_encode = three_digits;
  decimal_decode = λ digits. some (digits_value 0 digits);
  length-encode = λ bytes kf. length-two_characters bytes;
  encoded_len_bounds = λ bytes kf. (omega arith, omega arith);
  decode-encode = λ bytes kf h. from_two-two_characters bytes h;
  encode-IsPrintable = λ bytes kf. two_characters-IsPrintable bytes;
  decimal_size = λ n. omega (arith, length-three_digits n);
  decimal_size_le_three = λ n h. omega (arith, length-three_digits n);
  decimal_decode-decimal_encode = λ zeros n h.
      ap {B = Option ℕ} some
        (digits_value-zeros zeros (three_digits n) ∙ digits_value-three_digits n h);
  decimal-IsPrintable = three_digits-IsPrintable;
}

-- The generator that draws the least number it may.
abbrev pub least_rng : Rng
least_rng = record {
  State = ℕ;
  range = λ lo hi s. (lo, s);
  bits = λ w s. (0, s);
  range_bounds = λ lo hi s h. (omega arith, h);
  bits-lt = λ w s. two-pow-pos w;
}
