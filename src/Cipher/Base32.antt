-- ===== src/Cipher/Base32.antt =====
-- The base-32 digits of an ivv and the keying material that they enter.
use nextppp.Prelude.{
  ℕ, zero, suc, ◌+◌, ◌-◌, ◌*◌, ◌/◌, ◌%◌, ◌^◌, ◌<◌, ◌≡◌, arith, refl, sym, ap, ◌∙◌,
}
use nextppp.Prelude.{
  bit_and, and_mask, leb, ◌==◌, ==_iff, if◌then◌else◌, holds_below, holds_below_at,
}
use nextppp.Prelude.{
  List, [], ◌∷◌, length, drop, drop-append, some, Bool-cases, inl, inr, lt→ltb, true,
}
use nextppp.Cipher.{base32_digit, base32_loop, encode_base32, keying_material}
use mathlib.Core.List.{reverse, reverse-reverse}
use native.Mathlib.Nat.{pow-suc}

-- The value of a digit, and of the digits from the lowest on.
digit_value : ℕ → ℕ
digit_value c = if leb c b'9' then c - b'0' else c + 10 - b'a'

lowest_first : List ℕ → ℕ
lowest_first [] = 0
lowest_first (d ∷ ds) = digit_value d + 32 * lowest_first ds

-- The number that a text of base-32 digits writes.
pub base32_value : List ℕ → ℕ
base32_value text = lowest_first (reverse text)

digit_table : holds_below 32 (λ d. digit_value (base32_digit d) == d) ≡ true
unfolding holds_below digit_value base32_digit
digit_table = refl

digit_value-base32_digit : (d : ℕ) → d < 32 → digit_value (base32_digit d) ≡ d
digit_value-base32_digit d h =
    (==_iff _ d).0 (holds_below_at 32 (λ d. digit_value (base32_digit d) == d) d digit_table h)

lowest_first-base32_loop : (fuel v : ℕ) → v < 32 ^ fuel → lowest_first (base32_loop fuel v) ≡ v
unfolding base32_loop lowest_first
lowest_first-base32_loop zero v h = omega arith
lowest_first-base32_loop (suc fuel) v h =
    let digit : digit_value (base32_digit (bit_and v 31)) ≡ v % 32 =
      rw (and_mask 5 v) (digit_value-base32_digit (v % 32) (omega arith)) in
    let rest = lowest_first-base32_loop fuel (v / 32) (omega (arith, pow-suc 32 fuel)) in
    elim (Bool-cases (v / 32 == 0)) [
      | inl last ↦ rw last (omega (arith, digit, (==_iff _ _).0 last))
      | inr more ↦ rw (more, rest) (omega (arith, digit))
    ]

-- Every 128-bit number is the value of its base-32 text.
pub base32_value-encode_base32 : (v : ℕ) → v < 2 ^ 128 → base32_value (encode_base32 v) ≡ v
unfolding base32_value encode_base32
base32_value-encode_base32 v h =
    rw (reverse-reverse (base32_loop 26 v)) (lowest_first-base32_loop 26 v (omega arith))

-- Two connections with one password and different ivvs have different keying material.
pub keying_material_injective :
    (password : List ℕ) (v w : ℕ)
    → 0 < v
    → v < 2 ^ 128
    → 0 < w
    → w < 2 ^ 128
    → keying_material password (some v) ≡ keying_material password (some w)
    → v ≡ w
unfolding keying_material
keying_material_injective password v w v_pos v_lt w_pos w_lt e =
    let tails = rw (lt→ltb 0 v v_pos, lt→ltb 0 w w_pos) at e in
    let n : ℕ = length password in
    let cut =
      sym (drop-append n password (b'+' ∷ encode_base32 v) refl)
      ∙ ap (drop n) tails
      ∙ drop-append n password (b'+' ∷ encode_base32 w) refl in
    let digits : encode_base32 v ≡ encode_base32 w = ap (drop 1) cut in
    sym (base32_value-encode_base32 v v_lt)
    ∙ ap base32_value digits
    ∙ base32_value-encode_base32 w w_lt
