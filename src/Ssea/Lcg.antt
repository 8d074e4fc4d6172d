-- ===== src/Ssea/Lcg.antt =====
-- `lcg_next` against the three chained steps that it restructures (the reference of the source's
-- own test), and the ranges of both samplers.
use nextppp.Prelude.{ℕ, ◌+◌, ◌-◌, ◌*◌, ◌/◌, ◌%◌, ◌^◌, ◌≤◌, ◌<◌}
use nextppp.Prelude.{bit_and, bit_or, bit_xor, ◌≡◌, arith}
use nextppp.Prelude.{sym, ap, ◌∙◌, and_mask, or_fields, xor_fields}
use nextppp.Ssea.{u32, affine, lcg_a, lcg_c, lcg_a2, lcg_c2, lcg_a3, lcg_c3, lcg_next, lcg_range}
use native.Mathlib.Nat.{mod-lt}

-- One step of the original generator.
abbrev step : ℕ → ℕ
step next = affine next lcg_a lcg_c

-- The value and the new seed of the original `random_next`.
pub lcg_next_reference : ℕ → ℕ × ℕ
lcg_next_reference seed =
    let next1 = step seed in
    let result1 = next1 / 65536 % 2048 in
    let next2 = step next1 in
    let result2 = bit_xor (u32 (result1 * 2 ^ 10)) (next2 / 65536 % 1024) in
    let next3 = step next2 in (bit_xor (u32 (result2 * 2 ^ 10)) (next3 / 65536 % 1024), next3)

-- The restructured second and third steps are the chained ones, whatever the seed.
step_twice : (s : ℕ) → affine s lcg_a2 lcg_c2 ≡ step (step s)
step_twice s = omega arith

step_thrice : (s : ℕ) → affine s lcg_a3 lcg_c3 ≡ step (step (step s))
step_thrice s = omega arith

-- The three fields of the value, as a sum.
abbrev fields : ℕ → ℕ → ℕ → ℕ
fields a b c = a / 65536 % 2048 * 2 ^ 20 + b / 65536 % 1024 * 2 ^ 10 + c / 65536 % 1024

or_mix :
    (a b c : ℕ)
    → bit_or
        (bit_or
          (u32 (bit_and (a / 2 ^ 16) 2047 * 2 ^ 20))
          (u32 (bit_and (b / 2 ^ 16) 1023 * 2 ^ 10)))
        (bit_and (c / 2 ^ 16) 1023)
      ≡ fields a b c
or_mix a b c =
    let x : ℕ = a / 2 ^ 16 % 2048 in
    let y : ℕ = b / 2 ^ 16 % 1024 in
    let z : ℕ = c / 2 ^ 16 % 1024 in
    let high : u32 (x * 2 ^ 20) ≡ x * 2 ^ 20 = omega arith in
    let middle : u32 (y * 2 ^ 10) ≡ y * 2 ^ 10 = omega arith in
    let regroup : x * 2 ^ 20 + y * 2 ^ 10 ≡ (x * 2 ^ 10 + y) * 2 ^ 10 = omega arith in
    rw (and_mask 11 (a / 2 ^ 16), and_mask 10 (b / 2 ^ 16), and_mask 10 (c / 2 ^ 16), high, middle)
      (rw (or_fields 20 x (y * 2 ^ 10) (omega arith), regroup)
        (or_fields 10 (x * 2 ^ 10 + y) z (omega arith) ∙ omega arith))

xor_mix :
    (a b c : ℕ)
    → bit_xor
        (u32 (bit_xor (u32 (a / 65536 % 2048 * 2 ^ 10)) (b / 65536 % 1024) * 2 ^ 10))
        (c / 65536 % 1024)
      ≡ fields a b c
xor_mix a b c =
    let x : ℕ = a / 65536 % 2048 in
    let y : ℕ = b / 65536 % 1024 in
    let z : ℕ = c / 65536 % 1024 in
    let high : u32 (x * 2 ^ 10) ≡ x * 2 ^ 10 = omega arith in
    let middle : u32 ((x * 2 ^ 10 + y) * 2 ^ 10) ≡ (x * 2 ^ 10 + y) * 2 ^ 10 = omega arith in
    rw high (
      rw (xor_fields 10 x y (omega arith), middle)
        (xor_fields 10 (x * 2 ^ 10 + y) z (omega arith) ∙ omega arith))

-- The one-multiply form of the source gives the value and the new seed of the three chained steps
-- of its reference, at every seed.
pub lcg_next-reference : (seed : ℕ) → lcg_next seed ≡ lcg_next_reference seed
unfolding lcg_next lcg_next_reference
lcg_next-reference seed =
    let s1 : ℕ = step seed in
    let s2 : ℕ = step s1 in
    let s3 : ℕ = step s2 in
    rw (step_twice seed, step_thrice seed)
      (ap {B = ℕ × ℕ} (λ v. (v, s3)) (or_mix s1 s2 s3 ∙ sym (xor_mix s1 s2 s3)))

-- A value has 31 bits, and the new seed 32.
pub lcg_next-lt : (seed : ℕ) → ((lcg_next seed).0 < 2 ^ 31) × ((lcg_next seed).1 < 2 ^ 32)
unfolding lcg_next
lcg_next-lt seed = (
  omega (
    arith,
    or_mix (affine seed lcg_a lcg_c) (affine seed lcg_a2 lcg_c2) (affine seed lcg_a3 lcg_c3),
  ),
  omega arith,
)

-- A sample lies in the closed range that the caller gives.
pub lcg_range_bounds :
    (seed min max : ℕ)
    → min ≤ max
    → (min ≤ (lcg_range seed min max).0) × ((lcg_range seed min max).0 ≤ max)
unfolding lcg_range
lcg_range_bounds seed min max h =
    omega (arith, mod-lt (lcg_next seed).0 {m = max - min + 1} (omega arith))
