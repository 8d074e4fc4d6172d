-- ===== src/Ssea/FastMod.antt =====
-- Lemire's remainder by two multiplications is the remainder.
use nextppp.Prelude.{ℕ, ◌+◌, ◌-◌, ◌*◌, ◌/◌, ◌%◌, ◌^◌, ◌≤◌, ◌<◌, ◌≡◌, arith, ap}
use nextppp.Ssea.{u32, u64, fastmod_magic, fast_mod}
use native.Mathlib.Nat.{mod-lt, div-add-mod, mul-le-mul, lt_of_mul-lt-mul_left}

-- `m` stands for the magic number and `e` for what `m * d` exceeds `2 ^ 64` by.
module _ (m d x e : ℕ) (magic : m * d ≡ 2 ^ 64 + e) (e_lt : e < d) (d_lt : d < 2 ^ 32)
    (x_lt : x < 2 ^ 32) where
  -- What is left of `m * x` below `2 ^ 64`.
  low : ℕ
  low = e * (x / d) + m * (x % d)

  mul-split : m * x ≡ 2 ^ 64 * (x / d) + low
  unfolding low
  mul-split =
      omega (arith, ap (λ (t : ℕ). m * t) (div-add-mod x d), ap (λ (t : ℕ). t * (x / d)) magic)

  low-mul : d * low ≡ e * x + 2 ^ 64 * (x % d)
  unfolding low
  low-mul =
      omega (arith, ap (λ (t : ℕ). e * t) (div-add-mod x d), ap (λ (t : ℕ). t * (x % d)) magic)

  excess-lt : e * x < 2 ^ 64
  excess-lt =
      let bound : e * x ≤ (2 ^ 32 - 1) * (2 ^ 32 - 1) =
        mul-le-mul {n₂ = 2 ^ 32 - 1} {m₂ = 2 ^ 32 - 1} (omega arith) (omega arith) in
      omega (arith, bound)

  low-lt : low < 2 ^ 64
  low-lt =
      lt_of_mul-lt-mul_left d (omega (arith, low-mul, excess-lt, mod-lt x {m = d} (omega arith)))

  lowbits-eq-low : u64 (m * x) ≡ low
  lowbits-eq-low = omega (arith, mul-split, low-lt)

  remainder_lem : u32 (u64 (m * x) * d / 2 ^ 64) ≡ x % d
  remainder_lem = omega (
    arith,
    ap (λ (t : ℕ). t * d) lowbits-eq-low,
    low-mul,
    excess-lt,
    mod-lt x {m = d} (omega arith),
  )

-- For every divisor from 2 and every dividend of 32 bits, the two multiplications by the magic
-- number give the remainder.
pub fast_mod-fastmod_magic :
    (x d : ℕ) → 2 ≤ d → d < 2 ^ 32 → x < 2 ^ 32 → fast_mod x (fastmod_magic d) d ≡ x % d
unfolding fast_mod fastmod_magic
fast_mod-fastmod_magic x d two_le d_lt x_lt =
    let r : ℕ = (2 ^ 64 - 1) % d in
    let r_lt = mod-lt (2 ^ 64 - 1) {m = d} (omega arith) in
    remainder_lem ((2 ^ 64 - 1) / d + 1) d x (d - 1 - r) (omega (arith, div-add-mod (2 ^ 64 - 1) d))
      (omega arith) d_lt x_lt
