-- ===== src/Prelude/Masks.antt =====
-- Masks, single-bit tests and disjoint fields as arithmetic, at every width.
use Prim.Native.Nat.{ℕ, zero, suc, ◌+◌, ◌-◌, ◌*◌, ◌/◌, ◌%◌, ◌^◌, ◌≤◌, ◌<◌, bit_and, bit_or, bit_xor}
use mathlib.Core.Path.{◌≡◌, refl, ap, ap₂, ◌∙◌, sym}
use native.Mathlib.Nat.{pow-suc, one-le-pow, mod-one, div-div-eq-div-mul, mul_comm}
use native.Mathlib.Omega.{arith}
use nextppp.Prelude.Bits.{xor_digit, and_digit, or_digit, xor-zero}

pub mod_double : (a m : ℕ) → 0 < m → a % (m * 2) ≡ a / 2 % m * 2 + a % 2
mod_double a m h = grind arith

pub two-pow-pos : (w : ℕ) → 0 < 2 ^ w
two-pow-pos w = one-le-pow w 2 (omega arith)

and-zero_upto : (n a : ℕ) → a ≤ n → bit_and a 0 ≡ 0
and-zero_upto zero zero h = refl
and-zero_upto zero (suc a) h = absurd (omega arith)
and-zero_upto (suc n) a h = omega (arith, and_digit a 0, and-zero_upto n (a / 2) (omega arith))

pub and-zero : (a : ℕ) → bit_and a 0 ≡ 0
and-zero a = and-zero_upto a a (omega arith)

or-zero_upto : (n a : ℕ) → a ≤ n → bit_or a 0 ≡ a
or-zero_upto zero zero h = refl
or-zero_upto zero (suc a) h = absurd (omega arith)
or-zero_upto (suc n) a h = omega (arith, or_digit a 0, or-zero_upto n (a / 2) (omega arith))

-- `a & (2^w - 1)`.
pub and_mask : (w a : ℕ) → bit_and a (2 ^ w - 1) ≡ a % 2 ^ w
and_mask zero a = and-zero a ∙ omega arith
and_mask (suc w) a =
    let pow = pow-suc 2 w in
    let pos = two-pow-pos w in
    let halved : (2 ^ suc w - 1) / 2 ≡ 2 ^ w - 1 = omega arith in
    and_digit a (2 ^ suc w - 1)
    ∙ rw (halved, and_mask w (a / 2), pow) (omega (arith, mod_double a (2 ^ w) pos))

-- A field moved up by one place more is twice the field.
mul-two-pow : (q w : ℕ) → q * 2 ^ suc w ≡ q * 2 ^ w * 2
mul-two-pow q w = omega (arith, ap (λ (t : ℕ). q * t) (pow-suc 2 w))

halve_double : (x : ℕ) → x * 2 / 2 ≡ x
halve_double x = omega arith

-- The test of bit `w`.
pub and_bit : (w a : ℕ) → bit_and a (2 ^ w) ≡ a / 2 ^ w % 2 * 2 ^ w
and_bit zero a = omega (arith, and_digit a 1, and-zero (a / 2))
and_bit (suc w) a = rw (pow-suc 2 w) (
    and_digit a (2 ^ w * 2)
    ∙ rw (halve_double (2 ^ w), and_bit w (a / 2))
        (rw (div-div-eq-div-mul a 2 (2 ^ w), mul_comm 2 (2 ^ w)) (omega arith)))

-- `(q << w) | r` and `(q << w) ^ r` are sums where `r` fits `w` bits.
pub or_fields : (w q r : ℕ) → r < 2 ^ w → bit_or (q * 2 ^ w) r ≡ q * 2 ^ w + r
or_fields zero q zero h = or-zero_upto (q * 1) (q * 1) (omega arith) ∙ omega arith
or_fields zero q (suc r) h = absurd (omega arith)
or_fields (suc w) q r h =
    let low : bit_or (q * 2 ^ w) (r / 2) ≡ q * 2 ^ w + r / 2 =
      or_fields w q (r / 2) (omega (arith, pow-suc 2 w)) in
    rw (mul-two-pow q w)
      (or_digit (q * 2 ^ w * 2) r ∙ rw (halve_double (q * 2 ^ w), low) (omega arith))

pub xor_fields : (w q r : ℕ) → r < 2 ^ w → bit_xor (q * 2 ^ w) r ≡ q * 2 ^ w + r
xor_fields zero q zero h = xor-zero _ ∙ omega arith
xor_fields zero q (suc r) h = absurd (omega arith)
xor_fields (suc w) q r h =
    let low : bit_xor (q * 2 ^ w) (r / 2) ≡ q * 2 ^ w + r / 2 =
      xor_fields w q (r / 2) (omega (arith, pow-suc 2 w)) in
    rw (mul-two-pow q w)
      (xor_digit (q * 2 ^ w * 2) r ∙ rw (halve_double (q * 2 ^ w), low) (omega arith))

-- The low bits of an exclusive or are those of its parts.
pub xor-mod : (w a b : ℕ) → bit_xor a b % 2 ^ w ≡ bit_xor (a % 2 ^ w) (b % 2 ^ w)
xor-mod zero a b = mod-one (bit_xor a b) ∙ sym (ap₂ bit_xor (mod-one a) (mod-one b))
xor-mod (suc w) a b =
    let pos = two-pow-pos w in
    let half : bit_xor a b / 2 ≡ bit_xor (a / 2) (b / 2) = omega (arith, xor_digit a b) in
    let half_a : a % (2 ^ w * 2) / 2 ≡ a / 2 % 2 ^ w = omega (arith, mod_double a (2 ^ w) pos) in
    let half_b : b % (2 ^ w * 2) / 2 ≡ b / 2 % 2 ^ w = omega (arith, mod_double b (2 ^ w) pos) in
    rw (pow-suc 2 w) (
      mod_double (bit_xor a b) (2 ^ w) pos
      ∙ rw (half, xor-mod w (a / 2) (b / 2))
          (sym (
            xor_digit (a % (2 ^ w * 2)) (b % (2 ^ w * 2))
            ∙ rw (half_a, half_b)
                (omega
                  (arith, xor_digit a b, mod_double a (2 ^ w) pos, mod_double b (2 ^ w) pos)))))
