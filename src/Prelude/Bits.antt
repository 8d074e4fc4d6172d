-- ===== src/Prelude/Bits.antt =====
-- Laws of the bitwise operations at variables: the machine words of the source are numbers below
-- `2 ^ w`, `^` is `bit_xor`, and masks and disjoint fields are arithmetic.
use Prim.Native.Nat.{ℕ, zero, suc, ◌+◌, ◌*◌, ◌/◌, ◌%◌, ◌^◌, ◌≤◌, ◌<◌, min, max}
use Prim.Native.Nat.{bit_and, bit_or, bit_xor, digits, bitwise, differ}
use Prim.Native.Nat.{bit_and-bitwise, bit_or-bitwise, bit_xor-bitwise}
use mathlib.Core.Path.{◌≡◌, refl, sym, ap, ◌∙◌}
use native.Mathlib.Nat.{pow-suc}
use native.Mathlib.Omega.{arith}

module _ (z : ℕ → ℕ) (f : ℕ → ℕ → ℕ) where
  -- Two counts of rounds that both cover the first number give one result.
  digits_agree : (m n b a : ℕ) → a ≤ m → a ≤ n → digits z f m a b ≡ digits z f n a b
  digits_agree zero zero b zero h k = refl
  digits_agree zero (suc n) b zero h k = refl
  digits_agree (suc m) zero b zero h k = refl
  digits_agree (suc m) (suc n) b zero h k = refl
  digits_agree zero n b (suc a) h k = absurd (omega arith)
  digits_agree (suc m) zero b (suc a) h k = absurd (omega arith)
  digits_agree (suc m) (suc n) b (suc a) h k =
      omega (arith, digits_agree m n (b / 2) (suc a / 2) (omega arith) (omega arith))

  bitwise_digit :
      (a b : ℕ) → 0 < a → bitwise z f a b ≡ bitwise z f (a / 2) (b / 2) * 2 + f (a % 2) (b % 2)
  bitwise_digit zero b h = absurd (omega arith)
  bitwise_digit (suc a) b h =
      omega (arith, digits_agree a (suc a / 2) (b / 2) (suc a / 2) (omega arith) (omega arith))

differ_of_bits : (x y : ℕ) → x < 2 → y < 2 → differ x y ≡ (x + y) % 2
differ_of_bits zero y h k = omega arith
differ_of_bits (suc zero) zero h k = refl
differ_of_bits (suc zero) (suc zero) h k = refl
differ_of_bits (suc zero) (suc (suc y)) h k = absurd (omega arith)
differ_of_bits (suc (suc x)) y h k = absurd (omega arith)

pub xor_digit : (a b : ℕ) → bit_xor a b ≡ bit_xor (a / 2) (b / 2) * 2 + (a + b) % 2
xor_digit zero b = omega (arith, bit_xor-bitwise 0 b, bit_xor-bitwise 0 (b / 2))
xor_digit (suc a) b = omega (
  arith,
  bit_xor-bitwise (suc a) b,
  bit_xor-bitwise (suc a / 2) (b / 2),
  bitwise_digit (λ y. y) differ (suc a) b (omega arith),
  differ_of_bits (suc a % 2) (b % 2) (omega arith) (omega arith),
)

pub and_digit : (a b : ℕ) → bit_and a b ≡ bit_and (a / 2) (b / 2) * 2 + min (a % 2) (b % 2)
and_digit zero b = omega (arith, bit_and-bitwise 0 b, bit_and-bitwise 0 (b / 2))
and_digit (suc a) b = omega (
  arith,
  bit_and-bitwise (suc a) b,
  bit_and-bitwise (suc a / 2) (b / 2),
  bitwise_digit (λ y. 0) min (suc a) b (omega arith),
)

pub or_digit : (a b : ℕ) → bit_or a b ≡ bit_or (a / 2) (b / 2) * 2 + max (a % 2) (b % 2)
or_digit zero b = omega (arith, bit_or-bitwise 0 b, bit_or-bitwise 0 (b / 2))
or_digit (suc a) b = omega (
  arith,
  bit_or-bitwise (suc a) b,
  bit_or-bitwise (suc a / 2) (b / 2),
  bitwise_digit (λ y. y) max (suc a) b (omega arith),
)

-- Each law below is proved for all numbers up to `n`, halving.
xor_comm_upto : (n a b : ℕ) → a ≤ n → b ≤ n → bit_xor a b ≡ bit_xor b a
xor_comm_upto zero zero zero h k = refl
xor_comm_upto zero zero (suc b) h k = absurd (omega arith)
xor_comm_upto zero (suc a) b h k = absurd (omega arith)
xor_comm_upto (suc n) a b h k = omega (
  arith,
  xor_digit a b,
  xor_digit b a,
  xor_comm_upto n (a / 2) (b / 2) (omega arith) (omega arith),
)

pub xor_comm : (a b : ℕ) → bit_xor a b ≡ bit_xor b a
xor_comm a b = xor_comm_upto (a + b) a b (omega arith) (omega arith)

or_comm_upto : (n a b : ℕ) → a ≤ n → b ≤ n → bit_or a b ≡ bit_or b a
or_comm_upto zero zero zero h k = refl
or_comm_upto zero zero (suc b) h k = absurd (omega arith)
or_comm_upto zero (suc a) b h k = absurd (omega arith)
or_comm_upto (suc n) a b h k =
    let halves = or_comm_upto n (a / 2) (b / 2) (omega arith) (omega arith) in
    omega (arith, or_digit a b, or_digit b a, halves)

pub or_comm : (a b : ℕ) → bit_or a b ≡ bit_or b a
or_comm a b = or_comm_upto (a + b) a b (omega arith) (omega arith)

pub zero-xor : (b : ℕ) → bit_xor 0 b ≡ b
zero-xor b = bit_xor-bitwise 0 b

pub xor-zero : (a : ℕ) → bit_xor a 0 ≡ a
xor-zero a = xor_comm a 0 ∙ zero-xor a

xor_self_upto : (n a : ℕ) → a ≤ n → bit_xor a a ≡ 0
xor_self_upto zero zero h = refl
xor_self_upto zero (suc a) h = absurd (omega arith)
xor_self_upto (suc n) a h = omega (arith, xor_digit a a, xor_self_upto n (a / 2) (omega arith))

pub xor_self : (a : ℕ) → bit_xor a a ≡ 0
xor_self a = xor_self_upto a a (omega arith)

xor_assoc_upto :
    (n a b c : ℕ) → a ≤ n → b ≤ n → c ≤ n → bit_xor (bit_xor a b) c ≡ bit_xor a (bit_xor b c)
xor_assoc_upto zero zero zero zero h k l = refl
xor_assoc_upto zero zero zero (suc c) h k l = absurd (omega arith)
xor_assoc_upto zero zero (suc b) c h k l = absurd (omega arith)
xor_assoc_upto zero (suc a) b c h k l = absurd (omega arith)
xor_assoc_upto (suc n) a b c h k l =
    xor_digit (bit_xor a b) c
    ∙ (rw
        (
          half_xor a b,
          half_xor b c,
          xor_assoc_upto n (a / 2) (b / 2) (c / 2) (omega arith) (omega arith) (omega arith),
        )
        (omega (arith, xor_digit a b, xor_digit b c)))
    ∙ sym (xor_digit a (bit_xor b c))
  where
    half_xor : (x y : ℕ) → bit_xor x y / 2 ≡ bit_xor (x / 2) (y / 2)
    half_xor x y = omega (arith, xor_digit x y)

pub xor_assoc : (a b c : ℕ) → bit_xor (bit_xor a b) c ≡ bit_xor a (bit_xor b c)
xor_assoc a b c = xor_assoc_upto (a + b + c) a b c (omega arith) (omega arith) (omega arith)

-- A mask applied twice is gone.
pub xor_cancel : (a k : ℕ) → bit_xor (bit_xor a k) k ≡ a
xor_cancel a k = xor_assoc a k k ∙ ap (bit_xor a) (xor_self k) ∙ xor-zero a

pub xor-lt : (w a b : ℕ) → a < 2 ^ w → b < 2 ^ w → bit_xor a b < 2 ^ w
xor-lt zero zero zero h k = omega arith
xor-lt zero zero (suc b) h k = absurd (omega arith)
xor-lt zero (suc a) b h k = absurd (omega arith)
xor-lt (suc w) a b h k = omega (
  arith,
  xor_digit a b,
  pow-suc 2 w,
  xor-lt w (a / 2) (b / 2) (omega (arith, pow-suc 2 w)) (omega (arith, pow-suc 2 w)),
)
