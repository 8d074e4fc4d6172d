-- ===== src/Connection/Words.antt =====
-- The numbers that the handshake exchanges: the tagged ivv and nmux.
use nextppp.Prelude.{ℕ, ◌+◌, ◌-◌, ◌*◌, ◌/◌, ◌%◌, ◌^◌, ◌≤◌, ◌<◌, ◌≡◌, arith, refl, ap, ◌∙◌}
use nextppp.Prelude.{bit_and, bit_or, and_digit, or_digit, or_fields, and_mask, ◌==◌, ==_iff}
use nextppp.Prelude.{true, false, not, ◌&&◌}
use nextppp.Key.{ObfuscationKey}
use nextppp.Handshake.{SessionRole, mux_tunnel, bond_link, flag_canary, canary_magic}
use nextppp.Handshake.Canary.{flag_canary_lem, canary_flags-lt}
use nextppp.Connection.{echo_role, is_mux, differ}

or_zero : (n : ℕ) → bit_or n 0 ≡ n
or_zero n =
    ap (λ (t : ℕ). bit_or t 0) {x = n} {y = n * 2 ^ 0} (omega arith)
    ∙ or_fields 0 n 0 (omega arith)
    ∙ omega arith

or_one : (n : ℕ) → bit_or n 1 ≡ n / 2 * 2 + 1
or_one n = omega (arith, or_digit n 1, or_zero (n / 2))

and_even : (n : ℕ) → n < 2 ^ 128 → bit_and n (2 ^ 128 - 2) ≡ n / 2 * 2
and_even n h = omega (arith, and_digit n (2 ^ 128 - 2), and_mask 127 (n / 2))

canary_bounds :
    (key : ObfuscationKey)
    → (1 ≤ flag_canary key) × (flag_canary key < 2 ^ 64) × (flag_canary key % 2 ^ 48 ≡ canary_magic)
canary_bounds key = omega (arith, flag_canary_lem key, canary_flags-lt key)

-- nmux keeps the canary in its high word, and echoes the role in its parity.
pub nmux_lem :
    (key : ObfuscationKey) (role : SessionRole) (low : ℕ)
    → low < 2 ^ 64
    → let nmux = echo_role role (bit_or (flag_canary key * 2 ^ 64) low) in
      (1 ≤ nmux)
      × (nmux < 2 ^ 128)
      × (nmux / 2 ^ 64 ≡ flag_canary key)
      × (differ (bit_and nmux 1 == 1) (is_mux role) ≡ false)
unfolding echo_role differ is_mux
nmux_lem key mux_tunnel low h =
    let word : ℕ = bit_or (flag_canary key * 2 ^ 64) low in
    let sum = or_fields 64 (flag_canary key) low h in
    let nmux = or_one word in
    let bounds = canary_bounds key in
    let odd : (bit_and (bit_or word 1) 1 == 1) ≡ true =
      (==_iff _ _).1 (omega (arith, and_mask 1 (bit_or word 1), nmux)) in
    (
      omega (arith, nmux),
      omega (arith, nmux, sum, bounds),
      omega (arith, nmux, sum, bounds),
      rw odd refl,
    )
nmux_lem key bond_link low h =
    let word : ℕ = bit_or (flag_canary key * 2 ^ 64) low in
    let sum = or_fields 64 (flag_canary key) low h in
    let bounds = canary_bounds key in
    let nmux = and_even word (omega (arith, sum, bounds)) in
    (
      omega (arith, nmux, sum, bounds),
      omega (arith, nmux, sum, bounds),
      omega (arith, nmux, sum, bounds),
      rw
          (even (bit_and (bit_and word (2 ^ 128 - 2)) 1)
            (omega (arith, and_mask 1 (bit_and word (2 ^ 128 - 2)), nmux)))
          refl,
    )
  where
    even : (n : ℕ) → n ≡ 0 → (n == 1) ≡ false
    even n e = ground arith

-- The client finds the canary marked and its own.
pub canary_accepted :
    (key : ObfuscationKey)
    → ((bit_and (flag_canary key) 0x0000_ffff_ffff_ffff == canary_magic)
        && not (flag_canary key == flag_canary key))
      ≡ false
canary_accepted key =
    let same : (flag_canary key == flag_canary key) ≡ true = (==_iff _ _).1 refl in
    let marked : (bit_and (flag_canary key) 0x0000_ffff_ffff_ffff == canary_magic) ≡ true =
      (==_iff _ _).1 (omega (arith, and_mask 48 (flag_canary key), canary_bounds key)) in
    rw (same, marked) refl
