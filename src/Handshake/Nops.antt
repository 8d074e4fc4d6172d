-- ===== src/Handshake/Nops.antt =====
-- The noise prelude is within what a receiver skips.
use nextppp.Prelude.{ℕ, ◌+◌, ◌/◌, ◌%◌, ◌≤◌, ◌≡◌, arith, two-pow-pos, ltb, ◌==◌}
use nextppp.Prelude.{
  if◌then◌else◌, Bool, Bool-cases, inl, inr, ltb→lt, ltb→le, Result, ok, err, ◌||◌,
}
use nextppp.Prelude.{length}
use nextppp.Errors.{Rng, Error}
use nextppp.Key.{ObfuscationKey, validate}
use nextppp.Handshake.{nop_rounds, max_nop_packets, power_u32}
use native.Mathlib.Nat.{pow-le-pow_right}

abbrev IsAccepted : Result (Unit {0}) Error → Type 0
IsAccepted r = r ≡ ok tt

pub valid_exponents : (key : ObfuscationKey) → validate key ≡ ok tt → (key.kl ≤ 20) × (key.kh ≤ 20)
unfolding validate
valid_exponents key h =
    exponents _ _ key.kl key.kh (length key.protocol_key == 0 || length key.transport_key == 0) h
  where
    exponents :
        (e e' : Error) (kl kh : ℕ) (blank : Bool)
        → IsAccepted (if ltb 20 kl || ltb 20 kh then err e else if blank then err e' else ok tt)
        → (kl ≤ 20) × (kh ≤ 20)
    exponents e e' kl kh blank h = ground arith

power_le : (a b : ℕ) → a ≤ b → b ≤ 20 → power_u32 a ≤ power_u32 b
power_le a b h k =
    let small : a % 32 ≤ b % 32 = omega arith in pow-le-pow_right {n = 2} (omega arith) small

-- A round count, rounded up from `n` above 0, is from 1 to `n`.
rounded_up : (n : ℕ) → 1 ≤ n → (1 ≤ (n + 1399) / 1400) × ((n + 1399) / 1400 ≤ n)
rounded_up n h = omega arith

-- The count drawn between two powers of which `hi` is the greater.
drawn_bounds :
    (g : Rng) (lo hi top : ℕ) (rng : g.State)
    → 1 ≤ lo
    → lo ≤ hi
    → hi ≤ top
    → let n : ℕ × g.State =
        if lo == hi
        then ((lo + 1399) / 1400, rng)
        else (((g.range lo hi rng).0 + 1399) / 1400, (g.range lo hi rng).1) in
      (1 ≤ n.0) × (n.0 ≤ top)
drawn_bounds g lo hi top rng pos order high =
    let bounds = g.range_bounds lo hi rng order in
    elim (Bool-cases (lo == hi)) [
      | inl e ↦ rw e (omega (arith, rounded_up lo pos, order, high))
      | inr e ↦
          rw e (omega (arith, bounds, rounded_up (g.range lo hi rng).0 (omega (arith, bounds))))
    ]

-- The greater exponent has the greater power.
top_bounds :
    (kl kh : ℕ)
    → kl ≤ 20
    → kh ≤ 20
    → let top = power_u32 (if ltb kl kh then kh else kl) in
      (power_u32 kl ≤ top) × (power_u32 kh ≤ top)
top_bounds kl kh hl hh = elim (Bool-cases (ltb kl kh)) [
  | inl e ↦ rw e (power_le kl kh (omega (arith, ltb→lt kl kh e)) hh, omega arith)
  | inr e ↦ rw e (omega arith, power_le kh kl (ltb→le kl kh e) hl)
]

power_pos : (exponent : ℕ) → 1 ≤ power_u32 exponent
power_pos exponent = omega (arith, two-pow-pos (exponent % 32))

-- Under a valid key a sender emits at least one noise packet, and no more than the receiver's budget
-- for skipping them.
pub nop_rounds_bounds :
    (g : Rng) (key : ObfuscationKey) (rng : g.State)
    → validate key ≡ ok tt
    → (1 ≤ (nop_rounds g key rng).0) × ((nop_rounds g key rng).0 ≤ max_nop_packets key)
unfolding nop_rounds max_nop_packets
nop_rounds_bounds g key rng h =
    let (kl_fits, kh_fits) = valid_exponents key h in
    let (low_fits, high_fits) = top_bounds key.kl key.kh kl_fits kh_fits in
    let low : ℕ = power_u32 key.kl in
    let high : ℕ = power_u32 key.kh in
    let top : ℕ = power_u32 (if ltb key.kl key.kh then key.kh else key.kl) in
    elim (Bool-cases (ltb high low)) [
      | inl swapped ↦ rw swapped (
          drawn_bounds g high low top rng (power_pos key.kh)
            (omega (arith, ltb→lt high low swapped)) low_fits)
      | inr straight ↦
          rw straight (
            drawn_bounds g low high top rng (power_pos key.kl) (ltb→le high low straight) high_fits)
    ]
