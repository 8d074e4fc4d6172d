-- ===== src/Base94/Invariant.antt =====
-- The modulus and the key offset of a framer stay in their ranges.
use nextppp.Prelude.{ℕ, ◌+◌, ◌-◌, ◌%◌, ◌^◌, ◌≤◌, ◌<◌, ◌≡◌, arith, ◌∙◌, ap}
use nextppp.Ssea.{IsU32, u32}
use nextppp.Ssea.Lcg.{lcg_range_bounds}
use nextppp.Base94.Defs.{Framer, new, hidden, mod_min, mod_max}
use native.Mathlib.Nat.{mod-lt, mod-add-mod, add-mod_right, mod-eq_of_lt}

pub record IsFramer (f : Framer) : Type 0 where
  pub kf_fits : IsU32 f.kf
  pub modulus_low : 262144 ≤ f.modulus
  pub modulus_high : f.modulus ≤ 830584
  pub kf_mod_lt : f.kf_mod < f.modulus

-- A new framer has a modulus from 64^3 to 94^3 and an offset below it.
pub new-IsFramer : (kf : ℕ) → IsU32 kf → IsFramer (new kf)
unfolding new
new-IsFramer kf fits =
    let (low, high) = lcg_range_bounds kf mod_min mod_max (omega arith) in
    record {
      kf_fits = fits;
      modulus_low = low;
      modulus_high = high;
      kf_mod_lt = mod-lt _ (omega (arith, low));
    }

-- Adding the offset and taking it off modulo `m` gives back a number below `m`.
unhide : (n k m : ℕ) → k < m → n < m → ((n + k) % m + (m - k)) % m ≡ n
unhide n k m hk hn =
    mod-add-mod (n + k) m (m - k)
    ∙ ap (λ (t : ℕ). t % m) {x = n + k + (m - k)} {y = n + m} (omega arith)
    ∙ add-mod_right n m
    ∙ mod-eq_of_lt hn

-- A hidden number fits three digits, and is recovered.
pub hidden-lt : (f : Framer) (n : ℕ) → IsFramer f → hidden f n < 94 ^ 3
unfolding hidden
hidden-lt f n v = omega (
  arith,
  mod-lt (u32 (n + f.kf_mod)) {m = f.modulus} (omega (arith, v.modulus_low)),
  v.modulus_high,
)

pub unhide-hidden :
    (f : Framer) (n : ℕ)
    → IsFramer f
    → n < 262144
    → u32 ((hidden f n + (f.modulus - f.kf_mod)) % f.modulus) ≡ n
unfolding hidden
unhide-hidden f n v h =
    let plain : u32 (n + f.kf_mod) ≡ n + f.kf_mod = omega (arith, v.kf_mod_lt, v.modulus_high) in
    let back = unhide n f.kf_mod f.modulus v.kf_mod_lt (omega (arith, v.modulus_low)) in
    rw (plain, back) (omega arith)
