-- ===== src/Handshake/Digits.antt =====
-- The decimal digits of an id are parsed back.
use nextppp.Prelude.{
  ℕ, zero, suc, ◌+◌, ◌-◌, ◌*◌, ◌/◌, ◌%◌, ◌^◌, ◌≤◌, ◌<◌, ◌≡◌, arith, refl, sym, ap, ◌∙◌,
}
use nextppp.Prelude.{◌==◌, ==_iff, leb, true, false, not, ◌&&◌, Bool-cases, inl, inr}
use nextppp.Prelude.{List, [], ◌∷◌, ◌++◌, append_assoc, ok}
use nextppp.Handshake.{decimal_loop, decimal, parse_decimal, is_digit}
use mathlib.Core.List.{reverse, reverse-cons}
use native.Mathlib.Nat.{pow-suc}

-- One digit more of a number below 2 ^ 128.
parse_digit :
    (v n : ℕ) (rest : List ℕ)
    → v < 2 ^ 128
    → parse_decimal (v / 10) n ((b'0' + v % 10) ∷ rest) ≡ parse_decimal v (n + 1) rest
unfolding parse_decimal is_digit
parse_digit v n rest h =
    let next : v / 10 * 10 + ((b'0' + v % 10) - b'0') ≡ v = omega arith in
    let digit : not (leb b'0' (b'0' + v % 10) && leb (b'0' + v % 10) b'9') ≡ false = ground arith in
    let bounded : leb (2 ^ 128) v ≡ false = ground arith in rw (next, digit, bounded) refl

loop_last : (fuel v : ℕ) → (v / 10 == 0) ≡ true → decimal_loop (suc fuel) v ≡ (b'0' + v % 10) ∷ []
unfolding decimal_loop
loop_last fuel v e = rw e refl

loop_more :
    (fuel v : ℕ)
    → (v / 10 == 0) ≡ false
    → decimal_loop (suc fuel) v ≡ (b'0' + v % 10) ∷ decimal_loop fuel (v / 10)
unfolding decimal_loop
loop_more fuel v e = rw e refl

loop_zero : (v : ℕ) → v < 10 → (v / 10 == 0) ≡ true
loop_zero v h = (==_iff _ _).1 (omega arith)

-- The reversed digits, the last of them apart.
reverse_last : (d : ℕ) (ds rest : List ℕ) → reverse (d ∷ ds) ++ rest ≡ reverse ds ++ (d ∷ rest)
reverse_last d ds rest =
    ap (λ (l : List ℕ). l ++ rest) (reverse-cons d ds) ∙ append_assoc (reverse ds) (d ∷ []) rest

-- The parser, given the digits of `v`, goes from 0 to `v` and has counted a digit.
abbrev Arrives : ℕ → ℕ → List ℕ → Type 0
Arrives fuel v rest =
    (n : ℕ) × (1 ≤ n)
    × (parse_decimal 0 0 (reverse (decimal_loop fuel v) ++ rest) ≡ parse_decimal v n rest)

last_digit :
    (fuel v : ℕ) (rest : List ℕ) → (v / 10 == 0) ≡ true → v < 2 ^ 128 → Arrives (suc fuel) v rest
last_digit fuel v rest e bound =
    let none_left : 0 ≡ v / 10 = sym ((==_iff _ _).0 e) in
    (
      1,
      omega arith,
      rw (loop_last fuel v e) (
          ap (λ (t : ℕ). parse_decimal t 0 ((b'0' + v % 10) ∷ rest)) none_left
          ∙ parse_digit v 0 rest bound),
    )

parse_loop :
    (fuel v : ℕ) (rest : List ℕ) → v < 10 ^ suc fuel → v < 2 ^ 128 → Arrives (suc fuel) v rest
parse_loop zero v rest h bound =
    last_digit zero v rest (loop_zero v (omega (arith, pow-suc 10 zero))) bound
parse_loop (suc fuel) v rest h bound =
    let d : ℕ = b'0' + v % 10 in
    let (n, pos, before) =
      parse_loop fuel (v / 10) (d ∷ rest) (omega (arith, pow-suc 10 (suc fuel))) (omega arith) in
    elim (Bool-cases (v / 10 == 0)) [
      | inl last ↦ last_digit (suc fuel) v rest last bound
      | inr more ↦ (
        n + 1,
        omega arith,
        rw (loop_more (suc fuel) v more) (
            ap (parse_decimal 0 0) (reverse_last d (decimal_loop (suc fuel) (v / 10)) rest)
            ∙ before
            ∙ parse_digit v n rest bound),
      )
    ]

-- Every id of 128 bits is parsed from its digits, up to a separator that is no digit.
pub parse_decimal-decimal :
    (v separator : ℕ) (rest : List ℕ)
    → v < 2 ^ 128
    → is_digit separator ≡ false
    → parse_decimal 0 0 (decimal v ++ (separator ∷ rest)) ≡ ok v
unfolding decimal
parse_decimal-decimal v separator rest bound ends =
    let (n, pos, arrives) = parse_loop 39 v (separator ∷ rest) (omega arith) bound in
    let counted : (n == 0) ≡ false = ground arith in
    arrives ∙ (unfold parse_decimal in rw (ends, counted) refl)
