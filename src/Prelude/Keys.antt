-- ===== src/Prelude/Keys.antt =====
-- Hash maps from stream ids, by their keys.
use nextppp.Prelude.Tests.{Bool-cases, ◌==◌, if◌then◌else◌, if_elim}
use nextppp.Prelude.Lists.{length}
use Prim.Native.Nat.{ℕ, suc, ◌≤◌}
use mathlib.Core.Bool.{Bool, true, false, ◌||◌}
use mathlib.Core.List.{List, [], ◌∷◌}
use mathlib.Core.Path.{◌≡◌, refl}
use mathlib.Core.Logic.{inl, inr}
use native.Mathlib.Omega.{arith}

unfoldable pub has : ℕ → List ℕ → Bool
has sid [] = false
has sid (x ∷ xs) = sid == x || has sid xs

unfoldable pub remove : ℕ → List ℕ → List ℕ
remove sid [] = []
remove sid (x ∷ xs) = let rest = remove sid xs in if sid == x then rest else x ∷ rest

-- `insert` replaces the sender of a key that is there.
unfoldable pub insert : ℕ → List ℕ → List ℕ
unfolding remove
insert sid xs = sid ∷ remove sid xs

pub has-remove :
    (sid x : ℕ) (xs : List ℕ)
    → (sid == x) ≡ false
    → has sid xs ≡ true
    → has sid (remove x xs) ≡ true
unfolding has remove
has-remove sid x [] ne h = absurd (cc)
has-remove sid x (y ∷ ys) ne h =
    let ih : has sid ys ≡ true → has sid (remove x ys) ≡ true = has-remove sid x ys ne in
    ground arith

pub length-remove : (sid : ℕ) (xs : List ℕ) → length (remove sid xs) ≤ length xs
unfolding remove
length-remove sid [] = omega arith
length-remove sid (x ∷ xs) =
    let ih = length-remove sid xs in
    if_elim (λ (ys : List ℕ). length ys ≤ suc (length xs)) (sid == x) _ _ (omega (arith, ih))
      (omega (arith, ih))

pub has-insert : (sid x : ℕ) (xs : List ℕ) → has sid xs ≡ true → has sid (insert x xs) ≡ true
unfolding insert has
has-insert sid x xs h = elim (Bool-cases (sid == x)) [
  | inl e ↦ rw e refl
  | inr e ↦ rw (e, has-remove sid x xs e h) refl
]
