-- ===== src/Prelude/Utf8.antt =====
-- The standard library's test on UTF-8 (`str::from_utf8`), after the table of the Unicode standard.
use Prim.Native.Nat.{ℕ, zero, suc, ◌≤◌}
use mathlib.Core.Path.{◌≡◌, refl}
use mathlib.Core.Bool.{Bool, true, false, ◌&&◌}
use mathlib.Core.Option.{Option, none, some}
use mathlib.Core.List.{List, [], ◌∷◌}
use native.Mathlib.Omega.{arith}
use nextppp.Prelude.Tests.{leb, ltb, ◌==◌, if◌then◌else◌}
use nextppp.Prelude.Lists.{All}

-- How many bytes follow a first byte, and the bounds of the next of them.
utf8_start : ℕ → Option (ℕ × ℕ × ℕ)
utf8_start b =
    if ltb b 0x80
    then some (0, 0, 0)
    else if ltb b 0xc2
    then none
    else if ltb b 0xe0
    then some (1, 0x80, 0xbf)
    else if b == 0xe0
    then some (2, 0xa0, 0xbf)
    else if b == 0xed
    then some (2, 0x80, 0x9f)
    else if ltb b 0xf0
    then some (2, 0x80, 0xbf)
    else if b == 0xf0
    then some (3, 0x90, 0xbf)
    else if ltb b 0xf4
    then some (3, 0x80, 0xbf)
    else if b == 0xf4
    then some (3, 0x80, 0x8f)
    else none

-- The bytes from here on, of which the first `left` belong to the character begun.
utf8_rest : ℕ → ℕ → ℕ → List ℕ → Bool
utf8_rest zero lo hi [] = true
utf8_rest (suc left) lo hi [] = false
utf8_rest zero lo hi (b ∷ bs) = elim (utf8_start b) [
  | none ↦ false
  | some (left, lo', hi') ↦ utf8_rest left lo' hi' bs
]
utf8_rest (suc left) lo hi (b ∷ bs) = leb lo b && leb b hi && utf8_rest left 0x80 0xbf bs

unfoldable pub is_utf8 : List ℕ → Bool
unfolding utf8_rest utf8_start
is_utf8 bytes = utf8_rest 0 0 0 bytes

-- A byte of visible ASCII.
abbrev pub IsVisible : ℕ → Type 0
IsVisible b = (0x21 ≤ b) × (b ≤ 0x7e)

visible_rest : (bytes : List ℕ) → All IsVisible bytes → utf8_rest 0 0 0 bytes ≡ true
unfolding utf8_rest utf8_start
visible_rest [] h = refl
visible_rest (b ∷ bs) h = ground (arith, visible_rest bs h.1)

pub visible-is_utf8 : (bytes : List ℕ) → All IsVisible bytes → is_utf8 bytes ≡ true
unfolding is_utf8
visible-is_utf8 bytes h = visible_rest bytes h
