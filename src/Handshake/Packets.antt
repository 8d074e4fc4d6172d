-- ===== src/Handshake/Packets.antt =====
-- A session-id packet is bytes, and fits a frame by far.
use nextppp.Prelude.{
  ℕ, zero, suc, ◌+◌, ◌*◌, ◌/◌, ◌%◌, ◌^◌, ◌≤◌, ◌<◌, ◌≡◌, arith, refl, ap, ◌∙◌, ◌==◌, ltb,
}
use nextppp.Prelude.{
  if◌then◌else◌, Bool, true, false, Bool-cases, inl, inr, List, [], ◌∷◌, ◌++◌, length,
  length-append,
}
use nextppp.Prelude.{All, All-append}
use mathlib.Core.List.{reverse, reverse-cons}
use nextppp.Ssea.{IsByte}
use nextppp.Errors.{Rng}
use nextppp.Key.{ObfuscationKey}
use nextppp.Handshake.{
  pack_session_id, padding, filler, numeral, key_bytes, decimal, decimal_loop, mask_rounds,
}
use nextppp.Handshake.Mask.{length-mask_rounds, mask_rounds-IsByte}

length-reverse : (xs : List ℕ) → length (reverse xs) ≡ length xs
length-reverse [] = refl
length-reverse (x ∷ xs) =
    ap length (reverse-cons x xs)
    ∙ omega (arith, length-append (reverse xs) (x ∷ []), length-reverse xs)

reverse-IsByte : (xs : List ℕ) → All IsByte xs → All IsByte (reverse xs)
reverse-IsByte [] h = tt
reverse-IsByte (x ∷ xs) (hx, hxs) =
    rw (reverse-cons x xs)
      (All-append IsByte (reverse xs) (x ∷ []) (reverse-IsByte xs hxs) (hx, tt))

-- The rest of the digits, when there are any.
rest_size :
    (last : Bool) (ds : List ℕ) (n : ℕ) → length ds ≤ n → length (if last then [] else ds) ≤ n
rest_size true ds n h = omega arith
rest_size false ds n h = h

rest-IsByte : (last : Bool) (ds : List ℕ) → All IsByte ds → All IsByte (if last then [] else ds)
rest-IsByte true ds h = tt
rest-IsByte false ds h = h

decimal_loop_size : (fuel v : ℕ) → length (decimal_loop fuel v) ≤ fuel
unfolding decimal_loop
decimal_loop_size zero v = omega arith
decimal_loop_size (suc fuel) v = omega (
  arith,
  rest_size (v / 10 == 0) (decimal_loop fuel (v / 10)) fuel (decimal_loop_size fuel (v / 10)),
)

decimal_loop-IsByte : (fuel v : ℕ) → All IsByte (decimal_loop fuel v)
unfolding decimal_loop
decimal_loop-IsByte zero v = tt
decimal_loop-IsByte (suc fuel) v = (
  omega arith,
  rest-IsByte (v / 10 == 0) (decimal_loop fuel (v / 10)) (decimal_loop-IsByte fuel (v / 10)),
)

decimal_size : (v : ℕ) → length (decimal v) ≤ 40
unfolding decimal
decimal_size v = omega (arith, length-reverse (decimal_loop 40 v), decimal_loop_size 40 v)

decimal-IsByte : (v : ℕ) → All IsByte (decimal v)
unfolding decimal
decimal-IsByte v = reverse-IsByte (decimal_loop 40 v) (decimal_loop-IsByte 40 v)

module _ (g : Rng) where
  length-filler : (n : ℕ) (rng : g.State) → length (filler g n rng).0 ≡ n
  unfolding filler
  length-filler zero rng = refl
  length-filler (suc n) rng = omega (arith, length-filler n (g.range 0x20 0x7e rng).1)

  filler-IsByte : (n : ℕ) (rng : g.State) → All IsByte (filler g n rng).0
  unfolding filler
  filler-IsByte zero rng = tt
  filler-IsByte (suc n) rng = (
    omega (arith, g.range_bounds 0x20 0x7e rng (omega arith)),
    filler-IsByte n (g.range 0x20 0x7e rng).1,
  )

  -- The second run is at most four times as long as the longer of the first and what came before.
  padding_bounds :
      (kx digits : ℕ) (rng : g.State)
      → digits ≤ 40
      → (length (padding g kx digits rng).0 ≤ 1500) × All IsByte (padding g kx digits rng).0
  unfolding padding
  padding_bounds kx digits rng h =
      let separator : ℕ × g.State = g.range 0x20 0x2f rng in
      let separates : separator.0 < 256 =
        omega (arith, g.range_bounds 0x20 0x2f rng (omega arith)) in
      let amount : ℕ = kx % 0x100 in
      let first : List ℕ × g.State = filler g amount separator.1 in
      let least : ℕ = digits + 1 + amount + 1 + 4 in
      let most : ℕ = if ltb amount least then least else amount in
      let most_is : most ≡ least = longer amount least (omega arith) in
      let loops : ℕ × g.State = g.range 1 (most * 2 ^ 2) first.1 in
      let drawn = g.range_bounds 1 (most * 2 ^ 2) first.1 (omega (arith, most_is)) in
      let second : List ℕ = (filler g loops.0 loops.1).0 in
      elim (Bool-cases (ltb 0 amount)) [
        | inl e ↦ rw e (
          omega (
            arith,
            length-append first.0 (b'/' ∷ second),
            length-filler amount separator.1,
            length-filler loops.0 loops.1,
            most_is,
            drawn,
          ),
          (
            separates,
            All-append IsByte first.0 (b'/' ∷ second) (filler-IsByte amount separator.1)
                (omega arith, filler-IsByte loops.0 loops.1),
          ),
        )
        | inr e ↦ rw e (omega arith, (separates, tt))
      ]
    where
      longer : (a l : ℕ) → a < l → (if ltb a l then l else a) ≡ l
      longer a l h = ground arith

  key_bytes_bounds :
      (id : ℕ) (rng : g.State)
      → (length (key_bytes g id rng).0 ≡ 4) × All IsByte (key_bytes g id rng).0
  unfolding key_bytes
  key_bytes_bounds id rng =
      let noise : Bool = id == 0 in
      let k0 : ℕ × g.State =
        g.range (if noise then 0x80 else 0x00) (if noise then 0xff else 0x7f) rng in
      let k1 : ℕ × g.State = g.range 0x01 0xff k0.1 in
      let k2 : ℕ × g.State = g.range 0x01 0xff k1.1 in
      (
        refl,
        (
          first_byte noise rng,
          (
            omega (arith, g.range_bounds 0x01 0xff k0.1 (omega arith)),
            (
              omega (arith, g.range_bounds 0x01 0xff k1.1 (omega arith)),
              (omega (arith, g.range_bounds 0x01 0xff k2.1 (omega arith)), tt),
            ),
          ),
        ),
      )
    where
      first_byte :
          (noise : Bool) (rng : g.State)
          → (g.range (if noise then 0x80 else 0x00) (if noise then 0xff else 0x7f) rng).0 < 256
      first_byte true rng = omega (arith, g.range_bounds 0x80 0xff rng (omega arith))
      first_byte false rng = omega (arith, g.range_bounds 0x00 0x7f rng (omega arith))

  -- A packed session id is 4 to 1544 bytes, for every key and id.
  pub pack_session_id_bounds :
      (key : ObfuscationKey) (id : ℕ) (rng : g.State)
      → let packet = (pack_session_id g key id rng).0 in
        (4 ≤ length packet) × (length packet ≤ 1544) × All IsByte packet
  unfolding pack_session_id
  pack_session_id_bounds key id rng =
      let keys : List ℕ × g.State = key_bytes g id rng in
      let (four, key_ok) = key_bytes_bounds id rng in
      let number : ℕ × g.State = numeral g id keys.1 in
      let digits : List ℕ = decimal number.0 in
      let pad : List ℕ = (padding g key.kx (length digits) number.1).0 in
      let (pad_size, pad_ok) =
        padding_bounds key.kx (length digits) number.1 (decimal_size number.0) in
      let body : List ℕ = digits ++ pad in
      let size = length-append keys.0 (mask_rounds key.kf keys.0 body) in
      let masked = length-mask_rounds key.kf keys.0 body in
      let joined = length-append digits pad in
      (
        omega (arith, size, four),
        omega (arith, size, four, masked, joined, decimal_size number.0, pad_size),
        All-append IsByte keys.0 (mask_rounds key.kf keys.0 body) key_ok (
            mask_rounds-IsByte key.kf keys.0 body
              (All-append IsByte digits pad (decimal-IsByte number.0) pad_ok)),
      )
