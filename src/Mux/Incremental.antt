-- ===== src/Mux/Incremental.antt =====
-- A number at the front of a buffer that is still filling.
use nextppp.Prelude.{ℕ, zero, suc, ◌+◌, ◌*◌, ◌/◌, ◌^◌, ◌≤◌, ◌<◌, ◌≡◌, arith, ap, sym, ◌∙◌}
use nextppp.Prelude.{bit_and, bit_or, inl, inr}
use nextppp.Prelude.{none, some, Option-cases, List, [], ◌∷◌, ◌++◌, length}
use nextppp.Ssea.{u32}
use nextppp.Mux.{decode_varint, decode_varint_loop, encode_varint, encode_varint_loop}
use nextppp.Mux.Varint.{decode_varint-encode_varint}

length-encode_varint_loop : (fuel v : ℕ) → length (encode_varint_loop fuel v) ≤ fuel
unfolding encode_varint_loop
length-encode_varint_loop zero v = omega arith
length-encode_varint_loop (suc fuel) v = ground (arith, length-encode_varint_loop fuel (v / 2 ^ 7))

pub length-encode_varint : (v : ℕ) → length (encode_varint v) ≤ 5
unfolding encode_varint
length-encode_varint v = length-encode_varint_loop 5 v

-- What is decoded from some bytes is decoded from more, and lies within the first ones.
decoded_more :
    (left i v : ℕ) (xs ys : List ℕ) (r : ℕ × ℕ)
    → decode_varint_loop left i v xs ≡ some r
    → (decode_varint_loop left i v (xs ++ ys) ≡ some r) × (r.1 ≤ i + length xs)
unfolding decode_varint_loop
decoded_more zero i v xs ys r h = cc
decoded_more (suc left) i v [] ys r h = cc
decoded_more (suc left) i v (b ∷ bs) ys r h =
    ground
      (arith, decoded_more left (i + 1) (bit_or v (u32 (bit_and b 0x7f * 2 ^ (7 * i)))) bs ys r)

-- Fewer bytes than a number's encoding has are not decoded.
pub decode_varint_short :
    (v : ℕ) (buf later rest : List ℕ)
    → v < 2 ^ 32
    → buf ++ later ≡ encode_varint v ++ rest
    → length buf < length (encode_varint v)
    → decode_varint buf ≡ none
unfolding decode_varint
decode_varint_short v buf later rest fits e short = elim (Option-cases (decode_varint buf)) [
  | inl n ↦ n
  | inr (r, s) ↦
      let (more, low) = decoded_more 5 0 0 buf later r s in
      let whole : decode_varint (encode_varint v ++ rest) ≡ some (v, length (encode_varint v)) =
        decode_varint-encode_varint v rest fits in
      let same = sym more ∙ ap decode_varint e ∙ whole in absurd (ground arith)
]
