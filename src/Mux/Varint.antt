-- ===== src/Mux/Varint.antt =====
-- A stream id is decoded from its bytes.
use nextppp.Prelude.{
  ℕ, zero, suc, ◌+◌, ◌*◌, ◌/◌, ◌%◌, ◌^◌, ◌≤◌, ◌<◌, ◌≡◌, arith, refl, sym, ap, ap₂, ◌∙◌,
}
use nextppp.Prelude.{
  bit_and, bit_or, and_mask, and_bit, or_fields, or_comm, ◌==◌, ==_iff, ltb, le→ltb, ltb→lt, ltb→le,
}
use nextppp.Prelude.{true, false, ◌&&◌, Bool-cases, inl, inr, some}
use nextppp.Prelude.{List, [], ◌∷◌, ◌++◌, length}
use nextppp.Ssea.{u32}
use native.Mathlib.Nat.{pow-suc, add-mul, mul_assoc, mul_comm, mul-le-mul_right}
use nextppp.Mux.{encode_varint_loop, decode_varint_loop, encode_varint, decode_varint}

-- The last byte, below 2 ^ 7, and the bytes before it, which have the high bit.
last_byte : (b : ℕ) → b < 128 → (bit_and b 0x7f ≡ b) × ((bit_and b 0x80 == 0) ≡ true)
last_byte b h = ground (arith, and_mask 7 b, and_bit 7 b)

flagged : (b : ℕ) → b < 128 → bit_or b 0x80 ≡ b + 128
flagged b h = omega (arith, or_comm b 0x80, or_fields 7 1 b h)

earlier_byte :
    (b : ℕ)
    → b < 128
    → (bit_and (bit_or b 0x80) 0x7f ≡ b) × ((bit_and (bit_or b 0x80) 0x80 == 0) ≡ false)
earlier_byte b h = rw (flagged b h) (ground (arith, and_mask 7 (b + 128), and_bit 7 (b + 128)))

-- Seven bits are joined above the value so far.
join_bits :
    (k acc bits : ℕ)
    → acc < 2 ^ k
    → bits * 2 ^ k < 2 ^ 32
    → bit_or acc (u32 (bits * 2 ^ k)) ≡ acc + bits * 2 ^ k
join_bits k acc bits h fits =
    let plain : u32 (bits * 2 ^ k) ≡ bits * 2 ^ k = omega arith in
    rw plain (omega (arith, or_comm acc (bits * 2 ^ k), or_fields k bits acc h))

-- A number at a scale is its high part at the next scale and its low seven bits.
shares : (v s : ℕ) → v * s ≡ v / 128 * (s * 128) + v % 128 * s
shares v s =
    ap (λ (t : ℕ). t * s) {x = v} {y = v / 128 * 128 + v % 128} (omega arith)
    ∙ add-mul (v / 128 * 128) (v % 128) s
    ∙ ap (λ (t : ℕ). t + v % 128 * s)
        (mul_assoc (v / 128) 128 s ∙ ap (λ (t : ℕ). v / 128 * t) (mul_comm 128 s))

next_scale : (i : ℕ) → 2 ^ (7 * (i + 1)) ≡ 2 ^ (7 * i) * 128
next_scale i =
    let n : ℕ = 7 * i in
    ap (λ (e : ℕ). 2 ^ e) {x = 7 * (i + 1)} {y = suc (suc (suc (suc (suc (suc (suc n))))))}
      (omega arith)
    ∙ omega (
      arith,
      pow-suc 2 n,
      pow-suc 2 (suc n),
      pow-suc 2 (suc (suc n)),
      pow-suc 2 (suc (suc (suc n))),
      pow-suc 2 (suc (suc (suc (suc n)))),
      pow-suc 2 (suc (suc (suc (suc (suc n))))),
      pow-suc 2 (suc (suc (suc (suc (suc (suc n)))))),
    )

-- In the fifth byte at most four bits are left, and no byte before the last is the fifth.
fifth_fits : (i v : ℕ) → v * 2 ^ (7 * i) < 2 ^ 32 → ((i == 4) && ltb 0x0f v) ≡ false
fifth_fits i v h = elim (Bool-cases (i == 4)) [
  | inl e ↦ rw e (le→ltb 15 v (omega (arith, at_four ((==_iff i 4).0 e))))
  | inr e ↦ rw e refl
]
  where
    at_four : i ≡ 4 → v * 2 ^ 28 < 2 ^ 32
    at_four e = rw (sym (ap (λ (t : ℕ). 2 ^ (7 * t)) e)) h

not_fifth : (i v : ℕ) → 128 ≤ v → v * 2 ^ (7 * i) < 2 ^ 32 → (i == 4) ≡ false
not_fifth i v high h = elim (Bool-cases (i == 4)) [
  | inl e ↦ absurd (omega (arith, at_four ((==_iff i 4).0 e), high))
  | inr e ↦ e
]
  where
    at_four : i ≡ 4 → v * 2 ^ 28 < 2 ^ 32
    at_four e = rw (sym (ap (λ (t : ℕ). 2 ^ (7 * t)) e)) h

last_small : (i v : ℕ) → i ≡ 4 → v * 2 ^ (7 * i) < 2 ^ 32 → v < 128
last_small i v e h = omega (arith, at_four)
  where
    at_four : v * 2 ^ 28 < 2 ^ 32
    at_four = rw (sym (ap (λ (t : ℕ). 2 ^ (7 * t)) e)) h

encode_last : (fuel v : ℕ) → v < 128 → encode_varint_loop (suc fuel) v ≡ v ∷ []
unfolding encode_varint_loop
encode_last fuel v h =
    let low : v % 2 ^ 7 ≡ v = omega arith in
    let done : (v / 2 ^ 7 == 0) ≡ true = (==_iff _ _).1 (omega arith) in
    rw (and_mask 7 v, low, done) refl

encode_more :
    (fuel v : ℕ)
    → 128 ≤ v
    → encode_varint_loop (suc fuel) v ≡ bit_or (v % 128) 0x80 ∷ encode_varint_loop fuel (v / 128)
unfolding encode_varint_loop
encode_more fuel v h =
    let more : (v / 2 ^ 7 == 0) ≡ false = positive (v / 2 ^ 7) (omega arith) in
    rw (and_mask 7 v, more) refl
  where
    positive : (n : ℕ) → 1 ≤ n → (n == 0) ≡ false
    positive n h = ground arith

decode_last :
    (left i acc b : ℕ) (bs : List ℕ)
    → b < 128
    → acc < 2 ^ (7 * i)
    → b * 2 ^ (7 * i) < 2 ^ 32
    → decode_varint_loop (suc left) i acc (b ∷ bs) ≡ some (acc + b * 2 ^ (7 * i), i + 1)
unfolding decode_varint_loop
decode_last left i acc b bs h small fits =
    rw
      (
        (last_byte b h).0,
        (last_byte b h).1,
        join_bits (7 * i) acc b small fits,
        fifth_fits i b fits,
      )
      refl

decode_more :
    (left i acc b : ℕ) (bs : List ℕ)
    → b < 128
    → (i == 4) ≡ false
    → acc < 2 ^ (7 * i)
    → b * 2 ^ (7 * i) < 2 ^ 32
    → decode_varint_loop (suc left) i acc (bit_or b 0x80 ∷ bs)
      ≡ decode_varint_loop left (i + 1) (acc + b * 2 ^ (7 * i)) bs
unfolding decode_varint_loop
decode_more left i acc b bs h early small fits =
    rw ((earlier_byte b h).0, (earlier_byte b h).1, join_bits (7 * i) acc b small fits, early) refl

-- What is decoded from the bytes of `v` at place `i`.
abbrev Decodes : ℕ → ℕ → ℕ → ℕ → List ℕ → Type 0
Decodes left i acc v rest =
    decode_varint_loop left i acc (encode_varint_loop left v ++ rest)
    ≡ some (acc + v * 2 ^ (7 * i), i + length (encode_varint_loop left v))

last_group :
    (left i acc v : ℕ) (rest : List ℕ)
    → v < 128
    → acc < 2 ^ (7 * i)
    → v * 2 ^ (7 * i) < 2 ^ 32
    → Decodes (suc left) i acc v rest
last_group left i acc v rest h small fits =
    rw (encode_last left v h) (decode_last left i acc v rest h small fits)

decodes :
    (left i acc v : ℕ) (rest : List ℕ)
    → i + suc left ≡ 5
    → acc < 2 ^ (7 * i)
    → v * 2 ^ (7 * i) < 2 ^ 32
    → Decodes (suc left) i acc v rest
decodes zero i acc v rest places small fits =
    last_group zero i acc v rest (last_small i v (omega arith) fits) small fits
decodes (suc left) i acc v rest places small fits = elim (Bool-cases (ltb v 128)) [
  | inl e ↦ last_group (suc left) i acc v rest (ltb→lt v 128 e) small fits
  | inr e ↦
      let scale : ℕ = 2 ^ (7 * i) in
      let low : ℕ = v % 128 in
      let step = next_scale i in
      let split = shares v scale in
      let later : (acc + low * scale) < 2 ^ (7 * (i + 1)) =
        rw step (omega (arith, mul-le-mul_right {m = low} {n = 127} scale (omega arith), small)) in
      let step_times = ap (λ (t : ℕ). v / 128 * t) step in
      let high : v / 128 * 2 ^ (7 * (i + 1)) < 2 ^ 32 = rw step (omega (arith, split, fits)) in
      let next = decodes left (i + 1) (acc + low * scale) (v / 128) rest (omega arith) later high in
      rw (encode_more (suc left) v (ltb→le v 128 e)) (
        decode_more (suc left) i acc low (encode_varint_loop (suc left) (v / 128) ++ rest)
          (omega arith) (not_fifth i v (ltb→le v 128 e) fits) small (omega (arith, split, fits))
        ∙ next
        ∙ ap₂ (λ (n k : ℕ). some (n, k)) {x = acc + low * scale + v / 128 * 2 ^ (7 * (i + 1))}
            {y = acc + v * scale} (omega (arith, step_times, split)) (omega arith))
]

-- Whatever follows it, the encoding of a 32-bit number is decoded to the number and its own length.
pub decode_varint-encode_varint :
    (v : ℕ) (rest : List ℕ)
    → v < 2 ^ 32
    → decode_varint (encode_varint v ++ rest) ≡ some (v, length (encode_varint v))
unfolding decode_varint encode_varint
decode_varint-encode_varint v rest h =
    decodes 4 0 0 v rest refl (omega arith) (omega arith)
    ∙ ap₂ (λ (n k : ℕ). some (n, k)) {x = 0 + v * 2 ^ (7 * 0)} {y = v} (omega arith) (omega arith)
