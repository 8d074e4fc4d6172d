-- ===== src/Ssea.antt =====
-- The obfuscation primitives of crates/core/src/crypto/ssea.rs and the scalar routines of
-- crates/core/src/crypto/simd.rs. A byte slice is a list of numbers below 256, a `u32` a number
-- below 2 ^ 32; what the source changes in place is returned.
pub mod Lcg
pub mod FastMod
pub mod Shuffle
pub mod Delta
pub mod Masked
mod Tests
use nextppp.Prelude.{ℕ, zero, suc, ◌+◌, ◌-◌, ◌*◌, ◌/◌, ◌%◌, ◌^◌, ◌<◌, bit_and, bit_or, bit_xor}
use nextppp.Prelude.{List, [], ◌∷◌, length, get_or, set, ltb, if◌then◌else◌}

abbrev pub u8 : ℕ → ℕ
u8 n = n % 2 ^ 8

abbrev pub u32 : ℕ → ℕ
u32 n = n % 2 ^ 32

abbrev pub u64 : ℕ → ℕ
u64 n = n % 2 ^ 64

abbrev pub IsByte : ℕ → Type 0
IsByte b = b < 256

abbrev pub IsU32 : ℕ → Type 0
IsU32 n = n < 2 ^ 32

abbrev pub lcg_a : ℕ
lcg_a = 1_103_515_245

abbrev pub lcg_c : ℕ
lcg_c = 12_345

abbrev pub lcg_a2 : ℕ
lcg_a2 = u32 (lcg_a * lcg_a)

abbrev pub lcg_c2 : ℕ
lcg_c2 = u32 (lcg_c * u32 (lcg_a + 1))

abbrev pub lcg_a3 : ℕ
lcg_a3 = u32 (lcg_a2 * lcg_a)

abbrev pub lcg_c3 : ℕ
lcg_c3 = u32 (u32 (u32 (lcg_c * lcg_a2) + u32 (lcg_c * lcg_a)) + lcg_c)

-- One affine step of the seed, with the wrapping of the source.
abbrev pub affine : ℕ → ℕ → ℕ → ℕ
affine seed a c = u32 (u32 (seed * a) + c)

-- The returned value and the new seed. The shifted fields are below 2 ^ 31.
pub lcg_next : ℕ → ℕ × ℕ
lcg_next seed =
    let next1 = affine seed lcg_a lcg_c in
    let next2 = affine seed lcg_a2 lcg_c2 in
    let next3 = affine seed lcg_a3 lcg_c3 in
    (
      bit_or
          (bit_or (u32 (bit_and (next1 / 2 ^ 16) 2047 * 2 ^ 20))
            (u32 (bit_and (next2 / 2 ^ 16) 1023 * 2 ^ 10)))
          (bit_and (next3 / 2 ^ 16) 1023),
      next3,
    )

-- The sampled value and the new seed; the source asserts `min <= max`.
pub lcg_range : ℕ → ℕ → ℕ → ℕ × ℕ
lcg_range seed min max =
    let (value, seed') = lcg_next seed in (value % (max - min + 1) + min, seed')

pub fastmod_magic : ℕ → ℕ
fastmod_magic d = (2 ^ 64 - 1) / d + 1

pub fast_mod : ℕ → ℕ → ℕ → ℕ
fast_mod x magic d = let lowbits = u64 (magic * x) in u32 (lowbits * d / 2 ^ 64)

-- `ptr::swap`; both places are in range at every call (`index-lt`).
unfoldable pub swap : List ℕ → ℕ → ℕ → List ℕ
swap bytes i j = set (set bytes i (get_or bytes j 0)) j (get_or bytes i 0)

-- The partner of place `i`.
pub index : ℕ → ℕ → ℕ → ℕ
index size key i = fast_mod (bit_xor (u32 i) key) (fastmod_magic size) size

-- The swaps at `i`, `i + 1`, … with `left` of them to go.
pub shuffle_loop : ℕ → ℕ → ℕ → ℕ → List ℕ → List ℕ
shuffle_loop size key zero i bytes = bytes
shuffle_loop size key (suc left) i bytes =
    shuffle_loop size key left (i + 1) (swap bytes i (index size key i))

-- A slice of 2 ^ 32 bytes or more, at which the source panics, is outside the model.
pub shuffle : List ℕ → ℕ → List ℕ
shuffle bytes key =
    let size = length bytes in if ltb size 2 then bytes else shuffle_loop size key size 0 bytes

-- The swaps at `n - 1`, …, 0.
pub unshuffle_loop : ℕ → ℕ → ℕ → List ℕ → List ℕ
unshuffle_loop size key zero bytes = bytes
unshuffle_loop size key (suc i) bytes = unshuffle_loop size key i (swap bytes i (index size key i))

pub unshuffle : List ℕ → ℕ → List ℕ
unshuffle bytes key =
    let size = length bytes in if ltb size 2 then bytes else unshuffle_loop size key size bytes

abbrev wrapping_sub8 : ℕ → ℕ → ℕ
wrapping_sub8 a b = u8 (a + 256 - b)

-- `out[i] = in[i] - in[i - 1]`, where `prev` is the byte before.
pub delta_encode_from : ℕ → List ℕ → List ℕ
delta_encode_from prev [] = []
delta_encode_from prev (cur ∷ rest) = wrapping_sub8 cur prev ∷ delta_encode_from cur rest

pub delta_encode : List ℕ → ℕ → List ℕ
delta_encode bytes kf = delta_encode_from (u8 kf) bytes

pub delta_decode_from : ℕ → List ℕ → List ℕ
delta_decode_from prev [] = []
delta_decode_from prev (b ∷ rest) = let cur = u8 (prev + b) in cur ∷ delta_decode_from cur rest

pub delta_decode : List ℕ → ℕ → List ℕ
delta_decode bytes kf = delta_decode_from (u8 kf) bytes

-- `from_le_bytes` of a word and of a half-word, and byte `k` of a number.
abbrev pub le32 : ℕ → ℕ → ℕ → ℕ → ℕ
le32 a b c d = a + b * 2 ^ 8 + c * 2 ^ 16 + d * 2 ^ 24

abbrev pub le16 : ℕ → ℕ → ℕ
le16 a b = a + b * 2 ^ 8

abbrev pub byte_of : ℕ → ℕ → ℕ
byte_of v k = u8 (v / 2 ^ (8 * k))

-- The half-word and the odd byte behind the last whole word.
pub xor_rest : ℕ → List ℕ → List ℕ
xor_rest kf [] = []
xor_rest kf (a ∷ []) = bit_xor a (u8 kf) ∷ []
xor_rest kf (a ∷ b ∷ rest) =
    let v = bit_xor (le16 a b) (kf % 2 ^ 16) in
    byte_of v 0 ∷ byte_of v 1 ∷ xor_rest (lcg_next kf).0 rest

pub xor_words : ℕ → List ℕ → List ℕ
xor_words kf (a ∷ b ∷ c ∷ d ∷ rest) =
    let v = bit_xor (le32 a b c d) kf in
    byte_of v 0 ∷ byte_of v 1 ∷ byte_of v 2 ∷ byte_of v 3 ∷ xor_words (lcg_next kf).0 rest
xor_words kf rest = xor_rest kf rest

pub masked_xor_random_next : List ℕ → ℕ → List ℕ
masked_xor_random_next bytes kf = xor_words (lcg_next kf).0 bytes
