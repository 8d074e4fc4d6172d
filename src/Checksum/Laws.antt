-- ===== src/Checksum/Laws.antt =====
-- The checksum against the one's-complement sum of RFC 1071.
use nextppp.Prelude.{ℕ, zero, suc, ◌+◌, ◌*◌, ◌/◌, ◌%◌, ◌^◌, ◌≤◌, ◌<◌, ◌≡◌, ◌↔◌, arith, refl}
use nextppp.Prelude.{List, [], ◌∷◌, length, All, bit_and, and_mask}
use nextppp.Checksum.{sum_words, fold, inet_chksum}

-- The plain sum of the big-endian words.
pub word_sum : List ℕ → ℕ
word_sum [] = 0
word_sum (b ∷ []) = b * 256
word_sum (a ∷ b ∷ rest) = a * 256 + b + word_sum rest

word_sum-le : (xs : List ℕ) → All (λ b. b < 256) xs → word_sum xs * 2 ≤ 65535 * (length xs + 1)
unfolding word_sum
word_sum-le [] h = omega arith
word_sum-le (b ∷ []) h = omega arith
word_sum-le (a ∷ b ∷ rest) (ha, (hb, hr)) = omega (arith, word_sum-le rest hr)

-- Below 2 ^ 32 the accumulator does not wrap.
sum_words-word_sum :
    (sum : ℕ) (xs : List ℕ) → sum + word_sum xs < 2 ^ 32 → sum_words sum xs ≡ sum + word_sum xs
unfolding sum_words word_sum
sum_words-word_sum sum [] h = omega arith
sum_words-word_sum sum (b ∷ []) h = omega arith
sum_words-word_sum sum (a ∷ b ∷ rest) h =
    let next : ℕ = (sum + (a * 256 + b)) % 2 ^ 32 in
    let plain : next ≡ sum + (a * 256 + b) = omega arith in
    omega (arith, sum_words-word_sum next rest (omega (arith, plain)), plain)

-- The fold ends with a 16-bit number, keeps the remainder by 65535, and is 0 only at 0.
fold_lem :
    (sum : ℕ)
    → sum < 2 ^ 32
    → (fold 2 sum < 2 ^ 16) × (fold 2 sum % 65535 ≡ sum % 65535) × ((fold 2 sum ≡ 0) ↔ (sum ≡ 0))
unfolding fold
fold_lem sum h = ground (arith, and_mask 16 sum, and_mask 16 (bit_and sum 0xffff + sum / 2 ^ 16))

fold_small : (fuel sum : ℕ) → sum < 2 ^ 16 → fold fuel sum ≡ sum
unfolding fold
fold_small zero sum h = refl
fold_small (suc fuel) sum h = ground arith

-- Two rounds end the loop of the source at every 32-bit sum: more fuel changes nothing.
fold_settled : (fuel sum : ℕ) → sum < 2 ^ 32 → fold (suc (suc fuel)) sum ≡ fold 2 sum
unfolding fold
fold_settled fuel sum h =
    let once : ℕ = bit_and sum 0xffff + sum / 2 ^ 16 in
    ground (
      arith,
      and_mask 16 sum,
      and_mask 16 once,
      fold_small fuel (bit_and once 0xffff + once / 2 ^ 16),
    )

-- For data of up to 131072 bytes the checksum has 16 bits; added to the words of the data it gives
-- a multiple of 65535, which is how a receiver of RFC 1071 verifies; and it is 0xffff exactly for
-- data whose words are all 0.
pub inet_chksum_verifies :
    (xs : List ℕ)
    → All (λ b. b < 256) xs
    → length xs ≤ 131072
    → (inet_chksum xs < 2 ^ 16)
      × ((word_sum xs + inet_chksum xs) % 65535 ≡ 0)
      × ((inet_chksum xs ≡ 0xffff) ↔ (word_sum xs ≡ 0))
unfolding inet_chksum
inet_chksum_verifies xs h fits =
    let small : word_sum xs < 2 ^ 32 = omega (arith, word_sum-le xs h) in
    ground (arith, sum_words-word_sum 0 xs, fold_lem (word_sum xs) small, small)
