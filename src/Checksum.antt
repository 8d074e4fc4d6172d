-- ===== src/Checksum.antt =====
-- The Internet checksum of crates/core/src/frame/checksum.rs.
pub mod Laws
mod Tests
use nextppp.Prelude.{ℕ, zero, suc, ◌+◌, ◌-◌, ◌*◌, ◌/◌, ◌%◌, ◌^◌, bit_and, List, [], ◌∷◌, ◌==◌}
use nextppp.Prelude.{if◌then◌else◌}

abbrev u32 : ℕ → ℕ
u32 n = n % 2 ^ 32

-- The big-endian words, and the odd last byte as the high byte of a word.
pub sum_words : ℕ → List ℕ → ℕ
sum_words sum [] = sum
sum_words sum (b ∷ []) = u32 (sum + b * 2 ^ 8)
sum_words sum (a ∷ b ∷ rest) = sum_words (u32 (sum + (a * 2 ^ 8 + b))) rest

-- `while sum >> 16 != 0`, with fuel.
pub fold : ℕ → ℕ → ℕ
fold zero sum = sum
fold (suc fuel) sum =
    let rest = fold fuel (bit_and sum 0xffff + sum / 2 ^ 16) in
    if sum / 2 ^ 16 == 0 then sum else rest

-- Two rounds end the fold of any 32-bit sum (`fold_settled`). `!` on 16 bits is 0xffff - x.
pub inet_chksum : List ℕ → ℕ
inet_chksum bytes = 0xffff - fold 2 (sum_words 0 bytes) % 2 ^ 16
