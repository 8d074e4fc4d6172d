-- ===== src/Checksum/Tests.antt =====
-- The vectors of the source's tests, and the checksum's theorems at concrete inputs.
use nextppp.Prelude.{ℕ, ◌+◌, ◌%◌, ◌<◌, ◌^◌, ◌≡◌, ◌↔◌, arith, refl, List, [], ◌∷◌}
use nextppp.Checksum.{inet_chksum, sum_words, fold}
use nextppp.Checksum.Laws.{word_sum, inet_chksum_verifies}

abbrev rfc1071 : List ℕ
rfc1071 = 0x00 ∷ 0x01 ∷ 0xf2 ∷ 0x03 ∷ 0xf4 ∷ 0xf5 ∷ 0xf6 ∷ 0xf7 ∷ []

rfc1071_run : inet_chksum rfc1071 ≡ 0x220d
unfolding inet_chksum sum_words fold
rfc1071_run = refl

odd_run : inet_chksum (0x00 ∷ 0x01 ∷ 0xf2 ∷ 0x03 ∷ 0xf4 ∷ 0xf5 ∷ 0xf7 ∷ []) ≡ 0x2204
unfolding inet_chksum sum_words fold
odd_run = refl

inet_chksum_verifies_example :
    (inet_chksum (1 ∷ 255 ∷ 7 ∷ []) < 2 ^ 16)
    × ((word_sum (1 ∷ 255 ∷ 7 ∷ []) + inet_chksum (1 ∷ 255 ∷ 7 ∷ [])) % 65535 ≡ 0)
    × ((inet_chksum (1 ∷ 255 ∷ 7 ∷ []) ≡ 0xffff) ↔ (word_sum (1 ∷ 255 ∷ 7 ∷ []) ≡ 0))
inet_chksum_verifies_example =
    inet_chksum_verifies (1 ∷ 255 ∷ 7 ∷ []) (omega arith, (omega arith, (omega arith, tt)))
      (omega arith)
