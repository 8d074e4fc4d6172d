-- ===== src/Ssea/Tests.antt =====
-- Runs of the primitives, and their theorems at concrete inputs.
use nextppp.Prelude.{ℕ, ◌%◌, ◌≡◌, arith, refl, List, [], ◌∷◌}
use nextppp.Ssea.{fast_mod, fastmod_magic, shuffle, unshuffle, shuffle_loop}
use nextppp.Ssea.{swap, index, delta_encode, delta_encode_from}
use nextppp.Ssea.FastMod.{fast_mod-fastmod_magic}
use nextppp.Ssea.Shuffle.{unshuffle-shuffle}

-- The source's tests of `shuffle` and of the first byte of `delta_encode`.
shuffle_three : shuffle (1 ∷ 2 ∷ 3 ∷ []) 1 ≡ 3 ∷ 2 ∷ 1 ∷ []
unfolding shuffle shuffle_loop swap index fast_mod fastmod_magic
shuffle_three = refl

shuffle_two : shuffle (1 ∷ 2 ∷ []) 0x5a5a_5a5a ≡ 1 ∷ 2 ∷ []
unfolding shuffle shuffle_loop swap index fast_mod fastmod_magic
shuffle_two = refl

delta_first : delta_encode (0x10 ∷ []) 0xab ≡ 0x65 ∷ []
unfolding delta_encode delta_encode_from
delta_first = refl

abbrev sample : List ℕ
sample = 7 ∷ 0 ∷ 255 ∷ 16 ∷ 3 ∷ 200 ∷ 41 ∷ []

fast_mod-fastmod_magic_example :
    fast_mod 4_294_967_295 (fastmod_magic 65539) 65539 ≡ 4_294_967_295 % 65539
fast_mod-fastmod_magic_example =
    fast_mod-fastmod_magic 4_294_967_295 65539 (omega arith) (omega arith) (omega arith)

unshuffle-shuffle_example : unshuffle (shuffle sample 99) 99 ≡ sample
unshuffle-shuffle_example = unshuffle-shuffle sample 99 (omega arith) (omega arith)
