-- ===== src/Binary/Payload.antt =====
-- The transform chain of a payload is undone in reverse.
use nextppp.Prelude.{ℕ, ◌^◌, ◌<◌, ◌≡◌, arith, refl, ◌∙◌, Bool, true, false, if◌then◌else◌}
use nextppp.Prelude.{List, length, All}
use nextppp.Ssea.{IsByte, IsU32, shuffle, unshuffle, delta_encode, delta_decode}
use nextppp.Ssea.{masked_xor_random_next}
use nextppp.Ssea.Shuffle.{unshuffle-shuffle, length-shuffle, shuffle-IsByte, length-unshuffle}
use nextppp.Ssea.Delta.{
  delta_decode-delta_encode, length-delta_encode, delta_encode-IsByte, length-delta_decode,
}
use nextppp.Ssea.Masked.{masked_xor_random_next_twice, length-masked_xor_random_next}
use nextppp.Ssea.Masked.{masked_xor_random_next-IsByte}
use nextppp.Binary.{PayloadFlags, payload_obfuscate, payload_deobfuscate}

-- One optional stage of the chain and its inverse.
stage_roundtrip :
    (on : Bool) (f undo : List ℕ → List ℕ) (xs : List ℕ)
    → undo (f xs) ≡ xs
    → (if on then undo (if on then f xs else xs) else (if on then f xs else xs)) ≡ xs
stage_roundtrip true f undo xs h = h
stage_roundtrip false f undo xs h = refl

stage-IsByte :
    (on : Bool) (ys xs : List ℕ)
    → All IsByte ys
    → All IsByte xs
    → All IsByte (if on then ys else xs)
stage-IsByte true ys xs h k = h
stage-IsByte false ys xs h k = k

length-stage :
    (on : Bool) (ys xs : List ℕ)
    → length ys ≡ length xs
    → length (if on then ys else xs) ≡ length xs
length-stage true ys xs h = h
length-stage false ys xs h = refl

pub length-payload_obfuscate :
    (xs : List ℕ) (flags : PayloadFlags) (header_kf kf : ℕ)
    → length (payload_obfuscate xs flags header_kf kf) ≡ length xs
unfolding payload_obfuscate
length-payload_obfuscate xs flags header_kf kf =
    let ys : List ℕ = if flags.masked then masked_xor_random_next xs header_kf else xs in
    let zs : List ℕ = if flags.shuffled then shuffle ys header_kf else ys in
    length-stage flags.delta (delta_encode zs kf) zs (length-delta_encode zs kf)
    ∙ length-stage flags.shuffled (shuffle ys header_kf) ys (length-shuffle ys header_kf)
    ∙ length-stage flags.masked (masked_xor_random_next xs header_kf) xs
        (length-masked_xor_random_next xs header_kf)

pub payload_obfuscate-IsByte :
    (xs : List ℕ) (flags : PayloadFlags) (header_kf kf : ℕ)
    → All IsByte xs
    → length xs < 2 ^ 32
    → IsU32 header_kf
    → All IsByte (payload_obfuscate xs flags header_kf kf)
unfolding payload_obfuscate
payload_obfuscate-IsByte xs flags header_kf kf h fits key_fits =
    let masked : List ℕ = masked_xor_random_next xs header_kf in
    let ys : List ℕ = if flags.masked then masked else xs in
    let zs : List ℕ = if flags.shuffled then shuffle ys header_kf else ys in
    let hy = stage-IsByte flags.masked masked xs (masked_xor_random_next-IsByte xs header_kf h) h in
    let ys_len = length-stage flags.masked masked xs (length-masked_xor_random_next xs header_kf) in
    let hz =
      stage-IsByte flags.shuffled (shuffle ys header_kf) ys
        (shuffle-IsByte ys header_kf (omega (arith, ys_len)) key_fits hy) hy in
    stage-IsByte flags.delta (delta_encode zs kf) zs (delta_encode-IsByte zs kf) hz

-- Under the same flags and keys, every payload of bytes comes back.
pub payload_deobfuscate-payload_obfuscate :
    (xs : List ℕ) (flags : PayloadFlags) (header_kf kf : ℕ)
    → All IsByte xs
    → length xs < 2 ^ 32
    → IsU32 header_kf
    → payload_deobfuscate (payload_obfuscate xs flags header_kf kf) flags header_kf kf ≡ xs
unfolding payload_deobfuscate payload_obfuscate
payload_deobfuscate-payload_obfuscate xs flags header_kf kf h fits key_fits =
    let mask : List ℕ → List ℕ = λ x. masked_xor_random_next x header_kf in
    let ys : List ℕ = if flags.masked then mask xs else xs in
    let zs : List ℕ = if flags.shuffled then shuffle ys header_kf else ys in
    let hy =
      stage-IsByte flags.masked (mask xs) xs (masked_xor_random_next-IsByte xs header_kf h) h in
    let ys_len =
      length-stage flags.masked (mask xs) xs (length-masked_xor_random_next xs header_kf) in
    let hz =
      stage-IsByte flags.shuffled (shuffle ys header_kf) ys
        (shuffle-IsByte ys header_kf (omega (arith, ys_len)) key_fits hy) hy in
    let undelta =
      stage_roundtrip flags.delta (λ x. delta_encode x kf) (λ x. delta_decode x kf) zs
        (delta_decode-delta_encode zs kf hz) in
    let unshuffled =
      stage_roundtrip flags.shuffled (λ x. shuffle x header_kf) (λ x. unshuffle x header_kf) ys
        (unshuffle-shuffle ys header_kf (omega (arith, ys_len)) key_fits) in
    let unmasked =
      stage_roundtrip flags.masked mask mask xs (masked_xor_random_next_twice xs header_kf h) in
    rw (undelta, unshuffled) unmasked

pub length-payload_deobfuscate :
    (xs : List ℕ) (flags : PayloadFlags) (header_kf kf : ℕ)
    → length (payload_deobfuscate xs flags header_kf kf) ≡ length xs
unfolding payload_deobfuscate
length-payload_deobfuscate xs flags header_kf kf =
    let ys : List ℕ = if flags.delta then delta_decode xs kf else xs in
    let zs : List ℕ = if flags.shuffled then unshuffle ys header_kf else ys in
    length-stage flags.masked (masked_xor_random_next zs header_kf) zs
      (length-masked_xor_random_next zs header_kf)
    ∙ length-stage flags.shuffled (unshuffle ys header_kf) ys (length-unshuffle ys header_kf)
    ∙ length-stage flags.delta (delta_decode xs kf) xs (length-delta_decode xs kf)
