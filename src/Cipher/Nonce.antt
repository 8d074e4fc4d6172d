-- ===== src/Cipher/Nonce.antt =====
-- Different sequence numbers give different nonces, within the width that a method spreads over them,
-- in crates/core/src/crypto/cipher.rs.
use nextppp.Prelude.{
  ℕ, zero, suc, ◌+◌, ◌*◌, ◌/◌, ◌%◌, ◌^◌, ◌≤◌, ◌<◌, ◌≡◌, arith, refl, sym, ap, ap₂, ◌∙◌,
}
use nextppp.Prelude.{List, [], ◌∷◌, length, get_or, set, length-set, get_or-set_self, get_or-set_ne}
use nextppp.Prelude.{bit_xor, xor_cancel, xor_comm}
use nextppp.Modes.Bytes.{length-to_be_bytes}
use nextppp.Modes.{to_be_bytes, from_be_bytes}
use nextppp.Cipher.{nonce_loop, nonce_at, xor_width, iv_len, Method, aes128_cfb, aes256_cfb}
use nextppp.Cipher.{aes128_ctr, aes256_ctr, chacha20}
use native.Mathlib.Nat.{
  pow-suc, mod-eq_of_lt, mod-one, one-le-pow, mul-le-mul_right, mod-lt, div-add-mod,
}
use native.Mathlib.Nat.{add-mul-mod_self_left}

-- The digits of a number to the base 256, highest first, give its remainder back.
mod_split : (v m : ℕ) → 0 < m → v % (m * 256) ≡ v / m % 256 * m + v % m
mod_split v m h =
    let q : ℕ = v / m in
    let low : ℕ = q % 256 * m + v % m in
    let digit_le : q % 256 * m ≤ 255 * m = mul-le-mul_right m (omega arith) in
    let low_lt : low < m * 256 = omega (arith, digit_le, mod-lt v {m = m} h) in
    let regroup : v ≡ low + m * 256 * (q / 256) =
      omega (arith, div-add-mod v m, ap (λ (t : ℕ). m * t) (div-add-mod q 256)) in
    ap (λ (t : ℕ). t % (m * 256)) regroup
    ∙ add-mul-mod_self_left low (m * 256) (q / 256)
    ∙ mod-eq_of_lt low_lt

from_be_bytes-to_be_bytes :
    (n acc v : ℕ) → from_be_bytes acc (to_be_bytes n v) ≡ acc * 256 ^ n + v % 256 ^ n
unfolding from_be_bytes to_be_bytes
from_be_bytes-to_be_bytes zero acc v = omega (arith, mod-one v)
from_be_bytes-to_be_bytes (suc n) acc v =
    from_be_bytes-to_be_bytes n (acc * 256 + v / 256 ^ n % 256) v
    ∙ rw (pow-suc 256 n) (omega (arith, mod_split v (256 ^ n) (one-le-pow n 256 (omega arith))))

pub to_be_bytes_injective :
    (n v w : ℕ) → v < 256 ^ n → w < 256 ^ n → to_be_bytes n v ≡ to_be_bytes n w → v ≡ w
to_be_bytes_injective n v w hv hw e = omega (
  arith,
  from_be_bytes-to_be_bytes n 0 v,
  from_be_bytes-to_be_bytes n 0 w,
  ap (from_be_bytes 0) e,
  mod-eq_of_lt hv,
  mod-eq_of_lt hw,
)

xor_injective : (a s t : ℕ) → bit_xor a s ≡ bit_xor a t → s ≡ t
xor_injective a s t e =
    sym (xor_cancel s a) ∙ ap (λ x. bit_xor x a) (xor_comm s a ∙ e ∙ xor_comm a t) ∙ xor_cancel t a

-- The loop leaves the places before its start alone.
nonce_loop_before :
    (start i : ℕ) (ss nonce : List ℕ)
    → i < start
    → get_or (nonce_loop start ss nonce) i 0 ≡ get_or nonce i 0
unfolding nonce_loop
nonce_loop_before start i [] nonce h = refl
nonce_loop_before start i (s ∷ ss) nonce h =
    let v : ℕ = bit_xor (get_or nonce start 0) s in
    nonce_loop_before (start + 1) i ss (set nonce start v) (omega arith)
    ∙ get_or-set_ne nonce start i v 0 (omega arith)

nonce_loop_injective :
    (start : ℕ) (ss ts nonce : List ℕ)
    → length ss ≡ length ts
    → start + length ss ≤ length nonce
    → nonce_loop start ss nonce ≡ nonce_loop start ts nonce
    → ss ≡ ts
nonce_loop_injective start [] [] nonce e fits h = refl
nonce_loop_injective start [] (t ∷ ts) nonce e fits h = absurd (omega arith)
nonce_loop_injective start (s ∷ ss) [] nonce e fits h = absurd (omega arith)
nonce_loop_injective start (s ∷ ss) (t ∷ ts) nonce e fits h =
    let a : ℕ = get_or nonce start 0 in
    let head_eq : s ≡ t =
      xor_injective a s t (sym (head_of s ss) ∙ ap (λ n. get_or n start 0) h ∙ head_of t ts) in
    ap₂ ◌∷◌ head_eq (
      nonce_loop_injective (start + 1) ss ts (set nonce start (bit_xor a s)) (omega arith)
        (omega (arith, length-set nonce start (bit_xor a s)))
        (unfold_step s ss
          ∙ h
          ∙ sym (unfold_step t ts)
          ∙ ap (λ x. nonce_loop (start + 1) ts (set nonce start (bit_xor a x))) (sym head_eq)))
  where
    unfold_step :
        (x : ℕ) (xs : List ℕ)
        → nonce_loop (start + 1) xs (set nonce start (bit_xor (get_or nonce start 0) x))
          ≡ nonce_loop start (x ∷ xs) nonce
    unfold_step x xs = unfold nonce_loop in refl

    head_of :
        (x : ℕ) (xs : List ℕ)
        → get_or (nonce_loop start (x ∷ xs) nonce) start 0 ≡ bit_xor (get_or nonce start 0) x
    head_of x xs =
        ap (λ n. get_or n start 0) (sym (unfold_step x xs))
        ∙ nonce_loop_before (start + 1) start xs
            (set nonce start (bit_xor (get_or nonce start 0) x)) (omega arith)
        ∙ get_or-set_self nonce start (bit_xor (get_or nonce start 0) x) 0 (omega arith)

eight :
    (base_iv : List ℕ) (s t : ℕ)
    → length base_iv ≡ 16
    → s < 256 ^ 8
    → t < 256 ^ 8
    → nonce_loop 8 (to_be_bytes 8 s) base_iv ≡ nonce_loop 8 (to_be_bytes 8 t) base_iv
    → s ≡ t
eight base_iv s t len hs ht e = to_be_bytes_injective 8 s t hs ht (
    nonce_loop_injective 8 (to_be_bytes 8 s) (to_be_bytes 8 t) base_iv
      (length-to_be_bytes 8 s ∙ sym (length-to_be_bytes 8 t))
      (omega (arith, length-to_be_bytes 8 s, len)) e)

-- The AES modes spread 64 bits of the sequence number over the nonce, ChaCha20 32 bits: two
-- sequence numbers below that have different nonces.
pub nonce_at_injective :
    (m : Method) (base_iv : List ℕ) (s t : ℕ)
    → length base_iv ≡ 16
    → s < 256 ^ xor_width m
    → t < 256 ^ xor_width m
    → nonce_at m base_iv s ≡ nonce_at m base_iv t
    → s ≡ t
unfolding nonce_at iv_len xor_width
nonce_at_injective aes128_cfb base_iv s t len hs ht e = eight base_iv s t len hs ht e
nonce_at_injective aes256_cfb base_iv s t len hs ht e = eight base_iv s t len hs ht e
nonce_at_injective aes128_ctr base_iv s t len hs ht e = eight base_iv s t len hs ht e
nonce_at_injective aes256_ctr base_iv s t len hs ht e = eight base_iv s t len hs ht e
nonce_at_injective chacha20 base_iv s t len hs ht e =
    let same : to_be_bytes 4 s ≡ to_be_bytes 4 t =
      nonce_loop_injective 8 (to_be_bytes 4 s) (to_be_bytes 4 t) base_iv
        (length-to_be_bytes 4 s ∙ sym (length-to_be_bytes 4 t))
        (omega (arith, length-to_be_bytes 4 s, len)) (unfold to_be_bytes in e) in
    to_be_bytes_injective 4 s t hs ht same
