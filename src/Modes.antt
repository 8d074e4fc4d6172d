-- ===== src/Modes.antt =====
-- The block modes of crates/core/src/crypto/cipher.rs over an abstract block cipher `encrypt`, the
-- `encrypt_block` of the `aes` crate under a fixed key. A block is a list of 16 bytes.
pub mod Cfb
pub mod Ctr
pub mod Serial
pub mod Bytes
mod Tests
use nextppp.Prelude.{ℕ, zero, suc, ◌+◌, ◌-◌, ◌*◌, ◌/◌, ◌%◌, ◌^◌, min, bit_xor}
use nextppp.Prelude.{List, [], ◌∷◌, ◌++◌, map, length, take, drop}

-- Byte by byte, as far as the keystream goes.
pub xor_bytes : List ℕ → List ℕ → List ℕ
xor_bytes [] ks = []
xor_bytes (b ∷ bs) [] = b ∷ bs
xor_bytes (b ∷ bs) (k ∷ ks) = bit_xor b k ∷ xor_bytes bs ks

-- `to_be_bytes` of a number of `n` bytes, and `from_be_bytes` on the front of what is there.
unfoldable pub to_be_bytes : ℕ → ℕ → List ℕ
to_be_bytes zero v = []
to_be_bytes (suc n) v = v / 256 ^ n % 256 ∷ to_be_bytes n v

unfoldable pub from_be_bytes : ℕ → List ℕ → ℕ
from_be_bytes acc [] = acc
from_be_bytes acc (b ∷ bs) = from_be_bytes (acc * 256 + b) bs

pub flatten : List (List ℕ) → List ℕ
flatten [] = []
flatten (block ∷ blocks) = block ++ flatten blocks

-- `ks[0..n]` before it is encrypted: the block before each of the next `n` blocks.
pub feedbacks : ℕ → List ℕ → List ℕ → List (List ℕ)
feedbacks zero prev bytes = []
feedbacks (suc n) prev bytes = prev ∷ feedbacks n (take 16 bytes) (drop 16 bytes)

pub xor_blocks : List (List ℕ) → List ℕ → List ℕ
xor_blocks [] bytes = []
xor_blocks (k ∷ ks) bytes = xor_bytes (take 16 bytes) k ++ xor_blocks ks (drop 16 bytes)

-- The counter blocks from `counter` on; the 128-bit counter wraps.
pub counter_blocks : ℕ → ℕ → List (List ℕ)
counter_blocks zero counter = []
counter_blocks (suc n) counter = to_be_bytes 16 counter ∷ counter_blocks n ((counter + 1) % 2 ^ 128)

module _ (encrypt : List ℕ → List ℕ) where
  pub xor_tail : List ℕ → List ℕ → List ℕ
  xor_tail feedback [] = []
  xor_tail feedback (b ∷ rem) = xor_bytes (b ∷ rem) (encrypt feedback)

  -- `n` whole blocks are left; each ciphertext block is the next feedback.
  pub cfb_encrypt_chunks : ℕ → List ℕ → List ℕ → List ℕ
  cfb_encrypt_chunks zero fb bytes = xor_tail fb bytes
  cfb_encrypt_chunks (suc n) fb bytes =
      let ct = xor_bytes (take 16 bytes) (encrypt fb) in
      ct ++ cfb_encrypt_chunks n ct (drop 16 bytes)

  pub cfb_encrypt : List ℕ → List ℕ → List ℕ
  cfb_encrypt iv bytes = cfb_encrypt_chunks (length bytes / 16) iv bytes

  -- Batches of up to 8 blocks; `left` whole blocks are not decrypted yet, and each round takes one
  -- at least, so `left` rounds are enough (`cfb_decrypt_batches-serial`).
  pub cfb_decrypt_batches : ℕ → ℕ → List ℕ → List ℕ → List ℕ
  cfb_decrypt_batches fuel zero prev bytes = xor_tail prev bytes
  cfb_decrypt_batches zero (suc left) prev bytes = bytes
  cfb_decrypt_batches (suc fuel) (suc left) prev bytes =
      let n = min (suc left) 8 in
      let last_ct = take 16 (drop ((n - 1) * 16) bytes) in
      let ks = map encrypt (feedbacks n prev bytes) in
      xor_blocks ks bytes ++ cfb_decrypt_batches fuel (suc left - n) last_ct (drop (n * 16) bytes)

  pub cfb_decrypt : List ℕ → List ℕ → List ℕ
  cfb_decrypt iv bytes = let nb = length bytes / 16 in cfb_decrypt_batches nb nb iv bytes

  -- Batches of up to 128 bytes; each round takes one at least.
  pub ctr_batches : ℕ → ℕ → List ℕ → List ℕ
  ctr_batches fuel counter [] = []
  ctr_batches zero counter (b ∷ rest) = b ∷ rest
  ctr_batches (suc fuel) counter (b ∷ rest) =
      let bytes = b ∷ rest in
      let taken = min (length bytes) 128 in
      let n = (taken + 15) / 16 in
      let ks = flatten (map encrypt (counter_blocks n counter)) in
      xor_bytes (take taken bytes) ks
      ++ ctr_batches fuel ((counter + n) % 2 ^ 128) (drop taken bytes)

  pub ctr_apply : List ℕ → List ℕ → List ℕ
  ctr_apply iv bytes = ctr_batches (length bytes) (from_be_bytes 0 iv) bytes
