-- ===== src/Cipher/RoundTrip.antt =====
-- A decrypting cipher in step with an encrypting one reads what that one wrote.
use nextppp.Prelude.{ℕ, ◌+◌, ◌%◌, ◌^◌, ◌≡◌, refl, ap, Bool, true, false}
use nextppp.Prelude.{List, length, take, All, Option}
use nextppp.Ssea.{IsByte}
use nextppp.Modes.Cfb.{
  cfb_decrypt-cfb_encrypt, length-cfb_encrypt, length-cfb_decrypt, xor_bytes_twice,
  length-xor_bytes,
}
use nextppp.Modes.Ctr.{ctr_apply_twice, length-ctr_apply}
use nextppp.Modes.Bytes.{cfb_encrypt-IsByte, ctr_apply-IsByte, xor_bytes-IsByte}
use nextppp.Cipher.{Backend, Method, aes128_cfb, aes256_cfb, aes128_ctr, aes256_ctr, chacha20}
use nextppp.Cipher.{CipherRole, SessionCipher, next_nonce, nonce_at, apply_method, apply, cfb_apply}
use nextppp.Cipher.{derive, for_decryption}

-- The two ends of one direction: the same key and base nonce, and the same count of packets.
pub record InStep (tx rx : SessionCipher) : Type 0 where
  pub same_method : rx.method ≡ tx.method
  pub same_key : rx.core_key ≡ tx.core_key
  pub same_iv : rx.base_iv ≡ tx.base_iv
  pub same_seq : rx.seq ≡ tx.seq
  pub encrypts : tx.encrypting ≡ true
  pub decrypts : rx.encrypting ≡ false

module _ (b : Backend) where
  method_roundtrip :
      (m : Method) (key nonce bytes : List ℕ)
      → apply_method b m key nonce false (apply_method b m key nonce true bytes) ≡ bytes
  unfolding apply_method cfb_apply
  method_roundtrip aes128_cfb key nonce bytes =
      cfb_decrypt-cfb_encrypt (b.aes_block key) nonce bytes
  method_roundtrip aes256_cfb key nonce bytes =
      cfb_decrypt-cfb_encrypt (b.aes_block key) nonce bytes
  method_roundtrip aes128_ctr key nonce bytes = ctr_apply_twice (b.aes_block key) nonce bytes
  method_roundtrip aes256_ctr key nonce bytes = ctr_apply_twice (b.aes_block key) nonce bytes
  method_roundtrip chacha20 key nonce bytes =
      let ks : ℕ → List ℕ = b.chacha20_keystream key (take 12 nonce) in
      rw (length-xor_bytes bytes (ks (length bytes))) (xor_bytes_twice bytes (ks (length bytes)))

  length-cfb_apply :
      (key nonce bytes : List ℕ) (encrypting : Bool)
      → length (cfb_apply b key nonce bytes encrypting) ≡ length bytes
  unfolding cfb_apply
  length-cfb_apply key nonce bytes true = length-cfb_encrypt (b.aes_block key) nonce bytes
  length-cfb_apply key nonce bytes false = length-cfb_decrypt (b.aes_block key) nonce bytes

  length-method :
      (m : Method) (key nonce : List ℕ) (encrypting : Bool) (bytes : List ℕ)
      → length (apply_method b m key nonce encrypting bytes) ≡ length bytes
  unfolding apply_method
  length-method aes128_cfb key nonce encrypting bytes = length-cfb_apply key nonce bytes encrypting
  length-method aes256_cfb key nonce encrypting bytes = length-cfb_apply key nonce bytes encrypting
  length-method aes128_ctr key nonce encrypting bytes =
      length-ctr_apply (b.aes_block key) nonce bytes
  length-method aes256_ctr key nonce encrypting bytes =
      length-ctr_apply (b.aes_block key) nonce bytes
  length-method chacha20 key nonce encrypting bytes = length-xor_bytes bytes _

  method-IsByte :
      (m : Method) (key nonce bytes : List ℕ)
      → All IsByte bytes
      → All IsByte (apply_method b m key nonce true bytes)
  unfolding apply_method cfb_apply
  method-IsByte aes128_cfb key nonce bytes h =
      cfb_encrypt-IsByte (b.aes_block key) (b.aes_block-IsByte key) nonce bytes h
  method-IsByte aes256_cfb key nonce bytes h =
      cfb_encrypt-IsByte (b.aes_block key) (b.aes_block-IsByte key) nonce bytes h
  method-IsByte aes128_ctr key nonce bytes h =
      ctr_apply-IsByte (b.aes_block key) (b.aes_block-IsByte key) nonce bytes h
  method-IsByte aes256_ctr key nonce bytes h =
      ctr_apply-IsByte (b.aes_block key) (b.aes_block-IsByte key) nonce bytes h
  method-IsByte chacha20 key nonce bytes h =
      xor_bytes-IsByte bytes _ h (b.chacha20_keystream-IsByte key (take 12 nonce) (length bytes))

  pub length-apply :
      (c : SessionCipher) (bytes : List ℕ) → length (apply b c bytes).0 ≡ length bytes
  unfolding apply next_nonce
  length-apply c bytes =
      length-method c.method c.core_key (nonce_at c.method c.base_iv c.seq) c.encrypting bytes

  pub apply-IsByte :
      (c : SessionCipher) (bytes : List ℕ)
      → c.encrypting ≡ true
      → All IsByte bytes
      → All IsByte (apply b c bytes).0
  unfolding apply next_nonce
  apply-IsByte c bytes e h =
      rw e (method-IsByte c.method c.core_key (nonce_at c.method c.base_iv c.seq) bytes h)

  -- One packet each moves both ends on, whatever the bytes.
  pub apply-InStep :
      (tx rx : SessionCipher) (xs ys : List ℕ)
      → InStep tx rx
      → InStep (apply b tx xs).1 (apply b rx ys).1
  unfolding apply next_nonce
  apply-InStep tx rx xs ys s = record {
    same_method = s.same_method;
    same_key = s.same_key;
    same_iv = s.same_iv;
    same_seq = ap (λ (n : ℕ). (n + 1) % 2 ^ 64) s.same_seq;
    encrypts = s.encrypts;
    decrypts = s.decrypts;
  }

  -- For every method, a cipher in step decrypts a packet of any length to the plaintext.
  pub apply-apply :
      (tx rx : SessionCipher) (bytes : List ℕ)
      → InStep tx rx
      → (apply b rx (apply b tx bytes).0).0 ≡ bytes
  unfolding apply next_nonce
  apply-apply tx rx bytes s =
      rw (s.same_method, s.same_key, s.same_iv, s.same_seq, s.encrypts, s.decrypts)
        (method_roundtrip tx.method tx.core_key (nonce_at tx.method tx.base_iv tx.seq) bytes)

  -- Ciphers derived from one password, role, method and ivv start in step.
  pub derive-InStep :
      (m : Method) (role : CipherRole) (password : List ℕ) (ivv : Option ℕ)
      → InStep (derive b m role password ivv) (for_decryption (derive b m role password ivv))
  unfolding derive for_decryption
  derive-InStep m role password ivv = record {
    same_method = refl;
    same_key = refl;
    same_iv = refl;
    same_seq = refl;
    encrypts = refl;
    decrypts = refl;
  }
