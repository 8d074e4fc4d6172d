-- ===== src/Cipher/Tests.antt =====
-- The session ciphers at concrete inputs.
use nextppp.Prelude.{ℕ, ◌≡◌, arith, refl, List, replicate}
use nextppp.Prelude.{some}
use nextppp.Cipher.{chacha20, aes128_cfb, protocol, derive, for_decryption, apply}
use nextppp.Cipher.{encode_base32, SessionCipher, xor_width}
use nextppp.Cipher.{
  from_name, codes, trim, trim_start, is_whitespace, to_ascii_lowercase, text_eq, base32_loop,
  base32_digit,
}
use nextppp.Samples.{plain_backend}
use nextppp.Cipher.RoundTrip.{apply-apply, derive-InStep}
use nextppp.Cipher.Base32.{keying_material_injective}
use nextppp.Cipher.Nonce.{nonce_at_injective}

abbrev password : List ℕ
password = codes "swordfish"

-- The source's aliases.
chacha20_alias : from_name (codes " ChaCha20-IETF ") ≡ some chacha20
unfolding from_name trim trim_start is_whitespace to_ascii_lowercase text_eq
chacha20_alias = refl

base32_run : encode_base32 1055 ≡ codes "10v"
unfolding encode_base32 base32_loop base32_digit
base32_run = refl

abbrev tx : SessionCipher
tx = derive plain_backend aes128_cfb protocol password (some 77)

apply-apply_example :
    (apply plain_backend
      (for_decryption tx)
      (apply plain_backend tx (codes "a packet of text")).0).0
    ≡ codes "a packet of text"
apply-apply_example =
    apply-apply plain_backend tx (for_decryption tx) (codes "a packet of text")
      (derive-InStep plain_backend aes128_cfb protocol password (some 77))

keying_material_injective_example : ◌≡◌ {A = ℕ} 19 19
keying_material_injective_example =
    keying_material_injective password 19 19 (omega arith) (omega arith) (omega arith) (omega arith)
      refl

nonce_at_injective_example : ◌≡◌ {A = ℕ} 300 300
nonce_at_injective_example =
    nonce_at_injective chacha20 (replicate 16 3) 300 300 refl (unfold xor_width in omega arith)
      (unfold xor_width in omega arith) refl
