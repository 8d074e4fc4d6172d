-- ===== src/Cipher.antt =====
-- The session ciphers of crates/core/src/crypto/cipher.rs. A text is the list of its code points.
pub mod RoundTrip
pub mod Base32
pub mod Nonce
mod Tests
use nextppp.Prelude.{ℕ, zero, suc, ◌+◌, ◌-◌, ◌*◌, ◌/◌, ◌%◌, ◌^◌, bit_and, bit_xor, ◌==◌, ltb, leb}
use nextppp.Prelude.{if◌then◌else◌, Bool, true, false, ◌&&◌, ◌||◌, Option, none, some}
use nextppp.Prelude.{List, [], ◌∷◌, ◌++◌, map, take, drop, length, get_or, set, All}
use nextppp.Modes.{to_be_bytes, xor_bytes, cfb_encrypt, cfb_decrypt, ctr_apply}
use mathlib.Core.List.{reverse}
use Prim.Native.String.{String}
use Prim.Native.Char.{code}
use nextppp.Ssea.{IsByte}

-- What the crates `aes`, `chacha20` and `hkdf` give the session ciphers.
-- A block under AES with the given key; the first bytes of the ChaCha20 keystream of a key and a
-- nonce; and HKDF-SHA256 of a salt, keying material, an info and a length. All yield bytes.
pub record Backend : Type 0 where
  pub aes_block : List ℕ → List ℕ → List ℕ
  pub chacha20_keystream : List ℕ → List ℕ → ℕ → List ℕ
  pub hkdf_sha256 : List ℕ → List ℕ → List ℕ → ℕ → List ℕ
  pub aes_block-IsByte : (key block : List ℕ) → All IsByte (aes_block key block)
  pub chacha20_keystream-IsByte :
      (key nonce : List ℕ) (n : ℕ) → All IsByte (chacha20_keystream key nonce n)

-- The code points of a text literal.
abbrev pub codes : String → List ℕ
codes String.[] = []
codes (String.◌∷◌ c s) = code c ∷ codes s

pub data CipherRole : Type 0 where
  protocol transport : CipherRole

pub data Method : Type 0 where
  aes128_cfb aes256_cfb aes128_ctr aes256_ctr chacha20 : Method

pub role_name : CipherRole → List ℕ
role_name protocol = codes "protocol"
role_name transport = codes "transport"

unfoldable pub method_name : Method → List ℕ
method_name aes128_cfb = codes "aes-128-cfb"
method_name aes256_cfb = codes "aes-256-cfb"
method_name aes128_ctr = codes "aes-128-ctr"
method_name aes256_ctr = codes "aes-256-ctr"
method_name chacha20 = codes "chacha20"

-- `char::is_whitespace`, for `str::trim`.
unfoldable pub is_whitespace : ℕ → Bool
is_whitespace c =
    (leb 9 c && leb c 13)
    || c == 0x20
    || c == 0x85
    || c == 0xa0
    || c == 0x1680
    || (leb 0x2000 c && leb c 0x200a)
    || c == 0x2028
    || c == 0x2029
    || c == 0x202f
    || c == 0x205f
    || c == 0x3000

unfoldable pub trim_start : List ℕ → List ℕ
trim_start [] = []
trim_start (c ∷ cs) = let rest = trim_start cs in if is_whitespace c then rest else c ∷ cs

unfoldable pub trim : List ℕ → List ℕ
trim cs = reverse (trim_start (reverse (trim_start cs)))

unfoldable pub to_ascii_lowercase : ℕ → ℕ
to_ascii_lowercase c = if leb b'A' c && leb c b'Z' then c + 32 else c

unfoldable pub text_eq : List ℕ → List ℕ → Bool
text_eq [] [] = true
text_eq (a ∷ as') (b ∷ bs) = a == b && text_eq as' bs
text_eq _ _ = false

unfoldable pub from_name : List ℕ → Option Method
from_name name =
    let n = map to_ascii_lowercase (trim name) in
    if text_eq n (codes "aes-128-cfb")
    then some aes128_cfb
    else if text_eq n (codes "aes-256-cfb")
    then some aes256_cfb
    else if text_eq n (codes "aes-128-ctr")
    then some aes128_ctr
    else if text_eq n (codes "aes-256-ctr")
    then some aes256_ctr
    else if text_eq n (codes "chacha20") || text_eq n (codes "chacha20-ietf")
    then some chacha20
    else none

pub key_len : Method → ℕ
key_len aes128_cfb = 16
key_len aes128_ctr = 16
key_len aes256_cfb = 32
key_len aes256_ctr = 32
key_len chacha20 = 32

pub iv_len : Method → ℕ
iv_len chacha20 = 12
iv_len aes128_cfb = 16
iv_len aes256_cfb = 16
iv_len aes128_ctr = 16
iv_len aes256_ctr = 16

-- Lowest digit first, before the reversal; a 128-bit number has 26 digits at most
-- (`base32_value-encode_base32`).
pub base32_digit : ℕ → ℕ
base32_digit d = get_or (codes "0123456789abcdefghijklmnopqrstuv") d 0

pub base32_loop : ℕ → ℕ → List ℕ
base32_loop zero v = []
base32_loop (suc fuel) v =
    let rest = base32_loop fuel (v / 2 ^ 5) in
    base32_digit (bit_and v 31) ∷ (if v / 2 ^ 5 == 0 then [] else rest)

pub encode_base32 : ℕ → List ℕ
encode_base32 v = reverse (base32_loop 26 v)

-- The cipher core that the source keeps beside the method is the key schedule of `core_key`; the
-- pairings of a core with another method's, which the source calls unreachable, have no value here.
pub record SessionCipher : Type 0 where
  pub method : Method
  pub core_key : List ℕ
  pub base_iv : List ℕ
  pub seq : ℕ
  pub encrypting : Bool

-- XORs the sequence bytes into the nonce from place `start` on.
pub nonce_loop : ℕ → List ℕ → List ℕ → List ℕ
nonce_loop start [] nonce = nonce
nonce_loop start (s ∷ ss) nonce =
    nonce_loop (start + 1) ss (set nonce start (bit_xor (get_or nonce start 0) s))

pub xor_width : Method → ℕ
xor_width chacha20 = 4
xor_width aes128_cfb = 8
xor_width aes256_cfb = 8
xor_width aes128_ctr = 8
xor_width aes256_ctr = 8

pub nonce_at : Method → List ℕ → ℕ → List ℕ
nonce_at m base_iv seq =
    nonce_loop (iv_len m - xor_width m) (drop (8 - xor_width m) (to_be_bytes 8 seq)) base_iv

-- The nonce of this packet; the sequence number moves on.
pub next_nonce : SessionCipher → List ℕ × SessionCipher
next_nonce c = (nonce_at c.method c.base_iv c.seq, record c { seq = (c.seq + 1) % 2 ^ 64 })

pub for_decryption : SessionCipher → SessionCipher
for_decryption c = record c { encrypting = false }

-- The input keying material of `derive_material`.
pub keying_material : List ℕ → Option ℕ → List ℕ
keying_material password none = password
keying_material password (some ivv) =
    password ++ ((if ltb 0 ivv then b'+' ∷ [] else []) ++ encode_base32 ivv)

module _ (b : Backend) where
  open b use {aes_block, chacha20_keystream, hkdf_sha256}

  -- The 32 key bytes and the 16 bytes of the base nonce.
  pub derive_material : CipherRole → Method → List ℕ → Option ℕ → List ℕ × List ℕ
  derive_material role m password ivv =
      let salt = codes "nextppp/" ++ (role_name role ++ (b'/' ∷ method_name m)) in
      let okm = hkdf_sha256 salt (keying_material password ivv) (codes "nextppp-session-key") 48 in
      (take 32 okm, drop 32 okm)

  pub derive : Method → CipherRole → List ℕ → Option ℕ → SessionCipher
  derive m role password ivv =
      let (key, base_iv) = derive_material role m password ivv in
      record {
        method = m;
        core_key = take (key_len m) key;
        base_iv = base_iv;
        seq = 0;
        encrypting = true;
      }

  pub new : Method → CipherRole → List ℕ → SessionCipher
  new m role password = derive m role password none

  pub cfb_apply : List ℕ → List ℕ → List ℕ → Bool → List ℕ
  cfb_apply key iv bytes true = cfb_encrypt (aes_block key) iv bytes
  cfb_apply key iv bytes false = cfb_decrypt (aes_block key) iv bytes

  pub apply_method : Method → List ℕ → List ℕ → Bool → List ℕ → List ℕ
  apply_method aes128_cfb key nonce encrypting bytes = cfb_apply key nonce bytes encrypting
  apply_method aes256_cfb key nonce encrypting bytes = cfb_apply key nonce bytes encrypting
  apply_method aes128_ctr key nonce encrypting bytes = ctr_apply (aes_block key) nonce bytes
  apply_method aes256_ctr key nonce encrypting bytes = ctr_apply (aes_block key) nonce bytes
  apply_method chacha20 key nonce encrypting bytes =
      xor_bytes bytes (chacha20_keystream key (take 12 nonce) (length bytes))

  -- The transformed bytes and the cipher after them.
  pub apply : SessionCipher → List ℕ → List ℕ × SessionCipher
  apply c bytes =
      let (nonce, c') = next_nonce c in
      (apply_method c.method c.core_key nonce c.encrypting bytes, c')
