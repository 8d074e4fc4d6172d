-- ===== src/Key.antt =====
-- The obfuscation and cipher parameters of crates/core/src/config.rs.
use nextppp.Prelude.{
  ℕ, ltb, if◌then◌else◌, Bool, true, false, ◌||◌, ◌==◌, List, length, Result, ok, err,
}
use nextppp.Errors.{Error, invalid_config}
use nextppp.Cipher.{Method, aes128_cfb, aes256_ctr, codes}

abbrev pub max_nop_exponent : ℕ
max_nop_exponent = 20

pub record ObfuscationKey : Type 0 where
  pub kf : ℕ
  pub kl : ℕ
  pub kh : ℕ
  pub kx : ℕ
  pub protocol : Method
  pub protocol_key : List ℕ
  pub transport : Method
  pub transport_key : List ℕ
  pub masked : Bool
  pub plaintext : Bool
  pub delta_encode : Bool
  pub shuffle_data : Bool

unfoldable pub validate : ObfuscationKey → Result (Unit {0}) Error
validate key =
    if ltb max_nop_exponent key.kl || ltb max_nop_exponent key.kh
    then err (invalid_config "kl/kh exceed MAX_NOP_EXPONENT")
    else if length key.protocol_key == 0 || length key.transport_key == 0
    then err (invalid_config "cipher password is empty")
    else ok tt

-- The default key of the source.
abbrev pub default_key : ObfuscationKey
default_key = record {
  kf = 154_543_927;
  kl = 10;
  kh = 12;
  kx = 128;
  protocol = aes128_cfb;
  protocol_key = codes "nextppp";
  transport = aes256_ctr;
  transport_key = codes "nextppp";
  masked = true;
  plaintext = false;
  delta_encode = true;
  shuffle_data = true;
}
