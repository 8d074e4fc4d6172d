-- ===== src/Config/Keys.antt =====
-- Which configurations crates/common/src/config.rs takes, and the keys that it makes of them.
use nextppp.Prelude.{ℕ, ◌≤◌, ◌≡◌, ◌↔◌, arith, refl, sym, ap, false, ◌==◌}
use nextppp.Prelude.{Option, none, some, List, length, Result, ok, err, ◌>>=◌}
use nextppp.Errors.{Error}
use nextppp.Cipher.{Method, from_name}
use nextppp.Key.{ObfuscationKey, validate, max_nop_exponent}
use nextppp.Config.{
  ObfuscationConfig, method, or_shared, password_of, placeholder_password, resolve_password,
  validated, to_key, known,
}
use Prim.Native.String.{String}

-- The password of a direction: its own or else the shared one, which must not be empty, or else the
-- placeholder.
pub IsPassword : Option (List ℕ) → List ℕ → Type 0
IsPassword none p = p ≡ placeholder_password
IsPassword (some own) p = (p ≡ own) × (1 ≤ length own)

abbrev key_from : ObfuscationConfig → List ℕ → Method → List ℕ → Method → ObfuscationKey
key_from c protocol_key protocol transport_key transport = record {
  kf = c.kf;
  kl = c.kl;
  kh = c.kh;
  kx = c.kx;
  protocol = protocol;
  protocol_key = protocol_key;
  transport = transport;
  transport_key = transport_key;
  masked = c.masked;
  plaintext = c.plaintext;
  delta_encode = c.delta_encode;
  shuffle_data = c.shuffle_data;
}

pub record IsKeyOf (c : ObfuscationConfig) (shared : Option (List ℕ)) (key : ObfuscationKey)
    : Type 0 where
  pub copied : key ≡ key_from c key.protocol_key key.protocol key.transport_key key.transport
  pub protocol_named : from_name c.protocol ≡ some key.protocol
  pub transport_named : from_name c.transport ≡ some key.transport
  pub protocol_password : IsPassword (or_shared c.protocol_key shared) key.protocol_key
  pub transport_password : IsPassword (or_shared c.transport_key shared) key.transport_key
  pub nops : (c.kl ≤ max_nop_exponent) × (c.kh ≤ max_nop_exponent)

bind_ok :
    {A B E : Type 0} (r : Result A E) (f : A → Result B E) (b : B)
    → (r >>= f) ≡ ok b
    → (a : A) × (r ≡ ok a) × (f a ≡ ok b)
bind_ok (ok a) f b h = (a, refl, h)
bind_ok (err e) f b h = absurd (cc)

method_ok : (name : List ℕ) (m : Method) → method name ≡ ok m → from_name name ≡ some m
unfolding method
method_ok name m h = go (from_name name) h
  where
    go : (o : Option Method) → known name o ≡ ok m → o ≡ some m
    go none k = absurd (cc)
    go (some m') k = ground arith

method_named : (name : List ℕ) (m : Method) → from_name name ≡ some m → method name ≡ ok m
unfolding method
method_named name m h = rw h refl

IsPassword-ok :
    (o : Option (List ℕ)) (field : String) (p : List ℕ)
    → password_of o field ≡ ok p
    → IsPassword o p
unfolding password_of IsPassword
IsPassword-ok none field p h = ground arith
IsPassword-ok (some own) field p h = (ground arith, ground arith)

is_ok_password :
    (o : Option (List ℕ)) (field : String) (p : List ℕ)
    → IsPassword o p
    → password_of o field ≡ ok p
unfolding password_of IsPassword
is_ok_password none field p h = rw h refl
is_ok_password (some own) field p (same, long) =
    let differs : (length own == 0) ≡ false = ground arith in rw (differs, same) refl

validate_ok :
    (key : ObfuscationKey)
    → validate key ≡ ok tt
    → (key.kl ≤ max_nop_exponent) × (key.kh ≤ max_nop_exponent)
unfolding validate
validate_ok key h = (ground arith, ground arith)

-- Under such bounds, and with passwords that are not empty, a key is valid.
validate_fine :
    (key : ObfuscationKey)
    → key.kl ≤ max_nop_exponent
    → key.kh ≤ max_nop_exponent
    → 1 ≤ length key.protocol_key
    → 1 ≤ length key.transport_key
    → validate key ≡ ok tt
unfolding validate
validate_fine key l h p t = ground arith

password_length : (o : Option (List ℕ)) (p : List ℕ) → IsPassword o p → 1 ≤ length p
unfolding IsPassword
password_length none p h = rw h (omega arith)
password_length (some own) p h = rw (h.0) h.1

validated_ok :
    (key key' : ObfuscationKey) (r : Result (Unit {0}) Error)
    → validated key r ≡ ok key'
    → (r ≡ ok tt) × (key ≡ key')
unfolding validated
validated_ok key key' (ok done) h = (refl, ground arith)
validated_ok key key' (err e) h = absurd (cc)

-- A configuration with a shared password or without gives a key exactly when it names two known
-- ciphers, neither of the two passwords that are used (its own, else the shared one) is set to the
-- empty one, and `kl` and `kh` are at most 20; and the key is then the one with its numbers and
-- switches, these ciphers, and for either password its own, else the shared one, else the
-- placeholder.
pub to_key_iff :
    (c : ObfuscationConfig) (shared : Option (List ℕ)) (key : ObfuscationKey)
    → (to_key c shared ≡ ok key) ↔ IsKeyOf c shared key
unfolding to_key resolve_password validated
to_key_iff c shared key = (taken, made)
  where
    taken : to_key c shared ≡ ok key → IsKeyOf c shared key
    taken h =
        let (p, ep, h1) = bind_ok (resolve_password c.protocol_key shared "protocol_key") _ key h in
        let (m, em, h2) = bind_ok (method c.protocol) _ key h1 in
        let (q, eq, h3) =
          bind_ok (resolve_password c.transport_key shared "transport_key") _ key h2 in
        let (n, en, h4) = bind_ok (method c.transport) _ key h3 in
        let (v, same) = validated_ok (key_from c p m q n) key _ h4 in
        let bounds = validate_ok (key_from c p m q n) v in
        rw⁻¹ same (record {
          copied = refl;
          protocol_named = method_ok c.protocol m em;
          transport_named = method_ok c.transport n en;
          protocol_password = IsPassword-ok _ "protocol_key" p ep;
          transport_password = IsPassword-ok _ "transport_key" q eq;
          nops = bounds;
        })

    made : IsKeyOf c shared key → to_key c shared ≡ ok key
    made k =
        let key' : ObfuscationKey =
          key_from c key.protocol_key key.protocol key.transport_key key.transport in
        let valid : validate key' ≡ ok tt =
          validate_fine key' k.nops.0 k.nops.1
            (password_length _ key.protocol_key k.protocol_password)
            (password_length _ key.transport_key k.transport_password) in
        rw
          (
            is_ok_password _ "protocol_key" key.protocol_key k.protocol_password,
            method_named c.protocol key.protocol k.protocol_named,
            is_ok_password _ "transport_key" key.transport_key k.transport_password,
            method_named c.transport key.transport k.transport_named,
            valid,
          )
          (ap ok (sym k.copied))
