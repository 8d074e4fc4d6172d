-- ===== src/Config.antt =====
-- The application's configuration in crates/common/src/config.rs: what is made of a parsed file. Texts
-- that the code compares are lists of codes; reading and parsing the file are parameters.
pub mod Keys
mod Tests
use nextppp.Prelude.{ℕ, Bool, true, false, ◌==◌, if◌then◌else◌, length}
use nextppp.Prelude.{Option, none, some, List, [], ◌∷◌, Result, ok, err, ◌>>=◌}
use nextppp.Errors.{Error}
use nextppp.Cipher.{Method, from_name, codes, method_name}
use nextppp.Key.{ObfuscationKey, default_key, validate}
use Prim.Native.String.{String}

pub record ObfuscationConfig : Type 0 where
  pub kf : ℕ
  pub kl : ℕ
  pub kh : ℕ
  pub kx : ℕ
  pub protocol : List ℕ
  pub protocol_key : Option (List ℕ)
  pub transport : List ℕ
  pub transport_key : Option (List ℕ)
  pub masked : Bool
  pub plaintext : Bool
  pub delta_encode : Bool
  pub shuffle_data : Bool

abbrev pub default_obfuscation : ObfuscationConfig
default_obfuscation = record {
  kf = default_key.kf;
  kl = default_key.kl;
  kh = default_key.kh;
  kx = default_key.kx;
  protocol = method_name default_key.protocol;
  protocol_key = none;
  transport = method_name default_key.transport;
  transport_key = none;
  masked = default_key.masked;
  plaintext = default_key.plaintext;
  delta_encode = default_key.delta_encode;
  shuffle_data = default_key.shuffle_data;
}

abbrev pub placeholder_password : List ℕ
placeholder_password = codes "nextppp"

-- What is wrong with a configuration, in place of the message.
pub data Fault : Type 0 where
  unknown_method : List ℕ → Fault
  empty_password : String → Fault
  invalid_key : Error → Fault
  no_links : Fault

abbrev pub known : List ℕ → Option Method → Result Method Fault
known name none = err (unknown_method name)
known name (some m) = ok m

unfoldable pub method : List ℕ → Result Method Fault
method name = known name (from_name name)

abbrev pub or_shared : Option (List ℕ) → Option (List ℕ) → Option (List ℕ)
or_shared (some key) shared = some key
or_shared none shared = shared

unfoldable pub password_of : Option (List ℕ) → String → Result (List ℕ) Fault
password_of none field = ok placeholder_password
password_of (some p) field = if length p == 0 then err (empty_password field) else ok p

unfoldable pub resolve_password : Option (List ℕ) → Option (List ℕ) → String → Result (List ℕ) Fault
unfolding password_of
resolve_password key shared field = password_of (or_shared key shared) field

unfoldable pub validated : ObfuscationKey → Result (Unit {0}) Error → Result ObfuscationKey Fault
validated key (ok done) = ok key
validated key (err e) = err (invalid_key e)

unfoldable pub to_key : ObfuscationConfig → Option (List ℕ) → Result ObfuscationKey Fault
unfolding resolve_password method validated
to_key c shared = do
  protocol_key ← resolve_password c.protocol_key shared "protocol_key"
  protocol ← method c.protocol
  transport_key ← resolve_password c.transport_key shared "transport_key"
  transport ← method c.transport
  let key : ObfuscationKey = record {
    kf = c.kf;
    kl = c.kl;
    kh = c.kh;
    kx = c.kx;
    protocol = protocol;
    protocol_key = protocol_key;
    transport = transport;
    transport_key = transport_key;
    masked = c.masked;
    plaintext = c.plaintext;
    delta_encode = c.delta_encode;
    shuffle_data = c.shuffle_data;
  }
  validated key (validate key)

-- The fields of a server's file. `default_server` has the values of those that may be left out.
pub record ServerConfig : Type 0 where
  pub listen : String
  pub bond_enabled : Bool
  pub password : Option (List ℕ)
  pub connect_timeout : ℕ
  pub handshake_timeout : ℕ
  pub max_connections : Option ℕ
  pub max_handshakes : Option ℕ
  pub max_streams_per_conn : Option ℕ
  pub obfuscation : ObfuscationConfig

abbrev pub default_server : String → ServerConfig
default_server listen = record {
  listen = listen;
  bond_enabled = true;
  password = none;
  connect_timeout = 10;
  handshake_timeout = 15;
  max_connections = none;
  max_handshakes = some 256;
  max_streams_per_conn = some 1024;
  obfuscation = default_obfuscation;
}

pub record BondClientSection : Type 0 where
  pub listen : String
  pub links : ℕ
  pub pool_size : ℕ
  pub max_streams : ℕ

abbrev pub default_bond : BondClientSection
default_bond = record { listen = ""; links = 3; pool_size = 1; max_streams = 64 }

pub record MuxSection : Type 0 where
  pub enabled : Bool
  pub pool_size : ℕ
  pub max_streams : ℕ

abbrev pub default_mux : MuxSection
default_mux = record { enabled = true; pool_size = 4; max_streams = 64 }

unfoldable pub effective_pool_size : MuxSection → ℕ
effective_pool_size mux = if mux.enabled then mux.pool_size else 0

pub record ServerSection : Type 0 where
  pub address : String
  pub connect_timeout : ℕ
  pub connect_retries : ℕ
  pub mux : MuxSection
  pub obfuscation : ObfuscationConfig

abbrev pub default_section : String → ServerSection
default_section address = record {
  address = address;
  connect_timeout = 10;
  connect_retries = 1;
  mux = default_mux;
  obfuscation = default_obfuscation;
}

pub record ClientConfig : Type 0 where
  pub listen : String
  pub bond : Option BondClientSection
  pub password : Option (List ℕ)
  pub max_connections : Option ℕ
  pub server : ServerSection

-- `load` of a server's file, once it is parsed.
unfoldable pub load_server : ServerConfig → Result ServerConfig Fault
unfolding to_key
load_server cfg = do key ← to_key cfg.obfuscation cfg.password; ok cfg

abbrev pub check_links : ClientConfig → Option BondClientSection → Result ClientConfig Fault
check_links cfg none = ok cfg
check_links cfg (some bond) = if bond.links == 0 then err no_links else ok cfg

unfoldable pub load_client : ClientConfig → Result ClientConfig Fault
unfolding to_key
load_client cfg = do key ← to_key cfg.server.obfuscation cfg.password; check_links cfg cfg.bond
