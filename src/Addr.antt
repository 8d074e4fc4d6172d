-- ===== src/Addr.antt =====
-- Proxy target addresses in the SOCKS5 format, crates/common/src/addr.rs. A domain name is the list
-- of its bytes, an address the list of its octets.
pub mod RoundTrip
pub mod Frames
mod Tests
use nextppp.Prelude.{ℕ, ◌+◌, ◌*◌, ◌/◌, ◌%◌, ◌≤◌, ◌<◌, ◌≡◌, min, ◌==◌, ltb, leb, if◌then◌else◌}
use nextppp.Prelude.{Bool, true, false, not, ◌&&◌, ◌||◌, Option, none, some, is_utf8, IsVisible}
use nextppp.Prelude.{List, [], ◌∷◌, ◌++◌, length, take, drop, All, get_or}
use nextppp.Prelude.{Result, ok, err, ok_or, ◌>>=◌}

abbrev pub atyp_ipv4 : ℕ
atyp_ipv4 = 0x01

abbrev pub atyp_domain : ℕ
atyp_domain = 0x03

abbrev pub atyp_ipv6 : ℕ
atyp_ipv6 = 0x04

pub data IpAddr : Type 0 where
  v4 v6 : List ℕ → IpAddr

pub data Host : Type 0 where
  domain : List ℕ → Host
  ip : IpAddr → Host

pub record ProxyAddr : Type 0 where
  pub host : Host
  pub port : ℕ

pub data AddrError : Type 0 where
  malformed : AddrError

unfoldable pub encode_host : Host → List ℕ
encode_host (domain d) = let len = min (length d) 255 in atyp_domain ∷ len ∷ take len d
encode_host (ip (v4 octets)) = atyp_ipv4 ∷ octets
encode_host (ip (v6 octets)) = atyp_ipv6 ∷ octets

-- `u16::to_be_bytes` and `u16::from_be_bytes`.
unfoldable pub port_bytes : ℕ → List ℕ
port_bytes port = port / 256 ∷ port % 256 ∷ []

unfoldable pub port_of : List ℕ → ℕ
port_of bytes = get_or bytes 0 0 * 256 + get_or bytes 1 0

-- What `encode_into` appends to `out`.
unfoldable pub encode_into : ProxyAddr → List ℕ → List ℕ
unfolding encode_host
encode_into addr out = out ++ (encode_host addr.host ++ port_bytes addr.port)

unfoldable pub encode : ProxyAddr → List ℕ
encode addr = encode_into addr []

-- `first_chunk::<n>`.
pub first_chunk : ℕ → List ℕ → Option (List ℕ)
first_chunk n bytes = if ltb (length bytes) n then none else some (take n bytes)

-- Whether a byte of the name is outside 0x21..=0x7e.
unfoldable pub any_invisible : List ℕ → Bool
any_invisible [] = false
any_invisible (b ∷ bs) = not (leb 0x21 b && leb b 0x7e) || any_invisible bs

pub decode_domain : List ℕ → Result (Host × List ℕ) AddrError
decode_domain [] = err malformed
decode_domain (len ∷ rest) =
    let name = take len rest in
    if ltb (length rest) len || len == 0
    then err malformed
    else if not (is_utf8 name)
    then err malformed
    else if any_invisible name
    then err malformed
    else ok (domain name, drop len rest)

pub decode_ip : ℕ → (List ℕ → IpAddr) → List ℕ → Result (Host × List ℕ) AddrError
decode_ip n make rest = do
  octets ← ok_or (first_chunk n rest) malformed
  ok (ip (make octets), drop n rest)

pub decode_host : ℕ → List ℕ → Result (Host × List ℕ) AddrError
decode_host atyp rest =
    if atyp == atyp_ipv4
    then decode_ip 4 v4 rest
    else if atyp == atyp_ipv6
    then decode_ip 16 v6 rest
    else if atyp == atyp_domain
    then decode_domain rest
    else err malformed

pub decode_port : Host × List ℕ → Result ProxyAddr AddrError
decode_port (host, after) = do
  port ← ok_or (first_chunk 2 after) malformed
  if ltb 0 (length (drop 2 after))
      then err malformed
      else ok (record { host = host; port = port_of port })

pub decode_addr : List ℕ → Result ProxyAddr AddrError
decode_addr [] = err malformed
decode_addr (atyp ∷ rest) = decode_host atyp rest >>= decode_port

-- The hosts that a frame can carry whole, but for the length of a name.
abbrev pub IsHost : Host → Type 0
IsHost (domain d) = (1 ≤ length d) × All IsVisible d
IsHost (ip (v4 octets)) = length octets ≡ 4
IsHost (ip (v6 octets)) = length octets ≡ 16

pub record IsSendable (addr : ProxyAddr) : Type 0 where
  pub host_ok : IsHost addr.host
  pub port_fits : addr.port < 65536

-- A name is cut to the 255 bytes that its length byte can count.
abbrev pub cut_host : Host → Host
cut_host (domain d) = domain (take 255 d)
cut_host (ip a) = ip a

abbrev pub cut : ProxyAddr → ProxyAddr
cut addr = record { host = cut_host addr.host; port = addr.port }
