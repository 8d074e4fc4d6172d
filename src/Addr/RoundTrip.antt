-- ===== src/Addr/RoundTrip.antt =====
-- Addresses are decoded as they were encoded, and only such frames are decoded.
use nextppp.Prelude.{ℕ, ◌≤◌, ◌≡◌, arith, refl, sym, min, ap, ◌∙◌}
use native.Mathlib.Decide.{dec_le}
use nextppp.Prelude.{le→ltb, ◌==◌, ltb, length-take, All-take}
use nextppp.Prelude.{false, ◌||◌, some, IsVisible, visible-is_utf8}
use nextppp.Prelude.{List, [], ◌∷◌, ◌++◌, length, take, All, Result, ok}
use nextppp.Prelude.{take-append, drop-append, length-append, take-all}
use nextppp.Addr.{
  Host, domain, ip, IpAddr, v4, v6, ProxyAddr, AddrError, encode, encode_into, encode_host,
}
use nextppp.Addr.{decode_addr, decode_host, decode_ip, decode_domain, decode_port, first_chunk}
use nextppp.Addr.{port_bytes, port_of, any_invisible, IsHost, IsSendable, cut, cut_host}

pub port_of-port_bytes : (port : ℕ) → port_of (port_bytes port) ≡ port
unfolding port_of port_bytes
port_of-port_bytes port = omega arith

pub visible-any_invisible : (bytes : List ℕ) → All IsVisible bytes → any_invisible bytes ≡ false
unfolding any_invisible
visible-any_invisible [] h = refl
visible-any_invisible (b ∷ bs) h = ground (arith, visible-any_invisible bs h.1)

pub any_invisible-IsVisible : (bytes : List ℕ) → any_invisible bytes ≡ false → All IsVisible bytes
unfolding any_invisible
any_invisible-IsVisible [] h = tt
any_invisible-IsVisible (b ∷ bs) h = ground (arith, any_invisible-IsVisible bs)

first_chunk-append : (n : ℕ) (xs ys : List ℕ) → length xs ≡ n → first_chunk n (xs ++ ys) ≡ some xs
unfolding first_chunk
first_chunk-append n xs ys h =
    let fits : ltb (length (xs ++ ys)) n ≡ false =
      le→ltb _ _ (omega (arith, length-append xs ys, h)) in
    rw (fits, take-append n xs ys h) refl

decode_ip-append :
    (n : ℕ) (make : List ℕ → IpAddr) (octets rest : List ℕ)
    → length octets ≡ n
    → decode_ip n make (octets ++ rest) ≡ ok (ip (make octets), rest)
unfolding decode_ip
decode_ip-append n make octets rest h =
    rw (first_chunk-append n octets rest h, drop-append n octets rest h) refl

decode_domain-append :
    (name rest : List ℕ)
    → 1 ≤ length name
    → All IsVisible name
    → decode_domain (length name ∷ (name ++ rest)) ≡ ok (domain name, rest)
unfolding decode_domain
decode_domain-append name rest low h =
    let bounded : (ltb (length (name ++ rest)) (length name) || (length name == 0)) ≡ false =
      ground (arith, length-append name rest) in
    rw
      (
        bounded,
        take-append (length name) name rest refl,
        visible-is_utf8 name h,
        visible-any_invisible name h,
        drop-append (length name) name rest refl,
      )
      refl

decode_port-port_bytes :
    (host : Host) (port : ℕ)
    → decode_port (host, port_bytes port) ≡ ok (record { host = host; port = port })
unfolding decode_port first_chunk port_bytes
decode_port-port_bytes host port =
    ap {B = Result ProxyAddr AddrError} (λ (p : ℕ). ok (record { host = host; port = p }))
      (unfold port_bytes in port_of-port_bytes port)

pub take-min : (xs : List ℕ) (n : ℕ) → take (min (length xs) n) xs ≡ take n xs
take-min xs n = elim (dec_le (length xs) n) [
  | yes h ↦
      let e : min (length xs) n ≡ length xs = omega arith in
      rw e (take-all (length xs) xs (omega arith) ∙ sym (take-all n xs h))
  | no h ↦ let e : min (length xs) n ≡ n = omega arith in rw e refl
]

-- The host and whatever follows it.
host_read :
    (host : Host) (rest : List ℕ)
    → IsHost host
    → (atyp : ℕ) × (tail : List ℕ) × (encode_host host ++ rest ≡ atyp ∷ tail)
      × (decode_host atyp tail ≡ ok (cut_host host, rest))
unfolding encode_host decode_host
host_read (ip (v4 octets)) rest h = (1, octets ++ rest, refl, decode_ip-append 4 v4 octets rest h)
host_read (ip (v6 octets)) rest h = (4, octets ++ rest, refl, decode_ip-append 16 v6 octets rest h)
host_read (domain d) rest h =
    let len : length (take 255 d) ≡ min (length d) 255 = omega (arith, length-take 255 d) in
    (
      3,
      length (take 255 d) ∷ (take 255 d ++ rest),
      rw (take-min d 255, len) refl,
      decode_domain-append (take 255 d) rest (omega (arith, len, h.0))
          (All-take IsVisible 255 d h.1),
    )

-- Whatever a sendable address is encoded to decodes to it, but for what a name has beyond 255 bytes.
pub decode_addr-encode :
    (addr : ProxyAddr) → IsSendable addr → decode_addr (encode addr) ≡ ok (cut addr)
unfolding encode encode_into decode_addr
decode_addr-encode addr s =
    let (atyp, tail, e, d) = host_read addr.host (port_bytes addr.port) s.host_ok in
    rw (e, d) (decode_port-port_bytes (cut_host addr.host) addr.port)
