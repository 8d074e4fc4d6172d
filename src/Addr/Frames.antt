-- ===== src/Addr/Frames.antt =====
-- Only encodings are decoded: what a frame decodes to encodes to that frame.
use nextppp.Prelude.{ℕ, ◌+◌, ◌*◌, ◌≤◌, ◌<◌, ◌≡◌, arith, refl, min, ap, ap₂}
use nextppp.Prelude.{inl, inr, ◌⊎◌}
use nextppp.Prelude.{length-take, All-drop}
use nextppp.Prelude.{false, some}
use nextppp.Prelude.{List, [], ◌∷◌, ◌++◌, length, take, drop, All, Result, ok, err, ◌>>=◌}
use nextppp.Prelude.{take-append-drop, take-all}
use nextppp.Ssea.{IsByte}
use nextppp.Addr.{
  Host, domain, ip, IpAddr, v4, v6, ProxyAddr, AddrError, encode, encode_into, encode_host,
}
use nextppp.Addr.{decode_addr, decode_host, decode_ip, decode_domain, decode_port, first_chunk}
use nextppp.Addr.{port_bytes, port_of, any_invisible, IsHost, IsSendable}
use nextppp.Addr.RoundTrip.{any_invisible-IsVisible}

first_chunk_cases :
    (n : ℕ) (xs c : List ℕ) → first_chunk n xs ≡ some c → (c ≡ take n xs) × (n ≤ length xs)
unfolding first_chunk
first_chunk_cases n xs c h = ground arith

decode_ip_cases :
    (n : ℕ) (make : List ℕ → IpAddr) (rest : List ℕ) (host : Host) (after : List ℕ)
    → decode_ip n make rest ≡ ok (host, after)
    → (host ≡ ip (make (take n rest))) × (after ≡ drop n rest) × (n ≤ length rest)
unfolding decode_ip first_chunk
decode_ip_cases n make rest host after h = ground arith

decode_domain_cases :
    (len : ℕ) (rest : List ℕ) (host : Host) (after : List ℕ)
    → decode_domain (len ∷ rest) ≡ ok (host, after)
    → (host ≡ domain (take len rest))
      × (after ≡ drop len rest)
      × (len ≤ length rest)
      × (1 ≤ len)
      × (any_invisible (take len rest) ≡ false)
unfolding decode_domain
decode_domain_cases len rest host after h = ground arith

-- What a decoded host stands for in the frame.
record HostRead (atyp : ℕ) (tail : List ℕ) (host : Host) (after : List ℕ) : Type 0 where
  encoded : encode_host host ++ after ≡ atyp ∷ tail
  host_ok : IsHost host
  are_bytes : All IsByte after

decode_host_cases :
    (atyp : ℕ) (tail : List ℕ) (r : Host × List ℕ)
    → decode_host atyp tail ≡ ok r
    → ((atyp ≡ 1) × (decode_ip 4 v4 tail ≡ ok r))
      ⊎ ((atyp ≡ 4) × (decode_ip 16 v6 tail ≡ ok r))
      ⊎ ((atyp ≡ 3) × (decode_domain tail ≡ ok r))
unfolding decode_host
decode_host_cases atyp tail r h = ground arith

v4_read :
    (tail : List ℕ) (host : Host) (after : List ℕ)
    → All IsByte tail
    → decode_ip 4 v4 tail ≡ ok (host, after)
    → HostRead 1 tail host after
unfolding encode_host
v4_read tail host after bytes h =
    let (eh, ea, low) = decode_ip_cases 4 v4 tail host after h in
    rw (eh, ea)
      (record {
        encoded = ap (◌∷◌ 1) (take-append-drop 4 tail);
        host_ok = omega (arith, length-take 4 tail, low);
        are_bytes = All-drop IsByte 4 tail bytes;
      })

v6_read :
    (tail : List ℕ) (host : Host) (after : List ℕ)
    → All IsByte tail
    → decode_ip 16 v6 tail ≡ ok (host, after)
    → HostRead 4 tail host after
unfolding encode_host
v6_read tail host after bytes h =
    let (eh, ea, low) = decode_ip_cases 16 v6 tail host after h in
    rw (eh, ea)
      (record {
        encoded = ap (◌∷◌ 4) (take-append-drop 16 tail);
        host_ok = omega (arith, length-take 16 tail, low);
        are_bytes = All-drop IsByte 16 tail bytes;
      })

domain_read :
    (tail : List ℕ) (host : Host) (after : List ℕ)
    → All IsByte tail
    → decode_domain tail ≡ ok (host, after)
    → HostRead 3 tail host after
unfolding encode_host
domain_read [] host after bytes h = unfold decode_domain in cc
domain_read (len ∷ rest) host after bytes h =
    let (eh, ea, fits, low, visible) = decode_domain_cases len rest host after h in
    let sized : length (take len rest) ≡ len = omega (arith, length-take len rest, fits) in
    let short : min len 255 ≡ len = omega (arith, bytes.0) in
    rw (eh, ea)
      (record {
        encoded =
            rw (sized, short, take-all len (take len rest) (omega (arith, sized)))
              (ap (λ (xs : List ℕ). 3 ∷ len ∷ xs) (take-append-drop len rest));
        host_ok = (omega (arith, sized, low), any_invisible-IsVisible (take len rest) visible);
        are_bytes = All-drop IsByte len rest bytes.1;
      })

host_read :
    (atyp : ℕ) (tail : List ℕ) (host : Host) (after : List ℕ)
    → All IsByte tail
    → decode_host atyp tail ≡ ok (host, after)
    → HostRead atyp tail host after
host_read atyp tail host after bytes h = elim (decode_host_cases atyp tail (host, after) h) [
  | inl (e, d) ↦ rw e (v4_read tail host after bytes d)
  | inr (inl (e, d)) ↦ rw e (v6_read tail host after bytes d)
  | inr (inr (e, d)) ↦ rw e (domain_read tail host after bytes d)
]

decode_port_cases :
    (host : Host) (after : List ℕ) (addr : ProxyAddr)
    → All IsByte after
    → decode_port (host, after) ≡ ok addr
    → (addr.host ≡ host) × (port_bytes addr.port ≡ after) × (addr.port < 65536)
unfolding decode_port first_chunk port_bytes port_of
decode_port_cases host [] addr bytes h = ground arith
decode_port_cases host (hi ∷ []) addr bytes h = ground arith
decode_port_cases host (hi ∷ lo ∷ []) addr bytes h =
    let e : addr ≡ record { host = host; port = hi * 256 + lo } = ground arith in
    rw e (
      refl,
      ap₂ (λ (a b : ℕ). a ∷ b ∷ []) (omega (arith, bytes)) (omega (arith, bytes)),
      omega (arith, bytes),
    )
decode_port_cases host (hi ∷ lo ∷ x ∷ more) addr bytes h = ground arith

decode_addr_cases :
    (atyp : ℕ) (tail : List ℕ) (addr : ProxyAddr)
    → decode_addr (atyp ∷ tail) ≡ ok addr
    → (host : Host) × (after : List ℕ) × (decode_host atyp tail ≡ ok (host, after))
      × (decode_port (host, after) ≡ ok addr)
unfolding decode_addr
decode_addr_cases atyp tail addr h = go (decode_host atyp tail) refl h
  where
    go :
        (r : Result (Host × List ℕ) AddrError)
        → decode_host atyp tail ≡ r
        → (r >>= decode_port) ≡ ok addr
        → (host : Host) × (after : List ℕ) × (decode_host atyp tail ≡ ok (host, after))
          × (decode_port (host, after) ≡ ok addr)
    go (ok (host, after)) e k = (host, after, e, k)
    go (err x) e k = cc

-- A frame of bytes that decodes to an address is the address's encoding, to the last byte; and the
-- address is one that frames carry whole.
pub encode-decode_addr :
    (frame : List ℕ) (addr : ProxyAddr)
    → All IsByte frame
    → decode_addr frame ≡ ok addr
    → (encode addr ≡ frame) × IsSendable addr
unfolding encode encode_into
encode-decode_addr [] addr bytes h = unfold decode_addr in cc
encode-decode_addr (atyp ∷ tail) addr bytes h =
    let (host, after, d, k) = decode_addr_cases atyp tail addr h in
    let seen = host_read atyp tail host after bytes.1 d in
    let (eh, ep, fits) = decode_port_cases host after addr seen.are_bytes k in
    (rw (eh, ep) seen.encoded, record { host_ok = rw eh seen.host_ok; port_fits = fits })
