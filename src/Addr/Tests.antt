-- ===== src/Addr/Tests.antt =====
-- Addresses at concrete inputs, the source's own tests among them.
use nextppp.Prelude.{ℕ, ◌≡◌, arith, refl, List, [], ◌∷◌, ok, err, is_utf8}
use nextppp.Addr.{
  domain, ip, v4, ProxyAddr, malformed, encode, decode_addr, IsSendable, cut, port_bytes, port_of,
}
use nextppp.Addr.{any_invisible, encode_into, decode_host, decode_ip, decode_domain, decode_port}
use nextppp.Addr.{first_chunk}
use nextppp.Addr.RoundTrip.{decode_addr-encode}
use nextppp.Addr.Frames.{encode-decode_addr}

-- "a.io", port 1.
abbrev a_io : ProxyAddr
a_io = record { host = domain (97 ∷ 46 ∷ 105 ∷ 111 ∷ []); port = 1 }

abbrev a_io_frame : List ℕ
a_io_frame = 3 ∷ 4 ∷ 97 ∷ 46 ∷ 105 ∷ 111 ∷ 0 ∷ 1 ∷ []

a_io_run : encode a_io ≡ a_io_frame
unfolding encode encode_into port_bytes
a_io_run = refl

abbrev localhost : ProxyAddr
localhost = record { host = ip (v4 (127 ∷ 0 ∷ 0 ∷ 1 ∷ [])); port = 8080 }

localhost_run : decode_addr (1 ∷ 127 ∷ 0 ∷ 0 ∷ 1 ∷ 31 ∷ 144 ∷ []) ≡ ok localhost
unfolding decode_addr decode_host decode_ip decode_port first_chunk port_of
localhost_run = refl

trailing_run : decode_addr (1 ∷ 1 ∷ 2 ∷ 3 ∷ 4 ∷ 0 ∷ 80 ∷ 0 ∷ []) ≡ err malformed
unfolding decode_addr decode_host decode_ip decode_port first_chunk
trailing_run = refl

decode_addr-encode_example : decode_addr (encode a_io) ≡ ok (cut a_io)
decode_addr-encode_example = decode_addr-encode a_io (record {
  host_ok = (omega arith, (omega arith, (omega arith, (omega arith, (omega arith, tt)))));
  port_fits = omega arith;
})

encode-decode_addr_example : (encode a_io ≡ a_io_frame) × IsSendable a_io
unfolding decode_addr decode_host decode_domain decode_port first_chunk port_of any_invisible
    is_utf8
encode-decode_addr_example = encode-decode_addr a_io_frame a_io (omega arith) refl
