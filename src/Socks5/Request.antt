-- ===== src/Socks5/Request.antt =====
-- A CONNECT request is read to the address that it encodes, which is in the format of proxy addresses.
use nextppp.Prelude.{ℕ, ◌≤◌, ◌≡◌, arith, refl, ap, ◌∙◌, min, ltb, le→ltb, ◌==◌}
use nextppp.Prelude.{true, false, none, visible-is_utf8, IsVisible}
use nextppp.Prelude.{List, [], ◌∷◌, ◌++◌, length, take, All, take-append, drop-append}
use nextppp.Prelude.{append_assoc, length-append, length-take, All-take, ok}
use nextppp.Addr.{Host, domain, ip, v4, v6, ProxyAddr, IsHost, IsSendable, cut, cut_host}
use nextppp.Addr.{encode, encode_into, encode_host, port_bytes}
use nextppp.Addr.RoundTrip.{take-min, port_of-port_bytes, visible-any_invisible}
use nextppp.Socket.{Socket, recv_exact, send_all, put_all}
use nextppp.Socks5.{contains, negotiate, greet, choose_method}
use nextppp.Socks5.{read_ip, name_host, read_name, read_host, read_port, read_addr, context}
use nextppp.Socks5.{with_context, answer, take_request, read_connect}

-- The socket with other bytes to read.
abbrev pub unread : Socket → List ℕ → Socket
unread s bytes = record s { reader = record s.reader { bytes = bytes } }

recv_front :
    (s : Socket) (n : ℕ) (xs ys : List ℕ)
    → length xs ≡ n
    → recv_exact n (unread s (xs ++ ys)) ≡ (ok xs, unread s ys)
unfolding recv_exact
recv_front s n xs ys h =
    let fits : ltb (length (xs ++ ys)) n ≡ false =
      le→ltb _ _ (omega (arith, length-append xs ys, h)) in
    rw (fits, take-append n xs ys h, drop-append n xs ys h) refl

module _ (s : Socket) where
  name_read :
      (name rest : List ℕ)
      → 1 ≤ length name
      → All IsVisible name
      → read_name (length name ∷ []) (unread s (name ++ rest)) ≡ (ok (domain name), unread s rest)
  unfolding read_name name_host
  name_read name rest low h =
      let some_bytes : (length name == 0) ≡ false = ground arith in
      rw
        (
          some_bytes,
          recv_front s (length name) name rest refl,
          visible-is_utf8 name h,
          visible-any_invisible name h,
        )
        refl

  host_read :
      (host : Host) (rest : List ℕ)
      → IsHost host
      → (atyp : ℕ) × (tail : List ℕ) × (encode_host host ++ rest ≡ atyp ∷ tail)
        × (read_host atyp (unread s tail) ≡ (ok (cut_host host), unread s rest))
  unfolding encode_host read_host read_ip
  host_read (ip (v4 octets)) rest h =
      (1, octets ++ rest, refl, rw (recv_front s 4 octets rest h) refl)
  host_read (ip (v6 octets)) rest h =
      (4, octets ++ rest, refl, rw (recv_front s 16 octets rest h) refl)
  host_read (domain d) rest h =
      let len : length (take 255 d) ≡ min (length d) 255 = omega (arith, length-take 255 d) in
      (
        3,
        length (take 255 d) ∷ (take 255 d ++ rest),
        rw (take-min d 255, len) refl,
        rw (recv_front s 1 (length (take 255 d) ∷ []) (take 255 d ++ rest) refl)
            (name_read (take 255 d) rest (omega (arith, len, h.0)) (All-take IsVisible 255 d h.1)),
      )

  read_addr_encoded :
      (addr : ProxyAddr) (more : List ℕ)
      → IsSendable addr
      → (atyp : ℕ) × (tail : List ℕ) × (encode addr ++ more ≡ atyp ∷ tail)
        × (read_addr atyp (unread s tail) ≡ (ok (cut addr), unread s more))
  unfolding encode encode_into read_addr read_port
  read_addr_encoded addr more ok_addr =
      let (atyp, tail, e, d) = host_read addr.host (port_bytes addr.port ++ more) ok_addr.host_ok in
      (
        atyp,
        tail,
        append_assoc (encode_host addr.host) (port_bytes addr.port) more ∙ e,
        rw
            (
              d,
              recv_front s 2 (port_bytes addr.port) more (unfold port_bytes in refl),
              port_of-port_bytes addr.port,
            )
            refl,
      )

-- The socket after a write.
abbrev pub wrote : Socket → List ℕ → Socket
wrote s bytes = record s { writer = record s.writer { written = s.writer.written ++ bytes } }

send_open :
    (s : Socket) (bytes : List ℕ)
    → s.writer.broken ≡ none
    → send_all bytes s ≡ (ok tt, wrote s bytes)
unfolding send_all
send_open s bytes e = ap (put_all bytes s) e

module _ (s : Socket) (whole : s.writer.broken ≡ none) where
  negotiated :
      (methods rest : List ℕ)
      → contains 0 methods ≡ true
      → negotiate (unread s (5 ∷ length methods ∷ (methods ++ rest)))
        ≡ (ok tt, wrote (unread s rest) (5 ∷ 0 ∷ []))
  unfolding negotiate greet choose_method
  negotiated methods rest offered =
      rw
        (
          recv_front s 2 (5 ∷ length methods ∷ []) (methods ++ rest) refl,
          recv_front s (length methods) methods rest refl,
          offered,
          send_open (unread s rest) (5 ∷ 0 ∷ []) whole,
        )
        refl

  -- A client that offers to go without authentication, on a socket that takes the answer, and then
  -- asks for a connection to an address in the encoding of proxy addresses: the address is read,
  -- with a name cut at 255 bytes, the one answer is 05 00, and what follows is left in the socket.
  pub read_connect-request :
      (methods : List ℕ) (addr : ProxyAddr) (more : List ℕ)
      → contains 0 methods ≡ true
      → IsSendable addr
      → read_connect
          (unread s (5 ∷ length methods ∷ (methods ++ 5 ∷ 1 ∷ 0 ∷ (encode addr ++ more))))
        ≡ (ok (cut addr), wrote (unread s more) (5 ∷ 0 ∷ []))
  unfolding read_connect context with_context take_request answer
  read_connect-request methods addr more offered ok_addr =
      let after : Socket = wrote s (5 ∷ 0 ∷ []) in
      let (atyp, tail, e, d) = read_addr_encoded after addr more ok_addr in
      rw
        (
          negotiated methods (5 ∷ 1 ∷ 0 ∷ (encode addr ++ more)) offered,
          e,
          recv_front after 4 (5 ∷ 1 ∷ 0 ∷ atyp ∷ []) tail refl,
          d,
        )
        refl
