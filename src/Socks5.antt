-- ===== src/Socks5.antt =====
-- The SOCKS5 inbound of crates/client/src/socks5.rs: negotiation, the CONNECT request and the replies.
-- A step acts on the local socket; what the pool and the pump give is an argument.
pub mod Request
pub mod Reads
pub mod Replies
mod Tests
use nextppp.Prelude.{ℕ, ◌+◌, ◌%◌, ◌^◌, ◌==◌, ltb, if◌then◌else◌, Bool, true, false, not, ◌||◌}
use nextppp.Prelude.{Option, none, some, is_utf8, List, [], ◌∷◌, ◌++◌, length, take, drop, get_or}
use nextppp.Prelude.{Result, ok, err}
use nextppp.Errors.{ErrorKind, unexpected_eof, invalid_data, timed_out}
use nextppp.Socket.{Socket, Step, ◌>>=◌, ◌>>◌, pure, fail, attempt, recv_exact, send_all}
use nextppp.Addr.{Host, domain, ip, IpAddr, v4, v6, ProxyAddr, any_invisible, port_of}
use nextppp.Pump.{Cause, io, note, AnyError}
use Prim.Native.String.{String}

abbrev pub ver : ℕ
ver = 0x05

abbrev pub method_no_auth : ℕ
method_no_auth = 0x00

abbrev pub method_none_acceptable : ℕ
method_none_acceptable = 0xff

abbrev pub cmd_connect : ℕ
cmd_connect = 0x01

abbrev pub rep_succeeded : ℕ
rep_succeeded = 0x00

abbrev pub rep_general : ℕ
rep_general = 0x01

abbrev pub rep_cmd_unsupported : ℕ
rep_cmd_unsupported = 0x07

abbrev pub rep_atyp_unsupported : ℕ
rep_atyp_unsupported = 0x08

pub reply_bytes : ℕ → List ℕ
reply_bytes rep = ver ∷ rep ∷ 0x00 ∷ 0x01 ∷ 0 ∷ 0 ∷ 0 ∷ 0 ∷ 0 ∷ 0 ∷ []

pub send_reply : ℕ → Step ErrorKind (Unit {0})
send_reply rep = send_all (reply_bytes rep)

pub contains : ℕ → List ℕ → Bool
contains x [] = false
contains x (y ∷ ys) = y == x || contains x ys

pub choose_method : List ℕ → Step ErrorKind (Unit {0})
choose_method methods =
    if not (contains method_no_auth methods)
    then (do attempt (send_all (ver ∷ method_none_acceptable ∷ [])); fail invalid_data)
    else send_all (ver ∷ method_no_auth ∷ [])

pub greet : List ℕ → Step ErrorKind (Unit {0})
greet ver_nmethods =
    if not (get_or ver_nmethods 0 0 == ver)
    then fail invalid_data
    else recv_exact (get_or ver_nmethods 1 0) >>= choose_method

pub negotiate : Step ErrorKind (Unit {0})
negotiate = recv_exact 2 >>= greet

pub read_ip : ℕ → (List ℕ → IpAddr) → Step ErrorKind Host
read_ip n make = do octets ← recv_exact n; pure (ip (make octets))

pub name_host : List ℕ → Step ErrorKind Host
name_host name =
    if not (is_utf8 name)
    then fail invalid_data
    else if any_invisible name
    then fail invalid_data
    else pure (domain name)

pub read_name : List ℕ → Step ErrorKind Host
read_name len =
    if get_or len 0 0 == 0 then fail invalid_data else recv_exact (get_or len 0 0) >>= name_host

pub read_host : ℕ → Step ErrorKind Host
read_host atyp =
    if atyp == 0x01
    then read_ip 4 v4
    else if atyp == 0x04
    then read_ip 16 v6
    else if atyp == 0x03
    then recv_exact 1 >>= read_name
    else fail invalid_data

pub read_port : Host → Step ErrorKind ProxyAddr
read_port host = do port ← recv_exact 2; pure (record { host = host; port = port_of port })

pub read_addr : ℕ → Step ErrorKind ProxyAddr
read_addr atyp = read_host atyp >>= read_port

-- `.context(..)` on an I/O result.
pub with_context : {A : Type 0} → String → Result A ErrorKind × Socket → Result A AnyError × Socket
with_context text (ok a, s) = (ok a, s)
with_context text (err kind, s) = (err (note text ∷ io kind ∷ []), s)

pub context : {A : Type 0} → String → Step ErrorKind A → Step AnyError A
context text m s = with_context text (m s)

pub reply_of : ErrorKind → ℕ
reply_of invalid_data = rep_atyp_unsupported
reply_of _ = rep_general

-- What becomes of the address: an error is answered.
pub answer : Result ProxyAddr ErrorKind × Socket → Result ProxyAddr AnyError × Socket
answer (ok addr, s) = (ok addr, s)
answer (err kind, s) =
    (err (note "read request address" ∷ io kind ∷ []), (send_reply (reply_of kind) s).1)

pub take_request : List ℕ → Step AnyError ProxyAddr
take_request head =
    if not (get_or head 0 0 == ver)
    then fail (note "bad SOCKS version" ∷ [])
    else if not (get_or head 1 0 == cmd_connect)
    then (do attempt (send_reply rep_cmd_unsupported); fail (note "unsupported command" ∷ []))
    else if not (get_or head 2 0 == 0)
    then (do attempt (send_reply rep_general); fail (note "non-zero reserved byte" ∷ []))
    else λ s. answer (read_addr (get_or head 3 0) s)

pub read_connect : Step AnyError ProxyAddr
read_connect = do
  context "greeting" negotiate
  head ← context "read request head" (recv_exact 4)
  take_request head

pub record ClientStats : Type 0 where
  pub tunnels : ℕ
  pub tunnel_failures : ℕ
  pub bytes_up : ℕ
  pub bytes_down : ℕ

-- `fetch_add` on an `AtomicU64`.
abbrev pub add64 : ℕ → ℕ → ℕ
add64 a b = (a + b) % 2 ^ 64

-- What the pump of an opened stream comes to: the bytes it moved either way.
pub record Moved : Type 0 where
  pub up : ℕ
  pub down : ℕ

pub finish_forward :
    ClientStats
    → Moved
    → Result (Unit {0}) AnyError × Socket
    → Result (Unit {0}) AnyError × ClientStats × Socket
finish_forward stats moved (err e, s) = (err e, stats, s)
finish_forward stats moved (ok done, s) = (
  ok tt,
  record stats {
    bytes_up = add64 stats.bytes_up moved.up;
    bytes_down = add64 stats.bytes_down moved.down;
  },
  s,
)

-- With the pool's answer for the address: a stream, whose pump is known, or an error.
pub forward_to :
    ClientStats → Socket → Result Moved AnyError → Result (Unit {0}) AnyError × ClientStats × Socket
forward_to stats s (ok moved) =
    finish_forward (record stats { tunnels = add64 stats.tunnels 1 }) moved
      (context "reply succeeded" (send_reply rep_succeeded) s)
forward_to stats s (err e) = (
  err (note "tunnel connect" ∷ e),
  record stats { tunnel_failures = add64 stats.tunnel_failures 1 },
  (send_reply rep_general s).1,
)

pub forward_addr :
    (ProxyAddr → Result Moved AnyError)
    → ClientStats
    → Result ProxyAddr AnyError × Socket
    → Result (Unit {0}) AnyError × ClientStats × Socket
forward_addr open_stream stats (err e, s) = (err e, stats, s)
forward_addr open_stream stats (ok addr, s) = forward_to stats s (open_stream addr)

pub negotiate_and_forward :
    (ProxyAddr → Result Moved AnyError)
    → ClientStats
    → Socket
    → Result (Unit {0}) AnyError × ClientStats × Socket
negotiate_and_forward open_stream stats s = forward_addr open_stream stats (read_connect s)
