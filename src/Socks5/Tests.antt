-- ===== src/Socks5/Tests.antt =====
-- The inbound at concrete inputs.
use nextppp.Prelude.{ℕ, ◌≡◌, arith, refl, none, some, List, [], ◌∷◌, ◌++◌, ok, err}
use nextppp.Errors.{broken_pipe}
use nextppp.Addr.{domain, ProxyAddr, encode, IsSendable, cut}
use nextppp.Pump.{note}
use nextppp.Socket.{Socket, recv_exact, send_all}
use nextppp.Socks5.{read_connect, context, with_context, negotiate, greet, choose_method, contains}
use nextppp.Socks5.{take_request}
use nextppp.Socks5.{send_reply, reply_bytes}
use nextppp.Socks5.Request.{read_connect-request, unread, wrote}
use nextppp.Socks5.Replies.{read_connect-Answered, Answered, IsConnect}

abbrev open_socket : List ℕ → Socket
open_socket bytes = record {
  reader = record { bytes = bytes; finish = none };
  writer = record { written = []; broken = none };
}

abbrev target : ProxyAddr
target = record { host = domain (97 ∷ 46 ∷ 105 ∷ 111 ∷ []); port = 443 }

target-IsSendable : IsSendable target
target-IsSendable = record {
  host_ok = (omega arith, (omega arith, (omega arith, (omega arith, (omega arith, tt)))));
  port_fits = omega arith;
}

-- A BIND command is refused with code 7.
bind_run : read_connect (open_socket (5 ∷ 1 ∷ 0 ∷ 5 ∷ 2 ∷ 0 ∷ 1 ∷ [])) ≡ (
  err (note "unsupported command" ∷ []),
  record (open_socket (5 ∷ [])) {
    reader = record { bytes = []; finish = none };
    writer = record { written = 5 ∷ 0 ∷ 5 ∷ 7 ∷ 0 ∷ 1 ∷ 0 ∷ 0 ∷ 0 ∷ 0 ∷ 0 ∷ 0 ∷ []; broken = none };
  },
)
unfolding read_connect context with_context negotiate greet choose_method contains take_request
    send_reply reply_bytes recv_exact send_all
bind_run = refl

read_connect-request_example :
    read_connect
      (unread (open_socket []) (5 ∷ 2 ∷ ((2 ∷ 0 ∷ []) ++ 5 ∷ 1 ∷ 0 ∷ (encode target ++ (22 ∷ [])))))
    ≡ (ok (cut target), wrote (unread (open_socket []) (22 ∷ [])) (5 ∷ 0 ∷ []))
unfolding contains
read_connect-request_example =
    read_connect-request (open_socket []) refl (2 ∷ 0 ∷ []) target (22 ∷ []) refl target-IsSendable

-- A BIND command from a client whose socket fails within the reply.
abbrev breaking : Socket
breaking = record {
  reader = record { bytes = 5 ∷ 1 ∷ 0 ∷ 5 ∷ 2 ∷ 0 ∷ 1 ∷ []; finish = none };
  writer = record { written = []; broken = some (5, broken_pipe) };
}

cut_reply : (read_connect breaking).1.writer.written ≡ 5 ∷ 0 ∷ 5 ∷ 7 ∷ 0 ∷ []
unfolding read_connect context with_context negotiate greet choose_method contains take_request
    send_reply reply_bytes recv_exact send_all
cut_reply = refl

read_connect-Answered_example : Answered IsConnect [] (read_connect breaking)
read_connect-Answered_example = read_connect-Answered breaking
