-- ===== src/Pool/Reading.antt =====
-- The reader task of a tunnel in crates/client/src/pool.rs, with what other tasks do during its awaits.
use nextppp.Prelude.{ℕ, Bool, true, false, ◌==◌, if◌then◌else◌, has, remove}
use nextppp.Prelude.{List, [], ◌∷◌, ◌++◌, Result, ok, err}
use nextppp.Errors.{Error}
use nextppp.Mux.{
  FrameKind, MuxError, open_stream, reply, stream_data, close, parse_frame, status_ok,
}
use nextppp.Mux
use nextppp.Pool.{PoolTunnel, Others, try_send, mark_dead}
use nextppp.Tunnel.{bare_frame}
use nextppp.Tunnel.Pumps.{StreamEvent, got_data, got_eof}

-- What the timed send to a stream's pump comes to.
pub data Sent : Type 0 where
  accepted pump_gone stalled : Sent

-- The send awaits: what other tasks make of the tunnel meanwhile, and what it comes to.
pub record Sending : Type 0 where
  pub meanwhile : Others
  pub outcome : Sent

abbrev pub at_once : Sent → Sending
at_once sent = record { meanwhile = λ t. t; outcome = sent }

-- The stream is dropped from the registry and a CLOSE goes to the server.
unfoldable pub bounce : ℕ → Bool → PoolTunnel → PoolTunnel
unfolding remove try_send
bounce sid taken t =
    try_send taken (bare_frame close sid) (record t { registry = remove sid t.registry })

unfoldable pub send_event : ℕ → StreamEvent → Bool → Sent → PoolTunnel → PoolTunnel
unfolding bounce
send_event sid event taken accepted t = record t { delivered = t.delivered ++ (sid, event) ∷ [] }
send_event sid event taken _ t = bounce sid taken t

unfoldable pub route_event : ℕ → StreamEvent → Bool → Sending → PoolTunnel → PoolTunnel
unfolding has send_event
route_event sid event taken sending t =
    if has sid t.registry
    then send_event sid event taken sending.outcome (sending.meanwhile t)
    else try_send taken (bare_frame close sid) t

-- `payload.first() == Some(&REPLY_OK)`.
abbrev pub is_ok : List ℕ → Bool
is_ok [] = false
is_ok (status ∷ rest) = status == status_ok

unfoldable pub give_reply : ℕ → Bool → PoolTunnel → PoolTunnel
unfolding has remove
give_reply sid verdict t =
    if has sid t.pending
    then record t { pending = remove sid t.pending; answered = t.answered ++ (sid, verdict) ∷ [] }
    else t

-- One parsed frame: the tunnel, and whether the reader goes on.
unfoldable pub demux :
    Bool → Sending → Result (FrameKind × ℕ × List ℕ) MuxError → PoolTunnel → Bool × PoolTunnel
unfolding give_reply route_event
demux taken sending (ok (reply, sid, payload)) t = (true, give_reply sid (is_ok payload) t)
demux taken sending (ok (stream_data, sid, payload)) t =
    (true, route_event sid (got_data payload) taken sending t)
demux taken sending (ok (Mux.eof, sid, payload)) t = (true, route_event sid got_eof taken sending t)
demux taken sending (ok (close, sid, payload)) t =
    (true, record t { registry = remove sid t.registry })
demux taken sending (ok (open_stream, sid, payload)) t = (false, t)
demux taken sending (err e) t = (false, t)

-- One turn of the reader's `select!`, with what becomes of a CLOSE and of an event; or what other tasks
-- make of the tunnel while the reader awaits the next.
pub data Turn : Type 0 where
  message : List ℕ → Bool → Sending → Turn
  others_ran : Others → Turn
  ended : Turn
  failed : Error → Turn
  writer_ended : Turn

unfoldable pub reader_turn : Turn → PoolTunnel → Bool × PoolTunnel
unfolding demux
reader_turn (message msg taken sending) t = demux taken sending (parse_frame msg) t
reader_turn (others_ran others) t = (true, others t)
reader_turn _ t = (false, t)

unfoldable pub go_on : (PoolTunnel → Bool × PoolTunnel) → Bool × PoolTunnel → Bool × PoolTunnel
unfolding mark_dead
go_on next (true, t) = next t
go_on next (false, t) = (false, mark_dead t)

-- The reader over the turns that there are: whether it still runs, and the tunnel.
unfoldable pub run_reader : List Turn → PoolTunnel → Bool × PoolTunnel
unfolding reader_turn go_on
run_reader [] t = (true, t)
run_reader (turn ∷ turns) t = go_on (run_reader turns) (reader_turn turn t)
