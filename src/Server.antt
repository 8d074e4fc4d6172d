-- ===== src/Server.antt =====
-- The server's side of a tunnel in crates/server/src/lib.rs: the gates at accept, the demultiplexer and
-- the streams. What a task does between two awaits is one operation; a channel's sender is known by
-- its stream id.
pub mod Registry
pub mod Opening
pub mod SessionIds
mod Tests
use nextppp.Prelude.{ℕ, ◌+◌, ◌%◌, ◌^◌, Bool, true, false, ◌||◌, ◌==◌, if◌then◌else◌, leb}
use nextppp.Prelude.{has, remove, insert, length}
use nextppp.Prelude.{Option, none, some, List, [], ◌∷◌, ◌++◌, Result, ok, err}
use nextppp.Errors.{Error}
use nextppp.Addr.{ProxyAddr, AddrError, decode_addr}
use nextppp.Mux.{
  FrameKind, MuxError, open_stream, reply, stream_data, close, parse_frame, status_ok,
  status_refused,
}
use nextppp.Mux
use nextppp.Socks5.{Moved, add64}
use nextppp.Tunnel.{OutFrame, out_frame, bare_frame}
use nextppp.Tunnel.Pumps.{StreamEvent, got_data, got_eof, one_if}

pub record ServerStats : Type 0 where
  pub active : ℕ
  pub sessions : ℕ
  pub handshake_failures : ℕ
  pub handshaking : ℕ
  pub rejected_overload : ℕ
  pub bytes_to_targets : ℕ
  pub bytes_to_clients : ℕ

unfoldable pub should_log_failure : ℕ → Bool
should_log_failure n = n == 1 || n % 64 == 0

-- Whether a limit, if there is one, is reached.
abbrev pub is_full : Option ℕ → ℕ → Bool
is_full none n = false
is_full (some max) n = leb max n

-- The id of the next session, from the base and the counter.
unfoldable pub session_id : ℕ → ℕ → ℕ
session_id base counter = let sid = (base + counter) % 2 ^ 128 in if sid == 0 then 1 else sid

-- An accepted connection: turned away at one of the two gates, or given an id and the next counter.
pub data Admission : Type 0 where
  overloaded : ServerStats → Admission
  admitted : ℕ → ℕ → Admission

unfoldable pub admit : Option ℕ → Option ℕ → ℕ → ℕ → ServerStats → Admission
unfolding session_id
admit max_connections max_handshakes base counter stats =
    if is_full max_connections stats.active || is_full max_handshakes stats.handshaking
    then overloaded (record stats { rejected_overload = add64 stats.rejected_overload 1 })
    else admitted (session_id base counter) (add64 counter 1)

-- One tunnel: the keys of its registry; the streams whose task runs, each of which holds the registry
-- with it; whether the demultiplexer runs, which holds it too; what went into the outbound channel
-- and to the streams' pumps.
pub record ServerTunnel : Type 0 where
  pub registry : List ℕ
  pub tasks : List (ℕ × ProxyAddr)
  pub demuxing : Bool
  pub out : List OutFrame
  pub delivered : List (ℕ × StreamEvent)

unfoldable pub new_tunnel : ServerTunnel
new_tunnel = record { registry = []; tasks = []; demuxing = true; out = []; delivered = [] }

-- A send into the outbound channel, with whether it takes the frame.
unfoldable pub send_frame : Bool → OutFrame → ServerTunnel → ServerTunnel
send_frame taken frame t = record t { out = t.out ++ one_if taken frame }

unfoldable pub reject : ℕ → Bool → ServerTunnel → ServerTunnel
unfolding send_frame
reject stream taken t = send_frame taken (bare_frame close stream) t

unfoldable pub start_stream : ℕ → Bool → Result ProxyAddr AddrError → ServerTunnel → ServerTunnel
unfolding reject insert
start_stream stream taken (err e) t = reject stream taken t
start_stream stream taken (ok addr) t = record t {
  registry = insert stream t.registry;
  tasks = (stream, addr) ∷ t.tasks;
}

unfoldable pub handle_open : Option ℕ → ℕ → List ℕ → Bool → ServerTunnel → ServerTunnel
unfolding start_stream has
handle_open cap stream payload taken t =
    if has stream t.registry
    then reject stream taken t
    else if is_full cap (length t.registry)
    then reject stream taken t
    else start_stream stream taken (decode_addr payload) t

unfoldable pub bounce : ℕ → Bool → ServerTunnel → ServerTunnel
unfolding remove reject
bounce stream taken t = reject stream taken (record t { registry = remove stream t.registry })

-- What the timed send to a stream's pump comes to.
pub data Given : Type 0 where
  accepted pump_gone stalled : Given

-- The send awaits: what other tasks make of the tunnel meanwhile, and what it comes to.
pub record Giving : Type 0 where
  pub meanwhile : ServerTunnel → ServerTunnel
  pub outcome : Given

abbrev pub at_once : Given → Giving
at_once given = record { meanwhile = λ t. t; outcome = given }

unfoldable pub give_event : ℕ → StreamEvent → Bool → Given → ServerTunnel → ServerTunnel
unfolding bounce
give_event stream event taken accepted t = record t {
  delivered = t.delivered ++ (stream, event) ∷ [];
}
give_event stream event taken _ t = bounce stream taken t

unfoldable pub route : ℕ → StreamEvent → Bool → Giving → ServerTunnel → ServerTunnel
unfolding has give_event reject
route stream event taken giving t =
    if has stream t.registry
    then give_event stream event taken giving.outcome (giving.meanwhile t)
    else reject stream taken t

-- One parsed frame: whether the demultiplexer goes on, and the tunnel.
unfoldable pub demux_frame :
    Option ℕ
    → Bool
    → Giving
    → Result (FrameKind × ℕ × List ℕ) MuxError
    → ServerTunnel
    → Bool × ServerTunnel
unfolding handle_open route
demux_frame cap taken giving (ok (open_stream, stream, payload)) t =
    (true, handle_open cap stream payload taken t)
demux_frame cap taken giving (ok (stream_data, stream, payload)) t =
    (true, route stream (got_data payload) taken giving t)
demux_frame cap taken giving (ok (Mux.eof, stream, payload)) t =
    (true, route stream got_eof taken giving t)
demux_frame cap taken giving (ok (close, stream, payload)) t =
    (true, record t { registry = remove stream t.registry })
demux_frame cap taken giving (ok (reply, stream, payload)) t = (false, t)
demux_frame cap taken giving (err e) t = (false, t)

-- One turn of the `select!`; or what other tasks make of the tunnel while the next is awaited.
pub data DemuxTurn : Type 0 where
  message : List ℕ → Bool → Giving → DemuxTurn
  others_ran : (ServerTunnel → ServerTunnel) → DemuxTurn
  ended : DemuxTurn
  failed : Error → DemuxTurn
  writer_ended : DemuxTurn

unfoldable pub demux_turn : Option ℕ → DemuxTurn → ServerTunnel → Bool × ServerTunnel
unfolding demux_frame
demux_turn cap (message msg taken giving) t = demux_frame cap taken giving (parse_frame msg) t
demux_turn cap (others_ran others) t = (true, others t)
demux_turn cap _ t = (false, t)

abbrev pub after_turn : (ServerTunnel → ServerTunnel) → Bool × ServerTunnel → ServerTunnel
after_turn next (true, t) = next t
after_turn next (false, t) = record t { demuxing = false }

unfoldable pub run_demux : Option ℕ → List DemuxTurn → ServerTunnel → ServerTunnel
unfolding demux_turn
run_demux cap [] t = t
run_demux cap (turn ∷ turns) t = after_turn (run_demux cap turns) (demux_turn cap turn t)

-- The channels whose sender still exists: those of the registry, while anyone holds it.
abbrev pub is_none : List (ℕ × ProxyAddr) → Bool
is_none [] = true
is_none (task ∷ tasks) = false

unfoldable pub open_channels : ServerTunnel → List ℕ
open_channels t = if t.demuxing then t.registry else if is_none t.tasks then [] else t.registry

unfoldable pub end_task : ℕ → List (ℕ × ProxyAddr) → List (ℕ × ProxyAddr)
end_task stream [] = []
end_task stream ((x, addr) ∷ tasks) =
    let rest = end_task stream tasks in if stream == x then tasks else (x, addr) ∷ rest

-- The end of `handle_stream`, on every path.
unfoldable pub leave : ℕ → ServerTunnel → ServerTunnel
unfolding remove end_task
leave stream t = record t { registry = remove stream t.registry; tasks = end_task stream t.tasks }

-- What a stream's task comes to after the connection attempt and the REPLY: it pumps, or it is over.
pub data Started : Type 0 where
  pumping over : Started

abbrev pub replied : ℕ → Bool → ServerTunnel → ServerStats → Started × ServerTunnel × ServerStats
replied stream true t stats = (pumping, t, record stats { sessions = add64 stats.sessions 1 })
replied stream false t stats = (over, leave stream t, stats)

-- `handle_stream` up to the pump, with whether the target was reached and the REPLY is taken.
unfoldable pub answer_open :
    ℕ → Bool → Bool → ServerTunnel → ServerStats → Started × ServerTunnel × ServerStats
unfolding leave send_frame
answer_open stream true taken t stats =
    replied stream taken (send_frame taken (out_frame reply stream (status_ok ∷ [])) t) stats
answer_open stream false taken t stats =
    (over, leave stream (send_frame taken (out_frame reply stream (status_refused ∷ [])) t), stats)

-- `handle_stream` from the pump's end on.
unfoldable pub finish_stream : ℕ → Moved → ServerTunnel → ServerStats → ServerTunnel × ServerStats
unfolding leave
finish_stream stream moved t stats = (
  leave stream t,
  record stats {
    bytes_to_clients = add64 stats.bytes_to_clients moved.up;
    bytes_to_targets = add64 stats.bytes_to_targets moved.down;
  },
)
