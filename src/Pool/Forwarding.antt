-- ===== src/Pool/Forwarding.antt =====
-- What one end of a stream reads from its local socket, over the reader task of a client's tunnel, to
-- what the client writes: pump_up and pump_down of crates/common/src/tunnel.rs with the demultiplexer
-- of crates/client/src/pool.rs between them.
use nextppp.Prelude.{ℕ, ◌≡◌}
use nextppp.Prelude.{Bool, true, ◌==◌, if◌then◌else◌, some}
use nextppp.Prelude.{List, [], ◌∷◌, ◌++◌, Result, ok, err}
use nextppp.Mux.{FrameKind, eof, MuxError, parse_frame}
use nextppp.Tunnel.{OutFrame, out_frame}
use nextppp.Tunnel.Reader.{joined}
use nextppp.Tunnel.Carried.{message_of}
use nextppp.Tunnel.Pumps.{UpTurn, DownTurn, Down, Pumped, StreamEvent, pump_up, pump_down}
use nextppp.Tunnel.Pumps
use nextppp.Pool.{PoolTunnel}
use nextppp.Pool.Demux.{Arrival, heard_by, events_in}

-- A local socket that gives some chunks and then ends, over a tunnel that takes every frame.
unfoldable pub local_reads : List (List ℕ) → List UpTurn
local_reads [] = record { read = ok []; taken = true } ∷ []
local_reads (chunk ∷ chunks) = record { read = ok chunk; taken = true } ∷ local_reads chunks

-- A pump that gets some events, over a local socket that takes what is written.
pub taking_all : List StreamEvent → List DownTurn
taking_all [] = []
taking_all (event ∷ events) =
    record { event = some event; write = ok tt; taken = true } ∷ taking_all events

-- The frames of one stream among those that arrive.
unfoldable pub frames_on : ℕ → List Arrival → List OutFrame
frames_on sid [] = []
frames_on sid (a ∷ later) =
    let rest = frames_on sid later in
    if sid == a.stream then out_frame a.kind a.stream a.payload ∷ rest else rest

events_of_frame : Result (FrameKind × ℕ × List ℕ) MuxError → List StreamEvent
events_of_frame (ok (kind, stream, payload)) = events_in kind payload
events_of_frame (err e) = []

events_of : List OutFrame → List StreamEvent
events_of [] = []
events_of (frame ∷ frames) = events_of_frame (parse_frame (message_of frame)) ++ events_of frames

-- What the client's end of a stream comes to.
pub record Forwarded (stream count : ℕ) (chunks : List (List ℕ)) (t : PoolTunnel)
    (r : Bool × PoolTunnel) : Type 0 where
  pub events : List StreamEvent
  pub runs : r.0 ≡ true
  pub heard : heard_by stream r.1.delivered ≡ heard_by stream t.delivered ++ events
  pub up_ends : (pump_up stream count (local_reads chunks)).end ≡ some Pumps.eof
  pub down : pump_down stream count (taking_all events) ≡ record {
    end = some Pumps.eof;
    out = [];
    local = joined chunks;
    shut = true;
    bytes = (pump_up stream count (local_reads chunks)).bytes;
  }
