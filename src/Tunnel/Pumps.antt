-- ===== src/Tunnel/Pumps.antt =====
-- The two directions of a proxied stream in crates/common/src/tunnel.rs. What a read or a receive
-- gives and whether a send or a write is taken are arguments, one turn of a loop each.
pub mod Ends
use nextppp.Prelude.{ℕ, ◌+◌, ◌%◌, ◌^◌, Bool, true, false, not, if◌then◌else◌, Option, none, some}
use nextppp.Prelude.{List, [], ◌∷◌, ◌++◌, length, Result, ok, err}
use nextppp.Errors.{ErrorKind}
use nextppp.Mux.{FrameKind, stream_data, close}
use nextppp.Mux
use nextppp.Pump.{routine_cause}
use nextppp.Tunnel.{OutFrame, out_frame, bare_frame}
use Prim.Native.String.{String}

pub data StreamEvent : Type 0 where
  got_data : List ℕ → StreamEvent
  got_eof got_close : StreamEvent

-- The text of a fault: an I/O error's, or that of a panicked task.
pub data Fault : Type 0 where
  io_fault : ErrorKind → Fault
  pump_panicked : Fault

pub data DirEnd : Type 0 where
  eof : DirEnd
  closed : String → DirEnd
  fault : Fault → DirEnd

unfoldable pub is_graceful_dir : DirEnd → Bool
is_graceful_dir eof = true
is_graceful_dir _ = false

unfoldable pub ended_by : ErrorKind → Option String → DirEnd
ended_by kind (some cause) = closed cause
ended_by kind none = fault (io_fault kind)

unfoldable pub classify_io_end : ErrorKind → DirEnd
unfolding ended_by
classify_io_end kind = ended_by kind (routine_cause kind)

-- One turn of `pump_up`: what the read gives (no bytes at the end of the stream), and whether the
-- channel takes the frame.
pub record UpTurn : Type 0 where
  pub read : Result (List ℕ) ErrorKind
  pub taken : Bool

-- The direction's end, or `none` while it runs; the frames that went into the channel; the count.
pub record Pumped (A : Type 0) : Type 0 where
  pub end : Option DirEnd
  pub out : List A
  pub bytes : ℕ

abbrev pub one_if : {A : Type 0} → Bool → A → List A
one_if true a = a ∷ []
one_if false a = []

-- A frame that went into the channel, in front of what the later turns send.
abbrev pub and_more : {A : Type 0} → A → Pumped A → Pumped A
and_more a p = record { end = p.end; out = a ∷ p.out; bytes = p.bytes }

unfoldable pub pump_up : ℕ → ℕ → List UpTurn → Pumped OutFrame
pump_up stream count [] = record { end = none; out = []; bytes = count }
pump_up stream count (t ∷ ts) = elim t.read [
  | err kind ↦ record {
    end = some (classify_io_end kind);
    out = one_if t.taken (bare_frame close stream);
    bytes = count;
  }
  | ok [] ↦ record {
    end = some (if t.taken then eof else closed "tunnel closed");
    out = one_if t.taken (bare_frame Mux.eof stream);
    bytes = count;
  }
  | ok (x ∷ xs) ↦ elim t.taken [
    | true ↦
        and_more (out_frame stream_data stream (x ∷ xs))
          (pump_up stream ((count + length (x ∷ xs)) % 2 ^ 64) ts)
    | false ↦ record { end = some (closed "tunnel closed"); out = []; bytes = count }
  ]
]

-- One turn of `pump_down`: what the channel gives (`none` once its sender is gone), what writing the
-- event's bytes gives, and whether the tunnel takes a CLOSE.
pub record DownTurn : Type 0 where
  pub event : Option StreamEvent
  pub write : Result (Unit {0}) ErrorKind
  pub taken : Bool

-- The end, the frames sent back, the bytes written to the local socket, whether its write side was
-- shut down, and the count.
pub record Down : Type 0 where
  pub end : Option DirEnd
  pub out : List OutFrame
  pub local : List ℕ
  pub shut : Bool
  pub bytes : ℕ

abbrev pub down_end : DirEnd → ℕ → Down
down_end end count = record { end = some end; out = []; local = []; shut = false; bytes = count }

abbrev pub wrote_and : List ℕ → Down → Down
wrote_and bytes d = record d { local = bytes ++ d.local }

unfoldable pub pump_down : ℕ → ℕ → List DownTurn → Down
pump_down stream count [] = record { end = none; out = []; local = []; shut = false; bytes = count }
pump_down stream count (t ∷ ts) = elim t.event [
  | none ↦ down_end (closed "tunnel closed") count
  | some (got_data chunk) ↦ elim t.write [
    | ok done ↦ wrote_and chunk (pump_down stream ((count + length chunk) % 2 ^ 64) ts)
    | err kind ↦ record (down_end (classify_io_end kind) count) {
      out = one_if t.taken (bare_frame close stream);
    }
  ]
  | some got_eof ↦ record (down_end eof count) { shut = true }
  | some got_close ↦ down_end (closed "peer reset") count
]

-- How a direction's task was joined.
pub data Joined : Type 0 where
  joined_end : DirEnd → Joined
  cancelled panicked : Joined

unfoldable pub join_dir : Joined → DirEnd
join_dir (joined_end end) = end
join_dir cancelled = closed "aborted"
join_dir panicked = fault pump_panicked

pub data StreamEnd : Type 0 where
  graceful : StreamEnd
  closed_by : String → StreamEnd
  faulted : Fault → StreamEnd

unfoldable pub is_fault : StreamEnd → Bool
is_fault (faulted why) = true
is_fault _ = false

unfoldable pub is_graceful : StreamEnd → Bool
is_graceful graceful = true
is_graceful _ = false

-- From the ends of the two directions, up and down.
unfoldable pub outcome : DirEnd → DirEnd → StreamEnd
outcome eof eof = graceful
outcome (fault why) down = faulted why
outcome eof (fault why) = faulted why
outcome (closed cause) (fault why) = faulted why
outcome (closed cause) down = closed_by cause
outcome eof (closed cause) = closed_by cause

-- Which direction's task ended first.
pub data First : Type 0 where
  up_first down_first : First

-- `first` is how the task that ended first was joined, and `sibling` how the other one is, by whether
-- it was aborted.
unfoldable pub pump_end : First → Joined → (Bool → Joined) → StreamEnd
unfolding outcome join_dir is_graceful_dir
pump_end up_first first sibling =
    let up = join_dir first in outcome up (join_dir (sibling (not (is_graceful_dir up))))
pump_end down_first first sibling =
    let down = join_dir first in outcome (join_dir (sibling (not (is_graceful_dir down)))) down
