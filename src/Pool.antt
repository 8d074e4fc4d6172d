-- ===== src/Pool.antt =====
-- A tunnel of the client's pool in crates/client/src/pool.rs. What the tasks do between their awaits is
-- one operation. A channel's sender is known by its stream id; what goes into the senders is a log.
pub mod Reading
pub mod Streams
pub mod Demux
pub mod Forwarding
pub mod Choice
mod Tests
use nextppp.Prelude.{
  ℕ, ◌+◌, ◌-◌, ◌%◌, ◌^◌, Bool, true, false, ◌&&◌, ◌||◌, ◌==◌, if◌then◌else◌, ltb, has, remove,
  insert,
}
use nextppp.Prelude.{Option, none, some, List, [], ◌∷◌, ◌++◌, Result, ok, err}
use nextppp.Errors.{Error}
use nextppp.Addr.{ProxyAddr, encode}
use nextppp.Mux.{
  FrameKind, MuxError, open_stream, reply, stream_data, close, parse_frame, status_ok,
}
use nextppp.Mux
use nextppp.Tunnel.{OutFrame, out_frame, bare_frame}
use nextppp.Tunnel.Pumps.{StreamEvent, got_data, got_eof, one_if}

-- `pending` and `registry` are the keys of the two maps. `died` counts the wake-ups of the
-- maintainer, `teardown` and `reader` say whether the hook and the task handle are still there, `out`
-- is what went into the outbound channel, `answered` and `delivered` what went to the waiters of an
-- OPEN and to the streams' pumps.
pub record PoolTunnel : Type 0 where
  pub alive : Bool
  pub pooled : Bool
  pub pending : List ℕ
  pub registry : List ℕ
  pub next_stream : ℕ
  pub streams : ℕ
  pub died : ℕ
  pub teardown : Bool
  pub reader : Bool
  pub out : List OutFrame
  pub answered : List (ℕ × Bool)
  pub delivered : List (ℕ × StreamEvent)

-- `spawn_tunnel`, once its tasks run.
unfoldable pub spawn_tunnel : Bool → Bool → PoolTunnel
spawn_tunnel pooled teardown = record {
  alive = true;
  pooled = pooled;
  pending = [];
  registry = [];
  next_stream = 0;
  streams = 0;
  died = 0;
  teardown = teardown;
  reader = true;
  out = [];
  answered = [];
  delivered = [];
}

unfoldable pub mark_dead : PoolTunnel → PoolTunnel
mark_dead t =
    if t.alive
    then record t {
      alive = false;
      pending = [];
      registry = [];
      died = if t.pooled then t.died + 1 else t.died;
    }
    else t

unfoldable pub kill : PoolTunnel → PoolTunnel
unfolding mark_dead
kill t = record (mark_dead t) { teardown = false; reader = false }

unfoldable pub alloc_stream : PoolTunnel → ℕ × PoolTunnel
alloc_stream t = let next = (t.next_stream + 1) % 2 ^ 32 in (next, record t { next_stream = next })

-- `fetch_add` and `fetch_sub` on an `AtomicU32`.
abbrev pub plus32 : ℕ → ℕ
plus32 n = (n + 1) % 2 ^ 32

abbrev pub minus32 : ℕ → ℕ
minus32 n = (n + (2 ^ 32 - 1)) % 2 ^ 32

unfoldable pub unregister : ℕ → PoolTunnel → PoolTunnel
unregister sid t = record t {
  pending = remove sid t.pending;
  registry = remove sid t.registry;
  streams = minus32 t.streams;
}

-- `try_send`, with whether the channel takes the frame; what comes of it is dropped.
unfoldable pub try_send : Bool → OutFrame → PoolTunnel → PoolTunnel
try_send taken frame t = record t { out = t.out ++ one_if taken frame }

pub data OpenError : Type 0 where
  closed_before_open refused_target died_opening reply_timed_out : OpenError

-- The part of `Tunnel::open` before its first await: the stream gets an id and its senders.
unfoldable pub register : PoolTunnel → ℕ × PoolTunnel
unfolding alloc_stream insert
register t =
    let (sid, t) = alloc_stream t in
    (
      sid,
      record t {
        pending = insert sid t.pending;
        registry = insert sid t.registry;
        streams = plus32 t.streams;
      },
    )

unfoldable pub open_frame : ℕ → ProxyAddr → OutFrame
unfolding out_frame
open_frame sid addr = out_frame open_stream sid (encode addr)

-- The OPEN frame could not be sent.
unfoldable pub open_unsent : ℕ → PoolTunnel → PoolTunnel
unfolding unregister mark_dead
open_unsent sid t = mark_dead (unregister sid t)

-- What the wait for the REPLY comes to.
pub data Waited : Type 0 where
  replied : Bool → Waited
  waiter_dropped timed_out : Waited

-- The part behind the wait; `taken` is for the CLOSE after a timeout.
unfoldable pub open_end : ℕ → Bool → Waited → PoolTunnel → Result ℕ OpenError × PoolTunnel
unfolding unregister try_send
open_end sid taken (replied true) t = (ok sid, t)
open_end sid taken (replied false) t = (err refused_target, unregister sid t)
open_end sid taken waiter_dropped t = (err died_opening, unregister sid t)
open_end sid taken timed_out t =
    (err reply_timed_out, try_send taken (bare_frame close sid) (unregister sid t))

-- Other tasks run during the two awaits of `open`: what they make of the tunnel is given.
abbrev pub Others : Type 0
Others = PoolTunnel → PoolTunnel

unfoldable pub open_sent :
    ℕ → ProxyAddr → Bool → Others → Bool → Waited → PoolTunnel → Result ℕ OpenError × PoolTunnel
unfolding open_unsent open_end try_send
open_sent sid addr sent waiting taken waited t =
    if sent
    then open_end sid taken waited (waiting (try_send true (open_frame sid addr) t))
    else (err closed_before_open, open_unsent sid t)

unfoldable pub open_on :
    ProxyAddr
    → Others
    → Bool
    → Others
    → Bool
    → Waited
    → PoolTunnel
    → Result ℕ OpenError × PoolTunnel
unfolding register open_sent
open_on addr sending sent waiting taken waited t =
    let (sid, t) = register t in open_sent sid addr sent waiting taken waited (sending t)

-- `Drop` of a stream handle.
unfoldable pub drop_stream : ℕ → Bool → Bool → PoolTunnel → PoolTunnel
unfolding unregister try_send kill
drop_stream sid graceful taken t =
    let t = unregister sid t in
    let t = if graceful then t else try_send taken (bare_frame close sid) t in
    if t.pooled then t else kill t

-- `pick`: the first of the least loaded tunnels that are alive and have room.
abbrev pub has_room : ℕ → PoolTunnel → Bool
has_room max_streams t = t.alive && ltb t.streams max_streams

abbrev pub less_loaded : PoolTunnel → Option PoolTunnel → Option PoolTunnel
less_loaded t none = some t
less_loaded t (some u) = if ltb u.streams t.streams then some u else some t

unfoldable pub pick : ℕ → List PoolTunnel → Option PoolTunnel
pick max_streams [] = none
pick max_streams (t ∷ ts) =
    let rest = pick max_streams ts in if has_room max_streams t then less_loaded t rest else rest

unfoldable pub any_live : List PoolTunnel → Bool
any_live [] = false
any_live (t ∷ ts) = t.alive || any_live ts

-- One round of `open_stream`: where the stream is opened.
pub data Round : Type 0 where
  on_tunnel : PoolTunnel → Round
  dedicated wait_for_tunnel : Round

abbrev pub round_without : Bool → Round
round_without live = if live then dedicated else wait_for_tunnel

abbrev pub round_with : List PoolTunnel → Option PoolTunnel → Round
round_with ts (some t) = on_tunnel t
round_with ts none = round_without (any_live ts)

unfoldable pub open_round : ℕ → ℕ → List PoolTunnel → Round
unfolding pick any_live
open_round pool_size max_streams ts =
    if pool_size == 0 then dedicated else round_with ts (pick max_streams ts)

-- How many dials a round of the maintainer starts.
abbrev pub shortage : ℕ → ℕ → ℕ → ℕ
shortage pool_size live dialing = pool_size - (live + dialing) % 2 ^ 32
