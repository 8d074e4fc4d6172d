-- ===== src/Server/Opening.antt =====
-- A stream is opened over the two ends of a tunnel: the client's in crates/client/src/pool.rs, the
-- server's in crates/server/src/lib.rs.
use nextppp.Prelude.{ℕ, ◌<◌, ◌^◌, ◌≡◌, arith, refl}
use nextppp.Prelude.{Bool, true, false}
use nextppp.Prelude.{[], ◌∷◌, ◌++◌, length, has, remove, insert, Option}
use nextppp.Addr.{ProxyAddr, IsSendable, cut, encode}
use nextppp.Addr.RoundTrip.{decode_addr-encode}
use nextppp.Mux.{open_stream, reply, status_ok, status_refused}
use nextppp.Mux.Frames.{parse_frame-frame_header}
use nextppp.Tunnel.{OutFrame, out_frame}
use nextppp.Tunnel.Carried.{message_of}
use nextppp.Pool.{PoolTunnel, register, open_frame, alloc_stream}
use nextppp.Pool.Reading.{run_reader, Sending, give_reply, is_ok, demux, reader_turn, go_on}
use nextppp.Pool.Reading
use nextppp.Server.{
  ServerTunnel, ServerStats, Giving, demux_turn, handle_open, start_stream, is_full, message,
  answer_open, send_frame, leave,
}

pub verdict : Bool → ℕ
verdict true = status_ok
verdict false = status_refused

-- The frame that answers an OPEN.
abbrev pub reply_frame : ℕ → Bool → OutFrame
reply_frame stream reached = out_frame reply stream (verdict reached ∷ [])

-- The server's turn on a client's OPEN.
opened_at :
    (cap : Option ℕ) (sid : ℕ) (addr : ProxyAddr) (taken : Bool) (given : Giving) (s : ServerTunnel)
    → sid < 2 ^ 32
    → IsSendable addr
    → has sid s.registry ≡ false
    → is_full cap (length s.registry) ≡ false
    → demux_turn cap (message (message_of (open_frame sid addr)) taken given) s
      ≡ (true, record s { registry = insert sid s.registry; tasks = (sid, cut addr) ∷ s.tasks })
unfolding demux_turn open_frame out_frame handle_open start_stream
opened_at cap sid addr taken given s fits sendable new room =
    rw
      (
        parse_frame-frame_header open_stream sid (encode addr) fits,
        new,
        room,
        decode_addr-encode addr sendable,
      )
      refl

-- The server's answer once it knows whether the target was reached.
answered_with :
    (sid : ℕ) (reached : Bool) (s : ServerTunnel) (stats : ServerStats)
    → (answer_open sid reached true s stats).1.out ≡ s.out ++ reply_frame sid reached ∷ []
unfolding answer_open send_frame leave verdict
answered_with sid true s stats = refl
answered_with sid false s stats = refl

-- The client's turn on the answer.
told :
    (sid : ℕ) (reached taken : Bool) (sent : Sending) (t : PoolTunnel)
    → sid < 2 ^ 32
    → has sid t.pending ≡ true
    → reader_turn (Reading.message (message_of (reply_frame sid reached)) taken sent) t ≡ (
      true,
      record t { pending = remove sid t.pending; answered = t.answered ++ (sid, reached) ∷ [] },
    )
unfolding reader_turn demux give_reply out_frame verdict
told sid true taken sent t fits waits =
    rw (parse_frame-frame_header reply sid (status_ok ∷ []) fits, waits) refl
told sid false taken sent t fits waits =
    rw (parse_frame-frame_header reply sid (status_refused ∷ []) fits, waits) refl

register_fits : (t : PoolTunnel) → (register t).0 < 2 ^ 32
unfolding register alloc_stream
register_fits t = omega arith

register_waits : (t : PoolTunnel) → has (register t).0 (register t).1.pending ≡ true
unfolding register alloc_stream insert has
register_waits t = ground arith

-- An OPEN for an address that frames carry, from any tunnel of a client, at a server that does not list
-- the stream and is below its limit: the server lists the stream and starts a task for the address,
-- with a name cut at 255 bytes. The task's answer, whether the target was reached, goes out as one
-- frame if the tunnel takes it, and by that frame the client's waiter for this stream, which was there, learns just that.
pub open_carried :
    (cap : Option ℕ) (t : PoolTunnel) (addr : ProxyAddr) (reached taken : Bool) (given : Giving)
    (sent : Sending) (s : ServerTunnel) (stats : ServerStats)
    → IsSendable addr
    → has (register t).0 s.registry ≡ false
    → is_full cap (length s.registry) ≡ false
    → let sid = (register t).0 in
      let t1 = (register t).1 in
      let opened = demux_turn cap (message (message_of (open_frame sid addr)) taken given) s in
      (opened
        ≡ (true, record s { registry = insert sid s.registry; tasks = (sid, cut addr) ∷ s.tasks }))
      × ((answer_open sid reached true opened.1 stats).1.out
          ≡ s.out ++ reply_frame sid reached ∷ [])
      × (reader_turn (Reading.message (message_of (reply_frame sid reached)) taken sent) t1 ≡ (
        true,
        record t1 {
          pending = remove sid t1.pending;
          answered = t1.answered ++ (sid, reached) ∷ [];
        },
      ))
open_carried cap t addr reached taken given sent s stats sendable new room =
    let sid : ℕ = (register t).0 in
    let opened = opened_at cap sid addr taken given s (register_fits t) sendable new room in
    (
      opened,
      rw opened (answered_with sid reached _ stats),
      told sid reached taken sent (register t).1 (register_fits t) (register_waits t),
    )
