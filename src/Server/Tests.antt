-- ===== src/Server/Tests.antt =====
-- Tunnels of the server at concrete inputs.
use nextppp.Prelude.{◌≡◌, arith, refl, true, false, [], ◌∷◌, ◌++◌, some, none}
use nextppp.Prelude.{has, insert, remove}
use nextppp.Addr.{ProxyAddr, ip, v4, cut}
use nextppp.Pool.{PoolTunnel, spawn_tunnel, register, open_frame}
use nextppp.Pool.Reading.{reader_turn}
use nextppp.Pool.Reading
use nextppp.Tunnel.Carried.{message_of}
use nextppp.Server.{
  ServerStats, new_tunnel, accepted, at_once, message, session_id, should_log_failure, admit,
  admitted, demux_turn, answer_open,
}
use nextppp.Server.Registry.{IsKept, Reachable-IsKept, starts, turns}
use nextppp.Server.Opening.{open_carried, reply_frame}

abbrev idle : ServerStats
idle = record {
  active = 0;
  sessions = 0;
  handshake_failures = 0;
  handshaking = 0;
  rejected_overload = 0;
  bytes_to_targets = 0;
  bytes_to_clients = 0;
}

abbrev home : ProxyAddr
home = record { host = ip (v4 (127 ∷ 0 ∷ 0 ∷ 1 ∷ [])); port = 80 }

abbrev client : PoolTunnel
client = spawn_tunnel true false

logged : should_log_failure 128 ≡ true
unfolding should_log_failure
logged = refl

first_session : admit (some 5) none 7 0 idle ≡ admitted 7 1
unfolding admit session_id
first_session = refl

-- Over the base 0 the first two sessions get one id.
same_ids : session_id 0 0 ≡ session_id 0 1
unfolding session_id
same_ids = refl

-- A stream opened on a new tunnel.
Reachable-IsKept_example :
    IsKept
      (some 4)
      (demux_turn
        (some 4)
        (message (message_of (open_frame 5 home)) true (at_once accepted))
        new_tunnel).1
Reachable-IsKept_example =
    Reachable-IsKept (some 4)
      (demux_turn (some 4) (message (message_of (open_frame 5 home)) true (at_once accepted))
        new_tunnel).1
      (turns (message_of (open_frame 5 home)) true accepted starts)

open_carried_example :
    let sid = (register client).0 in
    let t1 = (register client).1 in
    let opened =
      demux_turn
        (some 4)
        (message (message_of (open_frame sid home)) true (at_once accepted))
        new_tunnel in
    (opened ≡ (true, record new_tunnel { registry = insert sid []; tasks = (sid, cut home) ∷ [] }))
    × ((answer_open sid true true opened.1 idle).1.out ≡ reply_frame sid true ∷ [])
    × (reader_turn
          (Reading.message
            (message_of (reply_frame sid true))
            true
            (Reading.at_once Reading.accepted))
          t1
        ≡ (
          true,
          record t1 { pending = remove sid t1.pending; answered = t1.answered ++ (sid, true) ∷ [] },
        ))
unfolding new_tunnel has
open_carried_example =
    open_carried (some 4) client home true true (at_once accepted)
      (Reading.at_once Reading.accepted) new_tunnel idle
      (record { host_ok = refl; port_fits = omega arith }) refl refl
