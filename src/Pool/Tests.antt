-- ===== src/Pool/Tests.antt =====
-- Tunnels of the pool at concrete inputs.
use nextppp.Prelude.{
  ℕ, ◌+◌, ◌%◌, ◌^◌, sym, append-nil, ◌≢◌, insert, has-insert, ◌≡◌, arith, refl, true, false, [],
  ◌∷◌, List, has,
}
use nextppp.Mux.{FrameKind, open_stream, close, stream_data, eof}
use nextppp.Pool.{PoolTunnel, spawn_tunnel, register, alloc_stream, drop_stream, open_round}
use nextppp.Pool.Reading.{run_reader, Sent, at_once, accepted, stalled}
use nextppp.Pool.Streams.{IsCounted, Reachable-IsCounted, spawned, registers, drops, erase_one}
use nextppp.Pool.Choice.{IsRound, open_round-IsRound}
use nextppp.Pool.Demux.{Arrival, IsTraffic, IsAside, Heard, turns_of, said_to, run_reader-Heard}

abbrev fresh : PoolTunnel
fresh = spawn_tunnel true false

abbrev one_stream : PoolTunnel
one_stream = (register fresh).1

abbrev two_streams : PoolTunnel
two_streams = (register one_stream).1

-- After the wrap of the counter a stream gets the id 0.
wrapped_id : (register (record fresh { next_stream = 4_294_967_295 })).0 ≡ 0
unfolding register spawn_tunnel
wrapped_id = refl

one_load : one_stream.streams ≡ 1
unfolding register spawn_tunnel
one_load = refl

Reachable-IsCounted_example : IsCounted (1 ∷ []) (drop_stream 2 true true two_streams)
unfolding spawn_tunnel register erase_one has
Reachable-IsCounted_example =
    Reachable-IsCounted (1 ∷ []) (drop_stream 2 true true two_streams)
      (drops 2 true true refl (registers (registers (spawned true false))))

-- A frame for which another stream is registered while it is awaited, and whose event is taken or not.
abbrev arrival : FrameKind → ℕ → List ℕ → Sent → Arrival
arrival kind stream payload sent = record {
  kind = kind;
  stream = stream;
  payload = payload;
  taken = true;
  before = λ t. (register t).1;
  sending = at_once sent;
}

abbrev arrivals : List Arrival
arrivals =
    arrival stream_data 1 (5 ∷ []) accepted
    ∷ arrival stream_data 2 (6 ∷ []) stalled
    ∷ arrival eof 1 [] accepted
    ∷ []

register-IsAside : (sid : ℕ) → IsAside sid (λ t. (register t).1)
unfolding IsAside register alloc_stream insert has
register-IsAside sid t h = record {
  listed = has-insert sid ((t.next_stream + 1) % 2 ^ 32) t.registry h;
  heard = sym (append-nil _);
}

nothing-IsAside : (sid : ℕ) → IsAside sid (λ t. t)
unfolding IsAside
nothing-IsAside sid t h = record { listed = h; heard = sym (append-nil _) }

-- Traffic for the stream 1: its own frames, and one of another stream.
mine :
    (kind : FrameKind) (payload : List ℕ)
    → kind ≢ open_stream
    → kind ≢ close
    → IsTraffic 1 (arrival kind 1 payload accepted)
mine kind payload opens closes = record {
  fits = omega arith;
  no_open = opens;
  no_close = λ same. closes;
  drained = λ same. refl;
  aside_before = register-IsAside 1;
  aside_during = nothing-IsAside 1;
}

another : IsTraffic 1 (arrival stream_data 2 (6 ∷ []) stalled)
another = record {
  fits = omega arith;
  no_open = λ z. absurd (cc);
  no_close = λ same z. absurd (cc);
  drained = λ same. absurd (omega (arith, same));
  aside_before = register-IsAside 1;
  aside_during = nothing-IsAside 1;
}

run_reader-Heard_example :
    let r = run_reader (turns_of arrivals) two_streams in
    (r.0 ≡ true) × Heard 1 two_streams (said_to 1 arrivals) r.1
unfolding spawn_tunnel register has
run_reader-Heard_example = run_reader-Heard 1 arrivals two_streams refl (
  mine stream_data (5 ∷ []) (λ z. absurd (cc)) (λ z. absurd (cc)),
  (another, (mine eof [] (λ z. absurd (cc)) (λ z. absurd (cc)), tt)),
)

open_round-IsRound_example :
    IsRound 2 1 (one_stream ∷ fresh ∷ []) (open_round 2 1 (one_stream ∷ fresh ∷ []))
open_round-IsRound_example = open_round-IsRound 2 1 (one_stream ∷ fresh ∷ [])
