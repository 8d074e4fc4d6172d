-- ===== src/Tunnel/Tests.antt =====
-- Tunnels at concrete inputs.
use nextppp.Prelude.{◌≡◌, arith, refl, none, false, [], ◌∷◌, err}
use nextppp.Errors.{zero_length}
use nextppp.Samples.{plain_backend, plain_codec, least_rng}
use nextppp.Mux.{encode_varint, encode_varint_loop}
use nextppp.Key.{default_key}
use nextppp.Transmission.{new_rx, new_tx}
use nextppp.Transmission.Linked.{new-Linked}
use nextppp.Tunnel.{prefix_rx, session_tx, OutFrame, Carrier, encode_prefix, next_frame}
use nextppp.Tunnel.Reader.{Gives, next_frame-Gives, idle}
use nextppp.Tunnel.Carried.{IsCarried}
use nextppp.Tunnel.Stream.{Streamed, run_writer-Streamed}

empty_run : encode_prefix [] [] [] ≡ err zero_length
unfolding encode_prefix
empty_run = refl

-- "hi" behind its length, in two reads.
next_frame-Gives_example : Gives (104 ∷ 105 ∷ []) prefix_rx (9 ∷ []) (
    next_frame plain_backend plain_codec none
      ((104 ∷ []) ∷ (105 ∷ 9 ∷ []) ∷ [])
      (record { wire = prefix_rx; buf = 2 ∷ [] }))
unfolding encode_varint encode_varint_loop
next_frame-Gives_example =
    next_frame-Gives plain_backend plain_codec none (104 ∷ 105 ∷ []) prefix_rx (9 ∷ [])
      ((104 ∷ []) ∷ (105 ∷ 9 ∷ []) ∷ []) (record { wire = prefix_rx; buf = 2 ∷ [] })
      (omega arith, (omega arith, tt)) (refl, omega arith, omega arith, refl)

abbrev hello : OutFrame
hello = record { header = 2 ∷ 1 ∷ []; payload = 104 ∷ 105 ∷ [] }

hello-IsCarried : IsCarried hello
hello-IsCarried = record {
  are_bytes = (omega arith, (omega arith, (omega arith, (omega arith, tt))));
  some_bytes = omega arith;
  fits = omega arith;
}

abbrev carrier : Carrier
carrier = record {
  writer = record { written = []; broken = none };
  flushed = [];
  flush_breaks = none;
  shut = false;
}

-- Over a session, in two batches.
run_writer-Streamed_example :
    Streamed plain_backend plain_codec least_rng
      (session_tx (new_tx plain_backend plain_codec least_rng default_key 0))
      (idle (new_rx plain_backend default_key))
      carrier
      ((hello ∷ hello ∷ []) ∷ (hello ∷ []) ∷ [])
run_writer-Streamed_example =
    run_writer-Streamed plain_backend plain_codec least_rng
      ((hello ∷ hello ∷ []) ∷ (hello ∷ []) ∷ [])
      (session_tx (new_tx plain_backend plain_codec least_rng default_key 0))
      (idle (new_rx plain_backend default_key)) carrier
      (
        new_rx plain_backend default_key,
        refl,
        new-Linked plain_backend plain_codec least_rng default_key 0 (omega arith),
      )
      ((hello-IsCarried, (hello-IsCarried, tt)), ((hello-IsCarried, tt), tt)) refl refl refl
