-- ===== src/Connection/Tests.antt =====
-- The handshake's packets at concrete inputs.
use nextppp.Prelude.{arith, refl, none, []}
use nextppp.Samples.{plain_backend, plain_codec, least_rng}
use nextppp.Key.{default_key, validate}
use nextppp.Transmission.{new_rx, new_tx}
use nextppp.Transmission.Linked.{new-Linked}
use nextppp.Connection.{Transmission, with_rng}
use nextppp.Connection.Ids.{Opened, opened}

abbrev client : Transmission plain_backend plain_codec least_rng
client =
    with_rng plain_backend plain_codec least_rng default_key 0
      (record { written = []; broken = none }) (record { bytes = []; finish = none })

opened_example :
    Opened plain_backend plain_codec least_rng client (new_rx plain_backend default_key) 77
opened_example =
    opened plain_backend plain_codec least_rng client (new_rx plain_backend default_key) 77
      (new-Linked plain_backend plain_codec least_rng default_key 0 (omega arith)) refl
      (unfold validate new_tx in refl) (omega arith) (omega arith)

abbrev server : Transmission plain_backend plain_codec least_rng
server =
    with_rng plain_backend plain_codec least_rng default_key 5
      (record { written = []; broken = none }) (record { bytes = []; finish = none })
