-- ===== src/Transmission/Tests.antt =====
-- The codec state at concrete inputs.
use nextppp.Prelude.{arith, [], ◌∷◌}
use nextppp.Samples.{plain_backend, plain_codec, least_rng}
use nextppp.Key.{default_key}
use nextppp.Transmission.{RxCore, TxCore, new_rx, new_tx}
use nextppp.Transmission.Linked.{new-Linked}
use nextppp.Transmission.RoundTrip.{Delivered, encrypt_impl-Delivered}

abbrev sender : TxCore plain_backend plain_codec least_rng
sender = new_tx plain_backend plain_codec least_rng default_key 0

abbrev receiver : RxCore
receiver = new_rx plain_backend default_key

encrypt_impl-Delivered_example :
    Delivered plain_backend plain_codec least_rng sender receiver (2 ∷ 1 ∷ []) (104 ∷ 105 ∷ [])
encrypt_impl-Delivered_example =
    encrypt_impl-Delivered plain_backend plain_codec least_rng sender receiver (2 ∷ 1 ∷ [])
      (104 ∷ 105 ∷ []) (new-Linked plain_backend plain_codec least_rng default_key 0 (omega arith))
      (omega arith, (omega arith, (omega arith, (omega arith, tt)))) (omega arith) (omega arith)
