-- ===== src/Link/Tests.antt =====
-- The sending half of a link at a concrete carrier.
use nextppp.Prelude.{◌≡◌, arith, refl, [], ◌∷◌}
use nextppp.Errors.{invalid_data, zero_length}
use nextppp.Samples.{plain_backend, plain_codec, least_rng}
use nextppp.Key.{default_key}
use nextppp.Transmission.{new_rx, new_tx}
use nextppp.Transmission.Linked.{new-Linked}
use nextppp.Link.{LinkWriter, new_writer, poll_write, took, not_now, core_to_io}
use nextppp.Link.Writing.{Accepted, poll_write-Accepted, new_writer-IsKept}

other_errors : core_to_io zero_length ≡ invalid_data
unfolding core_to_io
other_errors = refl

abbrev fresh : LinkWriter plain_backend plain_codec least_rng
fresh =
    new_writer plain_backend plain_codec least_rng
      (new_tx plain_backend plain_codec least_rng default_key 0)

poll_write-Accepted_example :
    Accepted plain_backend plain_codec least_rng
      (new_rx plain_backend default_key)
      []
      (1 ∷ 2 ∷ [])
      (poll_write plain_backend plain_codec least_rng (took 3 ∷ not_now ∷ []) (1 ∷ 2 ∷ []) fresh)
poll_write-Accepted_example =
    poll_write-Accepted plain_backend plain_codec least_rng (new_rx plain_backend default_key) []
      (1 ∷ 2 ∷ []) (took 3 ∷ not_now ∷ []) fresh (omega arith, (omega arith, tt))
      (new_writer-IsKept plain_backend plain_codec least_rng
        (new_tx plain_backend plain_codec least_rng default_key 0)
        (new_rx plain_backend default_key)
        (new-Linked plain_backend plain_codec least_rng default_key 0 (omega arith)))
