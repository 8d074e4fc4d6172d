-- ===== src/Session/Tests.antt =====
-- The polled session at concrete inputs.
use nextppp.Prelude.{none, [], ◌∷◌}
use nextppp.Samples.{plain_backend, plain_codec}
use nextppp.Key.{default_key}
use nextppp.Transmission.{new_rx}
use nextppp.Session.{SessionRx, poll_frame}
use nextppp.Session.Polling.{resume, stream_of}
use nextppp.Session.Refines.{Agrees, poll_frame-Agrees}

abbrev fresh : SessionRx
fresh = record { core = new_rx plain_backend default_key; pending_binary = none; consumed = 0 }

poll_frame-Agrees_example :
    Agrees plain_backend plain_codec
      (9 ∷ [])
      none
      (resume plain_backend plain_codec fresh (stream_of (33 ∷ 34 ∷ []) (9 ∷ []) none))
      (poll_frame plain_backend plain_codec fresh (33 ∷ 34 ∷ []))
poll_frame-Agrees_example =
    poll_frame-Agrees plain_backend plain_codec fresh (33 ∷ 34 ∷ []) (9 ∷ []) none tt
