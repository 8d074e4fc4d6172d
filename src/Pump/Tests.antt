-- ===== src/Pump/Tests.antt =====
-- The classification at concrete inputs.
use nextppp.Prelude.{◌≡◌, refl, ◌↔◌, true, false, [], ◌∷◌, All}
use nextppp.Errors.{connection_reset, connection_refused, flags_mismatch}
use nextppp.Errors
use nextppp.Pump.{io, note, of_core, is_clean_close, is_routine_core}
use nextppp.Pump.Clean.{IsNeutral, HasRecognized, is_clean_close_iff}

reset_run : is_clean_close (note "connect" ∷ of_core (Errors.io connection_reset)) ≡ true
unfolding is_clean_close of_core is_routine_core
reset_run = refl

mismatch_run : is_clean_close (of_core flags_mismatch) ≡ false
unfolding is_clean_close of_core is_routine_core
mismatch_run = refl

is_clean_close_iff_example : (is_clean_close (note "dial" ∷ io connection_refused ∷ []) ≡ true) ↔ (
    All IsNeutral (note "dial" ∷ io connection_refused ∷ [])
    × HasRecognized (note "dial" ∷ io connection_refused ∷ []))
is_clean_close_iff_example = is_clean_close_iff (note "dial" ∷ io connection_refused ∷ [])
