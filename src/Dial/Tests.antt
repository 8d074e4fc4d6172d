-- ===== src/Dial/Tests.antt =====
-- Dials at concrete attempts.
use nextppp.Prelude.{ℕ, ◌≡◌, refl, true, some, Bool, Result, ok, err, [], ◌∷◌, zero, suc}
use nextppp.Errors.{connection_refused, flags_mismatch}
use nextppp.Pump.{AnyError, io, core, is_clean_close, is_routine_io, is_routine_core}
use nextppp.Dial.{dial_sync, retryable}
use nextppp.Dial.Attempts.{Dialled, dial_sync-Dialled}

abbrev always : ℕ → Bool
always n = true

-- Refused twice, then connected.
abbrev third_time : ℕ → Result ℕ AnyError
third_time zero = err (io connection_refused ∷ [])
third_time (suc zero) = err (io connection_refused ∷ [])
third_time _ = ok 7

retried_twice : dial_sync always third_time 2 ≡ some (ok 7)
unfolding dial_sync retryable is_clean_close is_routine_io is_routine_core
retried_twice = refl

given_up : dial_sync always third_time 1 ≡ some (err (io connection_refused ∷ []))
unfolding dial_sync retryable is_clean_close is_routine_io is_routine_core
given_up = refl

abbrev mismatched : ℕ → Result ℕ AnyError
mismatched n = err (core flags_mismatch ∷ [])

no_retry : dial_sync always mismatched 5 ≡ some (err (core flags_mismatch ∷ []))
unfolding dial_sync retryable is_clean_close is_routine_io is_routine_core
no_retry = refl

dial_sync-Dialled_example : Dialled always third_time 2 0 (dial_sync always third_time 2)
dial_sync-Dialled_example = dial_sync-Dialled always third_time 2
