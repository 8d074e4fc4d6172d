-- ===== src/Dial.antt =====
-- The retries of a dial in crates/client/src/pool.rs: `dial_sync` and `retryable`. What one attempt
-- comes to, and whether the clock is before the deadline at its start, are parameters.
pub mod Attempts
mod Tests
use nextppp.Prelude.{ℕ, zero, suc, ◌+◌, Bool, true, false, not, ◌||◌, if◌then◌else◌, leb}
use nextppp.Prelude.{Option, none, some, List, [], ◌∷◌, Result, ok, err}
use nextppp.Errors.{ErrorKind, connection_refused}
use nextppp.Pump.{Cause, io, AnyError, note, is_clean_close}

abbrev pub is_refused : Cause → Bool
is_refused (io connection_refused) = true
is_refused _ = false

unfoldable pub any_refused : AnyError → Bool
any_refused [] = false
any_refused (cause ∷ causes) = is_refused cause || any_refused causes

unfoldable pub retryable : AnyError → Bool
unfolding any_refused
retryable e = if is_clean_close e then true else any_refused e

-- The error where the deadline is over before another attempt.
abbrev pub last_or : Option AnyError → AnyError
last_or (some e) = e
last_or none = note "dial deadline exceeded" ∷ []

unfoldable pub out_of_time : Option AnyError → AnyError
out_of_time last = note "dial deadline exceeded" ∷ last_or last

module _ {A : Type 0} where
  unfoldable pub after_dial :
      ℕ
      → ℕ
      → (AnyError → Option (Result A AnyError))
      → Result A AnyError
      → Option (Result A AnyError)
  after_dial retries attempt again (ok v) = some (ok v)
  after_dial retries attempt again (err e) =
      if leb retries attempt || not (retryable e) then some (err e) else again e

  -- The loop from an attempt on, with one round of fuel for each attempt.
  unfoldable pub dial_loop :
      (ℕ → Bool)
      → (ℕ → Result A AnyError)
      → ℕ
      → ℕ
      → ℕ
      → Option AnyError
      → Option (Result A AnyError)
  unfolding after_dial
  dial_loop in_time dial_once retries zero attempt last = none
  dial_loop in_time dial_once retries (suc fuel) attempt last =
      let again =
        λ (e : AnyError). dial_loop in_time dial_once retries fuel (attempt + 1) (some e) in
      if in_time attempt
      then after_dial retries attempt again (dial_once attempt)
      else some (err (out_of_time last))

  unfoldable pub dial_sync : (ℕ → Bool) → (ℕ → Result A AnyError) → ℕ → Option (Result A AnyError)
  unfolding dial_loop
  dial_sync in_time dial_once retries = dial_loop in_time dial_once retries (suc retries) 0 none
