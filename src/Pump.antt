-- ===== src/Pump.antt =====
-- The classification of errors in crates/common/src/pump.rs. An `anyhow` error is the list of its
-- causes, the outermost first; the text of a context is kept, and nothing reads it.
pub mod Clean
pub mod Connect
mod Tests
use nextppp.Prelude.{Bool, true, false, Option, none, some, not, ◌||◌, ◌==◌, if◌then◌else◌}
use nextppp.Prelude.{ℕ, List, [], ◌∷◌}
use nextppp.Errors.{Error, ErrorKind, is_eof, handshake_failed}
use nextppp.Errors.{
  unexpected_eof, connection_reset, connection_aborted, connection_refused, broken_pipe, timed_out,
  would_block, interrupted,
}
use nextppp.Errors
use Prim.Native.String.{String}

pub data Cause : Type 0 where
  io : ErrorKind → Cause
  core : Error → Cause
  note : String → Cause

abbrev pub AnyError : Type 0
AnyError = List Cause

-- The chain that starts at an error of the core: an `Io` error has its source as a further cause.
unfoldable pub of_core : Error → AnyError
of_core (Errors.io kind) = core (Errors.io kind) ∷ io kind ∷ []
of_core e = core e ∷ []

unfoldable pub routine_cause : ErrorKind → Option String
routine_cause connection_reset = some "connection reset"
routine_cause connection_aborted = some "connection aborted"
routine_cause broken_pipe = some "broken pipe"
routine_cause unexpected_eof = some "eof"
routine_cause timed_out = some "timeout"
routine_cause would_block = some "timeout"
routine_cause interrupted = some "interrupted"
routine_cause _ = none

unfoldable pub is_routine_io : ErrorKind → Bool
unfolding routine_cause
is_routine_io kind = elim (routine_cause kind) [ none ↦ false | some cause ↦ true ]

unfoldable pub is_routine_core : Error → Bool
unfolding is_routine_io
is_routine_core (Errors.io unexpected_eof) = true
is_routine_core (Errors.io kind) = is_routine_io kind
is_routine_core (handshake_failed stage) = true
is_routine_core _ = false

-- `chain().all(..)` with the flag that its closure sets: what it comes to with `recognized`.
pub all_clean : Bool → List Cause → Bool
all_clean recognized [] = recognized
all_clean recognized (io kind ∷ causes) =
    let rest = all_clean true causes in if is_routine_io kind then rest else false
all_clean recognized (core e ∷ causes) =
    let rest = all_clean true causes in if is_routine_core e then rest else false
all_clean recognized (note text ∷ causes) = all_clean recognized causes

unfoldable pub is_clean_close : AnyError → Bool
unfolding all_clean
is_clean_close err = all_clean false err

-- On Unix: the raw error numbers of ENFILE, EMFILE and ENOMEM.
unfoldable pub accept_exhausted : Option ℕ → Bool
accept_exhausted none = false
accept_exhausted (some errno) = errno == 23 || errno == 24 || errno == 12

unfoldable pub accept_routine : ErrorKind → Bool
accept_routine connection_aborted = true
accept_routine connection_reset = true
accept_routine interrupted = true
accept_routine _ = false
