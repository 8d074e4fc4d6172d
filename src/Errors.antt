-- ===== src/Errors.antt =====
-- The error type of crates/core/src/error.rs and the random source that the core is given.
use nextppp.Prelude.{ℕ, ◌^◌, ◌≤◌, ◌<◌, Bool, true, false}
use Prim.Native.String.{String}

-- The kinds of `std::io::Error` that the program makes or tells apart.
pub data ErrorKind : Type 0 where
  unexpected_eof connection_reset connection_aborted connection_refused broken_pipe : ErrorKind
  timed_out would_block interrupted invalid_data addr_not_available write_zero : ErrorKind
  not_found other : ErrorKind

pub data Error : Type 0 where
  io : ErrorKind → Error
  invalid_frame : Error
  invalid_base94 : Error
  checksum_mismatch : Error
  invalid_session_id : Error
  handshake_failed : String → Error
  flags_mismatch : Error
  role_refused : Error
  frame_too_large : ℕ → Error
  zero_length : Error
  invalid_config : String → Error

pub is_eof : Error → Bool
is_eof (io unexpected_eof) = true
is_eof _ = false

-- A generator of the `rand` crate: a draw gives a value and the state after it. `range` is
-- `random_range(lo..=hi)` and `bits w` a `w`-bit `random()`.
pub record Rng : Type 1 where
  pub State : Type 0
  pub range : ℕ → ℕ → State → ℕ × State
  pub bits : ℕ → State → ℕ × State
  pub range_bounds :
      (lo hi : ℕ) (s : State) → lo ≤ hi → (lo ≤ (range lo hi s).0) × ((range lo hi s).0 ≤ hi)
  pub bits-lt : (w : ℕ) (s : State) → (bits w s).0 < 2 ^ w
