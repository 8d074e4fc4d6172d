-- ===== src/Dial/Attempts.antt =====
-- How a dial ends, in crates/client/src/pool.rs.
use nextppp.Prelude.{ℕ, zero, suc, ◌+◌, ◌≤◌, ◌<◌, ◌≡◌, ◌↔◌, arith, refl}
use nextppp.Prelude.{Bool, true, false, leb, leb→le, Bool-cases, ◌⊎◌, inl, inr}
use nextppp.Prelude.{Option, none, some, [], ◌∷◌, All, Result, ok, err}
use nextppp.Errors.{connection_refused}
use nextppp.Pump.{Cause, io, note, AnyError, is_clean_close}
use nextppp.Pump.Clean.{IsNeutral, HasRecognized, is_clean_close_iff}
use nextppp.Dial.{is_refused, any_refused, retryable, out_of_time, after_dial, dial_loop, dial_sync}

same_or_above : (n k : ℕ) → n ≤ k → (k ≡ n) ⊎ (n + 1 ≤ k)
same_or_above n k h = ground arith

-- A chain in which some cause is a refused connection.
HasRefused : AnyError → Type 0
HasRefused [] = ⊥
HasRefused (cause ∷ causes) = (cause ≡ io connection_refused) ⊎ HasRefused causes

-- What is worth a retry: a routine close, by all its causes, or a refused connection in the chain.
pub IsWorth : AnyError → Type 0
IsWorth e = (All IsNeutral e × HasRecognized e) ⊎ HasRefused e

refused_only : (cause : Cause) → is_refused cause ≡ true → cause ≡ io connection_refused
refused_only (io connection_refused) h = refl
refused_only _ h = absurd (cc)

any_refused_iff : (e : AnyError) → (any_refused e ≡ true) ↔ HasRefused e
unfolding any_refused HasRefused
any_refused_iff [] = (λ h. absurd (cc), λ h. absurd h)
any_refused_iff (cause ∷ causes) =
    let (to, from) = any_refused_iff causes in
    (
      λ h. elim (Bool-cases (is_refused cause)) [
        | inl e ↦ inl (refused_only cause e)
        | inr e ↦ inr (to (rw e at h))
      ],
      λ h. elim h [
        | inl e ↦ rw e refl
        | inr more ↦ elim (Bool-cases (is_refused cause)) [
          | inl e ↦ rw e refl
          | inr e ↦ rw e (from more)
        ]
      ],
    )

retryable_iff : (e : AnyError) → (retryable e ≡ true) ↔ IsWorth e
unfolding retryable IsWorth
retryable_iff e = elim (Bool-cases (is_clean_close e)) [
  | inl clean ↦ rw clean (λ h. inl ((is_clean_close_iff e).0 clean), λ h. refl)
  | inr other ↦ rw other (
    λ h. inr ((any_refused_iff e).0 h),
    λ h. elim h [
      | inl clean ↦
          (let is : is_clean_close e ≡ true = (is_clean_close_iff e).1 clean in absurd (cc))
      | inr refused ↦ (any_refused_iff e).1 refused
    ],
  )
]

final_lem : (e : AnyError) → retryable e ≡ false → ¬ IsWorth e
final_lem e h worth = let is : retryable e ≡ true = (retryable_iff e).1 worth in absurd (cc)

module _ {A : Type 0} (in_time : ℕ → Bool) (dial_once : ℕ → Result A AnyError) (retries : ℕ) where
  -- An attempt that is followed by another.
  pub record IsRetried (k : ℕ) : Type 0 where
    pub started : in_time k ≡ true
    pub error : AnyError
    pub failed : dial_once k ≡ err error
    pub worth_it : IsWorth error

  -- The last attempt `k` gives the result; or there was no time for it.
  pub Last : ℕ → Result A AnyError → Type 0
  Last k (ok v) = Unit {0}
  Last k (err e) = (k ≡ retries) ⊎ (¬ IsWorth e)

  -- How it ends at attempt `k`: that gives the result; or it is too late for the first attempt, or for
  -- one behind a failed one, whose error is kept.
  pub data Ending (k : ℕ) (r : Result A AnyError) : Type 0 where
    tried : in_time k ≡ true → dial_once k ≡ r → Last k r → Ending k r
    late_first :
        in_time k ≡ false
        → k ≡ 0
        → r ≡ err (note "dial deadline exceeded" ∷ note "dial deadline exceeded" ∷ [])
        → Ending k r
    late_after :
        (j : ℕ) (e : AnyError)
        → in_time k ≡ false
        → k ≡ suc j
        → dial_once j ≡ err e
        → r ≡ err (note "dial deadline exceeded" ∷ e)
        → Ending k r

  -- The error that the loop holds is that of the attempt before.
  Before : ℕ → Option AnyError → Type 0
  Before k none = k ≡ 0
  Before k (some e) = (j : ℕ) × (k ≡ suc j) × (dial_once j ≡ err e)

  late_ends :
      (k : ℕ) (before : Option AnyError)
      → in_time k ≡ false
      → Before k before
      → Ending k (err (out_of_time before))
  unfolding Before out_of_time
  late_ends k none late h = late_first late h refl
  late_ends k (some e) late (j, h, d) = late_after j e late h d refl

  pub record Dialled (from : ℕ) (o : Option (Result A AnyError)) : Type 0 where
    pub result : Result A AnyError
    pub returns : o ≡ some result
    pub last : ℕ
    pub bounded : last ≤ retries
    pub retried : (k : ℕ) → from ≤ k → k < last → IsRetried k
    pub ending : Ending last result

  dial_loop-Dialled :
      (fuel attempt : ℕ) (before : Option AnyError)
      → attempt + fuel ≡ suc retries
      → attempt ≤ retries
      → Before attempt before
      → Dialled attempt (dial_loop in_time dial_once retries fuel attempt before)
  unfolding dial_loop after_dial Last Before
  dial_loop-Dialled zero attempt before e b h = absurd (omega arith)
  dial_loop-Dialled (suc fuel) attempt before e b h = elim (Bool-cases (in_time attempt)) [
    | inr late ↦ rw late (record {
      result = err (out_of_time before);
      returns = refl;
      last = attempt;
      bounded = b;
      retried = λ k l m. absurd (omega arith);
      ending = late_ends attempt before late h;
    })
    | inl now ↦ rw now (
        go
          (λ error failed room.
            dial_loop-Dialled fuel (attempt + 1) (some error) (omega (arith, e))
              (omega (arith, room)) (attempt, omega arith, failed))
          now (dial_once attempt) refl)
  ]
    where
      ends :
          (r : Result A AnyError)
          → in_time attempt ≡ true
          → dial_once attempt ≡ r
          → Last attempt r
          → Dialled attempt (some r)
      ends r now d l = record {
        result = r;
        returns = refl;
        last = attempt;
        bounded = b;
        retried = λ k l m. absurd (omega arith);
        ending = tried now d l;
      }

      first :
          (error : AnyError)
          → in_time attempt ≡ true
          → dial_once attempt ≡ err error
          → retryable error ≡ true
          → (k : ℕ) → k ≡ attempt
          → IsRetried k
      first error now d w k same = rw same (record {
        started = now;
        error = error;
        failed = d;
        worth_it = (retryable_iff error).0 w;
      })

      below : leb retries attempt ≡ false → attempt < retries
      below h = ground arith

      Loops : Type 0
      Loops =
          (error : AnyError)
          → dial_once attempt ≡ err error
          → attempt < retries
          → Dialled (attempt + 1)
              (dial_loop in_time dial_once retries fuel (attempt + 1) (some error))

      retry :
          Loops
          → (error : AnyError) → in_time attempt ≡ true
          → dial_once attempt ≡ err error
          → retryable error ≡ true
          → attempt < retries
          → Dialled attempt (dial_loop in_time dial_once retries fuel (attempt + 1) (some error))
      retry loops error now d worth room =
          let rest = loops error d room in
          record {
            result = rest.result;
            returns = rest.returns;
            last = rest.last;
            bounded = rest.bounded;
            retried = λ k l m. elim (same_or_above attempt k l) [
              | inl same ↦ first error now d worth k same
              | inr more ↦ rest.retried k more m
            ];
            ending = rest.ending;
          }

      go :
          Loops
          → in_time attempt ≡ true
          → (r : Result A AnyError) → dial_once attempt ≡ r
          → Dialled attempt (
              after_dial retries attempt
                (λ (e : AnyError). dial_loop in_time dial_once retries fuel (attempt + 1) (some e))
                r)
      go loops now (ok v) d = ends (ok v) now d tt
      go loops now (err error) d = elim (Bool-cases (leb retries attempt)) [
        | inl full ↦
            rw full (ends (err error) now d (inl (omega (arith, leb→le retries attempt full, b))))
        | inr room ↦ elim (Bool-cases (retryable error)) [
          | inr final ↦ rw (room, final) (ends (err error) now d (inr (final_lem error final)))
          | inl worth ↦ rw (room, worth) (retry loops error now d worth (below room))
        ]
      ]

  -- A dial always ends, within as many attempts as there are retries and one. Each attempt but the last
  -- was started in time and failed with an error that is worth a retry: a routine close (some cause
  -- an I/O error or one of the core, and all of these routine), or one with a refused connection
  -- among its causes. The last one, if it was started in time, gives the result: a session, or an
  -- error that is not worth a retry or that comes of the last attempt allowed. If it was too late to
  -- start it, the result is that the deadline was exceeded, with the error of the attempt just before
  -- it behind that, or, for the first attempt, the deadline once more.
  pub dial_sync-Dialled : Dialled 0 (dial_sync in_time dial_once retries)
  unfolding dial_sync Before
  dial_sync-Dialled = dial_loop-Dialled (suc retries) 0 none (omega arith) (omega arith) refl
