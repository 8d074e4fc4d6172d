-- ===== src/Pump/Clean.antt =====
-- When a chain of causes counts as a routine close.
use nextppp.Prelude.{◌≡◌, refl, arith, ◌↔◌, ◌⊎◌, inl, inr, Bool, true, false, List, [], ◌∷◌, All}
use nextppp.Pump.{Cause, io, core, note, AnyError, is_routine_io, is_routine_core, all_clean}
use nextppp.Pump.{is_clean_close}

-- A cause that does not speak against a routine close, and one that speaks for it.
abbrev pub IsNeutral : Cause → Type 0
IsNeutral (io kind) = is_routine_io kind ≡ true
IsNeutral (core e) = is_routine_core e ≡ true
IsNeutral (note text) = Unit

abbrev pub HasRecognized : List Cause → Type 0
HasRecognized [] = ⊥
HasRecognized (io kind ∷ causes) = Unit
HasRecognized (core e ∷ causes) = Unit
HasRecognized (note text ∷ causes) = HasRecognized causes

all_clean_sound :
    (recognized : Bool) (causes : List Cause)
    → all_clean recognized causes ≡ true
    → All IsNeutral causes × ((recognized ≡ true) ⊎ HasRecognized causes)
unfolding all_clean
all_clean_sound recognized [] h = (tt, inl h)
all_clean_sound recognized (io kind ∷ causes) h = ground (arith, all_clean_sound true causes)
all_clean_sound recognized (core e ∷ causes) h = ground (arith, all_clean_sound true causes)
all_clean_sound recognized (note text ∷ causes) h =
    let (all, some_one) = all_clean_sound recognized causes h in ((tt, all), some_one)

all_clean_complete :
    (recognized : Bool) (causes : List Cause)
    → All IsNeutral causes
    → ((recognized ≡ true) ⊎ HasRecognized causes)
    → all_clean recognized causes ≡ true
unfolding all_clean
all_clean_complete recognized [] all h = ground arith
all_clean_complete recognized (io kind ∷ causes) all h =
    rw (all.0) (all_clean_complete true causes all.1 (inl refl))
all_clean_complete recognized (core e ∷ causes) all h =
    rw (all.0) (all_clean_complete true causes all.1 (inl refl))
all_clean_complete recognized (note text ∷ causes) all h =
    all_clean_complete recognized causes all.1 h

-- An error counts as a clean close exactly when some cause in its chain is an I/O error or an error
-- of the core, and every such cause is routine; contexts count neither way.
pub is_clean_close_iff :
    (err : AnyError) → (is_clean_close err ≡ true) ↔ (All IsNeutral err × HasRecognized err)
unfolding is_clean_close
is_clean_close_iff err = (
  λ h.
      (let (all, one) = all_clean_sound false err h in
        (all, elim one [ inl e ↦ absurd (cc) | inr r ↦ r ])),
  λ h. all_clean_complete false err h.0 (inr h.1),
)
