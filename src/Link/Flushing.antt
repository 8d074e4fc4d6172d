-- ===== src/Link/Flushing.antt =====
-- The flushing of the sending half of a bond link, crates/common/src/link.rs.
use nextppp.Prelude.{ℕ, ◌-◌, ◌≡◌, min, arith, refl, sym, ap, ◌∙◌, inl, inr}
use nextppp.Prelude.{true, false, ltb, ltb→le, ◌==◌, Bool-cases}
use nextppp.Prelude.{List, [], ◌∷◌, ◌++◌, length, take, drop, Result, ok}
use nextppp.Prelude.{drop-drop, take-append-drop, append_assoc, append-nil}
use nextppp.Prelude.{length-drop}
use nextppp.Errors.{ErrorKind, Rng}
use nextppp.Cipher.{Backend}
use nextppp.Base94.Defs.{Codec}
use nextppp.Link.{
  Poll, ready, pending, Push, took, not_now, push_failed, LinkWriter, Polled, advance, flushed,
  pushed, flush_out,
}

pub empty_length : (xs : List ℕ) → length xs ≡ 0 → xs ≡ []
empty_length [] h = refl
empty_length (x ∷ xs) h = absurd (omega (arith, h))

module _ (b : Backend) (c : Codec) (g : Rng) where
  -- All bytes for the carrier, those that it took and those that are waiting.
  unfoldable pub owed : LinkWriter b c g → List ℕ
  owed s = s.written ++ drop s.out_off s.out

  unfoldable pub IsTidy : LinkWriter b c g → Type 0
  IsTidy s = ltb s.out_off (length s.out) ≡ false → s.out ≡ []

  pub record Flushed (s : LinkWriter b c g) (r : Polled b c g (Unit {0})) : Type 0 where
    pub same : owed r.1 ≡ owed s
    pub session : r.1.session ≡ s.session
    pub tidy : IsTidy r.1
    pub over : r.0 ≡ ready (ok tt) → r.1.out ≡ []

  owed-advance : (n : ℕ) (s : LinkWriter b c g) → owed (advance b c g n s) ≡ owed s
  unfolding owed advance
  owed-advance n s =
      append_assoc s.written _ _
      ∙ ap (λ l. s.written ++ l)
          (ap (λ l. take n (drop s.out_off s.out) ++ l) (sym (drop-drop n s.out_off s.out))
            ∙ take-append-drop n (drop s.out_off s.out))

  all_taken : (s : LinkWriter b c g) → ltb s.out_off (length s.out) ≡ false → owed s ≡ s.written
  unfolding owed
  all_taken s h =
      let rest =
        empty_length (drop s.out_off s.out)
          (omega (arith, length-drop s.out_off s.out, ltb→le s.out_off (length s.out) h)) in
      ap (λ l. s.written ++ l) rest ∙ append-nil s.written

  finished :
      (ps : List Push) (s : LinkWriter b c g)
      → ltb s.out_off (length s.out) ≡ false
      → Flushed s (ready (ok tt), flushed b c g s, ps)
  unfolding flushed owed IsTidy
  finished ps s h = record {
    same = append-nil s.written ∙ sym (all_taken s h);
    session = refl;
    tidy = λ z. refl;
    over = λ z. refl;
  }

  stopped :
      (x : Poll (Result (Unit {0}) ErrorKind)) (ps : List Push) (s : LinkWriter b c g)
      → ltb s.out_off (length s.out) ≡ true
      → (x ≡ ready (ok tt) → s.out ≡ [])
      → Flushed s (x, s, ps)
  unfolding IsTidy
  stopped x ps s h o = record { same = refl; session = refl; tidy = λ z. absurd (cc); over = o }

  -- Flushing moves bytes to the carrier; all of them, where it is ready.
  pub flush_out-Flushed : (ps : List Push) (s : LinkWriter b c g) → Flushed s (flush_out b c g ps s)
  unfolding flush_out pushed advance
  flush_out-Flushed [] s = elim (Bool-cases (ltb s.out_off (length s.out))) [
    | inl more ↦ rw more (stopped pending [] s more (λ z. absurd (cc)))
    | inr none ↦ rw none (finished [] s none)
  ]
  flush_out-Flushed (p ∷ ps) s = elim (Bool-cases (ltb s.out_off (length s.out))) [
    | inl more ↦ rw more (go (flush_out-Flushed ps) more p)
    | inr none ↦ rw none (finished (p ∷ ps) s none)
  ]
    where
      onward :
          (m : ℕ)
          → ((s' : LinkWriter b c g) → Flushed s' (flush_out b c g ps s'))
          → Flushed s (flush_out b c g ps (advance b c g m s))
      onward m rest =
          let f = rest (advance b c g m s) in
          record {
            same = f.same ∙ owed-advance m s;
            session = f.session;
            tidy = f.tidy;
            over = f.over;
          }

      go :
          ((s' : LinkWriter b c g) → Flushed s' (flush_out b c g ps s'))
          → ltb s.out_off (length s.out) ≡ true
          → (p : Push) → Flushed s (pushed b c g (flush_out b c g ps) ps p s)
      go rest more not_now = stopped pending ps s more (λ z. absurd (cc))
      go rest more (push_failed kind) = stopped _ ps s more (λ z. absurd (cc))
      go rest more (took n) = elim (Bool-cases (min n (length s.out - s.out_off) == 0)) [
        | inl none ↦ rw none (stopped _ ps s more (λ z. absurd (cc)))
        | inr some ↦ rw some (onward (min n (length s.out - s.out_off)) rest)
      ]
