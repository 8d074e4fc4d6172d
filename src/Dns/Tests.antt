-- ===== src/Dns/Tests.antt =====
-- The cache of names at concrete inputs.
use nextppp.Prelude.{List, get_or, ap, ℕ, ◌≡◌, ◌≤◌, arith, refl, [], ◌∷◌, length, ok, err, inl}
use nextppp.Errors.{timed_out}
use nextppp.Addr.{v4}
use nextppp.Dns.{
  Answer, Clock, Store, Between, run_stores, insert, put, Cache, max_entries, resolve_with, checked,
  find,
}
use nextppp.Cipher.{text_eq}
use nextppp.Dns.Bound.{resolve_with-Fits}
use nextppp.Dns.Answers.{resolve_with-resolve_with, resolve_with-stale}

abbrev home : Answer
home = ok (v4 (127 ∷ 0 ∷ 0 ∷ 1 ∷ []) ∷ [])

abbrev lost : Answer
lost = err (record { kind = timed_out; text = "timeout" })

abbrev at_second : ℕ → Clock
at_second n = record { entered = n; evict_at = n; store_at = n }

abbrev aged : Cache
aged = (97 ∷ [], record { result = home; expires = 10 }) ∷ []

abbrev alone : Between
alone = record { lookup = []; locks = [] }

-- A failure is kept for its own time, then asked for again.
negative_runs_out :
    (resolve_with
      (97 ∷ [])
      (at_second 30)
      alone
      home
      (resolve_with (97 ∷ []) (at_second 0) alone lost []).1).0
    ≡ home
unfolding resolve_with text_eq
negative_runs_out = refl

resolve_with_stale_test : resolve_with (97 ∷ []) (at_second 50) alone lost aged ≡ (home, aged)
unfolding checked find text_eq run_stores
resolve_with_stale_test =
    resolve_with-stale (97 ∷ []) (at_second 50) alone lost aged _ _ refl refl refl

resolve_with-Fits_example :
    length (resolve_with (97 ∷ []) (at_second 50) alone home aged).1 ≤ max_entries
resolve_with-Fits_example = resolve_with-Fits (97 ∷ []) (at_second 50) alone home aged (omega arith)

-- Meanwhile another name is stored: during the lookup, and after it.
abbrev other_name : ℕ → Store
other_name n = record { name = 98 ∷ []; result = lost; ttl = 30; evict_at = n; store_at = n }

abbrev busy : Between
busy = record { lookup = other_name 50 ∷ []; locks = [] }

resolve_with-resolve_with_example :
    let first = resolve_with (97 ∷ []) (at_second 50) busy home aged in
    let now = run_stores (other_name 100 ∷ []) first.1 in
    (first.0 ≡ home) × (resolve_with (97 ∷ []) (at_second 349) alone lost now ≡ (home, now))
unfolding checked find text_eq run_stores insert put
resolve_with-resolve_with_example =
    resolve_with-resolve_with (97 ∷ []) (at_second 50) (at_second 349) busy alone home lost
      (other_name 100 ∷ []) aged (inl (omega arith)) refl tt
      ((λ same. omega (arith, ap (λ (name : List ℕ). get_or name 0 0) same), omega arith), tt)
      (omega arith)
