-- ===== src/Dns/Bound.antt =====
-- The size of the cache in crates/common/src/dns.rs.
use nextppp.Prelude.{ℕ, suc, ◌+◌, ◌≤◌, ◌<◌, ◌≡◌, arith, refl, Bool, true, false, not, ◌&&◌}
use nextppp.Prelude.{List, [], ◌∷◌, length, Option, none, some, ok, err, if◌then◌else◌, if_elim}
use nextppp.Prelude.{Bool-cases, ◌⊎◌, inl, inr, leb, ltb}
use nextppp.Addr.{IpAddr}
use nextppp.Cipher.{text_eq}
use nextppp.Dns.{
  Answer, Entry, Cache, max_entries, find, first_of, is_some, put, retain, put_if_room, insert,
  Clock, Store, Between, run_stores, resolved, stale, on_failure, or_lookup, resolve_with, checked,
}

length-retain : (now : ℕ) (cache : Cache) → length (retain now cache) ≤ length cache
unfolding retain
length-retain now [] = omega arith
length-retain now ((name, e) ∷ cache) =
    let ih = length-retain now cache in
    if_elim (λ (c : Cache). length c ≤ suc (length cache)) (ltb now e.expires) _ _
      (omega (arith, ih)) (omega (arith, ih))

length-put :
    (domain : List ℕ) (e : Entry) (cache : Cache) → length (put domain e cache) ≤ suc (length cache)
unfolding put
length-put domain e [] = omega arith
length-put domain e ((name, old) ∷ cache) =
    let ih = length-put domain e cache in
    if_elim (λ (c : Cache). length c ≤ suc (suc (length cache))) (text_eq domain name) _ _
      (omega arith) (omega (arith, ih))

-- An entry of a name that is there takes the old one's place.
length-put_known :
    (domain : List ℕ) (e : Entry) (cache : Cache)
    → is_some (find domain cache) ≡ true
    → length (put domain e cache) ≡ length cache
unfolding put find
length-put_known domain e [] h = absurd (cc)
length-put_known domain e ((name, old) ∷ cache) h =
    go (length-put_known domain e cache) (text_eq domain name) h
  where
    go :
        (is_some (find domain cache) ≡ true → length (put domain e cache) ≡ length cache)
        → (b : Bool) → is_some (first_of b old (find domain cache)) ≡ true
        → length (if b then (name, e) ∷ cache else (name, old) ∷ put domain e cache)
          ≡ suc (length cache)
    go known true k = refl
    go known false k = omega (arith, known k)

abbrev Fits : Cache → Type 0
Fits cache = length cache ≤ max_entries

room_for : (n : ℕ) → leb max_entries n ≡ false → n < max_entries
room_for n h = ground arith

put_if_room-Fits :
    (domain : List ℕ) (e : Entry) (cache : Cache) → Fits cache → Fits (put_if_room domain e cache)
unfolding put_if_room
put_if_room-Fits domain e cache h = elim (Bool-cases (leb max_entries (length cache))) [
  | inl full ↦ rw full h
  | inr room ↦
      rw room
        (let more = length-put domain e cache in omega (arith, more, room_for (length cache) room))
]

allowed : (full known : Bool) → (full && not known) ≡ false → (full ≡ false) ⊎ (known ≡ true)
allowed full known h = ground arith

insert-Fits :
    (domain : List ℕ) (result : Answer) (ttl evict_at store_at : ℕ) (cache : Cache)
    → Fits cache
    → Fits (insert domain result ttl evict_at store_at cache)
unfolding insert
insert-Fits domain result ttl evict_at store_at cache h =
    let e : Entry = record { result = result; expires = store_at + ttl } in
    let full : Bool = leb max_entries (length cache) in
    let known : Bool = is_some (find domain cache) in
    elim (Bool-cases (full && not known)) [
      | inl evicts ↦ rw evicts (
          put_if_room-Fits domain e (retain evict_at cache)
            (omega (arith, length-retain evict_at cache, h)))
      | inr keeps ↦ rw keeps (elim (allowed full known keeps) [
        | inl room ↦ omega (arith, length-put domain e cache, room_for (length cache) room)
        | inr there ↦ omega (arith, length-put_known domain e cache there, h)
      ])
    ]

pub run_stores-Fits :
    (stores : List Store) (cache : Cache) → Fits cache → Fits (run_stores stores cache)
unfolding run_stores
run_stores-Fits [] cache h = h
run_stores-Fits (s ∷ stores) cache h =
    run_stores-Fits stores _ (insert-Fits s.name s.result s.ttl s.evict_at s.store_at cache h)

resolved-Fits :
    (domain : List ℕ) (clock : Clock) (locks : List Store) (answer : Answer) (cache : Cache)
    → Fits cache
    → Fits (resolved domain clock locks answer cache).1
unfolding resolved
resolved-Fits domain clock locks (ok ips) cache h = insert-Fits domain _ _ _ _ cache h
resolved-Fits domain clock locks (err e) cache h = go (stale (find domain cache))
  where
    go : (s : Option (List IpAddr)) → Fits (on_failure domain clock locks e s cache).1
    go none = insert-Fits domain _ _ _ _ _ (run_stores-Fits locks cache h)
    go (some ips) = h

-- The cache never holds more than 1024 names, whatever is resolved, however the lookups end, and
-- whatever other threads store meanwhile.
pub resolve_with-Fits :
    (domain : List ℕ) (clock : Clock) (others : Between) (looked_up : Answer) (cache : Cache)
    → length cache ≤ max_entries
    → length (resolve_with domain clock others looked_up cache).1 ≤ max_entries
unfolding resolve_with
resolve_with-Fits domain clock others looked_up cache h = go (find domain cache)
  where
    after : Cache
    after = run_stores others.lookup cache

    fresh : Answer × Cache
    fresh = resolved domain clock others.locks (checked looked_up) after

    fresh-Fits : Fits fresh.1
    fresh-Fits =
        resolved-Fits domain clock others.locks (checked looked_up) after
          (run_stores-Fits others.lookup cache h)

    go : (o : Option Entry) → Fits (or_lookup o clock.entered fresh cache).1
    go none = fresh-Fits
    go (some e) =
        if_elim (λ (r : Answer × Cache). Fits r.1) (ltb clock.entered e.expires) (e.result, cache)
          fresh h fresh-Fits
