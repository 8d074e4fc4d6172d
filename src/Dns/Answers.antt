-- ===== src/Dns/Answers.antt =====
-- The answers of the cache in crates/common/src/dns.rs from one call to the next.
use nextppp.Prelude.{
  ℕ, ◌+◌, ◌<◌, ◌≡◌, ◌≢◌, ◌∙◌, ==_iff, ap₂, All, arith, refl, Bool, true, false, not, ◌&&◌, ◌==◌,
}
use nextppp.Prelude.{List, [], ◌∷◌, length, Option, none, some, ok, err, ◌⊎◌, inl, inr}
use nextppp.Prelude.{leb, ltb, lt→ltb, Bool-cases, if_elim}
use nextppp.Addr.{IpAddr}
use nextppp.Cipher.{text_eq}
use nextppp.Dns.{
  Answer, Entry, Cache, IoError, max_entries, positive_ttl, negative_ttl, find, is_some, put,
  retain, put_if_room, insert, Clock, Store, Between, run_stores, resolved, stale, or_lookup,
  resolve_with, checked,
}

text_eq_self : (a : List ℕ) → text_eq a a ≡ true
unfolding text_eq
text_eq_self [] = refl
text_eq_self (x ∷ xs) = let own : (x == x) ≡ true = ground arith in rw (own, text_eq_self xs) refl

find-put : (domain : List ℕ) (e : Entry) (cache : Cache) → find domain (put domain e cache) ≡ some e
unfolding find put
find-put domain e [] = rw (text_eq_self domain) refl
find-put domain e ((name, old) ∷ cache) = elim (Bool-cases (text_eq domain name)) [
  | inl same ↦ rw (same, same) refl
  | inr differ ↦ rw (differ, differ) (find-put domain e cache)
]

text_eq_sound : (a b : List ℕ) → text_eq a b ≡ true → a ≡ b
unfolding text_eq
text_eq_sound [] [] h = refl
text_eq_sound (x ∷ xs) (y ∷ ys) h = elim (Bool-cases (x == y)) [
  | inl e ↦
      ap₂ (λ (z : ℕ) (zs : List ℕ). z ∷ zs) ((==_iff x y).0 e) (text_eq_sound xs ys (rw e at h))
  | inr e ↦ absurd (let same : false ≡ true = rw e at h in cc)
]
text_eq_sound [] (y ∷ ys) h = absurd (cc)
text_eq_sound (x ∷ xs) [] h = absurd (cc)

text_eq_differ : (a b : List ℕ) → a ≢ b → text_eq a b ≡ false
text_eq_differ a b ne = elim (Bool-cases (text_eq a b)) [
  | inl e ↦ absurd (ne (text_eq_sound a b e))
  | inr e ↦ e
]

-- An entry of another name changes nothing for a name.
find-put_ne :
    (domain other : List ℕ) (e : Entry) (cache : Cache)
    → domain ≢ other
    → find domain (put other e cache) ≡ find domain cache
unfolding find put
find-put_ne domain other e [] ne = rw (text_eq_differ domain other ne) refl
find-put_ne domain other e ((name, old) ∷ cache) ne = elim (Bool-cases (text_eq other name)) [
  | inl same ↦
      (let differ : text_eq domain name ≡ false =
          rw (← text_eq_sound other name same) (text_eq_differ domain other ne) in
        rw (same, differ) refl)
  | inr differ ↦ rw (differ, find-put_ne domain other e cache ne) refl
]

-- An eviction keeps what is still fresh.
find-retain :
    (domain : List ℕ) (now : ℕ) (e : Entry) (cache : Cache)
    → find domain cache ≡ some e
    → now < e.expires
    → find domain (retain now cache) ≡ some e
unfolding find retain
find-retain domain now e [] h fresh = absurd (cc)
find-retain domain now e ((name, old) ∷ cache) h fresh = elim (Bool-cases (text_eq domain name)) [
  | inl same ↦
      (let found : some old ≡ some e = rw same at h in
        let is : old ≡ e = cc in
        let keeps : ltb now old.expires ≡ true = rw is (lt→ltb now e.expires fresh) in
        rw (keeps, same) found)
  | inr differ ↦
      (let rest = find-retain domain now e cache (rw differ at h) fresh in
        if_elim (λ (c : Cache). find domain c ≡ some e) (ltb now old.expires)
          ((name, old) ∷ retain now cache) (retain now cache) (rw differ rest) rest)
]

-- A name gets an entry: it has one, or the cache is not full.
abbrev pub HasRoom : List ℕ → Cache → Type 0
HasRoom domain cache = (length cache < max_entries) ⊎ (is_some (find domain cache) ≡ true)

find-insert :
    (domain : List ℕ) (result : Answer) (ttl evict_at store_at : ℕ) (cache : Cache)
    → HasRoom domain cache
    → find domain (insert domain result ttl evict_at store_at cache)
      ≡ some (record { result = result; expires = store_at + ttl })
unfolding insert
find-insert domain result ttl evict_at store_at cache room =
    rw (stays (length cache) (is_some (find domain cache)) room) (find-put domain _ cache)
  where
    stays :
        (n : ℕ) (known : Bool)
        → (n < max_entries) ⊎ (known ≡ true)
        → (leb max_entries n && not known) ≡ false
    stays n known h = ground arith

-- No entry of the name is fresh at a time.
abbrev pub IsMiss : ℕ → Option Entry → Type 0
IsMiss now none = Unit {0}
IsMiss now (some e) = ltb now e.expires ≡ false

-- How long an answer is kept.
abbrev pub ttl_of : Answer → ℕ
ttl_of (ok ips) = positive_ttl
ttl_of (err e) = negative_ttl

-- The answer comes of the lookup: that succeeded, or there are no older addresses to fall back on.
abbrev pub IsOwn : Answer → Option (List IpAddr) → Type 0
IsOwn (ok ips) older = Unit {0}
IsOwn (err e) older = older ≡ none

missed :
    (domain : List ℕ) (clock : Clock) (fresh : Answer × Cache) (cache : Cache) (o : Option Entry)
    → IsMiss clock.entered o
    → or_lookup o clock.entered fresh cache ≡ fresh
missed domain clock fresh cache none miss = refl
missed domain clock fresh cache (some e) miss = rw miss refl

find-insert_ne :
    (domain other : List ℕ) (result : Answer) (ttl evict_at store_at : ℕ) (e : Entry)
    (cache : Cache)
    → find domain cache ≡ some e
    → domain ≢ other
    → evict_at < e.expires
    → find domain (insert other result ttl evict_at store_at cache) ≡ some e
unfolding insert put_if_room
find-insert_ne domain other result ttl evict_at store_at e cache found ne fresh =
    if_elim (λ (c : Cache). find domain c ≡ some e)
      (leb max_entries (length cache) && not (is_some (find other cache))) _ _
      (if_elim (λ (c : Cache). find domain c ≡ some e)
        (leb max_entries (length (retain evict_at cache))) _ _ evicted
        (find-put_ne domain other _ (retain evict_at cache) ne ∙ evicted))
      (find-put_ne domain other _ cache ne ∙ found)
  where
    evicted : find domain (retain evict_at cache) ≡ some e
    evicted = find-retain domain evict_at e cache found fresh

-- The cache into which the answer goes.
abbrev pub at_store : Answer → Between → Cache → Cache
at_store (ok ips) others cache = run_stores others.lookup cache
at_store (err e) others cache = run_stores others.locks (run_stores others.lookup cache)

-- What others store is for other names, and while the answer is fresh.
abbrev pub IsApart : List ℕ → ℕ → Store → Type 0
IsApart domain expires s = (domain ≢ s.name) × (s.evict_at < expires)

find-run_stores :
    (domain : List ℕ) (e : Entry) (stores : List Store) (cache : Cache)
    → find domain cache ≡ some e
    → All (IsApart domain e.expires) stores
    → find domain (run_stores stores cache) ≡ some e
unfolding run_stores
find-run_stores domain e [] cache found apart = found
find-run_stores domain e (s ∷ stores) cache found (one, more) =
    find-run_stores domain e stores _
      (find-insert_ne domain s.name s.result s.ttl s.evict_at s.store_at e cache found one.0 one.1)
      more

-- Where no entry of a name is fresh and the name may get an entry, the answer that its lookup comes to
-- is the answer of every later call within its time to live, 300 seconds for addresses and 30 for a
-- failure: whatever the resolver would say then, whatever answers for other names were stored, with
-- evictions, in between and within that time, and with the cache left alone. Other threads may have
-- stored anything during the first call: the name may get an entry in the cache that they leave when
-- the answer is stored (it has one there, or there are fewer than 1024), and, for a failure, there
-- must be no older addresses of the name when the lookup has failed.
pub resolve_with-resolve_with :
    (domain : List ℕ) (clock clock' : Clock) (others others' : Between) (looked_up later : Answer)
    (stores : List Store) (cache : Cache)
    → HasRoom domain (at_store (checked looked_up) others cache)
    → IsMiss clock.entered (find domain cache)
    → IsOwn (checked looked_up) (stale (find domain (run_stores others.lookup cache)))
    → All (IsApart domain (clock.store_at + ttl_of (checked looked_up))) stores
    → clock'.entered < clock.store_at + ttl_of (checked looked_up)
    → let first = resolve_with domain clock others looked_up cache in
      let now = run_stores stores first.1 in
      (first.0 ≡ checked looked_up)
      × (resolve_with domain clock' others' later now ≡ (checked looked_up, now))
unfolding resolve_with resolved
resolve_with-resolve_with domain clock clock' others others' looked_up later stores cache room miss
      own apart soon =
    rw
      (missed domain clock (resolved domain clock others.locks (checked looked_up) after) cache
        (find domain cache) miss)
      (go (checked looked_up) room own apart soon)
  where
    after : Cache
    after = run_stores others.lookup cache

    kept :
        (a : Answer) (c : Cache)
        → find domain c ≡ some (record { result = a; expires = clock.store_at + ttl_of a })
        → clock'.entered < clock.store_at + ttl_of a
        → resolve_with domain clock' others' later c ≡ (a, c)
    kept a c found soon = rw (found, lt→ltb clock'.entered (clock.store_at + ttl_of a) soon) refl

    stays :
        (a : Answer) (c : Cache)
        → find domain c ≡ some (record { result = a; expires = clock.store_at + ttl_of a })
        → All (IsApart domain (clock.store_at + ttl_of a)) stores
        → clock'.entered < clock.store_at + ttl_of a
        → resolve_with domain clock' others' later (run_stores stores c) ≡ (a, run_stores stores c)
    stays a c found apart soon =
        kept a (run_stores stores c) (find-run_stores domain _ stores c found apart) soon

    go :
        (a : Answer)
        → HasRoom domain (at_store a others cache)
        → IsOwn a (stale (find domain after))
        → All (IsApart domain (clock.store_at + ttl_of a)) stores
        → clock'.entered < clock.store_at + ttl_of a
        → let first = resolved domain clock others.locks a after in
          let now = run_stores stores first.1 in
          (first.0 ≡ a) × (resolve_with domain clock' others' later now ≡ (a, now))
    go (ok ips) room own apart soon =
        (refl, stays (ok ips) _ (find-insert domain (ok ips) _ _ _ after room) apart soon)
    go (err e) room own apart soon = rw own (
      refl,
      stays (err e) _ (find-insert domain (err e) _ _ _ (run_stores others.locks after) room) apart
          soon,
    )

-- Addresses of a name in the cache keep a failing resolver from failing the call, however old they
-- are: a call that looked the name up gives them, and stores nothing.
pub resolve_with-stale :
    (domain : List ℕ) (clock : Clock) (others : Between) (looked_up : Answer) (cache : Cache)
    (e : IoError) (ips : List IpAddr)
    → IsMiss clock.entered (find domain cache)
    → checked looked_up ≡ err e
    → stale (find domain (run_stores others.lookup cache)) ≡ some ips
    → resolve_with domain clock others looked_up cache ≡ (ok ips, run_stores others.lookup cache)
unfolding resolve_with resolved
resolve_with-stale domain clock others looked_up cache e ips miss failed older =
    rw (failed, older)
      (missed domain clock (ok ips, run_stores others.lookup cache) cache (find domain cache) miss)
