-- ===== src/Dns.antt =====
-- The cache of resolved names, crates/common/src/dns.rs. A name is its bytes; the clock's readings, in
-- seconds, the answer of the system resolver, and what other threads store while the lock is not held
-- are arguments.
pub mod Bound
pub mod Answers
mod Tests
use nextppp.Prelude.{ℕ, ◌+◌, Bool, true, false, not, ◌&&◌, if◌then◌else◌, ltb, leb}
use nextppp.Prelude.{Option, none, some, List, [], ◌∷◌, length, Result, ok, err}
use nextppp.Errors.{ErrorKind, addr_not_available}
use nextppp.Addr.{IpAddr}
use nextppp.Cipher.{text_eq}
use Prim.Native.String.{String}

abbrev pub positive_ttl : ℕ
positive_ttl = 300

abbrev pub negative_ttl : ℕ
negative_ttl = 30

abbrev pub max_entries : ℕ
max_entries = 1024

-- An `io::Error` by its kind and its text; the cache keeps both.
pub record IoError : Type 0 where
  pub kind : ErrorKind
  pub text : String

abbrev pub Answer : Type 0
Answer = Result (List IpAddr) IoError

pub record Entry : Type 0 where
  pub result : Answer
  pub expires : ℕ

-- The map, with the name of each entry.
abbrev pub Cache : Type 0
Cache = List (List ℕ × Entry)

abbrev pub first_of : Bool → Entry → Option Entry → Option Entry
first_of true e rest = some e
first_of false e rest = rest

unfoldable pub find : List ℕ → Cache → Option Entry
find domain [] = none
find domain ((name, e) ∷ cache) = first_of (text_eq domain name) e (find domain cache)

abbrev pub is_some {ℓ} : {A : Type ℓ} → Option A → Bool
is_some none = false
is_some (some a) = true

unfoldable pub put : List ℕ → Entry → Cache → Cache
put domain e [] = (domain, e) ∷ []
put domain e ((name, old) ∷ cache) =
    let rest = put domain e cache in
    if text_eq domain name then (name, e) ∷ cache else (name, old) ∷ rest

unfoldable pub retain : ℕ → Cache → Cache
retain now [] = []
retain now ((name, e) ∷ cache) =
    let rest = retain now cache in if ltb now e.expires then (name, e) ∷ rest else rest

-- `insert`, with the reading of the clock for the eviction and the one for the new entry.
unfoldable pub put_if_room : List ℕ → Entry → Cache → Cache
unfolding put
put_if_room domain e cache = if leb max_entries (length cache) then cache else put domain e cache

unfoldable pub insert : List ℕ → Answer → ℕ → ℕ → ℕ → Cache → Cache
unfolding find put retain put_if_room
insert domain result ttl evict_at store_at cache =
    let e : Entry = record { result = result; expires = store_at + ttl } in
    if leb max_entries (length cache) && not (is_some (find domain cache))
    then put_if_room domain e (retain evict_at cache)
    else put domain e cache

-- An answer without addresses counts as a failure.
unfoldable pub checked : Answer → Answer
checked (ok []) = err (record { kind = addr_not_available; text = "no addresses resolved" })
checked (ok (ip ∷ ips)) = ok (ip ∷ ips)
checked (err e) = err e

-- The addresses of an entry, however old.
abbrev pub stale : Option Entry → Option (List IpAddr)
stale none = none
stale (some e) = elim e.result [ ok ips ↦ some ips | err x ↦ none ]

-- The readings of the clock in one call.
pub record Clock : Type 0 where
  pub entered : ℕ
  pub evict_at : ℕ
  pub store_at : ℕ

-- The map is behind a lock: whenever it is not held, other threads may have stored their own answers.
pub record Store : Type 0 where
  pub name : List ℕ
  pub result : Answer
  pub ttl : ℕ
  pub evict_at : ℕ
  pub store_at : ℕ

unfoldable pub run_stores : List Store → Cache → Cache
unfolding insert
run_stores [] cache = cache
run_stores (s ∷ stores) cache =
    run_stores stores (insert s.name s.result s.ttl s.evict_at s.store_at cache)

-- What the other threads store during the lookup, and between the locks behind a failed one.
pub record Between : Type 0 where
  pub lookup : List Store
  pub locks : List Store

abbrev pub on_failure :
    List ℕ → Clock → List Store → IoError → Option (List IpAddr) → Cache → Answer × Cache
on_failure domain clock locks e (some ips) cache = (ok ips, cache)
on_failure domain clock locks e none cache = (
  err e,
  insert domain (err e) negative_ttl clock.evict_at clock.store_at (run_stores locks cache),
)

unfoldable pub resolved : List ℕ → Clock → List Store → Answer → Cache → Answer × Cache
unfolding insert find run_stores
resolved domain clock locks (ok ips) cache =
    (ok ips, insert domain (ok ips) positive_ttl clock.evict_at clock.store_at cache)
resolved domain clock locks (err e) cache =
    on_failure domain clock locks e (stale (find domain cache)) cache

abbrev pub or_lookup : Option Entry → ℕ → Answer × Cache → Cache → Answer × Cache
or_lookup none now fresh cache = fresh
or_lookup (some e) now fresh cache = if ltb now e.expires then (e.result, cache) else fresh

unfoldable pub resolve_with : List ℕ → Clock → Between → Answer → Cache → Answer × Cache
unfolding resolved checked find run_stores
resolve_with domain clock others looked_up cache =
    or_lookup (find domain cache) clock.entered
      (resolved domain clock others.locks (checked looked_up) (run_stores others.lookup cache))
      cache
