-- ===== src/Pool/Choice.antt =====
-- The choice of a tunnel: `pick` and the start of `open_stream` in crates/client/src/pool.rs.
use nextppp.Prelude.{
  ℕ, ◌≤◌, ◌<◌, ◌≡◌, ◌≢◌, arith, refl, Bool, true, false, Bool-cases, inl, inr, ◌⊎◌, ◌==◌, ==_iff,
}
use nextppp.Prelude.{Option, none, some, List, [], ◌∷◌, All, ltb, ltb→lt, ltb→le}
use nextppp.Pool.{
  PoolTunnel, has_room, less_loaded, pick, any_live, Round, on_tunnel, dedicated, wait_for_tunnel,
  open_round, round_with, round_without,
}
use mathlib.Core.List.{Mem, mem-cons_self, mem-cons_of_mem}

-- A tunnel that can take a stream, and one that is alive with as many as it may have.
pub HasRoom : ℕ → PoolTunnel → Type 0
HasRoom max_streams t = (t.alive ≡ true) × (t.streams < max_streams)

pub IsFull : ℕ → PoolTunnel → Type 0
IsFull max_streams t = t.alive ≡ true → max_streams ≤ t.streams

has_room-HasRoom :
    (max_streams : ℕ) (t : PoolTunnel) → has_room max_streams t ≡ true → HasRoom max_streams t
unfolding HasRoom
has_room-HasRoom max_streams t h = elim (Bool-cases t.alive) [
  | inr dead ↦ absurd (let same : false ≡ true = rw dead at h in cc)
  | inl alive ↦ (alive, ltb→lt t.streams max_streams (rw alive at h))
]

has_room-IsFull :
    (max_streams : ℕ) (t : PoolTunnel) → has_room max_streams t ≡ false → IsFull max_streams t
unfolding IsFull
has_room-IsFull max_streams t h alive = ltb→le t.streams max_streams (rw alive at h)

-- What a choice among tunnels has to be: none only if there is no room, and otherwise one with room
-- and no more load than any other with room.
pub IsLeast : ℕ → List PoolTunnel → Option PoolTunnel → Type 0
IsLeast max_streams ts none = All (IsFull max_streams) ts
IsLeast max_streams ts (some t) =
    Mem t ts
    × HasRoom max_streams t
    × All (λ (u : PoolTunnel). HasRoom max_streams u → t.streams ≤ u.streams) ts

-- Nothing has room in one list of loads, or all that has room is loaded as much.
Above : ℕ → ℕ → List PoolTunnel → Type 0
Above max_streams n = All (λ (u : PoolTunnel). HasRoom max_streams u → n ≤ u.streams)

none-Above :
    (max_streams n : ℕ) (ts : List PoolTunnel)
    → All (IsFull max_streams) ts
    → Above max_streams n ts
unfolding Above HasRoom IsFull
none-Above max_streams n [] h = tt
none-Above max_streams n (t ∷ ts) h =
    (λ room. absurd (omega (arith, room.1, h.0 room.0)), none-Above max_streams n ts h.1)

Above-less :
    (max_streams n m : ℕ) (ts : List PoolTunnel)
    → n ≤ m
    → Above max_streams m ts
    → Above max_streams n ts
unfolding Above
Above-less max_streams n m [] k h = tt
Above-less max_streams n m (t ∷ ts) k h =
    (λ room. omega (arith, k, h.0 room), Above-less max_streams n m ts k h.1)

less_loaded-IsLeast :
    (max_streams : ℕ) (t : PoolTunnel) (ts : List PoolTunnel) (best : Option PoolTunnel)
    → HasRoom max_streams t
    → IsLeast max_streams ts best
    → IsLeast max_streams (t ∷ ts) (less_loaded t best)
unfolding IsLeast Above
less_loaded-IsLeast max_streams t ts none room h =
    (mem-cons_self, room, (λ r. omega arith, none-Above max_streams t.streams ts h))
less_loaded-IsLeast max_streams t ts (some u) room h = elim (Bool-cases (ltb u.streams t.streams)) [
  | inl e ↦
      rw e (mem-cons_of_mem t h.0, h.1, (λ r. omega (arith, ltb→lt u.streams t.streams e), h.2))
  | inr e ↦ rw e (
    mem-cons_self,
    room,
    (
      λ r. omega arith,
      Above-less max_streams t.streams u.streams ts (ltb→le u.streams t.streams e) h.2,
    ),
  )
]

skipped-IsLeast :
    (max_streams : ℕ) (t : PoolTunnel) (ts : List PoolTunnel) (best : Option PoolTunnel)
    → IsFull max_streams t
    → IsLeast max_streams ts best
    → IsLeast max_streams (t ∷ ts) best
unfolding IsLeast HasRoom IsFull
skipped-IsLeast max_streams t ts none full h = (full, h)
skipped-IsLeast max_streams t ts (some u) full h =
    (mem-cons_of_mem t h.0, h.1, (λ r. absurd (omega (arith, r.1, full r.0)), h.2))

-- The chosen tunnel is alive, has room for a stream, and no tunnel that is alive and has room carries
-- fewer streams; none is chosen only where no tunnel is alive with room.
pub pick-IsLeast :
    (max_streams : ℕ) (ts : List PoolTunnel) → IsLeast max_streams ts (pick max_streams ts)
unfolding pick IsLeast
pick-IsLeast max_streams [] = tt
pick-IsLeast max_streams (t ∷ ts) =
    let rest = pick-IsLeast max_streams ts in
    elim (Bool-cases (has_room max_streams t)) [
      | inl e ↦ rw e (
          less_loaded-IsLeast max_streams t ts (pick max_streams ts)
            (has_room-HasRoom max_streams t e) rest)
      | inr e ↦ rw e (
          skipped-IsLeast max_streams t ts (pick max_streams ts) (has_room-IsFull max_streams t e)
            rest)
    ]

any_live-none :
    (ts : List PoolTunnel) → any_live ts ≡ false → All (λ (u : PoolTunnel). u.alive ≡ false) ts
unfolding any_live
any_live-none [] h = tt
any_live-none (t ∷ ts) h = elim (Bool-cases t.alive) [
  | inl e ↦ absurd (cc)
  | inr e ↦ (e, any_live-none ts (rw e at h))
]

-- A member of a list that is alive.
HasLive : List PoolTunnel → Type 0
HasLive ts = (t : PoolTunnel) × Mem t ts × (t.alive ≡ true)

any_live-HasLive : (ts : List PoolTunnel) → any_live ts ≡ true → HasLive ts
unfolding any_live HasLive
any_live-HasLive [] h = absurd (cc)
any_live-HasLive (t ∷ ts) h = elim (Bool-cases t.alive) [
  | inl e ↦ (t, mem-cons_self, e)
  | inr e ↦
      (let (u, at_u, live) = any_live-HasLive ts (rw e at h) in (u, mem-cons_of_mem t at_u, live))
]

-- Where a stream may be opened, for a pool of a size and its tunnels.
pub IsRound : ℕ → ℕ → List PoolTunnel → Round → Type 0
IsRound pool_size max_streams ts (on_tunnel t) = (pool_size ≢ 0) × IsLeast max_streams ts (some t)
IsRound pool_size max_streams ts dedicated =
    (pool_size ≡ 0) ⊎ (HasLive ts × IsLeast max_streams ts none)
IsRound pool_size max_streams ts wait_for_tunnel =
    (pool_size ≢ 0) × All (λ (u : PoolTunnel). u.alive ≡ false) ts

-- A stream goes on a tunnel of the pool that is alive and below the limit, with as few streams as
-- any such tunnel has. It gets a tunnel of its own only where pooling is off, or some tunnel is alive
-- but every one alive has as many as the limit; and it waits only where none is alive.
pub open_round-IsRound :
    (pool_size max_streams : ℕ) (ts : List PoolTunnel)
    → IsRound pool_size max_streams ts (open_round pool_size max_streams ts)
unfolding open_round IsRound
open_round-IsRound pool_size max_streams ts = elim (Bool-cases (pool_size == 0)) [
  | inl e ↦ rw e (inl ((==_iff pool_size 0).0 e))
  | inr e ↦
      rw e (with_choice (pick max_streams ts) (λ z. absurd (cc)) (pick-IsLeast max_streams ts))
]
  where
    without :
        (live : Bool)
        → any_live ts ≡ live
        → pool_size ≢ 0
        → IsLeast max_streams ts none
        → IsRound pool_size max_streams ts (round_without live)
    without true e ne full = inr (any_live-HasLive ts e, full)
    without false e ne full = (ne, any_live-none ts e)

    with_choice :
        (best : Option PoolTunnel)
        → pool_size ≢ 0
        → IsLeast max_streams ts best
        → IsRound pool_size max_streams ts (round_with ts best)
    with_choice none ne full = without (any_live ts) refl ne full
    with_choice (some t) ne least = (ne, least)
