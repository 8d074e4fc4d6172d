-- ===== src/Server/SessionIds.antt =====
-- The ids of the sessions in crates/server/src/lib.rs.
use nextppp.Prelude.{ℕ, ◌≤◌, ◌<◌, ◌^◌, ◌≡◌, arith}
use nextppp.Server.{session_id}

-- With a base and a counter of 64 bits, the id is one that the handshake can send. Over one base other
-- than 0, different counters give different ids.
pub session_id_bounds :
    (base counter : ℕ)
    → base < 2 ^ 64
    → counter < 2 ^ 64
    → (1 ≤ session_id base counter)
      × (session_id base counter < 2 ^ 128)
      × ((other : ℕ)
          → 1 ≤ base
          → other < 2 ^ 64
          → session_id base counter ≡ session_id base other
          → counter ≡ other)
unfolding session_id
session_id_bounds base counter b c = (ground arith, ground arith, λ other one d same. ground arith)
