-- ===== src/Pump/Connect.antt =====
-- Connecting a target in crates/common/src/pump.rs. The answer of the cache of names, the time that is
-- left before each attempt and what the attempt comes to are parameters.
use nextppp.Prelude.{ℕ, suc, ◌+◌, ◌≡◌, arith, refl, false, ◌==◌, if◌then◌else◌}
use nextppp.Prelude.{List, [], ◌∷◌, ◌++◌, length, Result, ok, err, ◌>>=◌}
use nextppp.Errors.{timed_out, addr_not_available}
use nextppp.Addr.{IpAddr, Host, ip, domain}
use nextppp.Dns.{Answer, IoError}

-- The parts of `tcp_connect`, for sockets of some type.
module _ {S : Type 0} (remaining : ℕ → ℕ) (connect : ℕ → IpAddr → ℕ → ℕ → Result S IoError)
    (port : ℕ) where
  unfoldable pub attempted : (IoError → Result S IoError) → Result S IoError → Result S IoError
  attempted next (ok sock) = ok sock
  attempted next (err e) = next e

  -- The addresses from the attempt `k` on, with the last error.
  unfoldable pub try_addrs : ℕ → IoError → List IpAddr → Result S IoError
  unfolding attempted
  try_addrs k last [] = err last
  try_addrs k last (a ∷ addrs) =
      let next = λ (e : IoError). try_addrs (k + 1) e addrs in
      if remaining k == 0
      then err (record { kind = timed_out; text = "connect deadline exceeded" })
      else attempted next (connect k a port (remaining k))

  -- Every one of some addresses is tried in time and fails.
  pub AllFail : ℕ → List IpAddr → Type 0
  AllFail k [] = Unit {0}
  AllFail k (a ∷ addrs) =
      ((remaining k == 0) ≡ false)
      × ((e : IoError) × (connect k a port (remaining k) ≡ err e))
      × AllFail (k + 1) addrs

  -- Behind addresses that fail, the first one that can be connected in time is; those behind it are
  -- not looked at.
  pub try_addrs-first :
      (k : ℕ) (last : IoError) (failing : List IpAddr) (a : IpAddr) (later : List IpAddr) (sock : S)
      → AllFail k failing
      → (remaining (k + length failing) == 0) ≡ false
      → connect (k + length failing) a port (remaining (k + length failing)) ≡ ok sock
      → try_addrs k last (failing ++ a ∷ later) ≡ ok sock
  unfolding try_addrs AllFail
  try_addrs-first k last [] a later sock fails time done =
      let here : k + 0 ≡ k = omega arith in rw (rw here at time, rw here at done) refl
  try_addrs-first k last (x ∷ failing) a later sock (now, (e, failed), fails) time done =
      let next : k + suc (length failing) ≡ (k + 1) + length failing = omega arith in
      rw (now, failed)
        (try_addrs-first (k + 1) e failing a later sock fails (rw next at time) (rw next at done))

  abbrev pub addrs_of : (List ℕ → Answer) → Host → Answer
  addrs_of resolve (ip a) = ok (a ∷ [])
  addrs_of resolve (domain d) = resolve d

  unfoldable pub tcp_connect : (List ℕ → Answer) → Host → Result S IoError
  unfolding try_addrs
  tcp_connect resolve host = do
    addrs ← addrs_of resolve host
    try_addrs 0 (record { kind = addr_not_available; text = "no addresses resolved" }) addrs
