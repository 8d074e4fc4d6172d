-- ===== src/Tunnel/Pumps/Ends.antt =====
-- How the end of a stream is told, from the ends of its two directions in crates/common/src/tunnel.rs.
use nextppp.Prelude.{◌≡◌, refl, arith, ◌↔◌}
use nextppp.Tunnel.Pumps.{
  Joined, joined_end, cancelled, outcome, pump_end, up_first, down_first, closed_by, closed,
  join_dir, graceful,
}
use nextppp.Tunnel.Pumps
use Prim.Native.String.{String}

-- A stream ends gracefully exactly when both directions were joined with an end of file.
pub graceful_iff :
    (up down : Joined)
    → (outcome (join_dir up) (join_dir down) ≡ graceful)
      ↔ ((up ≡ joined_end Pumps.eof) × (down ≡ joined_end Pumps.eof))
unfolding outcome join_dir
graceful_iff up down = (λ h. ground arith, λ h. ground arith)

-- Where the downward direction ends first, with any cause, the cause that is told is that the upward
-- one was aborted; where the upward one ends first, it is its own cause.
pub pump_end_aborted :
    (cause : String)
    → (pump_end down_first (joined_end (closed cause)) (λ aborted. cancelled) ≡ closed_by "aborted")
      × (pump_end up_first (joined_end (closed cause)) (λ aborted. cancelled) ≡ closed_by cause)
unfolding pump_end
pump_end_aborted cause = (refl, refl)
