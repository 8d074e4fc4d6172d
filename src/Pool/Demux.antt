-- ===== src/Pool/Demux.antt =====
-- The reader task of crates/client/src/pool.rs among the streams of a tunnel.
use nextppp.Prelude.{ℕ, ◌<◌, ◌^◌, ◌≡◌, ◌≢◌, arith, refl, ap, sym, ◌∙◌, inl, inr, ==_iff}
use nextppp.Prelude.{Bool, true, false, ◌==◌, if◌then◌else◌, Bool-cases, if_elim, has, has-remove}
use nextppp.Prelude.{List, [], ◌∷◌, ◌++◌, All, append-nil, append_assoc, ok}
use nextppp.Pool.{PoolTunnel, Others, try_send}
use nextppp.Pool.Reading.{
  Sent, Sending, others_ran, accepted, pump_gone, stalled, bounce, send_event, route_event,
  give_reply, demux, Turn, message, reader_turn, go_on, run_reader, is_ok,
}
use nextppp.Mux.{FrameKind, open_stream, reply, stream_data, eof, close, frame_header}
use nextppp.Mux.Frames.{parse_frame-frame_header}
use nextppp.Tunnel.Pumps.{StreamEvent, got_data, got_eof}

-- A frame of the server's, with what other tasks make of the tunnel before it comes, and what becomes
-- of a CLOSE that it may cause and of its event.
pub record Arrival : Type 0 where
  pub kind : FrameKind
  pub stream : ℕ
  pub payload : List ℕ
  pub taken : Bool
  pub before : Others
  pub sending : Sending

abbrev pub turn_of : Arrival → Turn
turn_of a = message (frame_header a.kind a.stream ++ a.payload) a.taken a.sending

pub turns_of : List Arrival → List Turn
turns_of [] = []
turns_of (a ∷ later) = others_ran a.before ∷ turn_of a ∷ turns_of later

abbrev pub events_in : FrameKind → List ℕ → List StreamEvent
events_in stream_data payload = got_data payload ∷ []
events_in eof payload = got_eof ∷ []
events_in _ payload = []

-- What the frames say to one stream, in their order.
unfoldable pub said_to : ℕ → List Arrival → List StreamEvent
said_to sid [] = []
said_to sid (a ∷ later) =
    let rest = said_to sid later in
    if sid == a.stream then events_in a.kind a.payload ++ rest else rest

-- What went to one stream's pump.
pub heard_by : ℕ → List (ℕ × StreamEvent) → List StreamEvent
heard_by sid [] = []
heard_by sid ((x, event) ∷ log) =
    let rest = heard_by sid log in if sid == x then event ∷ rest else rest

heard_by-append :
    (sid : ℕ) (log more : List (ℕ × StreamEvent))
    → heard_by sid (log ++ more) ≡ heard_by sid log ++ heard_by sid more
unfolding heard_by
heard_by-append sid [] more = refl
heard_by-append sid ((x, event) ∷ log) more = elim (Bool-cases (sid == x)) [
  | inl e ↦ rw (e, heard_by-append sid log more) refl
  | inr e ↦ rw (e, heard_by-append sid log more) refl
]

-- The stream is still listed, and its pump got some more events.
pub record Heard (sid : ℕ) (t : PoolTunnel) (events : List StreamEvent) (t' : PoolTunnel)
    : Type 0 where
  pub listed : has sid t'.registry ≡ true
  pub heard : heard_by sid t'.delivered ≡ heard_by sid t.delivered ++ events

Heard-then :
    (sid : ℕ) (t t1 t2 : PoolTunnel) (events more : List StreamEvent)
    → Heard sid t events t1
    → Heard sid t1 more t2
    → Heard sid t (events ++ more) t2
Heard-then sid t t1 t2 events more one two = record {
  listed = two.listed;
  heard =
      two.heard
      ∙ ap (λ (l : List StreamEvent). l ++ more) one.heard
      ∙ append_assoc (heard_by sid t.delivered) events more;
}

-- Steps of other tasks that leave a listed stream listed, and send its pump nothing.
unfoldable pub IsAside : ℕ → Others → Type 0
IsAside sid others = (t : PoolTunnel) → has sid t.registry ≡ true → Heard sid t [] (others t)

-- A frame that the server may send while it carries a stream: no OPEN; on the stream itself neither a
-- CLOSE nor an event that the stream's pump does not take. Other tasks leave the stream alone.
pub record IsTraffic (sid : ℕ) (a : Arrival) : Type 0 where
  pub fits : a.stream < 2 ^ 32
  pub no_open : a.kind ≢ open_stream
  pub no_close : a.stream ≡ sid → a.kind ≢ close
  pub drained : a.stream ≡ sid → a.sending.outcome ≡ accepted
  pub aside_before : IsAside sid a.before
  pub aside_during : IsAside sid a.sending.meanwhile

send_other :
    (sid x : ℕ) (event : StreamEvent) (taken : Bool) (sent : Sent) (t : PoolTunnel)
    → has sid t.registry ≡ true
    → (sid == x) ≡ false
    → Heard sid t [] (send_event x event taken sent t)
unfolding try_send send_event bounce heard_by
send_other sid x event taken accepted t h ne = record {
  listed = h;
  heard = heard_by-append sid t.delivered _ ∙ ap (λ l. heard_by sid t.delivered ++ l) (rw ne refl);
}
send_other sid x event taken pump_gone t h ne = record {
  listed = has-remove sid x t.registry ne h;
  heard = sym (append-nil _);
}
send_other sid x event taken stalled t h ne = record {
  listed = has-remove sid x t.registry ne h;
  heard = sym (append-nil _);
}

-- An event for another stream, whatever becomes of it.
route_other :
    (sid x : ℕ) (event : StreamEvent) (taken : Bool) (sending : Sending) (t : PoolTunnel)
    → has sid t.registry ≡ true
    → (sid == x) ≡ false
    → IsAside sid sending.meanwhile
    → Heard sid t [] (route_event x event taken sending t)
unfolding route_event try_send IsAside
route_other sid x event taken sending t h ne aside =
    let first = aside t h in
    if_elim (Heard sid t []) (has x t.registry) _ _
      (Heard-then sid t (sending.meanwhile t) _ [] [] first
        (send_other sid x event taken sending.outcome (sending.meanwhile t) first.listed ne))
      (record { listed = h; heard = sym (append-nil _) })

send_own :
    (sid : ℕ) (event : StreamEvent) (taken : Bool) (t : PoolTunnel)
    → has sid t.registry ≡ true
    → Heard sid t (event ∷ []) (send_event sid event taken accepted t)
unfolding send_event heard_by
send_own sid event taken t h =
    let own : (sid == sid) ≡ true = ground arith in
    record {
      listed = h;
      heard =
          heard_by-append sid t.delivered _ ∙ ap (λ l. heard_by sid t.delivered ++ l) (rw own refl);
    }

route_own :
    (sid : ℕ) (event : StreamEvent) (taken : Bool) (sending : Sending) (t : PoolTunnel)
    → has sid t.registry ≡ true
    → sending.outcome ≡ accepted
    → IsAside sid sending.meanwhile
    → Heard sid t (event ∷ []) (route_event sid event taken sending t)
unfolding route_event IsAside
route_own sid event taken sending t h taken_in aside =
    let first = aside t h in
    rw (h, taken_in)
      (Heard-then sid t (sending.meanwhile t) _ [] (event ∷ []) first
        (send_own sid event taken (sending.meanwhile t) first.listed))

-- One frame.
reads_one :
    (sid stream : ℕ) (kind : FrameKind) (payload : List ℕ) (taken : Bool) (sending : Sending)
    (t : PoolTunnel)
    → has sid t.registry ≡ true
    → kind ≢ open_stream
    → (stream ≡ sid → kind ≢ close)
    → (stream ≡ sid → sending.outcome ≡ accepted)
    → IsAside sid sending.meanwhile
    → let r = demux taken sending (ok (kind, stream, payload)) t in
      (r.0 ≡ true) × Heard sid t (if sid == stream then events_in kind payload else []) r.1
unfolding demux give_reply
reads_one sid stream kind payload taken sending t h opens closes drained aside =
    elim (Bool-cases (sid == stream)) [
      | inl e ↦
          (let same : sid ≡ stream = (==_iff sid stream).0 e in
            rw e (own kind opens (closes (sym same)) (drained (sym same)) same))
      | inr e ↦ rw e (other kind opens e)
    ]
  where
    nothing : Heard sid t [] t
    nothing = record { listed = h; heard = sym (append-nil _) }

    replied : (x : ℕ) → Heard sid t [] (give_reply x (is_ok payload) t)
    replied x =
        if_elim (Heard sid t []) (has x t.pending) _ t
          (record { listed = h; heard = sym (append-nil _) }) nothing

    own :
        (kind : FrameKind)
        → kind ≢ open_stream
        → kind ≢ close
        → sending.outcome ≡ accepted
        → sid ≡ stream
        → let r = demux taken sending (ok (kind, stream, payload)) t in
          (r.0 ≡ true) × Heard sid t (events_in kind payload) r.1
    own open_stream o c d s = absurd (o refl)
    own close o c d s = absurd (c refl)
    own reply o c d s = (refl, replied stream)
    own stream_data o c d s =
        (refl, rw (← s) (route_own sid (got_data payload) taken sending t h d aside))
    own eof o c d s = (refl, rw (← s) (route_own sid got_eof taken sending t h d aside))

    other :
        (kind : FrameKind)
        → kind ≢ open_stream
        → (sid == stream) ≡ false
        → let r = demux taken sending (ok (kind, stream, payload)) t in
          (r.0 ≡ true) × Heard sid t [] r.1
    other open_stream o ne = absurd (o refl)
    other close o ne = (
      refl,
      record { listed = has-remove sid stream t.registry ne h; heard = sym (append-nil _) },
    )
    other reply o ne = (refl, replied stream)
    other stream_data o ne =
        (refl, route_other sid stream (got_data payload) taken sending t h ne aside)
    other eof o ne = (refl, route_other sid stream got_eof taken sending t h ne aside)

goes_on :
    (next : PoolTunnel → Bool × PoolTunnel) (r : Bool × PoolTunnel)
    → r.0 ≡ true
    → go_on next r ≡ next r.1
unfolding go_on
goes_on next (true, t) h = refl
goes_on next (false, t) h = absurd (cc)

said_first :
    (b : Bool) (events rest : List StreamEvent)
    → (if b then events ++ rest else rest) ≡ (if b then events else []) ++ rest
said_first true events rest = refl
said_first false events rest = refl

-- Let the server's frames, on any streams and in any order, have ids of 32 bits and be no OPEN and, on
-- one listed stream, no CLOSE, with every event for it taken by its pump; and let other tasks,
-- whatever they do while the reader awaits a frame or a stream's channel, leave that stream listed
-- and send its pump nothing. Then the reader runs on. The stream's pump gets the data and the ends of
-- file of the stream's own frames: all of them, in their order, and nothing of the other streams;
-- and the stream stays listed.
pub run_reader-Heard :
    (sid : ℕ) (arrivals : List Arrival) (t : PoolTunnel)
    → has sid t.registry ≡ true
    → All (IsTraffic sid) arrivals
    → let r = run_reader (turns_of arrivals) t in
      (r.0 ≡ true) × Heard sid t (said_to sid arrivals) r.1
unfolding run_reader turns_of said_to reader_turn IsAside go_on
run_reader-Heard sid [] t h all = (refl, record { listed = h; heard = sym (append-nil _) })
run_reader-Heard sid (a ∷ later) t h (ok_a, all) =
    let first = ok_a.aside_before t h in
    let now : PoolTunnel = a.before t in
    let (on, one) =
      reads_one sid a.stream a.kind a.payload a.taken a.sending now first.listed ok_a.no_open
        ok_a.no_close ok_a.drained ok_a.aside_during in
    let parsed = parse_frame-frame_header a.kind a.stream a.payload ok_a.fits in
    let r : Bool × PoolTunnel = demux a.taken a.sending (ok (a.kind, a.stream, a.payload)) now in
    let (ends, rest) = run_reader-Heard sid later r.1 one.listed all in
    let events = if sid == a.stream then events_in a.kind a.payload else [] in
    rw (parsed, goes_on (run_reader (turns_of later)) r on)
      (
        ends,
        rw (said_first (sid == a.stream) (events_in a.kind a.payload) (said_to sid later)) (
            Heard-then sid t now _ [] (events ++ said_to sid later) first
              (Heard-then sid now r.1 _ events (said_to sid later) one rest)),
      )
