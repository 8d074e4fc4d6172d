-- ===== src/Pool/Streams.antt =====
-- The load of a tunnel and the keys of its maps, over everything that happens to it: the operations of
-- crates/client/src/pool.rs in any order.
use nextppp.Prelude.{ℕ, suc, ◌%◌, ◌^◌, ◌≡◌, arith, refl}
use nextppp.Prelude.{Bool, true, false, ◌==◌, if◌then◌else◌, Bool-cases, if_elim}
use nextppp.Prelude.{List, [], ◌∷◌, length, All, inl, inr, has, remove, insert}
use nextppp.Pool.{
  PoolTunnel, spawn_tunnel, mark_dead, kill, unregister, register, open_unsent, Waited, replied,
  waiter_dropped, timed_out, open_end, drop_stream, try_send, alloc_stream,
}
use nextppp.Pool.Reading.{
  bounce, Sent, at_once, accepted, pump_gone, stalled, send_event, route_event, give_reply, demux,
  message, reader_turn,
}
use nextppp.Mux.{parse_frame, FrameKind, MuxError, reply, stream_data, close, open_stream, eof}
use nextppp.Prelude.{Result, ok, err}
use nextppp.Tunnel.{OutFrame, bare_frame}
use nextppp.Tunnel.Pumps.{StreamEvent, got_data, got_eof}

-- One handle of a stream is given up.
unfoldable pub erase_one : ℕ → List ℕ → List ℕ
erase_one sid [] = []
erase_one sid (x ∷ xs) = let rest = erase_one sid xs in if sid == x then xs else x ∷ rest

-- A stream stays held where its OPEN was answered well.
pub after_wait : ℕ → Waited → List ℕ → List ℕ
after_wait sid (replied true) held = held
after_wait sid _ held = erase_one sid held

-- The streams held, that is those whose OPEN is under way or whose handle lives, and the tunnel, after
-- any sequence of operations from a new tunnel on. An operation on a stream is one on a held stream,
-- as it belongs to the call of `open` or to the handle. `reads` is a frame with no other operation
-- during its send; where there are some, the send ends as `delivers` at any later time.
pub data Reachable : List ℕ → PoolTunnel → Type 0 where
  spawned : (pooled teardown : Bool) → Reachable [] (spawn_tunnel pooled teardown)
  registers :
      {held : List ℕ} {t : PoolTunnel}
      → Reachable held t
      → Reachable ((register t).0 ∷ held) (register t).1
  sends :
      {held : List ℕ} {t : PoolTunnel} (taken : Bool) (frame : OutFrame)
      → Reachable held t
      → Reachable held (try_send taken frame t)
  unsent :
      {held : List ℕ} {t : PoolTunnel} (sid : ℕ)
      → has sid held ≡ true
      → Reachable held t
      → Reachable (erase_one sid held) (open_unsent sid t)
  waits :
      {held : List ℕ} {t : PoolTunnel} (sid : ℕ) (taken : Bool) (waited : Waited)
      → has sid held ≡ true
      → Reachable held t
      → Reachable (after_wait sid waited held) (open_end sid taken waited t).1
  drops :
      {held : List ℕ} {t : PoolTunnel} (sid : ℕ) (graceful taken : Bool)
      → has sid held ≡ true
      → Reachable held t
      → Reachable (erase_one sid held) (drop_stream sid graceful taken t)
  reads :
      {held : List ℕ} {t : PoolTunnel} (msg : List ℕ) (taken : Bool) (sent : Sent)
      → Reachable held t
      → Reachable held (reader_turn (message msg taken (at_once sent)) t).1
  delivers :
      {held : List ℕ} {t : PoolTunnel} (sid : ℕ) (event : StreamEvent) (taken : Bool) (sent : Sent)
      → Reachable held t
      → Reachable held (send_event sid event taken sent t)
  dies : {held : List ℕ} {t : PoolTunnel} → Reachable held t → Reachable held (mark_dead t)

abbrev Within : List ℕ → List ℕ → Type 0
Within held xs = All (λ (x : ℕ). has x held ≡ true) xs

pub record IsCounted (held : List ℕ) (t : PoolTunnel) : Type 0 where
  pub counted : t.streams ≡ length held % 2 ^ 32
  pub waiting : Within held t.pending
  pub listed : Within held t.registry

has_more : (x sid : ℕ) (held : List ℕ) → has x held ≡ true → has x (sid ∷ held) ≡ true
unfolding has
has_more x sid held h = ground arith

within_more : (sid : ℕ) (held xs : List ℕ) → Within held xs → Within (sid ∷ held) xs
unfolding has
within_more sid held [] w = tt
within_more sid held (x ∷ xs) w = (has_more x sid held w.0, within_more sid held xs w.1)

within-remove : (sid : ℕ) (held xs : List ℕ) → Within held xs → Within held (remove sid xs)
unfolding remove
within-remove sid held [] w = tt
within-remove sid held (x ∷ xs) w = elim (Bool-cases (sid == x)) [
  | inl e ↦ rw e (within-remove sid held xs w.1)
  | inr e ↦ rw e (w.0, within-remove sid held xs w.1)
]

has-erase_one :
    (x sid : ℕ) (held : List ℕ)
    → (sid == x) ≡ false
    → has x held ≡ true
    → has x (erase_one sid held) ≡ true
unfolding has erase_one
has-erase_one x sid [] ne h = absurd (cc)
has-erase_one x sid (y ∷ ys) ne h =
    let ih : has x ys ≡ true → has x (erase_one sid ys) ≡ true = has-erase_one x sid ys ne in
    ground arith

length-erase_one :
    (sid : ℕ) (held : List ℕ)
    → has sid held ≡ true
    → suc (length (erase_one sid held)) ≡ length held
unfolding has erase_one
length-erase_one sid [] h = absurd (cc)
length-erase_one sid (y ∷ ys) h =
    let ih : has sid ys ≡ true → suc (length (erase_one sid ys)) ≡ length ys =
      length-erase_one sid ys in
    ground arith

within-erase_one :
    (sid : ℕ) (held xs : List ℕ) → Within held xs → Within (erase_one sid held) (remove sid xs)
unfolding remove
within-erase_one sid held [] w = tt
within-erase_one sid held (x ∷ xs) w = elim (Bool-cases (sid == x)) [
  | inl e ↦ rw e (within-erase_one sid held xs w.1)
  | inr e ↦ rw e (has-erase_one x sid held e w.0, within-erase_one sid held xs w.1)
]

-- A stream given up: the operations on it but for what they send.
unregister-IsCounted :
    (sid : ℕ) (held : List ℕ) (t : PoolTunnel)
    → has sid held ≡ true
    → IsCounted held t
    → IsCounted (erase_one sid held) (unregister sid t)
unfolding unregister
unregister-IsCounted sid held t h c =
    let shorter = length-erase_one sid held h in
    record {
      counted = omega (arith, c.counted, shorter);
      waiting = within-erase_one sid held t.pending c.waiting;
      listed = within-erase_one sid held t.registry c.listed;
    }

register-IsCounted :
    (held : List ℕ) (t : PoolTunnel)
    → IsCounted held t
    → IsCounted ((register t).0 ∷ held) (register t).1
unfolding register insert alloc_stream has
register-IsCounted held t c =
    let sid : ℕ = (register t).0 in
    let self : has sid (sid ∷ held) ≡ true = ground arith in
    let keys : (xs : List ℕ) → Within held xs → Within (sid ∷ held) (insert sid xs) =
      λ xs w. (self, within_more sid held (remove sid xs) (within-remove sid held xs w)) in
    record {
      counted = omega (arith, c.counted);
      waiting = keys t.pending c.waiting;
      listed = keys t.registry c.listed;
    }

mark_dead-IsCounted :
    (held : List ℕ) (t : PoolTunnel) → IsCounted held t → IsCounted held (mark_dead t)
unfolding mark_dead
mark_dead-IsCounted held t c =
    if_elim (IsCounted held) t.alive _ t (record { counted = c.counted; waiting = tt; listed = tt })
      c

kill-IsCounted : (held : List ℕ) (t : PoolTunnel) → IsCounted held t → IsCounted held (kill t)
unfolding kill
kill-IsCounted held t c =
    let d = mark_dead-IsCounted held t c in
    record { counted = d.counted; waiting = d.waiting; listed = d.listed }

try_send-IsCounted :
    (taken : Bool) (frame : OutFrame) (held : List ℕ) (t : PoolTunnel)
    → IsCounted held t
    → IsCounted held (try_send taken frame t)
unfolding try_send
try_send-IsCounted taken frame held t c = record {
  counted = c.counted;
  waiting = c.waiting;
  listed = c.listed;
}

open_end-IsCounted :
    (sid : ℕ) (taken : Bool) (waited : Waited) (held : List ℕ) (t : PoolTunnel)
    → has sid held ≡ true
    → IsCounted held t
    → IsCounted (after_wait sid waited held) (open_end sid taken waited t).1
unfolding open_end after_wait
open_end-IsCounted sid taken (replied true) held t h c = c
open_end-IsCounted sid taken (replied false) held t h c = unregister-IsCounted sid held t h c
open_end-IsCounted sid taken waiter_dropped held t h c = unregister-IsCounted sid held t h c
open_end-IsCounted sid taken timed_out held t h c =
    try_send-IsCounted taken _ _ _ (unregister-IsCounted sid held t h c)

drop_stream-IsCounted :
    (sid : ℕ) (graceful taken : Bool) (held : List ℕ) (t : PoolTunnel)
    → has sid held ≡ true
    → IsCounted held t
    → IsCounted (erase_one sid held) (drop_stream sid graceful taken t)
unfolding drop_stream
drop_stream-IsCounted sid graceful taken held t h c =
    let less = unregister-IsCounted sid held t h c in
    let P = IsCounted (erase_one sid held) in
    let t' : PoolTunnel = unregister sid t in
    let shut : PoolTunnel = try_send taken (bare_frame close sid) t' in
    let closed = if_elim P graceful t' shut less (try_send-IsCounted taken _ _ _ less) in
    let left : PoolTunnel = if graceful then t' else shut in
    if_elim P left.pooled left (kill left) closed (kill-IsCounted _ _ closed)

bounce-IsCounted :
    (sid : ℕ) (taken : Bool) (held : List ℕ) (t : PoolTunnel)
    → IsCounted held t
    → IsCounted held (bounce sid taken t)
unfolding bounce try_send
bounce-IsCounted sid taken held t c = record {
  counted = c.counted;
  waiting = c.waiting;
  listed = within-remove sid held t.registry c.listed;
}

send_event-IsCounted :
    (sid : ℕ) (event : StreamEvent) (taken : Bool) (sent : Sent) (held : List ℕ) (t : PoolTunnel)
    → IsCounted held t
    → IsCounted held (send_event sid event taken sent t)
unfolding send_event
send_event-IsCounted sid event taken accepted held t c = record {
  counted = c.counted;
  waiting = c.waiting;
  listed = c.listed;
}
send_event-IsCounted sid event taken pump_gone held t c = bounce-IsCounted sid taken held t c
send_event-IsCounted sid event taken stalled held t c = bounce-IsCounted sid taken held t c

route_event-IsCounted :
    (sid : ℕ) (event : StreamEvent) (taken : Bool) (sent : Sent) (held : List ℕ) (t : PoolTunnel)
    → IsCounted held t
    → IsCounted held (route_event sid event taken (at_once sent) t)
unfolding route_event
route_event-IsCounted sid event taken sent held t c =
    if_elim (IsCounted held) (has sid t.registry) _ _
      (send_event-IsCounted sid event taken sent held t c) (try_send-IsCounted taken _ held t c)

demux-IsCounted :
    (taken : Bool) (sent : Sent) (r : Result (FrameKind × ℕ × List ℕ) MuxError) (held : List ℕ)
    (t : PoolTunnel)
    → IsCounted held t
    → IsCounted held (demux taken (at_once sent) r t).1
unfolding demux give_reply
demux-IsCounted taken sent (ok (reply, sid, payload)) held t c =
    if_elim (IsCounted held) (has sid t.pending) _ t
      (record {
        counted = c.counted;
        waiting = within-remove sid held t.pending c.waiting;
        listed = c.listed;
      })
      c
demux-IsCounted taken sent (ok (stream_data, sid, payload)) held t c =
    route_event-IsCounted sid (got_data payload) taken sent held t c
demux-IsCounted taken sent (ok (eof, sid, payload)) held t c =
    route_event-IsCounted sid got_eof taken sent held t c
demux-IsCounted taken sent (ok (close, sid, payload)) held t c = record {
  counted = c.counted;
  waiting = c.waiting;
  listed = within-remove sid held t.registry c.listed;
}
demux-IsCounted taken sent (ok (open_stream, sid, payload)) held t c = c
demux-IsCounted taken sent (err e) held t c = c

-- Whatever happens to a tunnel: its load is the number of the streams held, up to the wrap of the
-- 32-bit counter, and its two maps have keys of held streams only. So nothing is left of a stream
-- that was given up.
pub Reachable-IsCounted : (held : List ℕ) (t : PoolTunnel) → Reachable held t → IsCounted held t
unfolding spawn_tunnel open_unsent reader_turn
Reachable-IsCounted held t (spawned pooled teardown) = record {
  counted = refl;
  waiting = tt;
  listed = tt;
}
Reachable-IsCounted held t (registers r) = register-IsCounted _ _ (Reachable-IsCounted _ _ r)
Reachable-IsCounted held t (sends taken frame r) =
    try_send-IsCounted taken frame _ _ (Reachable-IsCounted _ _ r)
Reachable-IsCounted held t (unsent sid h r) =
    mark_dead-IsCounted _ _ (unregister-IsCounted sid _ _ h (Reachable-IsCounted _ _ r))
Reachable-IsCounted held t (waits sid taken waited h r) =
    open_end-IsCounted sid taken waited _ _ h (Reachable-IsCounted _ _ r)
Reachable-IsCounted held t (drops sid graceful taken h r) =
    drop_stream-IsCounted sid graceful taken _ _ h (Reachable-IsCounted _ _ r)
Reachable-IsCounted held t (reads msg taken sent r) =
    demux-IsCounted taken sent (parse_frame msg) _ _ (Reachable-IsCounted _ _ r)
Reachable-IsCounted held t (delivers sid event taken sent r) =
    send_event-IsCounted sid event taken sent _ _ (Reachable-IsCounted _ _ r)
Reachable-IsCounted held t (dies r) = mark_dead-IsCounted _ _ (Reachable-IsCounted _ _ r)
