-- ===== src/Server/Registry.antt =====
-- The registry of a tunnel's streams, over everything that happens to the tunnel in
-- crates/server/src/lib.rs.
use nextppp.Prelude.{ℕ, suc, ◌≤◌, ◌≡◌, arith, refl}
use nextppp.Prelude.{Bool, true, false, ◌==◌, Bool-cases, if_elim, inl, inr}
use nextppp.Prelude.{List, [], ◌∷◌, length, All, has, remove, insert, length-remove}
use nextppp.Prelude.{Option, none, some, Result, ok, err}
use nextppp.Addr.{ProxyAddr, AddrError, decode_addr}
use nextppp.Mux.{
  FrameKind, MuxError, open_stream, reply, stream_data, close, eof, parse_frame, status_ok,
  status_refused,
}
use nextppp.Socks5.{Moved}
use nextppp.Tunnel.{OutFrame, out_frame}
use nextppp.Tunnel.Pumps.{StreamEvent}
use nextppp.Server.{
  ServerStats, ServerTunnel, new_tunnel, send_frame, reject, start_stream, handle_open, bounce,
  Given, at_once, accepted, pump_gone, stalled, give_event, route, demux_frame, message, demux_turn,
  end_task, leave, answer_open, finish_stream, is_full, open_channels,
}

pub ids : List (ℕ × ProxyAddr) → List ℕ
ids [] = []
ids ((stream, addr) ∷ tasks) = stream ∷ ids tasks

-- The tunnel after any sequence of turns of the demultiplexer and steps of the streams' tasks. `turns`
-- is a frame with no other step during its send; where there are some, the send ends as `gives` at
-- any later time.
pub data Reachable (cap : Option ℕ) : ServerTunnel → Type 0 where
  starts : Reachable cap new_tunnel
  turns :
      {t : ServerTunnel} (msg : List ℕ) (taken : Bool) (given : Given)
      → Reachable cap t
      → Reachable cap (demux_turn cap (message msg taken (at_once given)) t).1
  gives :
      {t : ServerTunnel} (stream : ℕ) (event : StreamEvent) (taken : Bool) (given : Given)
      → Reachable cap t
      → Reachable cap (give_event stream event taken given t)
  ends : {t : ServerTunnel} → Reachable cap t → Reachable cap (record t { demuxing = false })
  sends :
      {t : ServerTunnel} (taken : Bool) (frame : OutFrame)
      → Reachable cap t
      → Reachable cap (send_frame taken frame t)
  answers :
      {t : ServerTunnel} (stream : ℕ) (reached taken : Bool) (stats : ServerStats)
      → Reachable cap t
      → Reachable cap (answer_open stream reached taken t stats).1
  finishes :
      {t : ServerTunnel} (stream : ℕ) (moved : Moved) (stats : ServerStats)
      → Reachable cap t
      → Reachable cap (finish_stream stream moved t stats).0

pub Within : Option ℕ → ℕ → Type 0
Within none n = Unit {0}
Within (some max) n = n ≤ max

abbrev Owned : List (ℕ × ProxyAddr) → List ℕ → Type 0
Owned tasks xs = All (λ (x : ℕ). has x (ids tasks) ≡ true) xs

pub record IsKept (cap : Option ℕ) (t : ServerTunnel) : Type 0 where
  pub bounded : Within cap (length t.registry)
  pub owned : All (λ (x : ℕ). has x (ids t.tasks) ≡ true) t.registry

within_none : (cap : Option ℕ) → Within cap 0
unfolding Within
within_none none = tt
within_none (some max) = omega arith

within_less : (cap : Option ℕ) (m n : ℕ) → m ≤ n → Within cap n → Within cap m
unfolding Within
within_less none m n h w = tt
within_less (some max) m n h w = omega (arith, h, w)

within_one_more : (cap : Option ℕ) (m n : ℕ) → m ≤ n → is_full cap n ≡ false → Within cap (suc m)
unfolding Within
within_one_more none m n h room = tt
within_one_more (some max) m n h room = ground arith

has-end_task :
    (x stream : ℕ) (tasks : List (ℕ × ProxyAddr))
    → (stream == x) ≡ false
    → has x (ids tasks) ≡ true
    → has x (ids (end_task stream tasks)) ≡ true
unfolding has ids end_task
has-end_task x stream [] ne h = absurd (cc)
has-end_task x stream ((y, addr) ∷ tasks) ne h =
    let ih : has x (ids tasks) ≡ true → has x (ids (end_task stream tasks)) ≡ true =
      has-end_task x stream tasks ne in
    ground arith

Owned-remove :
    (stream : ℕ) (tasks : List (ℕ × ProxyAddr)) (xs : List ℕ)
    → Owned tasks xs
    → Owned tasks (remove stream xs)
unfolding remove
Owned-remove stream tasks [] w = tt
Owned-remove stream tasks (x ∷ xs) w =
    let rest = Owned-remove stream tasks xs w.1 in
    if_elim (Owned tasks) (stream == x) (remove stream xs) (x ∷ remove stream xs) rest (w.0, rest)

Owned-end_task :
    (stream : ℕ) (tasks : List (ℕ × ProxyAddr)) (xs : List ℕ)
    → Owned tasks xs
    → Owned (end_task stream tasks) (remove stream xs)
unfolding remove
Owned-end_task stream tasks [] w = tt
Owned-end_task stream tasks (x ∷ xs) w = elim (Bool-cases (stream == x)) [
  | inl e ↦ rw e (Owned-end_task stream tasks xs w.1)
  | inr e ↦ rw e (has-end_task x stream tasks e w.0, Owned-end_task stream tasks xs w.1)
]

Owned-more :
    (stream : ℕ) (addr : ProxyAddr) (tasks : List (ℕ × ProxyAddr)) (xs : List ℕ)
    → Owned tasks xs
    → Owned ((stream, addr) ∷ tasks) xs
unfolding has ids
Owned-more stream addr tasks [] w = tt
Owned-more stream addr tasks (x ∷ xs) w =
    let known : has x (ids tasks) ≡ true = w.0 in
    (ground arith, Owned-more stream addr tasks xs w.1)

module _ (cap : Option ℕ) where
  remove-IsKept :
      (stream : ℕ) (t : ServerTunnel)
      → IsKept cap t
      → IsKept cap (record t { registry = remove stream t.registry })
  remove-IsKept stream t k = record {
    bounded = within_less cap _ _ (length-remove stream t.registry) k.bounded;
    owned = Owned-remove stream t.tasks t.registry k.owned;
  }

  send_frame-IsKept :
      (taken : Bool) (frame : OutFrame) (t : ServerTunnel)
      → IsKept cap t
      → IsKept cap (send_frame taken frame t)
  unfolding send_frame
  send_frame-IsKept taken frame t k = record { bounded = k.bounded; owned = k.owned }

  reject-IsKept :
      (stream : ℕ) (taken : Bool) (t : ServerTunnel)
      → IsKept cap t
      → IsKept cap (reject stream taken t)
  unfolding reject
  reject-IsKept stream taken t k = send_frame-IsKept taken _ t k

  start_stream-IsKept :
      (stream : ℕ) (taken : Bool) (r : Result ProxyAddr AddrError) (t : ServerTunnel)
      → is_full cap (length t.registry) ≡ false
      → IsKept cap t
      → IsKept cap (start_stream stream taken r t)
  unfolding start_stream insert has ids
  start_stream-IsKept stream taken (err e) t room k = reject-IsKept stream taken t k
  start_stream-IsKept stream taken (ok addr) t room k =
      let own : has stream (stream ∷ ids t.tasks) ≡ true = ground arith in
      record {
        bounded = within_one_more cap _ _ (length-remove stream t.registry) room;
        owned = (
          own,
          Owned-more stream addr t.tasks (remove stream t.registry)
              (Owned-remove stream t.tasks t.registry k.owned),
        );
      }

  handle_open-IsKept :
      (stream : ℕ) (payload : List ℕ) (taken : Bool) (t : ServerTunnel)
      → IsKept cap t
      → IsKept cap (handle_open cap stream payload taken t)
  unfolding handle_open
  handle_open-IsKept stream payload taken t k =
      let no = reject-IsKept stream taken t k in
      let started : ServerTunnel = start_stream stream taken (decode_addr payload) t in
      elim (Bool-cases (is_full cap (length t.registry))) [
        | inl full ↦ rw full (if_elim (IsKept cap) (has stream t.registry) _ _ no no)
        | inr room ↦ rw room (
            if_elim (IsKept cap) (has stream t.registry) (reject stream taken t) started no
              (start_stream-IsKept stream taken (decode_addr payload) t room k))
      ]

  give_event-IsKept :
      (stream : ℕ) (event : StreamEvent) (taken : Bool) (given : Given) (t : ServerTunnel)
      → IsKept cap t
      → IsKept cap (give_event stream event taken given t)
  unfolding give_event bounce
  give_event-IsKept stream event taken accepted t k = record {
    bounded = k.bounded;
    owned = k.owned;
  }
  give_event-IsKept stream event taken pump_gone t k =
      reject-IsKept stream taken _ (remove-IsKept stream t k)
  give_event-IsKept stream event taken stalled t k =
      reject-IsKept stream taken _ (remove-IsKept stream t k)

  route-IsKept :
      (stream : ℕ) (event : StreamEvent) (taken : Bool) (given : Given) (t : ServerTunnel)
      → IsKept cap t
      → IsKept cap (route stream event taken (at_once given) t)
  unfolding route
  route-IsKept stream event taken given t k =
      if_elim (IsKept cap) (has stream t.registry) _ _
        (give_event-IsKept stream event taken given t k) (reject-IsKept stream taken t k)

  demux_frame-IsKept :
      (taken : Bool) (given : Given) (r : Result (FrameKind × ℕ × List ℕ) MuxError)
      (t : ServerTunnel)
      → IsKept cap t
      → IsKept cap (demux_frame cap taken (at_once given) r t).1
  unfolding demux_frame
  demux_frame-IsKept taken given (ok (open_stream, stream, payload)) t k =
      handle_open-IsKept stream payload taken t k
  demux_frame-IsKept taken given (ok (stream_data, stream, payload)) t k =
      route-IsKept stream _ taken given t k
  demux_frame-IsKept taken given (ok (eof, stream, payload)) t k =
      route-IsKept stream _ taken given t k
  demux_frame-IsKept taken given (ok (close, stream, payload)) t k = remove-IsKept stream t k
  demux_frame-IsKept taken given (ok (reply, stream, payload)) t k = k
  demux_frame-IsKept taken given (err e) t k = k

  leave-IsKept : (stream : ℕ) (t : ServerTunnel) → IsKept cap t → IsKept cap (leave stream t)
  unfolding leave
  leave-IsKept stream t k = record {
    bounded = within_less cap _ _ (length-remove stream t.registry) k.bounded;
    owned = Owned-end_task stream t.tasks t.registry k.owned;
  }

  answer_open-IsKept :
      (stream : ℕ) (reached taken : Bool) (t : ServerTunnel) (stats : ServerStats)
      → IsKept cap t
      → IsKept cap (answer_open stream reached taken t stats).1
  unfolding answer_open
  answer_open-IsKept stream true true t stats k = send_frame-IsKept true _ t k
  answer_open-IsKept stream true false t stats k =
      leave-IsKept stream _ (send_frame-IsKept false (out_frame reply stream (status_ok ∷ [])) t k)
  answer_open-IsKept stream false taken t stats k =
      leave-IsKept stream _
        (send_frame-IsKept taken (out_frame reply stream (status_refused ∷ [])) t k)

  -- Whatever happens on a tunnel: the registry never holds more streams than the limit, and every
  -- stream in it has a task that runs. So the registry is empty when the tasks are over.
  pub Reachable-IsKept : (t : ServerTunnel) → Reachable cap t → IsKept cap t
  unfolding new_tunnel demux_turn finish_stream Within
  Reachable-IsKept t starts = record { bounded = within_none cap; owned = tt }
  Reachable-IsKept t (turns msg taken given r) =
      demux_frame-IsKept taken given (parse_frame msg) _ (Reachable-IsKept _ r)
  Reachable-IsKept t (gives stream event taken given r) =
      give_event-IsKept stream event taken given _ (Reachable-IsKept _ r)
  Reachable-IsKept t (ends r) =
      let k = Reachable-IsKept _ r in record { bounded = k.bounded; owned = k.owned }
  Reachable-IsKept t (sends taken frame r) = send_frame-IsKept taken frame _ (Reachable-IsKept _ r)
  Reachable-IsKept t (answers stream reached taken stats r) =
      answer_open-IsKept stream reached taken _ stats (Reachable-IsKept _ r)
  Reachable-IsKept t (finishes stream moved stats r) = leave-IsKept stream _ (Reachable-IsKept _ r)

-- Where the demultiplexer ends while some stream's task still runs, that task's hold on the registry
-- keeps the senders of all listed streams.
pub open_channels_kept :
    (t : ServerTunnel) (task : ℕ × ProxyAddr) (tasks : List (ℕ × ProxyAddr))
    → t.tasks ≡ task ∷ tasks
    → open_channels (record t { demuxing = false }) ≡ t.registry
unfolding open_channels
open_channels_kept t task tasks running = rw running refl
