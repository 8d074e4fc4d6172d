-- ===== src/Connection/Ids.antt =====
-- What a peer sends of session ids is what the other receives, past the noise.
use nextppp.Prelude.{
  ℕ, zero, suc, ◌+◌, ◌-◌, ◌^◌, ◌≤◌, ◌<◌, ◌≡◌, arith, refl, sym, ap, ◌∙◌, ◌==◌, false,
}
use nextppp.Prelude.{Option, none, List, [], ◌++◌, Result, ok, append_assoc, append-nil}
use nextppp.Errors.{Error, ErrorKind, Rng}
use nextppp.Cipher.{Backend}
use nextppp.Base94.Defs.{Codec}
use nextppp.Key.{ObfuscationKey, validate}
use nextppp.Handshake.{pack_session_id, nop_rounds, max_nop_packets}
use nextppp.Handshake.Packets.{pack_session_id_bounds}
use nextppp.Handshake.SessionIds.{announced, unpack_session_id-pack_session_id}
use nextppp.Handshake.Nops.{nop_rounds_bounds}
use nextppp.Transmission.{RxCore, TxCore}
use nextppp.Transmission.Linked.{Linked}
use nextppp.Transmission.RoundTrip.{encrypt_impl-Delivered}
use nextppp.Connection.{
  Transmission, write_all, write_result, and_step, put_wire, write, send_session_id, send_noise,
}
use nextppp.Connection.{handshake_prelude, read, read_packet, take_id, receive_id, read_session_id}

module _ (b : Backend) (c : Codec) (g : Rng) where
  -- A transmission that reads, with another core and other bytes to read.
  unfoldable pub reading :
      Transmission b c g → RxCore → List ℕ → Option ErrorKind → Transmission b c g
  reading t rx bytes finish = record t {
    rx = rx;
    reader = record { bytes = bytes; finish = finish };
  }

  unfoldable pub with_state : TxCore b c g → g.State → TxCore b c g
  with_state tx rng = record tx { rng = rng }

  pub reseeded-Linked :
      (tx : TxCore b c g) (rx : RxCore) (rng : g.State)
      → Linked b c g tx rx
      → Linked b c g (with_state tx rng) rx
  unfolding with_state
  reseeded-Linked tx rx rng l = record {
    same_key = l.same_key;
    kf_fits = l.kf_fits;
    protocols = l.protocols;
    transports = l.transports;
    same_stage = l.same_stage;
    framer_ok = l.framer_ok;
    framers = l.framers;
  }

  -- A transmission after `wire` went out.
  unfoldable pub after_send : Transmission b c g → List ℕ → TxCore b c g → Transmission b c g
  after_send s wire tx = record s {
    tx = tx;
    writer = record s.writer { written = s.writer.written ++ wire };
  }

  wire_put :
      (t : Transmission b c g) (wire : List ℕ) (tx : TxCore b c g)
      {r : Result (List ℕ) Error × TxCore b c g}
      → t.writer.broken ≡ none
      → r ≡ (ok wire, tx)
      → put_wire b c g t r ≡ (ok tt, after_send t wire tx)
  unfolding put_wire write_all after_send
  wire_put t wire tx intact e = rw e (rw intact (unfold write_result in refl))

  -- One packet of `id` goes out, and a linked core reads what it announces.
  pub record OnePacket (s : Transmission b c g) (rx : RxCore) (id : ℕ) : Type 0 where
    pub wire : List ℕ
    pub tx_after : TxCore b c g
    pub rx_after : RxCore
    pub sent : send_session_id b c g s id ≡ (ok tt, after_send s wire tx_after)
    pub linked : Linked b c g tx_after rx_after
    pub key_kept : tx_after.key ≡ s.tx.key
    pub received :
        (t : Transmission b c g) (more : List ℕ) (finish : Option ErrorKind)
        → read_packet b c g (reading t rx (wire ++ more) finish)
          ≡ (ok (announced id), reading t rx_after more finish)

  pub one_packet :
      (s : Transmission b c g) (rx : RxCore) (id : ℕ)
      → Linked b c g s.tx rx
      → s.writer.broken ≡ none
      → id < 2 ^ 128
      → OnePacket s rx id
  one_packet s rx id l intact h =
      let packed : List ℕ × g.State = pack_session_id g s.tx.key id s.tx.rng in
      let (least, most, bytes) = pack_session_id_bounds g s.tx.key id s.tx.rng in
      let d =
        encrypt_impl-Delivered b c g (with_state s.tx packed.1) rx [] packed.0
          (reseeded-Linked s.tx rx packed.1 l) bytes (omega (arith, least)) (omega (arith, most)) in
      record {
        wire = d.wire;
        tx_after = d.tx_after;
        rx_after = d.rx_after;
        sent =
            unfold send_session_id write with_state after_send in
            wire_put _ d.wire d.tx_after intact d.sent;
        linked = d.linked;
        key_kept = d.key_kept ∙ (unfold with_state in refl);
        received = λ t more finish.
            unfold read_packet read reading in
            rw
              (
                d.streamed more finish,
                unpack_session_id-pack_session_id g s.tx.key d.rx_after.key id s.tx.rng h,
              )
              refl;
      }

  -- Noise of `n` packets goes out, and is skipped within any budget of at least `n`.
  pub record Noise (s : Transmission b c g) (rx : RxCore) (n : ℕ) : Type 0 where
    pub wire : List ℕ
    pub tx_after : TxCore b c g
    pub rx_after : RxCore
    pub sent : send_noise b c g n s ≡ (ok tt, after_send s wire tx_after)
    pub linked : Linked b c g tx_after rx_after
    pub key_kept : tx_after.key ≡ s.tx.key
    pub skipped :
        (t : Transmission b c g) (more : List ℕ) (finish : Option ErrorKind) (budget left : ℕ)
        → budget ≡ n + left
        → receive_id b c g budget (reading t rx (wire ++ more) finish)
          ≡ receive_id b c g left (reading t rx_after more finish)

  -- A noise packet costs one of the budget.
  skip_one :
      (s : Transmission b c g) (rx : RxCore) (one : OnePacket s rx 0) (t : Transmission b c g)
      (more : List ℕ) (finish : Option ErrorKind) (budget left : ℕ)
      → budget ≡ suc left
      → receive_id b c g budget (reading t rx (one.wire ++ more) finish)
        ≡ receive_id b c g left (reading t one.rx_after more finish)
  unfolding receive_id
  skip_one s rx one t more finish zero left e = absurd (omega arith)
  skip_one s rx one t more finish (suc budget) left e = rw (one.received t more finish) (
      unfold take_id announced in
      ap (λ (k : ℕ). receive_id b c g k (reading t one.rx_after more finish)) {x = budget}
        {y = left} (omega (arith, e)))

  -- Two writes are one of both wires.
  two_writes :
      (s : Transmission b c g) (xs ys : List ℕ) (tx1 tx2 : TxCore b c g)
      → after_send (after_send s xs tx1) ys tx2 ≡ after_send s (xs ++ ys) tx2
  unfolding after_send
  two_writes s xs ys tx1 tx2 =
      ap {B = Transmission b c g}
        (λ (l : List ℕ). record s { tx = tx2; writer = record s.writer { written = l } })
        (append_assoc s.writer.written xs ys)

  no_write : (s : Transmission b c g) → s ≡ after_send s [] s.tx
  unfolding after_send
  no_write s =
      ap {B = Transmission b c g}
        (λ (l : List ℕ). record s { writer = record s.writer { written = l } })
        (sym (append-nil s.writer.written))

  abbrev Outcome : Type 0
  Outcome = Result (Unit {0}) Error × Transmission b c g

  pub noise :
      (n : ℕ) (s : Transmission b c g) (rx : RxCore)
      → Linked b c g s.tx rx
      → s.writer.broken ≡ none
      → Noise s rx n
  unfolding send_noise
  noise zero s rx l intact = record {
    wire = [];
    tx_after = s.tx;
    rx_after = rx;
    sent = ap {B = Outcome} (λ t. (ok tt, t)) (no_write s);
    linked = l;
    key_kept = refl;
    skipped = λ t more finish budget left e.
        ap (λ (k : ℕ). receive_id b c g k (reading t rx more finish)) {x = budget} {y = left}
          (omega (arith, e));
  }
  noise (suc n) s rx l intact =
      let one = one_packet s rx 0 l intact (omega arith) in
      let s1 : Transmission b c g = after_send s one.wire one.tx_after in
      let rest = noise n s1 one.rx_after (tx_linked one) (still_intact one) in
      record {
        wire = one.wire ++ rest.wire;
        tx_after = rest.tx_after;
        rx_after = rest.rx_after;
        sent =
            rw (one.sent, rest.sent)
              (ap {B = Outcome} (λ t. (ok tt, t))
                (two_writes s one.wire rest.wire one.tx_after rest.tx_after));
        linked = rest.linked;
        key_kept = rest.key_kept ∙ same one;
        skipped = λ t more finish budget left e.
            ap (λ (l : List ℕ). receive_id b c g budget (reading t rx l finish))
              (append_assoc one.wire rest.wire more)
            ∙ skip_one s rx one t (rest.wire ++ more) finish budget (n + left) (omega (arith, e))
            ∙ rest.skipped t more finish (n + left) left refl;
      }
    where
      still_intact :
          (one : OnePacket s rx 0) → (after_send s one.wire one.tx_after).writer.broken ≡ none
      still_intact one = unfold after_send in intact

      tx_linked :
          (one : OnePacket s rx 0)
          → Linked b c g (after_send s one.wire one.tx_after).tx one.rx_after
      tx_linked one = unfold after_send in one.linked

      same : (one : OnePacket s rx 0) → (after_send s one.wire one.tx_after).tx.key ≡ s.tx.key
      same one = unfold after_send in one.key_kept

  -- An id is received at any budget.
  take_one :
      (s : Transmission b c g) (rx : RxCore) (id : ℕ) (one : OnePacket s rx id)
      (t : Transmission b c g) (more : List ℕ) (finish : Option ErrorKind) (budget : ℕ)
      → 1 ≤ id
      → receive_id b c g budget (reading t rx (one.wire ++ more) finish)
        ≡ (ok id, reading t one.rx_after more finish)
  unfolding receive_id announced
  take_one s rx id one t more finish zero low =
      rw (one.received t more finish, positive id low) (unfold take_id in refl)
    where
      positive : (n : ℕ) → 1 ≤ n → (n == 0) ≡ false
      positive n h = ground arith
  take_one s rx id one t more finish (suc budget) low =
      rw (one.received t more finish, positive id low) (unfold take_id in refl)
    where
      positive : (n : ℕ) → 1 ≤ n → (n == 0) ≡ false
      positive n h = ground arith

  -- A single id is received with nothing skipped.
  pub id_received :
      (s : Transmission b c g) (rx : RxCore) (id : ℕ) (one : OnePacket s rx id)
      (t : Transmission b c g) (more : List ℕ) (finish : Option ErrorKind)
      → 1 ≤ id
      → read_session_id b c g (reading t rx (one.wire ++ more) finish)
        ≡ (ok id, reading t one.rx_after more finish)
  unfolding read_session_id
  id_received s rx id one t more finish low = take_one s rx id one t more finish _ low

  -- The prelude goes out as noise that a peer with the same key has the budget for.
  pub prelude :
      (s : Transmission b c g) (rx : RxCore)
      → Linked b c g s.tx rx
      → s.writer.broken ≡ none
      → Noise
          (record s { tx = with_state s.tx (nop_rounds g s.tx.key s.tx.rng).1 })
          rx
          (nop_rounds g s.tx.key s.tx.rng).0
  prelude s rx l intact =
      let rounds : ℕ × g.State = nop_rounds g s.tx.key s.tx.rng in
      noise rounds.0 (record s { tx = with_state s.tx rounds.1 }) rx
        (reseeded-Linked s.tx rx rounds.1 l) intact

  -- An id that follows the prelude is received past the noise.
  pub received_after_prelude :
      (s : Transmission b c g) (rx : RxCore) (l : Linked b c g s.tx rx)
      (intact : s.writer.broken ≡ none) (s1 : Transmission b c g) (id : ℕ)
      (one : OnePacket s1 (prelude s rx l intact).rx_after id) (t : Transmission b c g)
      (more : List ℕ) (finish : Option ErrorKind)
      → validate s.tx.key ≡ ok tt
      → t.tx.key ≡ s.tx.key
      → 1 ≤ id
      → read_session_id b c g
          (reading t rx (((prelude s rx l intact).wire ++ one.wire) ++ more) finish)
        ≡ (ok id, reading t one.rx_after more finish)
  received_after_prelude s rx l intact s1 id one t more finish valid same low =
      let rounds : ℕ × g.State = nop_rounds g s.tx.key s.tx.rng in
      let budget : ℕ = max_nop_packets s.tx.key in
      let budget_fits = nop_rounds_bounds g s.tx.key s.tx.rng valid in
      let before = prelude s rx l intact in
      let left : ℕ = budget - rounds.0 in
      unfold read_session_id reading in
      (ap
          (λ (k : ObfuscationKey).
            receive_id b c g (max_nop_packets k)
              (reading t rx ((before.wire ++ one.wire) ++ more) finish))
          same
        ∙ ap (λ (w : List ℕ). receive_id b c g budget (reading t rx w finish))
            (append_assoc before.wire one.wire more)
        ∙ before.skipped t (one.wire ++ more) finish budget left (omega (arith, budget_fits))
        ∙ take_one s1 before.rx_after id one t more finish left low)

  -- What a peer that opens with `id` sends, and what the other receives.
  pub record Opened (s : Transmission b c g) (rx : RxCore) (id : ℕ) : Type 0 where
    pub wire : List ℕ
    pub tx_after : TxCore b c g
    pub rx_after : RxCore
    pub sent :
        and_step b c g (handshake_prelude b c g s) (λ _ t. send_session_id b c g t id)
        ≡ (ok tt, after_send s wire tx_after)
    pub linked : Linked b c g tx_after rx_after
    pub key_kept : tx_after.key ≡ s.tx.key
    pub received :
        (t : Transmission b c g) (more : List ℕ) (finish : Option ErrorKind)
        → t.tx.key ≡ s.tx.key
        → read_session_id b c g (reading t rx (wire ++ more) finish)
          ≡ (ok id, reading t rx_after more finish)

  -- From linked cores, over a transport that takes what is written, and under a valid key: the
  -- noise prelude and an id from 1 to 2 ^ 128 - 1 are sent. A peer of the same key skips the noise
  -- within its budget, receives the id, leaves the later bytes, and the cores are linked again.
  pub opened :
      (s : Transmission b c g) (rx : RxCore) (id : ℕ)
      → Linked b c g s.tx rx
      → s.writer.broken ≡ none
      → validate s.tx.key ≡ ok tt
      → 1 ≤ id
      → id < 2 ^ 128
      → Opened s rx id
  opened s rx id l intact valid low high =
      let rounds : ℕ × g.State = nop_rounds g s.tx.key s.tx.rng in
      let s0 : Transmission b c g = record s { tx = with_state s.tx rounds.1 } in
      let before = prelude s rx l intact in
      let s1 : Transmission b c g = after_send s0 before.wire before.tx_after in
      let kept : before.tx_after.key ≡ s.tx.key = unfold with_state in before.key_kept in
      let s1_kept : s1.tx.key ≡ s.tx.key = unfold after_send in kept in
      let one =
        one_packet s1 before.rx_after id (unfold after_send in before.linked)
          (unfold after_send in intact) high in
      record {
        wire = before.wire ++ one.wire;
        tx_after = one.tx_after;
        rx_after = one.rx_after;
        sent =
            unfold handshake_prelude with_state in
            rw (before.sent, one.sent)
              (ap {B = Outcome} (λ t. (ok tt, t))
                (two_writes s0 before.wire one.wire before.tx_after one.tx_after
                  ∙ (unfold after_send in refl)));
        linked = one.linked;
        key_kept = one.key_kept ∙ s1_kept;
        received = λ t more finish same.
            received_after_prelude s rx l intact s1 id one t more finish valid same low;
      }
