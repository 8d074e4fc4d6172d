-- ===== src/Connection.antt =====
-- A transmission over a duplex transport and its handshake, the rest of
-- crates/core/src/transmission.rs. A step returns the result and the transmission after it.
pub mod Ids
pub mod Words
pub mod Agreement
mod Tests
use nextppp.Prelude.{
  ℕ, zero, suc, ◌*◌, ◌+◌, ◌-◌, ◌/◌, ◌%◌, ◌^◌, bit_and, bit_or, ◌==◌, leb, if◌then◌else◌, Bool, true,
  false, not, ◌&&◌,
}
use nextppp.Prelude.{Option, none, some, List, [], ◌∷◌, ◌++◌, length, take, Result, ok, err}
use nextppp.Errors.{
  Error, ErrorKind, io, handshake_failed, flags_mismatch, role_refused, invalid_session_id, Rng,
}
use nextppp.Cipher.{Backend}
use nextppp.Base94.Defs.{Codec, Reader}
use nextppp.Key.{ObfuscationKey}
use nextppp.Handshake.{
  SessionRole, mux_tunnel, bond_link, SessionPacket, dummy, session, role_tag, role_from_ivv,
}
use nextppp.Handshake.{flag_canary, canary_magic, canary_magic_mask, nop_rounds, max_nop_packets}
use nextppp.Handshake.{pack_session_id, unpack_session_id}
use nextppp.Transmission.{
  RxCore, TxCore, new_tx, new_rx, encrypt_impl, read_buf, rekey_tx, rekey_rx,
}
use nextppp.Transmission.{on_handshake_complete_tx, on_handshake_complete_rx}

-- The write side of the transport: what was written, and how many more bytes it takes before writing
-- fails, with what. A write that fails puts what still goes, and nothing goes from then on.
pub record Writer : Type 0 where
  pub written : List ℕ
  pub broken : Option (ℕ × ErrorKind)

unfoldable pub write_result :
    List ℕ → Writer → Option (ℕ × ErrorKind) → Result (Unit {0}) Error × Writer
write_result wire w none = (ok tt, record w { written = w.written ++ wire })
write_result wire w (some (room, kind)) =
    if leb (length wire) room
    then (ok tt, record w { written = w.written ++ wire; broken = some (room - length wire, kind) })
    else (
      err (io kind),
      record w { written = w.written ++ take room wire; broken = some (0, kind) },
    )

unfoldable pub write_all : List ℕ → Writer → Result (Unit {0}) Error × Writer
write_all wire w = write_result wire w w.broken

unfoldable pub is_mux : SessionRole → Bool
is_mux mux_tunnel = true
is_mux bond_link = false

unfoldable pub differ : Bool → Bool → Bool
differ true echo = not echo
differ false echo = echo

unfoldable pub effective_role : SessionRole → Bool → SessionRole
effective_role mux_tunnel allow_bond = mux_tunnel
effective_role bond_link allow_bond = if allow_bond then bond_link else mux_tunnel

-- The parity of nmux is the role's echo.
unfoldable pub echo_role : SessionRole → ℕ → ℕ
echo_role mux_tunnel nmux = bit_or nmux 1
echo_role bond_link nmux = bit_and nmux (2 ^ 128 - 2)

module _ (b : Backend) (c : Codec) (g : Rng) where
  pub record Transmission : Type 0 where
    pub tx : TxCore b c g
    pub rx : RxCore
    pub writer : Writer
    pub reader : Reader
    pub session_id : ℕ
    pub pending : Option (ℕ × SessionRole)

  abbrev pub with_rng : ObfuscationKey → g.State → Writer → Reader → Transmission
  with_rng key rng writer reader = record {
    tx = new_tx b c g key rng;
    rx = new_rx b key;
    writer = writer;
    reader = reader;
    session_id = 0;
    pending = none;
  }

  -- `?` between two steps.
  abbrev pub and_step :
      {A B : Type 0}
      → Result A Error × Transmission
      → (A → Transmission → Result B Error × Transmission)
      → Result B Error × Transmission
  and_step (ok a, t) next = next a t
  and_step (err e, t) next = (err e, t)

  pub put_wire :
      Transmission → Result (List ℕ) Error × TxCore b c g → Result (Unit {0}) Error × Transmission
  put_wire t (err e, tx) = (err e, record t { tx = tx })
  put_wire t (ok wire, tx) =
      let (result, writer) = write_all wire t.writer in
      (result, record t { tx = tx; writer = writer })

  pub write : Transmission → List ℕ → Result (Unit {0}) Error × Transmission
  write t plaintext = put_wire t (encrypt_impl b c g t.tx [] plaintext)

  pub send_session_id : Transmission → ℕ → Result (Unit {0}) Error × Transmission
  send_session_id t id =
      let (packet, rng) = pack_session_id g t.tx.key id t.tx.rng in
      write (record t { tx = record t.tx { rng = rng } }) packet

  pub send_noise : ℕ → Transmission → Result (Unit {0}) Error × Transmission
  send_noise zero t = (ok tt, t)
  send_noise (suc rounds) t = and_step (send_session_id t 0) λ _ t'. send_noise rounds t'

  pub handshake_prelude : Transmission → Result (Unit {0}) Error × Transmission
  handshake_prelude t =
      let (rounds, rng) = nop_rounds g t.tx.key t.tx.rng in
      send_noise rounds (record t { tx = record t.tx { rng = rng } })

  pub read : Transmission → Result (List ℕ) Error × Transmission
  read t =
      let (message, rx, reader) = read_buf b c t.rx t.reader in
      (message, record t { rx = rx; reader = reader })

  pub read_packet : Transmission → Result SessionPacket Error × Transmission
  read_packet t = and_step (read t) λ packet t'. (unpack_session_id t'.rx.key packet, t')

  -- What is done with a packet: noise is skipped.
  pub take_id :
      (Transmission → Result ℕ Error × Transmission)
      → Result SessionPacket Error × Transmission
      → Result ℕ Error × Transmission
  take_id skip (err e, t) = (err e, t)
  take_id skip (ok dummy, t) = skip t
  take_id skip (ok (session id), t) = (ok id, t)

  pub receive_id : ℕ → Transmission → Result ℕ Error × Transmission
  receive_id zero t =
      take_id (λ t'. (err (handshake_failed "too many dummy packets"), t')) (read_packet t)
  receive_id (suc budget) t = take_id (λ t'. receive_id budget t') (read_packet t)

  pub read_session_id : Transmission → Result ℕ Error × Transmission
  read_session_id t = receive_id (max_nop_packets t.tx.key) t

  pub sent_ivv : SessionRole → ℕ → Transmission → Result (Unit {0}) Error × Transmission
  sent_ivv role ivv t = (
    ok tt,
    record t {
      tx = on_handshake_complete_tx b c g (rekey_tx b c g t.tx ivv);
      pending = some (ivv, role);
    },
  )

  pub handshake_client_send : Transmission → SessionRole → Result (Unit {0}) Error × Transmission
  handshake_client_send t role = and_step (handshake_prelude t) λ _ t1.
      let (nonce, rng) = g.bits 64 t1.tx.rng in
      let ivv = bit_or (role_tag role * 2 ^ 64) nonce in
      and_step (send_session_id (record t1 { tx = record t1.tx { rng = rng } }) ivv)
        λ _ t2. sent_ivv role ivv t2

  -- The checks on the server's nmux, and the switch to the data plane.
  pub confirm_nmux : ℕ → SessionRole → ℕ → ℕ → Transmission → Result ℕ Error × Transmission
  confirm_nmux ivv role sid nmux t =
      let high = nmux / 2 ^ 64 % 2 ^ 64 in
      let marked = bit_and high canary_magic_mask == canary_magic in
      if nmux == 0
      then (err (handshake_failed "nmux is zero"), t)
      else if marked && not (high == flag_canary t.tx.key)
      then (err flags_mismatch, t)
      else if differ (bit_and nmux 1 == 1) (is_mux role)
      then (err role_refused, t)
      else (
        ok sid,
        record t { rx = on_handshake_complete_rx (rekey_rx b t.rx ivv); session_id = sid },
      )

  pub confirm_pending : Transmission → Option (ℕ × SessionRole) → Result ℕ Error × Transmission
  confirm_pending t none = (err (handshake_failed "confirm without send phase"), t)
  confirm_pending t (some (ivv, role)) = and_step (read_session_id t) λ sid t1.
      if sid == 0
      then (err (handshake_failed "server session id is zero"), t1)
      else (and_step (read_session_id t1) λ nmux t2. confirm_nmux ivv role sid nmux t2)

  pub handshake_client_confirm : Transmission → Result ℕ Error × Transmission
  handshake_client_confirm t = confirm_pending (record t { pending = none }) t.pending

  pub handshake_client : Transmission → SessionRole → Result ℕ Error × Transmission
  handshake_client t role =
      and_step (handshake_client_send t role) λ _ t'. handshake_client_confirm t'

  pub accept_ivv : ℕ → Bool → ℕ → Transmission → Result SessionRole Error × Transmission
  accept_ivv session_id allow_bond ivv t =
      let role = effective_role (role_from_ivv ivv) allow_bond in
      let (low, rng) = g.bits 64 t.tx.rng in
      let nmux = echo_role role (bit_or (flag_canary t.tx.key * 2 ^ 64) low) in
      if ivv == 0
      then (err (handshake_failed "client ivv is zero"), t)
      else (and_step (send_session_id (record t { tx = record t.tx { rng = rng } }) nmux) λ _ t'. (
        ok role,
        record t' {
          tx = on_handshake_complete_tx b c g (rekey_tx b c g t'.tx ivv);
          rx = on_handshake_complete_rx (rekey_rx b t'.rx ivv);
          session_id = session_id;
        },
      ))

  pub handshake_server : Transmission → ℕ → Bool → Result SessionRole Error × Transmission
  handshake_server t session_id allow_bond =
      if session_id == 0
      then (err invalid_session_id, t)
      else (and_step (handshake_prelude t) λ _ t1.
          and_step (send_session_id t1 session_id)
            λ _ t2. and_step (read_session_id t2) λ ivv t3. accept_ivv session_id allow_bond ivv t3)
