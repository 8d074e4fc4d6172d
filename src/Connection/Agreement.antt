-- ===== src/Connection/Agreement.antt =====
-- A client and a server of one key complete the handshake with each other.
use nextppp.Prelude.{ℕ, ◌*◌, ◌/◌, ◌^◌, ◌≤◌, ◌<◌, ◌≡◌, bit_or, bit_and, ◌==◌}
use nextppp.Prelude.{Option, none, some, List, ◌++◌, ok, Bool, false}
use nextppp.Errors.{ErrorKind, Rng}
use nextppp.Cipher.{Backend}
use nextppp.Base94.Defs.{Codec}
use nextppp.Key.{validate}
use nextppp.Handshake.{SessionRole, role_tag, nop_rounds, flag_canary}
use nextppp.Handshake.Canary.{ivv_bounds}
use nextppp.Transmission.{rekey_tx, rekey_rx, on_handshake_complete_tx, on_handshake_complete_rx}
use nextppp.Transmission.Linked.{Linked, IsRekeyedTx, IsRekeyedRx}
use nextppp.Connection.{Transmission}
use nextppp.Connection.{handshake_client_send, handshake_client_confirm, handshake_server}
use nextppp.Connection.{effective_role, echo_role, is_mux, differ}
use nextppp.Connection.Ids.{
  reading, with_state, after_send, OnePacket, one_packet, Noise, prelude, reseeded-Linked,
}
use nextppp.Connection.Words.{nmux_lem}

-- The handshake of the two ends, `more` bytes following the client's packets at the server.
pub record Agreed (b : Backend) (c : Codec) (g : Rng) (client server : Transmission b c g)
    (role : SessionRole) (sid : ℕ) (allow_bond : Bool) (more : List ℕ) (finish : Option ErrorKind)
    : Type 0 where
  pub client_bytes : List ℕ
  pub server_bytes : List ℕ
  pub client_sent : Transmission b c g
  pub server_done : Transmission b c g
  pub client_done : List ℕ → Option ErrorKind → Transmission b c g
  pub sends : handshake_client_send b c g client role ≡ (ok tt, client_sent)
  pub client_wrote : client_sent.writer.written ≡ client.writer.written ++ client_bytes
  pub serves :
      handshake_server b c g
        (reading b c g server server.rx (client_bytes ++ more) finish)
        sid
        allow_bond
      ≡ (ok (effective_role role allow_bond), server_done)
  pub server_wrote : server_done.writer.written ≡ server.writer.written ++ server_bytes
  pub server_left : server_done.reader ≡ record { bytes = more; finish = finish }
  pub server_session : server_done.session_id ≡ sid
  pub confirms :
      (later : List ℕ) (end : Option ErrorKind)
      → effective_role role allow_bond ≡ role
      → handshake_client_confirm b c g
          (reading b c g client_sent client.rx (server_bytes ++ later) end)
        ≡ (ok sid, client_done later end)
  pub up : Linked b c g client_sent.tx server_done.rx
  pub down :
      (later : List ℕ) (end : Option ErrorKind)
      → Linked b c g server_done.tx (client_done later end).rx
  pub ivv : ℕ
  pub client_rekeyed : IsRekeyedTx b c g ivv client_sent.tx
  pub server_rekeyed : IsRekeyedRx b ivv server_done.rx × IsRekeyedTx b c g ivv server_done.tx
  pub client_read_rekeyed :
      (later : List ℕ) (end : Option ErrorKind) → IsRekeyedRx b ivv (client_done later end).rx

module _ (b : Backend) (c : Codec) (g : Rng) (client server : Transmission b c g)
    (role : SessionRole) (up : Linked b c g client.tx server.rx)
    (intact : client.writer.broken ≡ none) where
  -- The client's noise, its ivv and the packet of it.
  client_noise :
      Noise b c g
        (record client {
          tx = with_state b c g client.tx (nop_rounds g client.tx.key client.tx.rng).1;
        })
        server.rx
        (nop_rounds g client.tx.key client.tx.rng).0
  client_noise = prelude b c g client server.rx up intact

  nonce : ℕ × g.State
  nonce = g.bits 64 client_noise.tx_after.rng

  pub ivv : ℕ
  ivv = bit_or (role_tag role * 2 ^ 64) nonce.0

  ivv_fits : (1 ≤ ivv) × (ivv < 2 ^ 128)
  unfolding ivv nonce
  ivv_fits =
      ivv_bounds role (g.bits 64 client_noise.tx_after.rng).0
        (g.bits-lt 64 client_noise.tx_after.rng)

  quiet_client : Transmission b c g
  quiet_client = record client {
    tx = with_state b c g client_noise.tx_after nonce.1;
    writer = record client.writer { written = client.writer.written ++ client_noise.wire };
  }

  ivv_packet : OnePacket b c g quiet_client client_noise.rx_after ivv
  ivv_packet =
      one_packet b c g quiet_client client_noise.rx_after ivv
        (unfold quiet_client in
          reseeded-Linked b c g client_noise.tx_after client_noise.rx_after nonce.1
            client_noise.linked)
        (unfold quiet_client in intact) ivv_fits.1

  pub client_wire : List ℕ
  client_wire = client_noise.wire ++ ivv_packet.wire

  pub client_after : Transmission b c g
  client_after = record (after_send b c g quiet_client ivv_packet.wire ivv_packet.tx_after) {
    tx = on_handshake_complete_tx b c g (rekey_tx b c g ivv_packet.tx_after ivv);
    pending = some (ivv, role);
  }

  module _ (down : Linked b c g server.tx client.rx) (whole : server.writer.broken ≡ none)
      (valid : validate client.tx.key ≡ ok tt) (same : server.tx.key ≡ client.tx.key) (sid : ℕ)
      (low : 1 ≤ sid) (high : sid < 2 ^ 128) (allow_bond : Bool) (more : List ℕ)
      (finish : Option ErrorKind) where
    -- The server with the client's bytes to read.
    pub served : Transmission b c g
    served = reading b c g server server.rx (client_wire ++ more) finish

    server_noise :
        Noise b c g
          (record served {
            tx = with_state b c g server.tx (nop_rounds g server.tx.key server.tx.rng).1;
          })
          client.rx
          (nop_rounds g server.tx.key server.tx.rng).0
    unfolding served reading
    server_noise = prelude b c g served client.rx down whole

    announced_server : Transmission b c g
    announced_server =
        after_send b c g
          (record served {
            tx = with_state b c g server.tx (nop_rounds g server.tx.key server.tx.rng).1;
          })
          server_noise.wire server_noise.tx_after

    sid_packet : OnePacket b c g announced_server server_noise.rx_after sid
    sid_packet =
        one_packet b c g announced_server server_noise.rx_after sid
          (unfold announced_server after_send in server_noise.linked)
          (unfold announced_server after_send served reading in whole) high

    -- After the server's id, and after the client's ivv.
    waiting : Transmission b c g
    waiting = after_send b c g announced_server sid_packet.wire sid_packet.tx_after

    informed : Transmission b c g
    informed = reading b c g waiting ivv_packet.rx_after more finish

    pub effective : SessionRole
    effective = effective_role role allow_bond

    draw : ℕ × g.State
    draw = g.bits 64 informed.tx.rng

    nmux : ℕ
    nmux = echo_role effective (bit_or (flag_canary informed.tx.key * 2 ^ 64) draw.0)

    nmux_facts :
        (1 ≤ nmux)
        × (nmux < 2 ^ 128)
        × (nmux / 2 ^ 64 ≡ flag_canary informed.tx.key)
        × (differ (bit_and nmux 1 == 1) (is_mux effective) ≡ false)
    unfolding nmux draw
    nmux_facts =
        nmux_lem informed.tx.key effective (g.bits 64 informed.tx.rng).0
          (g.bits-lt 64 informed.tx.rng)

    answering : Transmission b c g
    answering = record informed { tx = with_state b c g informed.tx draw.1 }

    nmux_packet : OnePacket b c g answering sid_packet.rx_after nmux
    nmux_packet =
        one_packet b c g answering sid_packet.rx_after nmux
          (unfold answering informed waiting reading after_send in
            reseeded-Linked b c g sid_packet.tx_after sid_packet.rx_after draw.1 sid_packet.linked)
          (unfold answering informed waiting announced_server served reading after_send in whole)
          nmux_facts.1

    pub server_wire : List ℕ
    server_wire = (server_noise.wire ++ sid_packet.wire) ++ nmux_packet.wire

    pub server_after : Transmission b c g
    server_after = record (after_send b c g answering nmux_packet.wire nmux_packet.tx_after) {
      tx = on_handshake_complete_tx b c g (rekey_tx b c g nmux_packet.tx_after ivv);
      rx = on_handshake_complete_rx (rekey_rx b ivv_packet.rx_after ivv);
      session_id = sid;
    }

    -- The client with the server's bytes to read.
    pub confirming : List ℕ → Option ErrorKind → Transmission b c g
    confirming later end = reading b c g client_after client.rx (server_wire ++ later) end

    pub confirmed : List ℕ → Option ErrorKind → Transmission b c g
    confirmed later end = record (reading b c g client_after nmux_packet.rx_after later end) {
      rx = on_handshake_complete_rx (rekey_rx b nmux_packet.rx_after ivv);
      pending = none;
      session_id = sid;
    }

    calm : Transmission b c g
    calm = record client_after { pending = none }
