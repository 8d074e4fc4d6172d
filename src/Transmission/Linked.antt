-- ===== src/Transmission/Linked.antt =====
-- When a receiving core is the counterpart of a sending one, and what keeps it so.
use nextppp.Prelude.{ℕ, ◌≡◌, refl, true, Option, none, some}
use nextppp.Ssea.{IsU32}
use nextppp.Errors.{Rng}
use nextppp.Cipher.{Backend, SessionCipher, derive, for_decryption, protocol, transport}
use nextppp.Cipher.RoundTrip.{InStep, derive-InStep}
use nextppp.Binary.HeaderTrip.{OptionInStep}
use nextppp.Base94.Defs.{Codec, new}
use nextppp.Base94.Invariant.{IsFramer, new-IsFramer}
use nextppp.Base94.HeaderTrip.{InPhase}
use nextppp.Key.{ObfuscationKey}
use nextppp.Transmission.{kept, RxCore, TxCore, new_rx, new_tx, rekey_rx, rekey_tx}
use nextppp.Transmission.{on_handshake_complete_rx, on_handshake_complete_tx}

pub record Linked (b : Backend) (c : Codec) (g : Rng) (tx : TxCore b c g) (rx : RxCore)
    : Type 0 where
  pub same_key : rx.key ≡ tx.key
  pub kf_fits : IsU32 tx.key.kf
  pub protocols : InStep tx.protocol_tx rx.protocol_rx
  pub transports : InStep tx.transport_tx rx.transport_rx
  pub same_stage : rx.handshaked ≡ tx.handshaked
  pub framer_ok : IsFramer tx.b94
  pub framers : InPhase tx.b94 rx.b94

-- A core on the data plane, whose ciphers are the ones derived from its key with the ivv of a session:
-- both fresh, at the start of their sequences.
pub record IsRekeyedTx (b : Backend) (c : Codec) (g : Rng) (ivv : ℕ) (tx : TxCore b c g)
    : Type 0 where
  pub protocol_fresh :
      tx.protocol_tx ≡ derive b tx.key.protocol protocol tx.key.protocol_key (some ivv)
  pub transport_fresh :
      tx.transport_tx ≡ derive b tx.key.transport transport tx.key.transport_key (some ivv)
  pub on_data_plane : tx.handshaked ≡ true

pub record IsRekeyedRx (b : Backend) (ivv : ℕ) (rx : RxCore) : Type 0 where
  pub protocol_fresh :
      rx.protocol_rx
      ≡ for_decryption (derive b rx.key.protocol protocol rx.key.protocol_key (some ivv))
  pub transport_fresh :
      rx.transport_rx
      ≡ for_decryption (derive b rx.key.transport transport rx.key.transport_key (some ivv))
  pub on_data_plane : rx.handshaked ≡ true

pub kept-InStep :
    (tx rx : SessionCipher) (tx' rx' : Option SessionCipher)
    → InStep tx rx
    → OptionInStep tx' rx'
    → InStep (kept tx tx') (kept rx rx')
unfolding kept
kept-InStep tx rx none none s h = s
kept-InStep tx rx none (some rx') s h = absurd h
kept-InStep tx rx (some tx') none s h = absurd h
kept-InStep tx rx (some tx') (some rx') s h = h

module _ (b : Backend) (c : Codec) (g : Rng) where
  -- Two cores made from one key, of 32 bits in `kf`, are linked.
  pub new-Linked :
      (key : ObfuscationKey) (rng : g.State)
      → IsU32 key.kf
      → Linked b c g (new_tx b c g key rng) (new_rx b key)
  unfolding new_tx new_rx
  new-Linked key rng fits = record {
    same_key = refl;
    kf_fits = fits;
    protocols = derive-InStep b key.protocol protocol key.protocol_key none;
    transports = derive-InStep b key.transport transport key.transport_key none;
    same_stage = refl;
    framer_ok = new-IsFramer key.kf fits;
    framers =
        unfold new in
        record { same_kf = refl; same_modulus = refl; same_kf_mod = refl; same_phase = refl };
  }

  -- Rekeyed with one ivv and switched to the data plane, linked cores are linked again.
  pub rekey-Linked :
      (tx : TxCore b c g) (rx : RxCore) (ivv : ℕ)
      → Linked b c g tx rx
      → Linked b c g
          (on_handshake_complete_tx b c g (rekey_tx b c g tx ivv))
          (on_handshake_complete_rx (rekey_rx b rx ivv))
  unfolding rekey_tx rekey_rx on_handshake_complete_tx on_handshake_complete_rx
  rekey-Linked tx rx ivv l =
      let key : ObfuscationKey = tx.key in
      record {
        same_key = l.same_key;
        kf_fits = l.kf_fits;
        protocols = rekeyed_protocol rx.key tx.key l.same_key;
        transports = rekeyed_transport rx.key tx.key l.same_key;
        same_stage = refl;
        framer_ok = l.framer_ok;
        framers = l.framers;
      }
    where
      rekeyed_protocol :
          (k key : ObfuscationKey)
          → k ≡ key
          → InStep
              (derive b key.protocol protocol key.protocol_key (some ivv))
              (for_decryption (derive b k.protocol protocol k.protocol_key (some ivv)))
      rekeyed_protocol k key e =
          rw e (derive-InStep b key.protocol protocol key.protocol_key (some ivv))

      rekeyed_transport :
          (k key : ObfuscationKey)
          → k ≡ key
          → InStep
              (derive b key.transport transport key.transport_key (some ivv))
              (for_decryption (derive b k.transport transport k.transport_key (some ivv)))
      rekeyed_transport k key e =
          rw e (derive-InStep b key.transport transport key.transport_key (some ivv))

  pub rekey_tx-IsRekeyedTx :
      (tx : TxCore b c g) (ivv : ℕ)
      → IsRekeyedTx b c g ivv (on_handshake_complete_tx b c g (rekey_tx b c g tx ivv))
  unfolding rekey_tx on_handshake_complete_tx
  rekey_tx-IsRekeyedTx tx ivv = record {
    protocol_fresh = refl;
    transport_fresh = refl;
    on_data_plane = refl;
  }

pub rekey_rx-IsRekeyedRx :
    (b : Backend) (rx : RxCore) (ivv : ℕ)
    → IsRekeyedRx b ivv (on_handshake_complete_rx (rekey_rx b rx ivv))
unfolding rekey_rx on_handshake_complete_rx
rekey_rx-IsRekeyedRx b rx ivv = record {
  protocol_fresh = refl;
  transport_fresh = refl;
  on_data_plane = refl;
}
