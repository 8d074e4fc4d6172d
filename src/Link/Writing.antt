-- ===== src/Link/Writing.antt =====
-- What the sending half of a bond link in crates/common/src/link.rs puts on its carrier.
use nextppp.Prelude.{ℕ, ◌+◌, ◌≤◌, ◌≡◌, min, arith, refl, sym, ap, ◌∙◌, inl, inr}
use nextppp.Prelude.{false, ltb, ltb→le, ◌==◌, ==_iff, Bool-cases}
use nextppp.Prelude.{List, [], ◌++◌, length, take, drop, All, Result, ok, err, Option}
use nextppp.Prelude.{append-nil, length-take, All-take}
use nextppp.Prelude.{drop-nil}
use nextppp.Ssea.{IsByte}
use nextppp.Errors.{ErrorKind, Rng}
use nextppp.Cipher.{Backend}
use nextppp.Base94.Defs.{Codec}
use nextppp.Binary.{ppp_buffer_size}
use nextppp.Transmission.{TxCore, RxCore, read_buf}
use nextppp.Transmission.Linked.{Linked}
use nextppp.Transmission.RoundTrip.{encrypt_impl-Delivered}
use nextppp.Link.{
  Poll, ready, pending, Push, LinkWriter, Polled, flush_out, push_now, encrypted, accept,
  after_flush, poll_write, new_writer,
}
use nextppp.Link.Flushing.{owed, IsTidy, Flushed, flush_out-Flushed, empty_length}

positive :
    (l t : ℕ) → (min l ppp_buffer_size == 0) ≡ false → t ≡ min (min l ppp_buffer_size) l → 1 ≤ t + 0
positive l t some size = ground arith

module _ (b : Backend) (c : Codec) (g : Rng) where
  -- The carrier's bytes as frames of messages, by what a reader of the stream makes of them.
  pub data Carries (rx : RxCore) : List ℕ → List ℕ → RxCore → Type 0 where
    nothing : Carries rx [] [] rx
    and_frame :
        {bytes plain : List ℕ} {rx1 : RxCore} (wire message : List ℕ) (rx2 : RxCore)
        → Carries rx bytes plain rx1
        → ((more : List ℕ) (finish : Option ErrorKind)
            → read_buf b c rx1 (record { bytes = wire ++ more; finish = finish })
              ≡ (ok message, rx2, record { bytes = more; finish = finish }))
        → Carries rx (bytes ++ wire) (plain ++ message) rx2

  pub record IsKept (rx : RxCore) (plain : List ℕ) (s : LinkWriter b c g) : Type 0 where
    pub rx_now : RxCore
    pub carried : Carries rx (owed b c g s) plain rx_now
    pub linked : Linked b c g s.session rx_now
    pub tidy : IsTidy b c g s

  -- A new half owes nothing.
  pub new_writer-IsKept :
      (tx : TxCore b c g) (rx : RxCore) → Linked b c g tx rx → IsKept rx [] (new_writer b c g tx)
  unfolding new_writer owed IsTidy
  new_writer-IsKept tx rx l = record {
    rx_now = rx;
    carried = nothing;
    linked = l;
    tidy = λ none. refl;
  }

  -- What a poll tells of the number of bytes that it took up: all that fit one frame, if it is ready.
  pub Told : ℕ → ℕ → Poll (Result ℕ ErrorKind) → Type 0
  Told most n (ready (ok m)) = (m ≡ n) × (n ≡ most)
  Told most n (ready (err kind)) = Unit {0}
  Told most n pending = n ≡ 0

  pub record Accepted (rx : RxCore) (plain buf : List ℕ) (r : Polled b c g ℕ) : Type 0 where
    pub taken : ℕ
    pub tells : Told (min (length buf) ppp_buffer_size) taken r.0
    pub kept : IsKept rx (plain ++ take taken buf) r.1

  module _ (rx : RxCore) (plain buf : List ℕ) where
    none_taken :
        (x : Poll (Result ℕ ErrorKind)) (s : LinkWriter b c g) (ps : List Push)
        → Told (min (length buf) ppp_buffer_size) 0 x
        → IsKept rx plain s
        → Accepted rx plain buf (x, s, ps)
    none_taken x s ps t k = record { taken = 0; tells = t; kept = rw (append-nil plain) k }

    push_now-Accepted :
        (n : ℕ) (r : Polled b c g (Unit {0}))
        → n ≡ min (length buf) ppp_buffer_size
        → IsKept rx (plain ++ take n buf) r.1
        → Accepted rx plain buf (push_now b c g n r)
    unfolding push_now Told
    push_now-Accepted n (ready (ok done), s, ps) e k = record {
      taken = n;
      tells = (refl, e);
      kept = k;
    }
    push_now-Accepted n (ready (err kind), s, ps) e k = record { taken = n; tells = tt; kept = k }
    push_now-Accepted n (pending, s, ps) e k = record { taken = n; tells = (refl, e); kept = k }

    kept_flush :
        (more : List ℕ) (s : LinkWriter b c g) (r : Polled b c g (Unit {0}))
        → Flushed b c g s r
        → IsKept rx more s
        → IsKept rx more r.1
    kept_flush more s r f k = record {
      rx_now = k.rx_now;
      carried = rw f.same k.carried;
      linked = rw f.session k.linked;
      tidy = f.tidy;
    }

    nothing_owed : (s : LinkWriter b c g) → s.out ≡ [] → owed b c g s ≡ s.written
    unfolding owed
    nothing_owed s empty =
        ap (λ l. s.written ++ l) (ap (drop s.out_off) empty ∙ drop-nil s.out_off)
        ∙ append-nil s.written

    -- The half with a new frame as all that waits.
    with_frame :
        (s : LinkWriter b c g) (n : ℕ) (wire : List ℕ) (tx : TxCore b c g) (rx2 : RxCore)
        (k : IsKept rx plain s)
        → s.out ≡ []
        → Linked b c g tx rx2
        → ((more : List ℕ) (finish : Option ErrorKind)
            → read_buf b c k.rx_now (record { bytes = wire ++ more; finish = finish })
              ≡ (ok (take n buf), rx2, record { bytes = more; finish = finish }))
        → IsKept rx
            (plain ++ take n buf)
            (record s { session = tx; out = s.out ++ wire; out_off = 0 })
    unfolding owed IsTidy
    with_frame s n wire tx rx2 k empty linked reads =
        let before : Carries rx s.written plain k.rx_now = rw⁻¹ (nothing_owed s empty) k.carried in
        record {
          rx_now = rx2;
          carried = rw empty (and_frame wire (take n buf) rx2 before reads);
          linked = linked;
          tidy = λ none.
              empty_length (s.out ++ wire) (omega (arith, ltb→le 0 (length (s.out ++ wire)) none));
        }

    accept-Accepted :
        (s : LinkWriter b c g) (ps : List Push)
        → All IsByte buf
        → s.out ≡ []
        → IsKept rx plain s
        → Accepted rx plain buf (accept b c g buf s ps)
    unfolding accept encrypted Told
    accept-Accepted s ps bytes empty k =
        let n : ℕ = min (length buf) ppp_buffer_size in
        elim (Bool-cases (n == 0)) [
          | inl none ↦ rw none (none_taken (ready (ok 0)) s ps (refl, sym ((==_iff n 0).0 none)) k)
          | inr some ↦
              (let size = length-take n buf in
                let d =
                  encrypt_impl-Delivered b c g s.session k.rx_now [] (take n buf) k.linked
                    (All-take IsByte n buf bytes)
                    (positive (length buf) (length (take n buf)) some size) (omega (arith, size)) in
                rw (some, d.sent)
                  (push_now-Accepted n _ refl (
                    kept_flush (plain ++ take n buf) _ _ (flush_out-Flushed b c g ps _)
                      (with_frame s n d.wire d.tx_after d.rx_after k empty d.linked d.streamed))))
        ]

    -- Let the bytes that the half owes its carrier, taken or waiting, be frames of some plaintext to a
    -- reader that is linked with the half's core. However the carrier answers, a poll to write
    -- bytes leaves this so, for the plaintext with a front part of the bytes behind it: where
    -- it reports a number, that many, and that is all of them up to 65536; nothing where it is
    -- pending.
    pub poll_write-Accepted :
        (ps : List Push) (s : LinkWriter b c g)
        → All IsByte buf
        → IsKept rx plain s
        → Accepted rx plain buf (poll_write b c g ps buf s)
    unfolding poll_write after_flush Told
    poll_write-Accepted ps s bytes k = elim (Bool-cases (ltb s.out_off (length s.out))) [
      | inr none ↦ rw none (accept-Accepted s ps bytes (idle none k) k)
      | inl more ↦ rw more (
          go (flush_out b c g ps s) (flush_out-Flushed b c g ps s)
            (kept_flush plain s (flush_out b c g ps s) (flush_out-Flushed b c g ps s) k))
    ]
      where
        idle : ltb s.out_off (length s.out) ≡ false → IsKept rx plain s → s.out ≡ []
        idle none k = (unfold IsTidy in k.tidy none)

        go :
            (r : Polled b c g (Unit {0}))
            → Flushed b c g s r
            → IsKept rx plain r.1
            → Accepted rx plain buf (after_flush b c g buf r)
        go (ready (ok done), s', ps') f k' = accept-Accepted s' ps' bytes (f.over refl) k'
        go (ready (err kind), s', ps') f k' = none_taken (ready (err kind)) s' ps' tt k'
        go (pending, s', ps') f k' = none_taken pending s' ps' refl k'
