-- ===== src/Link.antt =====
-- The sending half of a bond link, crates/common/src/link.rs. The carrier is what was written to it, and
-- what it answers to the polls to come.
pub mod Flushing
pub mod Writing
mod Tests
use nextppp.Prelude.{ℕ, ◌+◌, ◌-◌, min, ltb, Bool, ◌==◌, if◌then◌else◌}
use nextppp.Prelude.{List, [], ◌∷◌, ◌++◌, length, take, drop, Result, ok, err}
use nextppp.Errors.{Error, ErrorKind, io, invalid_data, write_zero, Rng}
use nextppp.Cipher.{Backend}
use nextppp.Base94.Defs.{Codec}
use nextppp.Binary.{ppp_buffer_size}
use nextppp.Transmission.{TxCore, encrypt_impl}

unfoldable pub core_to_io : Error → ErrorKind
core_to_io (io kind) = kind
core_to_io _ = invalid_data

pub data Poll (A : Type 0) : Type 0 where
  ready : A → Poll A
  pending : Poll A

-- The carrier's answer to one `poll_write`: how much it would take, never more than it is offered.
pub data Push : Type 0 where
  took : ℕ → Push
  not_now : Push
  push_failed : ErrorKind → Push

module _ (b : Backend) (c : Codec) (g : Rng) where
  pub record LinkWriter : Type 0 where
    pub session : TxCore b c g
    pub out : List ℕ
    pub out_off : ℕ
    pub written : List ℕ

  abbrev pub Polled : Type 0 → Type 0
  Polled A = Poll (Result A ErrorKind) × LinkWriter × List Push

  unfoldable pub new_writer : TxCore b c g → LinkWriter
  new_writer tx = record { session = tx; out = []; out_off = 0; written = [] }

  -- The carrier takes some bytes.
  unfoldable pub advance : ℕ → LinkWriter → LinkWriter
  advance n s = record s {
    out_off = s.out_off + n;
    written = s.written ++ take n (drop s.out_off s.out);
  }

  unfoldable pub flushed : LinkWriter → LinkWriter
  flushed s = record s { out = []; out_off = 0 }

  unfoldable pub pushed :
      (LinkWriter → Polled (Unit {0})) → List Push → Push → LinkWriter → Polled (Unit {0})
  unfolding advance
  pushed next ps (took n) s =
      let m = min n (length s.out - s.out_off) in
      if m == 0 then (ready (err write_zero), s, ps) else next (advance m s)
  pushed next ps not_now s = (pending, s, ps)
  pushed next ps (push_failed kind) s = (ready (err kind), s, ps)

  unfoldable pub flush_out : List Push → LinkWriter → Polled (Unit {0})
  unfolding pushed flushed
  flush_out [] s =
      if ltb s.out_off (length s.out) then (pending, s, []) else (ready (ok tt), flushed s, [])
  flush_out (p ∷ ps) s =
      if ltb s.out_off (length s.out)
      then pushed (flush_out ps) ps p s
      else (ready (ok tt), flushed s, p ∷ ps)

  unfoldable pub push_now : ℕ → Polled (Unit {0}) → Polled ℕ
  push_now len (ready (err kind), s, ps) = (ready (err kind), s, ps)
  push_now len (ready (ok done), s, ps) = (ready (ok len), s, ps)
  push_now len (pending, s, ps) = (ready (ok len), s, ps)

  unfoldable pub encrypted :
      ℕ → List Push → LinkWriter → Result (List ℕ) Error × TxCore b c g → Polled ℕ
  unfolding push_now flush_out core_to_io
  encrypted len ps s (err e, tx) = (ready (err (core_to_io e)), record s { session = tx }, ps)
  encrypted len ps s (ok wire, tx) =
      push_now len (flush_out ps (record s { session = tx; out = s.out ++ wire; out_off = 0 }))

  unfoldable pub accept : List ℕ → LinkWriter → List Push → Polled ℕ
  unfolding encrypted
  accept buf s ps =
      let len = min (length buf) ppp_buffer_size in
      if len == 0
      then (ready (ok 0), s, ps)
      else encrypted len ps s (encrypt_impl b c g s.session [] (take len buf))

  unfoldable pub after_flush : List ℕ → Polled (Unit {0}) → Polled ℕ
  unfolding accept
  after_flush buf (ready (ok done), s, ps) = accept buf s ps
  after_flush buf (ready (err kind), s, ps) = (ready (err kind), s, ps)
  after_flush buf (pending, s, ps) = (pending, s, ps)

  unfoldable pub poll_write : List Push → List ℕ → LinkWriter → Polled ℕ
  unfolding after_flush flush_out
  poll_write ps buf s =
      if ltb s.out_off (length s.out) then after_flush buf (flush_out ps s) else accept buf s ps
