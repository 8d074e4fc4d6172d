-- ===== src/Socks5/Replies.antt =====
-- What the inbound writes before it has an address, on every path.
use nextppp.Prelude.{ℕ, leb, ◌≡◌, refl, sym, ap, ◌∙◌, ◌⊎◌, inl, inr, ◌==◌}
use nextppp.Prelude.{Bool-cases, Option, none, some}
use nextppp.Prelude.{List, [], ◌∷◌, ◌++◌, append-nil, append_assoc, get_or, length, take, drop}
use nextppp.Prelude.{take-append-drop, Result, ok, err}
use nextppp.Errors.{ErrorKind, invalid_data}
use nextppp.Connection.{Writer}
use nextppp.Addr.{ProxyAddr}
use nextppp.Pump.{AnyError, io, note}
use nextppp.Socket.{Socket, Step, recv_exact, send_all, put_all, and_then}
use nextppp.Socks5.{reply_bytes, send_reply, contains, choose_method, greet, negotiate}
use nextppp.Socks5.{read_addr, context}
use nextppp.Socks5.{with_context, reply_of, answer, take_request, read_connect}
use nextppp.Socks5.Reads.{recv_exact-Reads, read_addr-Reads}

-- Whether the write side has failed: nothing goes any more.
abbrev pub HasFailed : Option (ℕ × ErrorKind) → Type 0
HasFailed none = ⊥
HasFailed (some (room, kind)) = room ≡ 0

abbrev pub IsFront : List ℕ → List ℕ → Type 0
IsFront out whole = (rest : List ℕ) × (out ++ rest ≡ whole)

-- An answer was written whole, or up to the byte at which the write side failed.
abbrev pub IsSaid : Option (ℕ × ErrorKind) → List ℕ → List ℕ → Type 0
IsSaid broken whole out = (out ≡ whole) ⊎ (HasFailed broken × IsFront out whole)

IsSaid-append :
    (broken : Option (ℕ × ErrorKind)) (front whole out : List ℕ)
    → IsSaid broken whole out
    → IsSaid broken (front ++ whole) (front ++ out)
IsSaid-append broken front whole out (inl e) = inl (ap (λ (bytes : List ℕ). front ++ bytes) e)
IsSaid-append broken front whole out (inr (failed, (rest, e))) =
    inr (failed, (rest, append_assoc front out rest ∙ ap (λ (bytes : List ℕ). front ++ bytes) e))

-- A send of some bytes: the socket after it has them, or a front part and an error.
record Said (bytes : List ℕ) (s : Socket) (r : Result (Unit {0}) ErrorKind × Socket) : Type 0 where
  out : List ℕ
  wrote : r.1.writer.written ≡ s.writer.written ++ out
  is_said : IsSaid r.1.writer.broken bytes out

-- It gives an error only where it fails on the way.
abbrev IsSend : List ℕ → Socket → Result (Unit {0}) ErrorKind × Socket → Type 0
IsSend bytes s (ok done, s') = s'.writer.written ≡ s.writer.written ++ bytes
IsSend bytes s (err kind, s') = Said bytes s (err kind, s')

send_all-IsSend : (bytes : List ℕ) (s : Socket) → IsSend bytes s (send_all bytes s)
unfolding send_all
send_all-IsSend bytes s = go s.writer.broken
  where
    go : (broken : Option (ℕ × ErrorKind)) → IsSend bytes s (put_all bytes s broken)
    go none = refl
    go (some (room, kind)) = elim (Bool-cases (leb (length bytes) room)) [
      | inl e ↦ rw e refl
      | inr e ↦ rw e (record {
        out = take room bytes;
        wrote = refl;
        is_said = inr (refl, (drop room bytes, take-append-drop room bytes));
      })
    ]

send_all-Said : (bytes : List ℕ) (s : Socket) → Said bytes s (send_all bytes s)
send_all-Said bytes s = go (send_all bytes s) (send_all-IsSend bytes s)
  where
    go : (r : Result (Unit {0}) ErrorKind × Socket) → IsSend bytes s r → Said bytes s r
    go (ok done, s') h = record { out = bytes; wrote = h; is_said = inl refl }
    go (err kind, s') h = h

-- After a step there is an answer behind what was written before, and it fits the result.
pub record Answered {E A : Type 0} (Fits : Result A E → Option (ℕ × ErrorKind) → List ℕ → Type 0)
    (before : List ℕ) (r : Result A E × Socket) : Type 0 where
  pub out : List ℕ
  pub writes : r.1.writer.written ≡ before ++ out
  pub fits : Fits r.0 r.1.writer.broken out

-- What a negotiation may have answered.
abbrev IsGreeting : Result (Unit {0}) ErrorKind → Option (ℕ × ErrorKind) → List ℕ → Type 0
IsGreeting (ok done) broken out = out ≡ 5 ∷ 0 ∷ []
IsGreeting (err kind) broken out =
    (out ≡ []) ⊎ IsSaid broken (5 ∷ 255 ∷ []) out ⊎ IsSaid broken (5 ∷ 0 ∷ []) out

abbrev Greeted : List ℕ → Result (Unit {0}) ErrorKind × Socket → Type 0
Greeted = Answered IsGreeting

silent :
    (s : Socket) (w : Writer) (kind : ErrorKind) → s.writer ≡ w → Greeted w.written (err kind, s)
silent s w kind e = record {
  out = [];
  writes = ap (λ (v : Writer). v.written) e ∙ sym (append-nil w.written);
  fits = inl refl;
}

agreed-Greeted :
    (s : Socket) (r : Result (Unit {0}) ErrorKind × Socket)
    → IsSend (5 ∷ 0 ∷ []) s r
    → Greeted s.writer.written r
agreed-Greeted s (ok done, s') h = record { out = 5 ∷ 0 ∷ []; writes = h; fits = refl }
agreed-Greeted s (err kind, s') h = record {
  out = h.out;
  writes = h.wrote;
  fits = inr (inr h.is_said);
}

choose_method-Greeted :
    (methods : List ℕ) (s : Socket) → Greeted s.writer.written (choose_method methods s)
unfolding choose_method
choose_method-Greeted methods s = elim (Bool-cases (contains 0 methods)) [
  | inl e ↦ rw e (agreed-Greeted s (send_all (5 ∷ 0 ∷ []) s) (send_all-IsSend (5 ∷ 0 ∷ []) s))
  | inr e ↦ rw e (
      let said = send_all-Said (5 ∷ 255 ∷ []) s in
      record { out = said.out; writes = said.wrote; fits = inr (inl said.is_said) })
]

Greeted-with :
    (w : Writer) (r : Result (List ℕ) ErrorKind × Socket)
    (next : List ℕ → Step ErrorKind (Unit {0}))
    → r.1.writer ≡ w
    → ((bytes : List ℕ) (s : Socket) → Greeted s.writer.written (next bytes s))
    → Greeted w.written (and_then r next)
Greeted-with w (ok bytes, s) next e h =
    let g = h bytes s in
    record {
      out = g.out;
      writes = g.writes ∙ ap (λ (v : Writer). v.written ++ g.out) e;
      fits = g.fits;
    }
Greeted-with w (err kind, s) next e h = silent s w kind e

greet-Greeted : (head : List ℕ) (s : Socket) → Greeted s.writer.written (greet head s)
unfolding greet
greet-Greeted head s = elim (Bool-cases (get_or head 0 0 == 5)) [
  | inl e ↦ rw e (
      Greeted-with s.writer (recv_exact (get_or head 1 0) s) choose_method
        (recv_exact-Reads (get_or head 1 0) s) choose_method-Greeted)
  | inr e ↦ rw e (silent s s.writer invalid_data refl)
]

negotiate-Greeted : (s : Socket) → Greeted s.writer.written (negotiate s)
unfolding negotiate
negotiate-Greeted s =
    Greeted-with s.writer (recv_exact 2 s) greet (recv_exact-Reads 2 s) greet-Greeted

-- The codes of an error's reply.
abbrev pub IsCode : ℕ → Type 0
IsCode rep = (rep ≡ 1) ⊎ (rep ≡ 7) ⊎ (rep ≡ 8)

-- What may have been written in answer to a request.
abbrev IsReply : Result ProxyAddr AnyError → Option (ℕ × ErrorKind) → List ℕ → Type 0
IsReply (ok addr) broken out = out ≡ []
IsReply (err e) broken out =
    (out ≡ []) ⊎ ((rep : ℕ) × IsCode rep × IsSaid broken (reply_bytes rep) out)

abbrev Replied : List ℕ → Result ProxyAddr AnyError × Socket → Type 0
Replied = Answered IsReply

unreplied : (s : Socket) (w : Writer) (e : AnyError) → s.writer ≡ w → Replied w.written (err e, s)
unreplied s w e h = record {
  out = [];
  writes = ap (λ (v : Writer). v.written) h ∙ sym (append-nil w.written);
  fits = inl refl;
}

-- An error with an attempt to reply.
Replied-with :
    (s : Socket) (e : AnyError) (rep : ℕ)
    → IsCode rep
    → Replied s.writer.written (err e, (send_reply rep s).1)
unfolding send_reply
Replied-with s e rep code =
    let said = send_all-Said (reply_bytes rep) s in
    record { out = said.out; writes = said.wrote; fits = inr (rep, code, said.is_said) }

reply_of-IsCode : (kind : ErrorKind) → IsCode (reply_of kind)
unfolding reply_of
reply_of-IsCode invalid_data = inr (inr refl)
reply_of-IsCode _ = inl refl

answer-Replied :
    (w : Writer) (r : Result ProxyAddr ErrorKind × Socket)
    → r.1.writer ≡ w
    → Replied w.written (answer r)
unfolding answer
answer-Replied w (ok addr, s) e = record {
  out = [];
  writes = ap (λ (v : Writer). v.written) e ∙ sym (append-nil w.written);
  fits = refl;
}
answer-Replied w (err kind, s) e =
    let g =
      Replied-with s (note "read request address" ∷ io kind ∷ []) (reply_of kind)
        (reply_of-IsCode kind) in
    record {
      out = g.out;
      writes = g.writes ∙ ap (λ (v : Writer). v.written ++ g.out) e;
      fits = g.fits;
    }

take_request-Replied : (head : List ℕ) (s : Socket) → Replied s.writer.written (take_request head s)
unfolding take_request
take_request-Replied head s = elim (Bool-cases (get_or head 0 0 == 5)) [
  | inr bad ↦ rw bad (unreplied s s.writer _ refl)
  | inl e ↦ rw e (elim (Bool-cases (get_or head 1 0 == 1)) [
    | inr bad ↦ rw bad (Replied-with s _ 7 (inr (inl refl)))
    | inl connect ↦ rw connect (elim (Bool-cases (get_or head 2 0 == 0)) [
      | inr bad ↦ rw bad (Replied-with s _ 1 (inl refl))
      | inl reserved ↦
          rw reserved
            (answer-Replied s.writer (read_addr (get_or head 3 0) s) (read_addr-Reads _ s))
    ])
  ])
]

-- The bytes that the inbound has written by the time that `read_connect` ends.
abbrev pub IsConnect : Result ProxyAddr AnyError → Option (ℕ × ErrorKind) → List ℕ → Type 0
IsConnect (ok addr) broken out = out ≡ 5 ∷ 0 ∷ []
IsConnect (err e) broken out =
    (out ≡ [])
    ⊎ IsSaid broken (5 ∷ 255 ∷ []) out
    ⊎ IsSaid broken (5 ∷ 0 ∷ []) out
    ⊎ ((rep : ℕ) × IsCode rep × IsSaid broken (5 ∷ 0 ∷ reply_bytes rep) out)

agreed-IsConnect :
    (r : Result ProxyAddr AnyError) (broken : Option (ℕ × ErrorKind)) (out : List ℕ)
    → IsReply r broken out
    → IsConnect r broken (5 ∷ 0 ∷ out)
agreed-IsConnect (ok addr) broken out h = ap (λ (bytes : List ℕ). 5 ∷ 0 ∷ bytes) h
agreed-IsConnect (err e) broken out (inl h) =
    inr (inr (inl (inl (ap (λ (bytes : List ℕ). 5 ∷ 0 ∷ bytes) h))))
agreed-IsConnect (err e) broken out (inr (rep, code, h)) =
    inr (inr (inr (rep, code, IsSaid-append broken (5 ∷ 0 ∷ []) (reply_bytes rep) out h)))

-- The request once the methods are agreed on.
requested :
    (before : List ℕ) (r : Result (List ℕ) ErrorKind × Socket)
    → r.1.writer.written ≡ before ++ (5 ∷ 0 ∷ [])
    → Answered IsConnect before (and_then (with_context "read request head" r) take_request)
unfolding with_context
requested before (ok head, s) e =
    let g = take_request-Replied head s in
    record {
      out = 5 ∷ 0 ∷ g.out;
      writes =
          g.writes
          ∙ ap (λ (bytes : List ℕ). bytes ++ g.out) e
          ∙ append_assoc before (5 ∷ 0 ∷ []) g.out;
      fits =
          agreed-IsConnect (take_request head s).0 (take_request head s).1.writer.broken g.out
            g.fits;
    }
requested before (err kind, s) e = record {
  out = 5 ∷ 0 ∷ [];
  writes = e;
  fits = inr (inr (inl (inl refl)));
}

connected :
    (before : List ℕ) (r : Result (Unit {0}) ErrorKind × Socket)
    → Greeted before r
    → Answered IsConnect before (
        and_then
          (with_context "greeting" r)
          λ _. λ s. and_then (with_context "read request head" (recv_exact 4 s)) take_request)
unfolding with_context
connected before (ok done, s) g = requested before (recv_exact 4 s) (
    ap (λ (v : Writer). v.written) (recv_exact-Reads 4 s)
    ∙ g.writes
    ∙ ap (λ (bytes : List ℕ). before ++ bytes) g.fits)
connected before (err kind, s) g = record {
  out = g.out;
  writes = g.writes;
  fits = elim g.fits [
    | inl e ↦ inl e
    | inr said ↦ elim said [ inl refused ↦ inr (inl refused) | inr agreed ↦ inr (inr (inl agreed)) ]
  ];
}

-- Whatever the client sends, and at whatever byte its socket starts to fail, the inbound has written
-- one of these answers by the time that it has an address or gives up: with an address, just 05 00;
-- on an error, nothing, 05 ff, 05 00, or 05 00 and one reply with code 1, 7 or 8. An answer that is
-- not written whole is cut where the socket failed, and nothing goes after that. Nothing that was
-- there before is changed.
pub read_connect-Answered : (s : Socket) → Answered IsConnect s.writer.written (read_connect s)
unfolding read_connect context
read_connect-Answered s = connected s.writer.written (negotiate s) (negotiate-Greeted s)
