-- ===== src/Socket.antt =====
-- A local TCP socket as the inbound and the pumps use it: what it has still to read, with how that
-- ends, and what was written to it. A step on it gives a result and the socket after it.
use nextppp.Prelude.{
  ℕ, ◌-◌, leb, ltb, if◌then◌else◌, Option, none, some, List, [], ◌++◌, length, take, drop,
}
use nextppp.Prelude.{Result, ok, err}
use nextppp.Errors.{ErrorKind, unexpected_eof}
use nextppp.Base94.Defs.{Reader}
use nextppp.Connection.{Writer}

pub record Socket : Type 0 where
  pub reader : Reader
  pub writer : Writer

-- A step on the socket, with the kind of its errors.
abbrev pub Step : Type 0 → Type 0 → Type 0
Step E A = Socket → Result A E × Socket

module _ {E A B : Type 0} where
  abbrev pub and_then : Result A E × Socket → (A → Step E B) → Result B E × Socket
  and_then (ok a, s) next = next a s
  and_then (err e, s) next = (err e, s)

  infixl 5 ◌>>=◌
  abbrev pub ◌>>=◌ : Step E A → (A → Step E B) → Step E B
  ◌>>=◌ m next s = and_then (m s) next

infixl 5 ◌>>◌
abbrev pub ◌>>◌ : {E B : Type 0} → Step E (Unit {0}) → Step E B → Step E B
m >> k = m >>= λ _. k

abbrev pub pure : {E A : Type 0} → A → Step E A
pure a s = (ok a, s)

abbrev pub fail : {E A : Type 0} → E → Step E A
fail e s = (err e, s)

-- `let _ = ..`: the result is dropped.
abbrev pub attempt : {E F A : Type 0} → Step E A → Step F (Unit {0})
attempt m s = (ok tt, (m s).1)

-- `read_exact` on the socket.
unfoldable pub short_kind : Option ErrorKind → ErrorKind
short_kind none = unexpected_eof
short_kind (some kind) = kind

unfoldable pub recv_exact : ℕ → Step ErrorKind (List ℕ)
unfolding short_kind
recv_exact n s =
    let r = s.reader in
    if ltb (length r.bytes) n
    then (err (short_kind r.finish), record s { reader = record r { bytes = [] } })
    else (ok (take n r.bytes), record s { reader = record r { bytes = drop n r.bytes } })

-- `write_all` on the socket.
unfoldable pub put_all :
    List ℕ → Socket → Option (ℕ × ErrorKind) → Result (Unit {0}) ErrorKind × Socket
put_all bytes s (some (room, kind)) =
    let w = s.writer in
    if leb (length bytes) room
    then (
      ok tt,
      record s {
        writer = record w {
          written = w.written ++ bytes;
          broken = some (room - length bytes, kind);
        };
      },
    )
    else (
      err kind,
      record s {
        writer = record w { written = w.written ++ take room bytes; broken = some (0, kind) };
      },
    )
put_all bytes s none =
    (ok tt, record s { writer = record s.writer { written = s.writer.written ++ bytes } })

unfoldable pub send_all : List ℕ → Step ErrorKind (Unit {0})
unfolding put_all
send_all bytes s = put_all bytes s s.writer.broken
