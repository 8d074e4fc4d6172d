-- ===== src/Socks5/Reads.antt =====
-- The steps that only read.
use nextppp.Prelude.{ℕ, ◌≡◌, arith, refl, ◌∙◌, inl, inr, ◌==◌}
use nextppp.Prelude.{Bool-cases}
use nextppp.Prelude.{List, get_or, Result, ok, err}
use nextppp.Addr.{IpAddr, v4, v6}
use nextppp.Socket.{Socket, Step, recv_exact, and_then}
use nextppp.Socks5.{read_ip, name_host, read_name, read_host, read_port, read_addr}

-- A step that only reads.
abbrev pub Reads : {E A : Type 0} → Step E A → Type 0
Reads m = (s : Socket) → (m s).1.writer ≡ s.writer

pub recv_exact-Reads : (n : ℕ) → Reads (recv_exact n)
unfolding recv_exact
recv_exact-Reads n s = ground arith

pub and_then-Reads :
    {E A B : Type 0} (r : Result A E × Socket) (next : A → Step E B)
    → ((a : A) → Reads (next a))
    → (and_then r next).1.writer ≡ r.1.writer
and_then-Reads (ok a, s) next h = h a s
and_then-Reads (err e, s) next h = refl

pub read_ip-Reads : (n : ℕ) (make : List ℕ → IpAddr) → Reads (read_ip n make)
unfolding read_ip
read_ip-Reads n make s = and_then-Reads (recv_exact n s) _ (λ octets t. refl) ∙ recv_exact-Reads n s

pub name_host-Reads : (name : List ℕ) → Reads (name_host name)
unfolding name_host
name_host-Reads name s = ground arith

pub read_name-Reads : (len : List ℕ) → Reads (read_name len)
unfolding read_name
read_name-Reads len s = elim (Bool-cases (get_or len 0 0 == 0)) [
  | inl e ↦ rw e refl
  | inr e ↦ rw e (
      and_then-Reads (recv_exact (get_or len 0 0) s) name_host name_host-Reads
      ∙ recv_exact-Reads (get_or len 0 0) s)
]

pub read_host-Reads : (atyp : ℕ) → Reads (read_host atyp)
unfolding read_host
read_host-Reads atyp s = ground (
  arith,
  read_ip-Reads 4 v4 s,
  read_ip-Reads 16 v6 s,
  and_then-Reads (recv_exact 1 s) read_name read_name-Reads,
  recv_exact-Reads 1 s,
)

pub read_addr-Reads : (atyp : ℕ) → Reads (read_addr atyp)
unfolding read_addr read_port
read_addr-Reads atyp s =
    and_then-Reads (read_host atyp s) read_port
      (λ host t. and_then-Reads (recv_exact 2 t) _ (λ port u. refl) ∙ recv_exact-Reads 2 t)
    ∙ read_host-Reads atyp s
