-- ===== src/Base94/Defs.antt =====
-- The framer and its operations. What a method changes in `self` or draws is returned.
use nextppp.Prelude.{ℕ, ◌+◌, ◌-◌, ◌*◌, ◌%◌, ◌^◌, ◌≤◌, ◌<◌, ◌≡◌, bit_and, bit_xor, ◌==◌, ltb, leb}
use nextppp.Prelude.{if◌then◌else◌, Bool, true, false, ◌||◌, Option, none, some}
use nextppp.Prelude.{
  Result, ok, err, ok_or, ◌>>=◌, List, [], ◌∷◌, ◌++◌, length, take, drop, replicate,
}
use nextppp.Prelude.{get_or, set, All}
use nextppp.Ssea.{IsByte, u32, lcg_range, shuffle, unshuffle, swap}
use nextppp.Checksum.{inet_chksum}
use nextppp.Errors.{Error, ErrorKind, io, unexpected_eof, invalid_frame, invalid_base94}
use nextppp.Errors.{checksum_mismatch, frame_too_large, zero_length, Rng}

abbrev pub IsPrintable : ℕ → Type 0
IsPrintable c = (0x20 ≤ c) × (c ≤ 0x7e)

-- What the crate's documentation promises: a byte takes one or two printable characters, decoding
-- undoes encoding, and the decimals are digits to the base 94 whose zero is 0x20.
pub record Codec : Type 0 where
  pub encoded_len : List ℕ → ℕ → ℕ
  pub encode : List ℕ → ℕ → List ℕ
  pub decode : List ℕ → ℕ → Option (List ℕ)
  pub decimal_encode : ℕ → List ℕ
  pub decimal_decode : List ℕ → Option ℕ
  pub length-encode : (bytes : List ℕ) (kf : ℕ) → length (encode bytes kf) ≡ encoded_len bytes kf
  pub encoded_len_bounds :
      (bytes : List ℕ) (kf : ℕ)
      → (length bytes ≤ encoded_len bytes kf) × (encoded_len bytes kf ≤ 2 * length bytes)
  pub decode-encode :
      (bytes : List ℕ) (kf : ℕ) → All IsByte bytes → decode (encode bytes kf) kf ≡ some bytes
  pub encode-IsPrintable : (bytes : List ℕ) (kf : ℕ) → All IsPrintable (encode bytes kf)
  pub decimal_size : (n : ℕ) → 1 ≤ length (decimal_encode n)
  pub decimal_size_le_three : (n : ℕ) → n < 94 ^ 3 → length (decimal_encode n) ≤ 3
  pub decimal_decode-decimal_encode :
      (zeros n : ℕ)
      → n < 94 ^ 3
      → decimal_decode (replicate zeros 0x20 ++ decimal_encode n) ≡ some n
  pub decimal-IsPrintable : (n : ℕ) → All IsPrintable (decimal_encode n)

abbrev pub base94_max_frame : ℕ
base94_max_frame = 65536 * 2 + 64

abbrev pub mod_min : ℕ
mod_min = 64 * 64 * 64

abbrev pub mod_max : ℕ
mod_max = 94 * 94 * 94

abbrev pub header_simple : ℕ
header_simple = 4

abbrev pub header_extended : ℕ
header_extended = 7

pub record Framer : Type 0 where
  pub kf : ℕ
  pub modulus : ℕ
  pub kf_mod : ℕ
  pub tx_first : Bool
  pub rx_first : Bool

-- The absolute value of `kf as i32`; the remainder of the source keeps the sign of the dividend.
unfoldable pub abs_i32 : ℕ → ℕ
abs_i32 kf = if ltb kf (2 ^ 31) then kf else 2 ^ 32 - kf

unfoldable pub new : ℕ → Framer
new kf =
    let modulus = (lcg_range kf mod_min mod_max).0 in
    record {
      kf = kf;
      modulus = modulus;
      kf_mod = abs_i32 kf % modulus;
      tx_first = true;
      rx_first = true;
    }

-- A length with the digits of `(length + kf_mod) % mod`, without the padding.
unfoldable pub hidden : Framer → ℕ → ℕ
hidden f n = u32 (n + f.kf_mod) % f.modulus

-- `digits` right-aligned in `size` places that hold 0x20.
unfoldable pub pad : ℕ → List ℕ → List ℕ
pad size digits = replicate (size - length digits) 0x20 ++ digits

-- The three digits behind the first header of a direction.
unfoldable pub checksum_digits : Codec → Framer → List ℕ → ℕ → Result (List ℕ) Error
checksum_digits c f h len =
    let chk = bit_xor (inet_chksum h) (u32 len) in
    let digits = c.decimal_encode (hidden f chk) in
    let cl = length digits in
    if cl == 0 || ltb 3 cl then err invalid_frame else ok (shuffle (pad 3 digits) f.kf)

module _ (c : Codec) (g : Rng) where
  -- `h[0]` and `h[1]`: even and random filler where the length takes fewer than three digits, odd
  -- and the first digit otherwise.
  unfoldable pub parity : g.State → ℕ → ℕ × ℕ × g.State
  parity rng h1 =
      let (k, rng') = g.range 0x20 0x7e rng in
      let (filler, rng'') = g.range 0x20 0x7e rng' in
      let odd = if ltb 0x7e (k + 1) then 0x21 else k + 1 in
      if h1 == 0x20
      then (if bit_and k 1 == 0 then k else k + 1, filler, rng'')
      else (if bit_and k 1 == 0 then odd else k, h1, rng')

  pub record Sent : Type 0 where
    pub result : Result (List ℕ) Error
    pub rng : g.State
    pub framer : Framer

  unfoldable pub encode_header : g.State → Framer → ℕ → Sent
  encode_header rng f len =
      let digits = c.decimal_encode (hidden f len) in
      let dl = length digits in
      let h = pad 4 digits in
      let (k, h1, rng') = parity rng (get_or h 1 0) in
      let simple = k ∷ h1 ∷ get_or h 3 0 ∷ get_or h 2 0 ∷ [] in
      let extended = checksum_digits c f simple len >>= λ tail. ok (simple ++ tail) in
      let after : Framer = elim extended [ ok h' ↦ record f { tx_first = false } | err e ↦ f ] in
      if dl == 0 || leb header_simple dl
      then record { result = err invalid_frame; rng = rng; framer = f }
      else if f.tx_first
      then record { result = extended; rng = rng'; framer = after }
      else record { result = ok simple; rng = rng'; framer = f }

  -- The framed packet that is appended to the output.
  unfoldable pub encode_frame : g.State → Framer → List ℕ → Sent
  encode_frame rng f binary =
      let encoded_len = c.encoded_len binary f.kf in
      let header = encode_header rng f encoded_len in
      if length binary == 0
      then record { result = err zero_length; rng = rng; framer = f }
      else if ltb base94_max_frame encoded_len
      then record { result = err (frame_too_large encoded_len); rng = rng; framer = f }
      else record header { result = header.result >>= λ h. ok (h ++ c.encode binary f.kf) }

unfoldable pub check_bound : ℕ → Result ℕ Error
check_bound len = if ltb base94_max_frame len then err (frame_too_large len) else ok len

-- The header size of the next frame, and the checked length that its header declares.
unfoldable pub header_size : Framer → ℕ
header_size f = if f.rx_first then header_extended else header_simple

unfoldable pub restore_header : List ℕ → List ℕ
restore_header h =
    let h' = if bit_and (get_or h 0 0) 1 == 0 then set h 1 0x20 else h in swap (set h' 0 0x20) 2 3

-- `?` in a method that has not changed the framer yet.
abbrev pub and_then :
    Result ℕ Error → Framer → (ℕ → Result (List ℕ) Error × Framer) → Result (List ℕ) Error × Framer
and_then (ok n) f k = k n
and_then (err e) f k = (err e, f)

-- The first-frame flag falls with the first body that decodes.
unfoldable pub finish_frame : Framer → Option (List ℕ) → Result (List ℕ) Error × Framer
finish_frame f none = (err invalid_base94, f)
finish_frame f (some out) = (ok out, record f { rx_first = false })

module _ (c : Codec) where
  unfoldable pub decode_length : Framer → List ℕ → Result ℕ Error
  decode_length f digits = ok_or (c.decimal_decode digits) invalid_base94 >>= λ n.
      ok (u32 ((n + (f.modulus - f.kf_mod)) % f.modulus))

  unfoldable pub decode_header_extended : Framer → List ℕ → Result ℕ Error
  decode_header_extended f h =
      let chk = inet_chksum (take header_simple h) in
      decode_length f (drop 1 (restore_header (take header_simple h))) >>= λ payload_length.
      if ltb payload_length 1
      then err invalid_frame
      else (decode_length f (unshuffle (drop header_simple h) f.kf) >>= λ n.
          if n == bit_xor chk payload_length then ok payload_length else err checksum_mismatch)

  unfoldable pub decode_header_simple : Framer → List ℕ → Result ℕ Error
  decode_header_simple f h = decode_length f (drop 1 (restore_header h)) >>= λ len.
      if ltb len 1 then err invalid_frame else ok len

  unfoldable pub decode_header : Framer → List ℕ → Result ℕ Error
  decode_header f h =
      (if f.rx_first then decode_header_extended f h else decode_header_simple f h) >>= check_bound

  unfoldable pub peek_frame_len : Framer → List ℕ → Result (Option ℕ) Error
  peek_frame_len f buf =
      let size = header_size f in
      let decoded = decode_header f (take size buf) >>= λ len. ok (some (size + len)) in
      if ltb (length buf) size then ok none else decoded

  -- The body of a frame, once it is whole.
  unfoldable pub decode_body : Framer → List ℕ → Result (List ℕ) Error × Framer
  decode_body f body = finish_frame f (c.decode body f.kf)

  unfoldable pub decode_packet_into : Framer → List ℕ → Result (List ℕ) Error × Framer
  decode_packet_into f packet =
      let size = header_size f in
      if ltb (length packet) size
      then (err invalid_frame, f)
      else (and_then (decode_header f (take size packet)) f λ len.
          if len + size == length packet
          then decode_body f (drop size packet)
          else (err invalid_frame, f))

-- A byte stream: what is still to arrive, and how it ends (`none` is an end of file).
pub record Reader : Type 0 where
  pub bytes : List ℕ
  pub finish : Option ErrorKind

-- The error of a read that wants more than there is.
unfoldable pub short_read : Reader → Error
short_read r = elim r.finish [ none ↦ io unexpected_eof | some kind ↦ io kind ]

-- `read_exact`, and `take(n).read_to_end` with the check on the count behind it: `n` bytes and the
-- reader after them. A short read leaves nothing in the reader.
unfoldable pub read_exact : ℕ → Reader → Result (List ℕ) Error × Reader
read_exact n r =
    if ltb (length r.bytes) n
    then (err (short_read r), record r { bytes = [] })
    else (ok (take n r.bytes), record r { bytes = drop n r.bytes })

module _ (c : Codec) where
  -- The characters of a body, or the error of reading them.
  unfoldable pub read_body :
      Framer → Result (List ℕ) Error × Reader → Result (List ℕ) Error × Framer × Reader
  read_body f (err e, r) = (err e, f, r)
  read_body f (ok chars, r) = let (out, f') = decode_body c f chars in (out, f', r)

  unfoldable pub read_declared :
      Framer → Result ℕ Error → Reader → Result (List ℕ) Error × Framer × Reader
  read_declared f (err e) r = (err e, f, r)
  read_declared f (ok len) r = read_body f (read_exact len r)

  unfoldable pub read_frame_into : Framer → Reader → Result (List ℕ) Error × Framer × Reader
  read_frame_into f r =
      let (header, r') = read_exact (header_size f) r in
      read_declared f (header >>= decode_header c f) r'
