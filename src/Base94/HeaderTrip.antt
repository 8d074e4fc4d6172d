-- ===== src/Base94/HeaderTrip.antt =====
-- The randomized header carries the length of its frame.
use nextppp.Prelude.{ℕ, zero, suc, ◌+◌, ◌-◌, ◌%◌, ◌≤◌, ◌<◌, ◌≡◌, arith, refl, ap}
use nextppp.Prelude.{bit_and, and_mask, bit_xor, ◌==◌, ltb, leb, if◌then◌else◌, true, false}
use nextppp.Prelude.{List, [], ◌∷◌, ◌++◌, length, length-append, length-replicate, drop, get_or}
use nextppp.Prelude.{replicate, All, All-append, All-get_or, ok, ◌||◌, Bool-cases, inl, inr}
use nextppp.Ssea.{IsByte, u32, shuffle, swap}
use nextppp.Checksum.{inet_chksum}
use nextppp.Errors.{Rng}
use nextppp.Base94.Defs.{Codec, Framer, hidden, pad, parity, checksum_digits, encode_header}
use nextppp.Base94.Defs.{restore_header, decode_length}
use nextppp.Base94.Defs.{IsPrintable}
use nextppp.Base94.Invariant.{IsFramer, hidden-lt, unhide-hidden}

bit_and-one : (k : ℕ) → bit_and k 1 ≡ k % 2
bit_and-one k = and_mask 1 k

module _ (c : Codec) (g : Rng) where
  -- The parity byte says whether the second place is filler, and both are printable.
  parity_lem :
      (rng : g.State) (h1 : ℕ)
      → IsPrintable h1
      → let (k, h1', _) = parity c g rng h1 in
        (IsPrintable k) × (IsPrintable h1') × ((if bit_and k 1 == 0 then 0x20 else h1') ≡ h1)
  unfolding parity
  parity_lem rng h1 p =
      let k : ℕ = (g.range 0x20 0x7e rng).0 in
      let r : g.State = (g.range 0x20 0x7e rng).1 in
      ground (
        arith,
        g.range_bounds 0x20 0x7e rng (omega arith),
        g.range_bounds 0x20 0x7e r (omega arith),
        bit_and-one k,
        bit_and-one (k + 1),
        bit_and-one 0x21,
      )

-- The receiving framer has the sender's parameters and waits for the same kind of header.
pub record InPhase (f p : Framer) : Type 0 where
  pub same_kf : p.kf ≡ f.kf
  pub same_modulus : p.modulus ≡ f.modulus
  pub same_kf_mod : p.kf_mod ≡ f.kf_mod
  pub same_phase : p.rx_first ≡ f.tx_first

pub printable-IsByte : (xs : List ℕ) → All IsPrintable xs → All IsByte xs
printable-IsByte [] h = tt
printable-IsByte (x ∷ xs) (hx, hxs) = (omega arith, printable-IsByte xs hxs)

-- One to three digits in four places.
pad_four :
    (digits : List ℕ)
    → 1 ≤ length digits
    → length digits ≤ 3
    → let h = pad 4 digits in (get_or h 1 0 ∷ get_or h 2 0 ∷ get_or h 3 0 ∷ []) ≡ pad 3 digits
unfolding pad
pad_four [] h k = absurd (omega arith)
pad_four (a ∷ []) h k = refl
pad_four (a ∷ b ∷ []) h k = refl
pad_four (a ∷ b ∷ c ∷ []) h k = refl
pad_four (a ∷ b ∷ c ∷ d ∷ ds) h k = absurd (omega arith)

pub length-pad : (n : ℕ) (digits : List ℕ) → length digits ≤ n → length (pad n digits) ≡ n
unfolding pad
length-pad n digits h = omega (
  arith,
  length-append (replicate (n - length digits) 0x20) digits,
  length-replicate {A = ℕ} (n - length digits) 0x20,
)

replicate-IsPrintable : (n : ℕ) → All IsPrintable (replicate n 0x20)
replicate-IsPrintable zero = tt
replicate-IsPrintable (suc n) = ((omega arith, omega arith), replicate-IsPrintable n)

pub pad-IsPrintable :
    (size : ℕ) (digits : List ℕ) → All IsPrintable digits → All IsPrintable (pad size digits)
unfolding pad
pad-IsPrintable size digits h =
    All-append IsPrintable (replicate (size - length digits) 0x20) digits
      (replicate-IsPrintable (size - length digits)) h

restore_header_lem :
    (k h1 h1' h2 h3 : ℕ)
    → (if bit_and k 1 == 0 then 0x20 else h1') ≡ h1
    → drop 1 (restore_header (k ∷ h1' ∷ h3 ∷ h2 ∷ [])) ≡ h1 ∷ h2 ∷ h3 ∷ []
unfolding restore_header
restore_header_lem k h1 h1' h2 h3 e =
    unfold swap in
    (elim (Bool-cases (bit_and k 1 == 0)) [
      | inl even ↦ rw even (rw even at (ap (λ x. x ∷ h2 ∷ h3 ∷ []) e))
      | inr odd ↦ rw odd (rw odd at (ap (λ x. x ∷ h2 ∷ h3 ∷ []) e))
    ])

module _ (c : Codec) where
  -- Three padded digits of a hidden number are read back.
  pub decode_length-hidden :
      (f p : Framer) (n : ℕ)
      → IsFramer f
      → InPhase f p
      → n < 262144
      → decode_length c p (pad 3 (c.decimal_encode (hidden f n))) ≡ ok n
  unfolding decode_length pad
  decode_length-hidden f p n v s h =
      let digits : List ℕ = c.decimal_encode (hidden f n) in
      rw (s.same_modulus, s.same_kf_mod)
        (rw (c.decimal_decode-decimal_encode (3 - length digits) (hidden f n) (hidden-lt f n v))
          (ap ok (unhide-hidden f n v h)))

-- The first four bytes of a header.
unfoldable pub simple_header : (c : Codec) (g : Rng) → g.State → Framer → ℕ → List ℕ
simple_header c g rng f len =
    let h = pad 4 (c.decimal_encode (hidden f len)) in
    let (k, h1, _) = parity c g rng (get_or h 1 0) in k ∷ h1 ∷ get_or h 3 0 ∷ get_or h 2 0 ∷ []

-- The three bytes behind them in the first header.
unfoldable pub checksum_tail : Codec → Framer → List ℕ → ℕ → List ℕ
checksum_tail c f simple len =
    shuffle (pad 3 (c.decimal_encode (hidden f (bit_xor (inet_chksum simple) (u32 len))))) f.kf

module _ (c : Codec) (g : Rng) (rng : g.State) (f : Framer) (len : ℕ) (v : IsFramer f)
    (len_lt : len < 262144) where
  pub digits_small : (n : ℕ) → length (c.decimal_encode (hidden f n)) ≤ 3
  digits_small n = c.decimal_size_le_three (hidden f n) (hidden-lt f n v)

  one_to_three : (n : ℕ) → 1 ≤ n → n ≤ 3 → (n == 0 || leb 4 n) ≡ false
  one_to_three n h k = ground arith

  place-IsPrintable :
      (i : ℕ) → i < 4 → IsPrintable (get_or (pad 4 (c.decimal_encode (hidden f len))) i 0)
  place-IsPrintable i h =
      let digits : List ℕ = c.decimal_encode (hidden f len) in
      All-get_or IsPrintable (pad 4 digits) i 0
        (omega (arith, length-pad 4 digits (omega (arith, digits_small len))))
        (pad-IsPrintable 4 digits (c.decimal-IsPrintable (hidden f len)))

  pub simple_header-IsPrintable : All IsPrintable (simple_header c g rng f len)
  unfolding simple_header
  simple_header-IsPrintable =
      let h1 : ℕ = get_or (pad 4 (c.decimal_encode (hidden f len))) 1 0 in
      let (k_ok, h1_ok, _) = parity_lem c g rng h1 (place-IsPrintable 1 (omega arith)) in
      (k_ok, (h1_ok, (place-IsPrintable 3 (omega arith), (place-IsPrintable 2 (omega arith), tt))))

  pub simple_header-decode :
      (p : Framer)
      → InPhase f p
      → decode_length c p (drop 1 (restore_header (simple_header c g rng f len))) ≡ ok len
  unfolding simple_header
  simple_header-decode p s =
      let digits : List ℕ = c.decimal_encode (hidden f len) in
      let h : List ℕ = pad 4 digits in
      let h1' : ℕ = (parity c g rng (get_or h 1 0)).1 in
      let k : ℕ = (parity c g rng (get_or h 1 0)).0 in
      let (_, _, parity_ok) =
        parity_lem c g rng (get_or h 1 0) (place-IsPrintable 1 (omega arith)) in
      rw
        (
          restore_header_lem k (get_or h 1 0) h1' (get_or h 2 0) (get_or h 3 0) parity_ok,
          pad_four digits (c.decimal_size (hidden f len)) (digits_small len),
        )
        (decode_length-hidden c f p len v s len_lt)

  pub encode_header_simple :
      f.tx_first ≡ false
      → let sent = encode_header c g rng f len in
        (sent.result ≡ ok (simple_header c g rng f len)) × (sent.framer ≡ f)
  unfolding encode_header simple_header
  encode_header_simple later =
      let dl : ℕ = length (c.decimal_encode (hidden f len)) in
      rw (one_to_three dl (c.decimal_size (hidden f len)) (digits_small len), later) (refl, refl)

  checksum_digits-tail :
      checksum_digits c f (simple_header c g rng f len) len
      ≡ ok (checksum_tail c f (simple_header c g rng f len) len)
  unfolding checksum_digits checksum_tail
  checksum_digits-tail =
      let chk : ℕ = bit_xor (inet_chksum (simple_header c g rng f len)) (u32 len) in
      let cl : ℕ = length (c.decimal_encode (hidden f chk)) in
      let valid : (n : ℕ) → 1 ≤ n → n ≤ 3 → (n == 0 || ltb 3 n) ≡ false = λ n h k. ground arith in
      rw (valid cl (c.decimal_size (hidden f chk)) (digits_small chk))

  pub encode_header_first :
      f.tx_first ≡ true
      → let sent = encode_header c g rng f len in
        let simple = simple_header c g rng f len in
        (sent.result ≡ ok (simple ++ checksum_tail c f simple len))
        × (sent.framer ≡ record f { tx_first = false })
  unfolding encode_header simple_header
  encode_header_first first =
      let dl : ℕ = length (c.decimal_encode (hidden f len)) in
      rw (one_to_three dl (c.decimal_size (hidden f len)) (digits_small len), checksum_digits-tail)
        (simp first (refl, refl))
