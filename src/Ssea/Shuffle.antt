-- ===== src/Ssea/Shuffle.antt =====
-- `unshuffle` runs the swap chain of `shuffle` backwards.
use nextppp.Prelude.{ℕ, zero, suc, ◌+◌, ◌^◌, ◌≤◌, ◌<◌, ◌≡◌, arith}
use nextppp.Prelude.{List, [], ◌∷◌, length, get_or, set, length-set, get_or-set_self, get_or-set_ne}
use nextppp.Prelude.{
  list_ext, bit_xor, xor-lt, refl, ◌∙◌, All, All-get_or, inl, inr, ltb, ◌==◌, if◌then◌else◌,
  Bool-cases, ltb→le,
}
use nextppp.Ssea.{swap, index, shuffle_loop, shuffle, unshuffle_loop, unshuffle, u32, IsU32, IsByte}
use nextppp.Ssea.FastMod.{fast_mod-fastmod_magic}
use native.Mathlib.Nat.{mod-lt, zero-add, add-zero}

-- The partner of a place lies in the slice, so the raw-pointer swaps stay in bounds.
pub index-lt : (size key i : ℕ) → 2 ≤ size → size < 2 ^ 32 → IsU32 key → index size key i < size
unfolding index
index-lt size key i two_le fits key_fits =
    let x_lt = xor-lt 32 (u32 i) key (omega arith) key_fits in
    omega (
      arith,
      fast_mod-fastmod_magic (bit_xor (u32 i) key) size two_le fits x_lt,
      mod-lt (bit_xor (u32 i) key) {m = size} (omega arith),
    )

pub length-swap : (xs : List ℕ) (i j : ℕ) → length (swap xs i j) ≡ length xs
unfolding swap
length-swap xs i j =
    length-set (set xs i (get_or xs j 0)) j (get_or xs i 0) ∙ length-set xs i (get_or xs j 0)

-- What a swap leaves at each place.
get_or-swap :
    (xs : List ℕ) (i j k : ℕ)
    → i < length xs
    → j < length xs
    → get_or (swap xs i j) k 0
      ≡ (if k == j then get_or xs i 0 else if k == i then get_or xs j 0 else get_or xs k 0)
unfolding swap
get_or-swap xs i j k hi hj =
    let once : List ℕ = set xs i (get_or xs j 0) in
    ground (
      arith,
      length-set xs i (get_or xs j 0),
      get_or-set_self xs i (get_or xs j 0) 0,
      get_or-set_ne xs i k (get_or xs j 0) 0,
      get_or-set_self once j (get_or xs i 0) 0,
      get_or-set_ne once j k (get_or xs i 0) 0,
    )

swap-swap : (xs : List ℕ) (i j : ℕ) → i < length xs → j < length xs → swap (swap xs i j) i j ≡ xs
swap-swap xs i j hi hj =
    let len = length-swap xs i j in
    list_ext 0 (swap (swap xs i j) i j) xs (length-swap (swap xs i j) i j ∙ len) λ k _. ground (
      arith,
      len,
      get_or-swap (swap xs i j) i j k,
      get_or-swap xs i j i,
      get_or-swap xs i j j,
      get_or-swap xs i j k,
    )

module _ (size key : ℕ) where
  -- The last swap of the loop, taken off its end.
  shuffle_loop-suc :
      (left i : ℕ) (xs : List ℕ)
      → shuffle_loop size key (suc left) i xs
        ≡ swap (shuffle_loop size key left i xs) (i + left) (index size key (i + left))
  unfolding shuffle_loop
  shuffle_loop-suc zero i xs = rw (add-zero i)
  shuffle_loop-suc (suc left) i xs =
      rw (add-suc-left i left) (shuffle_loop-suc left (i + 1) (swap xs i (index size key i)))
    where
      add-suc-left : (a b : ℕ) → a + suc b ≡ a + 1 + b
      add-suc-left a b = omega arith

  length-shuffle_loop :
      (left i : ℕ) (xs : List ℕ) → length (shuffle_loop size key left i xs) ≡ length xs
  unfolding shuffle_loop
  length-shuffle_loop zero i xs = refl
  length-shuffle_loop (suc left) i xs =
      length-shuffle_loop left (i + 1) (swap xs i (index size key i))
      ∙ length-swap xs i (index size key i)

  unshuffle_loop-shuffle_loop :
      2 ≤ size
      → size < 2 ^ 32
      → IsU32 key
      → (n : ℕ) (xs : List ℕ) → n ≤ size
      → length xs ≡ size
      → unshuffle_loop size key n (shuffle_loop size key n 0 xs) ≡ xs
  unfolding unshuffle_loop
  unshuffle_loop-shuffle_loop two_le fits key_fits zero xs h len = unfold shuffle_loop in refl
  unshuffle_loop-shuffle_loop two_le fits key_fits (suc n) xs h len =
      let before : List ℕ = shuffle_loop size key n 0 xs in
      let same = length-shuffle_loop n 0 xs ∙ len in
      let undo =
        swap-swap before n (index size key n) (omega (arith, same))
          (omega (arith, same, index-lt size key n two_le fits key_fits)) in
      rw (shuffle_loop-suc n 0 xs, zero-add n, undo)
        (unshuffle_loop-shuffle_loop two_le fits key_fits n xs (omega arith) len)

pub length-shuffle : (xs : List ℕ) (key : ℕ) → length (shuffle xs key) ≡ length xs
unfolding shuffle
length-shuffle xs key = ground (arith, length-shuffle_loop (length xs) key (length xs) 0 xs)

-- `unshuffle` restores what `shuffle` permuted, at every key and length.
pub unshuffle-shuffle :
    (xs : List ℕ) (key : ℕ) → length xs < 2 ^ 32 → IsU32 key → unshuffle (shuffle xs key) key ≡ xs
unfolding unshuffle
unshuffle-shuffle xs key fits key_fits =
    rw (length-shuffle xs key) (elim (Bool-cases (ltb (length xs) 2)) [
      | inl short ↦ rw short (unfold shuffle in rw short)
      | inr long ↦ rw long (
          unfold shuffle in
          rw long (
            unshuffle_loop-shuffle_loop (length xs) key (ltb→le _ _ long) fits key_fits (length xs)
              xs (omega arith) refl))
    ])

-- A property of all bytes stays with them.
module _ (P : ℕ → Type 0) where
  set-All : (xs : List ℕ) (i v : ℕ) → P v → All P xs → All P (set xs i v)
  set-All [] i v hv h = h
  set-All (x ∷ xs) zero v hv (hx, hxs) = (hv, hxs)
  set-All (x ∷ xs) (suc i) v hv (hx, hxs) = (hx, set-All xs i v hv hxs)

  swap-All :
      (xs : List ℕ) (i j : ℕ) → i < length xs → j < length xs → All P xs → All P (swap xs i j)
  unfolding swap
  swap-All xs i j hi hj h =
      set-All (set xs i (get_or xs j 0)) j (get_or xs i 0) (All-get_or P xs i 0 hi h)
        (set-All xs i (get_or xs j 0) (All-get_or P xs j 0 hj h) h)

  shuffle_loop-All :
      (size key left i : ℕ) (xs : List ℕ)
      → 2 ≤ size
      → size < 2 ^ 32
      → IsU32 key
      → length xs ≡ size
      → i + left ≤ size
      → All P xs
      → All P (shuffle_loop size key left i xs)
  unfolding shuffle_loop
  shuffle_loop-All size key zero i xs two fits key_fits len room h = h
  shuffle_loop-All size key (suc left) i xs two fits key_fits len room h =
      let j_lt = index-lt size key i two fits key_fits in
      shuffle_loop-All size key left (i + 1) (swap xs i (index size key i)) two fits key_fits
        (length-swap xs i (index size key i) ∙ len) (omega arith)
        (swap-All xs i (index size key i) (omega (arith, len)) (omega (arith, len, j_lt)) h)

  -- Shuffling brings in no byte that was not there.
  pub shuffle-All :
      (xs : List ℕ) (key : ℕ) → length xs < 2 ^ 32 → IsU32 key → All P xs → All P (shuffle xs key)
  unfolding shuffle
  shuffle-All xs key fits key_fits h = elim (Bool-cases (ltb (length xs) 2)) [
    | inl short ↦ rw short h
    | inr long ↦ rw long (
        shuffle_loop-All (length xs) key (length xs) 0 xs (ltb→le _ _ long) fits key_fits refl
          (omega arith) h)
  ]

pub shuffle-IsByte :
    (xs : List ℕ) (key : ℕ)
    → length xs < 2 ^ 32
    → IsU32 key
    → All IsByte xs
    → All IsByte (shuffle xs key)
shuffle-IsByte xs key fits key_fits h = shuffle-All IsByte xs key fits key_fits h

length-unshuffle_loop :
    (size key n : ℕ) (xs : List ℕ) → length (unshuffle_loop size key n xs) ≡ length xs
unfolding unshuffle_loop
length-unshuffle_loop size key zero xs = refl
length-unshuffle_loop size key (suc i) xs =
    length-unshuffle_loop size key i (swap xs i (index size key i))
    ∙ length-swap xs i (index size key i)

pub length-unshuffle : (xs : List ℕ) (key : ℕ) → length (unshuffle xs key) ≡ length xs
unfolding unshuffle
length-unshuffle xs key = ground (arith, length-unshuffle_loop (length xs) key (length xs) xs)
