-- ===== src/Driver/Rss/Window.antt =====
-- `toeplitz_hash` of src/lazybsd_dpdk.cc is the sum, without carries, of the windows of 32 bits on the
-- key that start where the data has a bit.
use lazybsd.Prelude.{
  all_below, all_below-at, ℕ, zero, suc, ◌+◌, ◌*◌, ◌/◌, ◌%◌, ◌^◌, ◌≤◌, ◌<◌, ◌≡◌, refl, ap, sym, ◌∙◌,
  Bool, true, false, ◌&&◌, if◌then◌else◌, ltb, ◌==◌, List, [], ◌∷◌, bit_or, arith, Bool-cases, inl,
  inr, ==_iff,
}
use Prim.Native.Nat.{bit_xor, max, digits, bit_or-bitwise}
use native.Mathlib.Nat.{pow-suc}
use lazybsd.Driver.Rss.{bit_at, next_v, bit_loop, byte_loop, toeplitz_hash}

-- Setting the lowest bit
or_zero : (n a : ℕ) → a ≤ n → digits (λ b. b) max n a 0 ≡ a
or_zero n zero h = or_zero_zero n
  where
    or_zero_zero : (n : ℕ) → digits (λ b. b) max n 0 0 ≡ 0
    or_zero_zero zero = refl
    or_zero_zero (suc n) = refl
or_zero zero (suc a) h = absurd (omega arith)
or_zero (suc n) (suc a) h = omega (arith, or_zero n (suc a / 2) (omega arith))

or_one : (n a : ℕ) → a ≤ n → digits (λ b. b) max n a 1 ≡ a / 2 * 2 + 1
or_one zero zero h = refl
or_one zero (suc a) h = absurd (omega arith)
or_one (suc n) zero h = refl
or_one (suc n) (suc a) h = omega (arith, or_zero n (suc a / 2) (omega arith))

bit_or_one : (a : ℕ) → a % 2 ≡ 0 → bit_or a 1 ≡ a + 1
bit_or_one a h = bit_or-bitwise a 1 ∙ or_one a a (omega arith) ∙ omega arith

abbrev pub one_if : Bool → ℕ
one_if b = if b then 1 else 0

-- The bits of the key, 0 behind its end
abbrev pub key_bit : (keylen : ℕ) → (key : ℕ → ℕ) → ℕ → ℕ
key_bit keylen key n = one_if (ltb (n / 8) keylen && bit_at (key (n / 8)) (n % 8))

-- The number of `k` bits from the bit `n` on, the highest first
pub bits_from : (ℕ → ℕ) → (n k : ℕ) → ℕ
bits_from f n zero = 0
bits_from f n (suc k) = bits_from f n k * 2 + f (n + k)

abbrev pub window : (keylen : ℕ) → (key : ℕ → ℕ) → ℕ → ℕ
window keylen key n = bits_from (key_bit keylen key) n 32

bits_from_first :
    (f : ℕ → ℕ) (n k : ℕ) → bits_from f n (suc k) ≡ f n * 2 ^ k + bits_from f (n + 1) k
unfolding bits_from
bits_from_first f n zero = let e : n + 0 ≡ n = omega arith in rw e (omega arith)
bits_from_first f n (suc k) =
    let e : n + 1 + k ≡ n + suc k = omega arith in
    let ih = bits_from_first f n k in
    let p = pow-suc 2 k in
    let lin : f n * 2 ^ suc k ≡ f n * 2 ^ k * 2 = grind (arith, pow-suc) in
    rw e (omega (arith, ih, lin))

bits_from-lt : (f : ℕ → ℕ) (n k : ℕ) → ((i : ℕ) → f i ≤ 1) → bits_from f n k < 2 ^ k
unfolding bits_from
bits_from-lt f n zero h = omega arith
bits_from-lt f n (suc k) h = omega (arith, pow-suc 2 k, bits_from-lt f n k h, h (n + k))

bits_from_split :
    (f : ℕ → ℕ) (n j k : ℕ)
    → bits_from f n (j + k) ≡ bits_from f n j * 2 ^ k + bits_from f (n + j) k
unfolding bits_from
bits_from_split f n j zero = let e : j + 0 ≡ j = omega arith in rw e (omega arith)
bits_from_split f n j (suc k) =
    let e : j + suc k ≡ suc (j + k) = omega arith in
    let a : n + (j + k) ≡ n + j + k = omega arith in
    let ih = bits_from_split f n j k in
    let lin : bits_from f n j * 2 ^ suc k ≡ bits_from f n j * 2 ^ k * 2 = grind (arith, pow-suc) in
    rw (e, a) (omega (arith, ih, lin))

-- Moving the window by a bit
window_next :
    (f : ℕ → ℕ) (n : ℕ)
    → ((i : ℕ) → f i ≤ 1)
    → bits_from f n 32 * 2 % 2 ^ 32 + f (n + 32) ≡ bits_from f (n + 1) 32
window_next f n h =
    let first = bits_from_first f n 31 in
    let last : bits_from f (n + 1) 32 ≡ bits_from f (n + 1) 31 * 2 + f (n + 1 + 31) =
      unfold bits_from in refl in
    let same : n + 1 + 31 ≡ n + 32 = omega arith in
    let bound = bits_from-lt f (n + 1) 31 h in
    let bit = h n in omega (arith, first, rw same at last, bound, bit)

one_if-le : (b : Bool) → one_if b ≤ 1
one_if-le true = omega arith
one_if-le false = omega arith

module _ (keylen : ℕ) (key : ℕ → ℕ) where
  key_bit-le : (n : ℕ) → key_bit keylen key n ≤ 1
  key_bit-le n = one_if-le (ltb (n / 8) keylen && bit_at (key (n / 8)) (n % 8))

  next_v-window :
      (i b : ℕ)
      → b < 8
      → next_v keylen key i b (window keylen key (i * 8 + b)) ≡ window keylen key (i * 8 + b + 1)
  next_v-window i b h =
      let n = i * 8 + b in
      let v = window keylen key n in
      let shifted = v * 2 % 2 ^ 32 in
      let at : (n + 32) / 8 ≡ i + 4 = omega arith in
      let bit : (n + 32) % 8 ≡ b = omega arith in
      let moved = window_next (key_bit keylen key) n key_bit-le in
      let even : shifted % 2 ≡ 0 = omega arith in
      let set = bit_or_one shifted even in
      let here : key_bit keylen key (n + 32)
          ≡ one_if (ltb (i + 4) keylen && bit_at (key (i + 4)) b) =
        rw (at, bit) refl in
      elim (Bool-cases (ltb (i + 4) keylen && bit_at (key (i + 4)) b)) [
        | inl one ↦
            let k : key_bit keylen key (n + 32) ≡ 1 = here ∙ ap one_if one in
            rw one (omega (arith, set, moved, k))
        | inr none ↦
            let k : key_bit keylen key (n + 32) ≡ 0 = here ∙ ap one_if none in
            rw none (omega (arith, moved, k))
      ]

  -- The sum of the windows at the bits of a byte, and of all bytes
  pub byte_windows : (rounds b i byte hash : ℕ) → ℕ
  byte_windows zero b i byte hash = hash
  byte_windows (suc rounds) b i byte hash =
      byte_windows rounds (b + 1) i byte
        (if bit_at byte b then bit_xor hash (window keylen key (i * 8 + b)) else hash)

  pub windows : (i : ℕ) → (bytes : List ℕ) → (hash : ℕ) → ℕ
  windows i [] hash = hash
  windows i (byte ∷ bytes) hash = windows (i + 1) bytes (byte_windows 8 0 i byte hash)

  bit_loop-byte_windows :
      (rounds b i byte hash : ℕ)
      → b + rounds ≤ 8
      → (bit_loop rounds b keylen key i byte hash (window keylen key (i * 8 + b))).0
          ≡ byte_windows rounds b i byte hash
        × ((bit_loop rounds b keylen key i byte hash (window keylen key (i * 8 + b))).1
            ≡ window keylen key (i * 8 + b + rounds))
  unfolding bit_loop byte_windows
  bit_loop-byte_windows zero b i byte hash h =
      let e : i * 8 + b + 0 ≡ i * 8 + b = omega arith in (refl, rw e refl)
  bit_loop-byte_windows (suc rounds) b i byte hash h =
      let x = if bit_at byte b then bit_xor hash (window keylen key (i * 8 + b)) else hash in
      let e : i * 8 + b + 1 ≡ i * 8 + (b + 1) = omega arith in
      let f : i * 8 + b + suc rounds ≡ i * 8 + (b + 1) + rounds = omega arith in
      let next = next_v-window i b (omega arith) ∙ ap (window keylen key) e in
      let rest = bit_loop-byte_windows rounds (b + 1) i byte x (omega arith) in
      (
        ap (λ v. (bit_loop rounds (b + 1) keylen key i byte x v).0) next ∙ rest.0,
        ap (λ v. (bit_loop rounds (b + 1) keylen key i byte x v).1) next
            ∙ rest.1
            ∙ ap (window keylen key) (sym f),
      )

  byte_loop-windows :
      (bytes : List ℕ) (i hash : ℕ)
      → byte_loop keylen key i bytes hash (window keylen key (i * 8)) ≡ windows i bytes hash
  unfolding byte_loop windows
  byte_loop-windows [] i hash = refl
  byte_loop-windows (byte ∷ bytes) i hash =
      let z : i * 8 + 0 ≡ i * 8 = omega arith in
      let e : i * 8 + 0 + 8 ≡ (i + 1) * 8 = omega arith in
      let r = bit_loop-byte_windows 8 0 i byte hash (omega arith) in
      let start = ap (window keylen key) (sym z) in
      ap
        (λ v.
          byte_loop keylen key (i + 1) bytes (bit_loop 8 0 keylen key i byte hash v).0
            (bit_loop 8 0 keylen key i byte hash v).1)
        start
      ∙ ap
          (λ v.
            byte_loop keylen key (i + 1) bytes
              (bit_loop 8 0 keylen key i byte hash (window keylen key (i * 8 + 0))).0 v)
          (r.1 ∙ ap (window keylen key) e)
      ∙ ap (λ h. byte_loop keylen key (i + 1) bytes h (window keylen key ((i + 1) * 8))) r.0
      ∙ byte_loop-windows bytes (i + 1) (byte_windows 8 0 i byte hash)

bits_from-cong :
    (f g : ℕ → ℕ) (n m k : ℕ)
    → ((j : ℕ) → j < k → f (n + j) ≡ g (m + j))
    → bits_from f n k ≡ bits_from g m k
unfolding bits_from
bits_from-cong f g n m zero h = refl
bits_from-cong f g n m (suc k) h =
    let ih = bits_from-cong f g n m k (λ j less. h j (omega arith)) in
    omega (arith, ih, h k (omega arith))

-- A byte is the number of its bits.
abbrev byte_law : ℕ → Bool
byte_law byte = bits_from (λ j. one_if (bit_at byte j)) 0 8 == byte

byte_table : all_below 256 byte_law ≡ true
unfolding all_below bits_from
byte_table = refl

byte_bits : (byte : ℕ) → byte < 256 → bits_from (λ j. one_if (bit_at byte j)) 0 8 ≡ byte
byte_bits byte h = (==_iff _ byte).0 (all_below-at 256 byte_law byte byte_table h)

module _ (keylen : ℕ) (key : ℕ → ℕ) (bytes_only : (i : ℕ) → key i < 256) where
  key_byte : (i : ℕ) → i < keylen → bits_from (key_bit keylen key) (i * 8) 8 ≡ key i
  key_byte i h =
      bits_from-cong (key_bit keylen key) (λ j. one_if (bit_at (key i) j)) (i * 8) 0 8
        (λ j less.
          let at : (i * 8 + j) / 8 ≡ i = omega arith in
          let bit : (i * 8 + j) % 8 ≡ 0 + j = omega arith in
          let inside : ltb i keylen ≡ true = ground arith in rw (at, bit, inside) refl)
      ∙ byte_bits (key i) (bytes_only i)

  first_window :
      4 ≤ keylen → key 0 * 2 ^ 24 + key 1 * 2 ^ 16 + key 2 * 2 ^ 8 + key 3 ≡ window keylen key 0
  first_window h =
      let f = key_bit keylen key in
      let a = bits_from_split f 0 8 24 in
      let b = bits_from_split f 8 8 16 in
      let c = bits_from_split f 16 8 8 in
      let k0 : bits_from f 0 8 ≡ key 0 = key_byte 0 (omega arith) in
      let k1 : bits_from f 8 8 ≡ key 1 = key_byte 1 (omega arith) in
      let k2 : bits_from f 16 8 ≡ key 2 = key_byte 2 (omega arith) in
      let k3 : bits_from f 24 8 ≡ key 3 = key_byte 3 (omega arith) in
      omega (arith, a, b, c, k0, k1, k2, k3)

  -- `toeplitz_hash` adds, without carries, the 32 bits of the key from the bit `n` on, for each bit `n` of the
  -- data that is set; behind the end of the key its bits are 0. The key has four bytes at least.
  pub toeplitz_hash-windows :
      (bytes : List ℕ) → 4 ≤ keylen → toeplitz_hash keylen key bytes ≡ windows keylen key 0 bytes 0
  unfolding toeplitz_hash
  toeplitz_hash-windows bytes h =
      ap (byte_loop keylen key 0 bytes 0) (first_window h) ∙ byte_loop-windows keylen key bytes 0 0
