-- ===== src/Prelude/Words.antt =====
-- Machine words as native numbers: wrap by `%`, and the mask of a power of two.
use Prim.Native.Nat.{
  ℕ, zero, suc, ◌+◌, ◌-◌, ◌*◌, ◌/◌, ◌%◌, ◌^◌, ◌≤◌, ◌<◌, min, max, bit_and, bit_or, digits,
  bit_and-bitwise, bit_or-bitwise,
}
use mathlib.Core.Path.{◌≡◌, refl, sym, ap, ◌∙◌}
use mathlib.Core.Logic.{◌⊎◌, inl, inr}
use native.Mathlib.Omega.{arith}
use native.Mathlib.Nat.{pow-suc, mod-lt, le_refl, div-add-mod, add-mul-mod_self_left, mod-eq_of_lt}

abbrev pub u32_mod : ℕ
u32_mod = 2 ^ 32

-- The difference of two 32-bit words, as a word.
abbrev pub sub32 : ℕ → ℕ → ℕ
sub32 a b = (a + u32_mod - b) % u32_mod

-- `bit_and` digit by digit, the rounds written out.
abbrev and_rounds : ℕ → ℕ → ℕ → ℕ
and_rounds = digits (λ b. zero) min

-- The rounds left over change nothing.
and_rounds_enough : (n a b k : ℕ) → a ≤ n → and_rounds (n + k) a b ≡ and_rounds n a b
and_rounds_enough zero zero b zero h = refl
and_rounds_enough zero zero b (suc k) h = let e : 0 + suc k ≡ suc k = omega arith in rw e
and_rounds_enough zero (suc a) b k h = absurd (omega arith)
and_rounds_enough (suc n) zero b k h = let e : suc n + k ≡ suc (n + k) = omega arith in rw e refl
and_rounds_enough (suc n) (suc a) b k h =
    let e : suc n + k ≡ suc (n + k) = omega arith in
    rw e (omega (arith, and_rounds_enough n (suc a / 2) (b / 2) k (omega arith)))

bit_and_zero_left : (b : ℕ) → bit_and 0 b ≡ 0
bit_and_zero_left = bit_and-bitwise 0

-- The law of the lowest digit.
pub bit_and_lowest : (a b : ℕ) → bit_and a b ≡ min (a % 2) (b % 2) + 2 * bit_and (a / 2) (b / 2)
bit_and_lowest zero b = omega (arith, bit_and_zero_left b, bit_and_zero_left (b / 2))
bit_and_lowest (suc a) b =
    let half = suc a / 2 in
    let spare : a ≡ half + (a - half) = omega arith in
    let same = and_rounds_enough half half (b / 2) (a - half) (omega arith) in
    omega (arith, bit_and-bitwise (suc a) b, bit_and-bitwise half (b / 2), rw (← spare) at same)

bit_and_zero_right : (n a : ℕ) → a ≤ n → bit_and a 0 ≡ 0
bit_and_zero_right n zero h = refl
bit_and_zero_right zero (suc a) h = absurd (omega arith)
bit_and_zero_right (suc n) (suc a) h =
    omega (arith, bit_and_lowest (suc a) 0, bit_and_zero_right n (suc a / 2) (omega arith))

-- `bit_or` in the same way
abbrev or_rounds : ℕ → ℕ → ℕ → ℕ
or_rounds = digits (λ b. b) max

or_rounds_enough : (n a b k : ℕ) → a ≤ n → or_rounds (n + k) a b ≡ or_rounds n a b
or_rounds_enough zero zero b zero h = refl
or_rounds_enough zero zero b (suc k) h = let e : 0 + suc k ≡ suc k = omega arith in rw e refl
or_rounds_enough zero (suc a) b k h = absurd (omega arith)
or_rounds_enough (suc n) zero b k h = let e : suc n + k ≡ suc (n + k) = omega arith in rw e refl
or_rounds_enough (suc n) (suc a) b k h =
    let e : suc n + k ≡ suc (n + k) = omega arith in
    rw e (omega (arith, or_rounds_enough n (suc a / 2) (b / 2) k (omega arith)))

bit_or_zero_left : (b : ℕ) → bit_or 0 b ≡ b
bit_or_zero_left = bit_or-bitwise 0

bit_or_lowest : (a b : ℕ) → bit_or a b ≡ max (a % 2) (b % 2) + 2 * bit_or (a / 2) (b / 2)
bit_or_lowest zero b = omega (arith, bit_or_zero_left b, bit_or_zero_left (b / 2))
bit_or_lowest (suc a) b =
    let half = suc a / 2 in
    let spare : a ≡ half + (a - half) = omega arith in
    let same = or_rounds_enough half half (b / 2) (a - half) (omega arith) in
    omega (arith, bit_or-bitwise (suc a) b, bit_or-bitwise half (b / 2), rw (← spare) at same)

-- All bits of a mask are set in a word.
abbrev pub HasBits : (word mask : ℕ) → Type 0
HasBits word mask = bit_and word mask ≡ mask

HasBits-below : (n a c b : ℕ) → b ≤ n → (HasBits a b) ⊎ (HasBits c b) → HasBits (bit_or a c) b
HasBits-below n a c zero le h = bit_and_zero_right (bit_or a c) (bit_or a c) (omega arith)
HasBits-below zero a c (suc b) le h = absurd (omega arith)
HasBits-below (suc n) a c (suc b) le h =
    let o = bit_or a c in
    let low = bit_or_lowest a c in
    let high : o / 2 ≡ bit_or (a / 2) (c / 2) = omega (arith, low) in
    let both = ap (λ x. bit_and x (suc b / 2)) high in
    elim h [
      | inl g ↦
          let part = bit_and_lowest a (suc b) in
          let half : HasBits (a / 2) (suc b / 2) = omega (arith, part, g) in
          let rest = HasBits-below n (a / 2) (c / 2) (suc b / 2) (omega arith) (inl half) in
          omega (arith, bit_and_lowest o (suc b), low, both, rest, part, g)
      | inr g ↦
          let part = bit_and_lowest c (suc b) in
          let half : HasBits (c / 2) (suc b / 2) = omega (arith, part, g) in
          let rest = HasBits-below n (a / 2) (c / 2) (suc b / 2) (omega arith) (inr half) in
          omega (arith, bit_and_lowest o (suc b), low, both, rest, part, g)
    ]

-- What is set stays set by `|=`, and what it sets is set.
pub HasBits-kept : (a c b : ℕ) → HasBits a b → HasBits (bit_or a c) b
HasBits-kept a c b h = HasBits-below b a c b (omega arith) (inl h)

pub HasBits-set : (a c b : ℕ) → HasBits c b → HasBits (bit_or a c) b
HasBits-set a c b h = HasBits-below b a c b (omega arith) (inr h)

HasBits-self_below : (n a : ℕ) → a ≤ n → HasBits a a
HasBits-self_below n zero le = bit_and_zero_left 0
HasBits-self_below zero (suc a) le = absurd (omega arith)
HasBits-self_below (suc n) (suc a) le =
    omega (arith, bit_and_lowest (suc a) (suc a), HasBits-self_below n (suc a / 2) (omega arith))

pub HasBits-self : (a : ℕ) → HasBits a a
HasBits-self a = HasBits-self_below a a (omega arith)

pub pow_pos : (k : ℕ) → 1 ≤ 2 ^ k
pow_pos zero = omega arith
pow_pos (suc k) = omega (arith, pow-suc 2 k, pow_pos k)

-- The remainder by an even number, from that of the half.
mod_even : (a p : ℕ) → 1 ≤ p → a % (p * 2) ≡ a / 2 % p * 2 + a % 2
mod_even a p h =
    let m = a / 2 % p in
    let d = a / 2 / p in
    let r = a % 2 in
    let low : m < p = mod-lt _ h in
    let small : m * 2 + r < p * 2 = omega arith in
    let whole : a / 2 ≡ p * d + m = sym (div-add-mod (a / 2) p) in
    let split : a ≡ m * 2 + r + p * 2 * d = omega arith in
    ap (λ t. t % (p * 2)) split ∙ add-mul-mod_self_left (m * 2 + r) (p * 2) d ∙ mod-eq_of_lt small

-- Masking by 2 ^ k - 1 is the remainder modulo 2 ^ k.
pub bit_and_mask : (k a : ℕ) → bit_and a (2 ^ k - 1) ≡ a % 2 ^ k
bit_and_mask zero a = omega (arith, bit_and_zero_right a a (le_refl a))
bit_and_mask (suc k) a =
    let half : (2 ^ k * 2 - 1) / 2 ≡ 2 ^ k - 1 = omega (arith, pow_pos k) in
    let high = ap (bit_and (a / 2)) half in
    rw (pow-suc 2 k) (
      omega (
        arith,
        bit_and_lowest a (2 ^ k * 2 - 1),
        bit_and_mask k (a / 2),
        mod_even a (2 ^ k) (pow_pos k),
        pow_pos k,
        high,
      ))
