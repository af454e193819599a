-- ===== src/Printf/Number.antt =====
-- bsd/lib/lazybsd_subr_prf.c: `ksprintn`. The buffer is the list of its characters from the last that
-- was written down to the NUL at its start, so it reads as the number is printed.
use lazybsd.Prelude.{
  ℕ, zero, suc, ◌+◌, ◌*◌, ◌/◌, ◌%◌, ◌^◌, ◌≤◌, ◌<◌, ◌≡◌, ◌≢◌, ap, ◌∙◌, Bool, true, false, List, [],
  ◌∷◌, if◌then◌else◌, ◌==◌, length, arith, if_cases,
}
use native.Mathlib.Nat.{div-add-mod', mod-lt, pow-suc, div-lt_iff_lt-mul, mul-le-mul_left}

-- `hex2ascii` and `toupper` of the kernel library. A digit is told by its character, in both cases.
pub record Digits : Type 0 where
  pub hex2ascii : ℕ → ℕ
  pub toupper : ℕ → ℕ
  pub digit_of : ℕ → ℕ
  pub digit_of_hex : (d : ℕ) → d < 36 → digit_of (hex2ascii d) ≡ d
  pub digit_of_upper : (d : ℕ) → d < 36 → digit_of (toupper (hex2ascii d)) ≡ d

module _ (g : Digits) where
  -- The character of a digit.
  abbrev pub digit_char : (upper : Bool) → ℕ → ℕ
  digit_char upper d = if upper then g.toupper (g.hex2ascii d) else g.hex2ascii d

  -- The loop of `ksprintn`: `buf` is what has been written.
  unfoldable pub push_digits : (fuel num base : ℕ) → (upper : Bool) → List ℕ → List ℕ
  push_digits zero num base upper buf = buf
  push_digits (suc fuel) num base upper buf =
      let written = digit_char upper (num % base) ∷ buf in
      let on = push_digits fuel (num / base) base upper written in
      if num / base == 0 then written else on

  -- `ksprintn`; a number of 64 bits has at most 64 digits.
  unfoldable pub ksprintn : (num base : ℕ) → (upper : Bool) → List ℕ
  unfolding push_digits
  ksprintn num base upper = push_digits 64 num base upper []

  -- The number that digits stand for, read from the first on.
  abbrev pub number_of : (base acc : ℕ) → List ℕ → ℕ
  number_of base acc [] = acc
  number_of base acc (c ∷ s) = number_of base (acc * base + g.digit_of c) s

  digit_char-of : (upper : Bool) (d : ℕ) → d < 36 → g.digit_of (digit_char upper d) ≡ d
  digit_char-of true d h = g.digit_of_upper d h
  digit_char-of false d h = g.digit_of_hex d h

  module _ (base : ℕ) (two : 2 ≤ base) (most : base ≤ 36) (upper : Bool) where
    last_digit : (num : ℕ) → g.digit_of (digit_char upper (num % base)) ≡ num % base
    last_digit num =
        let low : num % base < base = mod-lt num (omega arith) in
        digit_char-of upper (num % base) (omega arith)

    -- One digit less is left for one round less.
    smaller : (fuel num : ℕ) → num < 2 ^ suc fuel → num / base < 2 ^ fuel
    smaller fuel num h =
        let room = mul-le-mul_left (2 ^ fuel) two in
        (div-lt_iff_lt-mul (omega arith)).1 (omega (arith, pow-suc 2 fuel))

    rounds_left : (fuel num : ℕ) → num < 2 ^ fuel → num ≢ 0 → 0 < fuel
    rounds_left zero num h n = absurd (n (omega arith))
    rounds_left (suc fuel) num h n = omega arith

    last_read : (num : ℕ) → num / base * base + g.digit_of (digit_char upper (num % base)) ≡ num
    last_read num = omega (arith, last_digit num, div-add-mod' num base)

    -- What is read from the first digit written on.
    push_digits-number_of :
        (fuel num : ℕ) (buf : List ℕ)
        → num < 2 ^ fuel
        → 0 < fuel
        → number_of base 0 (push_digits fuel num base upper buf) ≡ number_of base num buf
    unfolding push_digits
    push_digits-number_of zero num buf h k = absurd (omega arith)
    push_digits-number_of (suc fuel) num buf h k =
        let c = digit_char upper (num % base) in
        if_cases (λ l. number_of base 0 l ≡ number_of base num buf) (num / base == 0)
          (λ e.
            let none_left : 0 ≡ num / base = ground arith in
            ap (λ x. number_of base x buf)
              (ap (λ x. x * base + g.digit_of c) none_left ∙ last_read num))
          λ e.
            push_digits-number_of fuel (num / base) (c ∷ buf) (smaller fuel num h)
              (rounds_left fuel (num / base) (smaller fuel num h) (ground arith))
            ∙ ap (λ x. number_of base x buf) (last_read num)

  -- A round writes one character.
  length-push_digits :
      (fuel num base : ℕ) (upper : Bool) (buf : List ℕ)
      → let l = length (push_digits fuel num base upper buf) in
        (length buf ≤ l) × (l ≤ fuel + length buf)
  unfolding push_digits
  length-push_digits zero num base upper buf = (omega arith, omega arith)
  length-push_digits (suc fuel) num base upper buf =
      ground (
        arith,
        length-push_digits fuel (num / base) base upper (digit_char upper (num % base) ∷ buf),
      )

  push_digits_some :
      (fuel num base : ℕ) (upper : Bool) (buf : List ℕ)
      → length buf < length (push_digits (suc fuel) num base upper buf)
  unfolding push_digits
  push_digits_some fuel num base upper buf =
      ground (
        arith,
        length-push_digits fuel (num / base) base upper (digit_char upper (num % base) ∷ buf),
      )

  -- For a base from 2 to 36, `ksprintn` writes a number of 64 bits as digits that stand for it when they
  -- are read from the first on, at least one and at most 64 of them, so that with the NUL they fit in
  -- `MAXNBUF` characters.
  pub ksprintn-number_of :
      (num base : ℕ) (upper : Bool)
      → num < 2 ^ 64
      → 2 ≤ base
      → base ≤ 36
      → let s = ksprintn num base upper in
        (number_of base 0 s ≡ num) × ((1 ≤ length s) × (length s ≤ 64))
  unfolding ksprintn
  ksprintn-number_of num base upper h two most = (
    push_digits-number_of base two most upper 64 num [] h (omega arith),
    (push_digits_some 63 num base upper [], omega (arith, length-push_digits 64 num base upper [])),
  )
