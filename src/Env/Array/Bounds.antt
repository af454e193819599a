-- ===== src/Env/Array/Bounds.antt =====
-- `getenv_array` of bsd/lib/lazybsd_kern_environment.c ends, and stays inside its buffer.
use lazybsd.Prelude.{
  ℕ, ◌+◌, ◌-◌, ◌⊎◌, false, ◌*◌, ◌%◌, ◌^◌, ◌≤◌, ◌<◌, ◌≡◌, Bool, true, Option, none, some, List, [],
  ◌∷◌, length,
}
use lazybsd.Env.Number.{Strtoq}
use lazybsd.Env.Array.{Parsed, finished, failed, parsing, ArrayResult}

-- What follows a value is no longer than `n`.
abbrev Shorter : ℕ → Option (ℕ × List ℕ) → Type 0
Shorter n none = Unit {0}
Shorter n (some r) = length r.1 ≤ n

-- The pattern of 64 bits of a number in the range of a C type of `type_size` bytes, signed or not
abbrev pub InRange : (type_size : ℕ) → (allow_signed : Bool) → ℕ → Type 0
InRange type_size true v =
    (v < 2 ^ (8 * type_size - 1)) ⊎ ((2 ^ 64 ≤ v + 2 ^ (8 * type_size - 1)) × (v < 2 ^ 64))
InRange type_size false v = v < 2 ^ (8 * type_size)

-- An element of the buffer: the bytes of a number that `getenv_array` accepted and that is in the range of the type
abbrev pub IsElement : (type_size : ℕ) → (allow_signed : Bool) → ℕ → Type 0
IsElement type_size allow_signed x =
    (v : ℕ) × (x ≡ v % 2 ^ (8 * type_size)) × InRange type_size allow_signed v

abbrev pub AllElements : (type_size : ℕ) → (allow_signed : Bool) → List ℕ → Type 0
AllElements type_size allow_signed [] = Unit {0}
AllElements type_size allow_signed (x ∷ xs) =
    IsElement type_size allow_signed x × AllElements type_size allow_signed xs

abbrev Inside : (size type_size : ℕ) → (allow_signed : Bool) → List ℕ → Type 0
Inside size type_size allow_signed l = (length l ≤ size) × AllElements type_size allow_signed l

-- The loop has ended, inside the buffer.
abbrev Ended : (size type_size : ℕ) → (allow_signed : Bool) → Parsed → Type 0
Ended size type_size allow_signed (finished l) = Inside size type_size allow_signed l
Ended size type_size allow_signed (failed l) = Inside size type_size allow_signed l
Ended size type_size allow_signed parsing = ⊥

module _ (q : Strtoq) (type_size : ℕ) (allow_signed : Bool) where
  -- What `getenv_array` leaves is inside a buffer of `size` elements.
  record Fits (size : ℕ) (r : ArrayResult) : Type 0 where
    inside : Inside size type_size allow_signed r.stored
    told : r.rc ≡ true → (1 ≤ length r.stored) × (r.psize ≡ some (length r.stored * type_size))

  Returned : ℕ → Option ArrayResult → Type 0
  Returned size o = (r : ArrayResult) × (o ≡ some r) × Fits size r
