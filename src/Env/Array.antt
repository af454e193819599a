-- ===== src/Env/Array.antt =====
-- bsd/lib/lazybsd_kern_environment.c: `getenv_array`. A value is the 64-bit pattern of an `int64_t`.
pub mod Bounds
pub mod Exact
use lazybsd.Prelude.{
  ℕ, zero, suc, ◌+◌, ◌-◌, ◌*◌, ◌/◌, ◌%◌, ◌^◌, ◌≤◌, ◌<◌, ◌≡◌, ◌≢◌, refl, Bool, true, false, not,
  ◌||◌, ◌&&◌, Option, none, some, List, [], ◌∷◌, ◌++◌, if◌then◌else◌, ◌==◌, ltb, leb, length, drop,
  arith, if_intro, if_cases,
}
use lazybsd.Env.Lookup.{Kenv, kenv_acquire, kenv_release}
use lazybsd.Env.Number.{Strtoq, quad_mod, one_of}

-- Whether a pattern is that of a negative number.
abbrev pub negative : ℕ → Bool
negative v = leb (2 ^ 63) v

-- `value << shift`, and the arithmetic `value >> shift`
abbrev pub shl : (v shift : ℕ) → ℕ
shl v shift = (v * 2 ^ shift) % quad_mod

abbrev pub sar : (v shift : ℕ) → ℕ
sar v shift = if negative v then v / 2 ^ shift + (quad_mod - 2 ^ (64 - shift)) else v / 2 ^ shift

-- The switch on the suffix: the shift, and what follows.
unfoldable pub suffix_shift : List ℕ → Option (ℕ × List ℕ)
suffix_shift [] = some (0, [])
suffix_shift (c ∷ s) =
    if one_of c 116 84
    then some (40, s)
    else if one_of c 103 71
    then some (30, s)
    else if one_of c 109 77
    then some (20, s)
    else if one_of c 107 75
    then some (10, s)
    else if one_of c 32 9 || (c == 44)
    then some (0, c ∷ s)
    else none

-- `while (*end == '\t' || *end == ',' || *end == ' ') end++;`
unfoldable pub skip_separators : List ℕ → List ℕ
skip_separators [] = []
skip_separators (c ∷ s) = if one_of c 9 44 || (c == 32) then skip_separators s else c ∷ s

-- The switch on `type_size`, with the bounds of the C types.
unfoldable pub fits : (type_size : ℕ) → (allow_signed : Bool) → (v : ℕ) → Bool
fits type_size allow_signed v =
    if type_size == 1
    then if allow_signed then ltb v (2 ^ 7) || leb (quad_mod - 2 ^ 7) v else ltb v (2 ^ 8)
    else if type_size == 2
    then if allow_signed then ltb v (2 ^ 15) || leb (quad_mod - 2 ^ 15) v else ltb v (2 ^ 16)
    else if type_size == 4
    then if allow_signed
      then ltb v (2 ^ 31) || leb (quad_mod - 2 ^ 31) v
      else ltb v (2 ^ 32) || negative v
    else type_size == 8

-- How the loop ends: with what it has stored, the first element first.
pub data Parsed : Type 0 where
  finished : List ℕ → Parsed
  failed : List ℕ → Parsed
  parsing : Parsed

-- What `getenv_array` leaves: the elements in the buffer, `*psize` if it is set, and the result.
pub record ArrayResult : Type 0 where
  pub stored : List ℕ
  pub psize : Option ℕ
  pub rc : Bool

module _ (q : Strtoq) (type_size : ℕ) (allow_signed : Bool) where
  -- The value that was read, after its sign, its suffix and its range are checked.
  unfoldable pub checked_value : (old : ℕ) → Option (ℕ × List ℕ) → Option (ℕ × List ℕ)
  unfolding fits skip_separators
  checked_value old none = none
  checked_value old (some (shift, rest)) =
      let value = shl old shift in
      if (sar value shift == old) && fits type_size allow_signed value
      then some (value, skip_separators rest)
      else none

  -- One round of the loop: the value to store, and `ptr` for the next.
  unfoldable pub next_value : (ptr : List ℕ) → Option (ℕ × List ℕ)
  unfolding checked_value suffix_shift
  next_value ptr =
      let (old, n) = q.strtoq ptr in
      if (negative old && not allow_signed) || (n == 0)
      then none
      else checked_value old (suffix_shift (drop n ptr))

  -- The loop; `size` is the number of elements that fit, and `stored` what is in the buffer.
  unfoldable pub array_loop : (fuel size : ℕ) → (ptr stored : List ℕ) → Parsed
  unfolding next_value
  array_loop fuel size [] stored = finished stored
  array_loop zero size (c ∷ ptr) stored = parsing
  array_loop (suc fuel) size (c ∷ ptr) stored = elim (next_value (c ∷ ptr)) [
    | none ↦ failed stored
    | some (value, rest) ↦
        let on = array_loop fuel size rest (stored ++ (value % 2 ^ (8 * type_size)) ∷ []) in
        if ltb (length stored) size then on else failed stored
  ]

unfoldable pub array_result : (type_size : ℕ) → Parsed → Option ArrayResult
array_result type_size (finished stored) = some (record {
  stored = stored;
  psize = some (length stored * type_size);
  rc = not (length stored == 0);
})
array_result type_size (failed stored) = some (record { stored = stored; psize = none; rc = false })
array_result type_size parsing = none

module _ (q : Strtoq) (type_size : ℕ) (allow_signed : Bool) where
  -- The body of `getenv_array` between `kenv_acquire` and `kenv_release`, on the value that was found.
  -- Each round takes a character at least, so the length of the value is enough fuel.
  unfoldable pub array_of : (size : ℕ) → Option (List ℕ) → Option ArrayResult
  unfolding array_loop array_result
  array_of size none = some (record { stored = []; psize = none; rc = false })
  array_of size (some buf) =
      array_result type_size
        (array_loop q type_size allow_signed (length buf) (size / type_size) buf [])

  -- `getenv_array`
  unfoldable pub getenv_array : Kenv → (name : List ℕ) → (size : ℕ) → Kenv × Option ArrayResult
  unfolding array_of
  getenv_array e name size =
      let (held, buf) = kenv_acquire e name in (kenv_release held buf, array_of size buf)
