-- ===== src/Env/Number.antt =====
-- bsd/lib/lazybsd_kern_environment.c: `getenv_quad` and the functions on top of it. A `quad_t` is its
-- 64-bit pattern, and `*=` wraps round.
use lazybsd.Prelude.{
  ℕ, ◌-◌, ◌*◌, ◌%◌, ◌^◌, ◌≤◌, ◌<◌, ◌≡◌, Bool, true, false, ◌||◌, Option, none, some, List,
  if◌then◌else◌, ◌==◌, ltb, length, take, drop, is_some, arith, ap,
}
use lazybsd.Env.Lookup.{char_at}

abbrev pub quad_mod : ℕ
quad_mod = 2 ^ 64

-- `strtoq(s, &end, 0)` of the kernel library: the number at the start of a string, as a pattern, and
-- how many characters it takes.
pub record Strtoq : Type 0 where
  pub strtoq : List ℕ → ℕ × ℕ
  pub strtoq_word : (s : List ℕ) → (strtoq s).0 < quad_mod
  pub strtoq_end : (s : List ℕ) → (strtoq s).1 ≤ length s

-- Whether a character is one of two.
abbrev pub one_of : (c lower upper : ℕ) → Bool
one_of c lower upper = (c == lower) || (c == upper)

-- `iv *= 1024`
abbrev pub times_1024 : ℕ → ℕ
times_1024 iv = (iv * 1024) % quad_mod

-- The switch of `getenv_quad`, each case of which falls through to the next.
unfoldable pub scale_quad : (c iv : ℕ) → Option ℕ
scale_quad c iv =
    if one_of c 116 84
    then some (times_1024 (times_1024 (times_1024 (times_1024 iv))))
    else if one_of c 103 71
    then some (times_1024 (times_1024 (times_1024 iv)))
    else if one_of c 109 77
    then some (times_1024 (times_1024 iv))
    else if one_of c 107 75
    then some (times_1024 iv)
    else if c == 0
    then some iv
    else none

-- `getenv_string`, with the buffer as it was; `strlcpy` copies up to `size - 1` characters.
unfoldable pub getenv_string :
    (kern_getenv : List ℕ → Option (List ℕ)) → (name buffer : List ℕ) → (size : ℕ) → List ℕ × Bool
getenv_string kern_getenv name buffer size = elim (kern_getenv name) [
  | none ↦ (buffer, false)
  | some value ↦ (if size == 0 then buffer else take (size - 1) value, true)
]

-- `testenv`
unfoldable pub testenv : (kern_getenv : List ℕ → Option (List ℕ)) → (name : List ℕ) → Bool
testenv kern_getenv name = is_some (kern_getenv name)

-- The powers of two that the suffixes stand for.
abbrev pub exponent : (c : ℕ) → Option ℕ
exponent c =
    if one_of c 116 84
    then some 40
    else if one_of c 103 71
    then some 30
    else if one_of c 109 77
    then some 20
    else if one_of c 107 75
    then some 10
    else if c == 0
    then some 0
    else none

abbrev pub shifted : (iv : ℕ) → Option ℕ → Option ℕ
shifted iv none = none
shifted iv (some k) = some ((iv * 2 ^ k) % quad_mod)

module _ (q : Strtoq) (kern_getenv : List ℕ → Option (List ℕ)) where
  -- `getenv_quad` on a value
  unfoldable pub quad_of : (value : List ℕ) → Option ℕ
  unfolding scale_quad
  quad_of value =
      let (iv, n) = q.strtoq value in
      let vtp = drop n value in
      if (n == 0) || ltb 1 (length vtp) then none else scale_quad (char_at vtp 0) iv

  -- `getenv_quad`; `none` is the result 0, where nothing is stored.
  unfoldable pub getenv_quad : (name : List ℕ) → Option ℕ
  unfolding quad_of
  getenv_quad name = elim (kern_getenv name) [ none ↦ none | some value ↦ quad_of value ]

  abbrev pub map_quad : (ℕ → ℕ) → Option ℕ → Option ℕ
  map_quad f none = none
  map_quad f (some n) = some (f n)

  -- `getenv_int` and `getenv_uint`: the cast keeps the low 32 bits.
  unfoldable pub getenv_int : (name : List ℕ) → Option ℕ
  unfolding getenv_quad
  getenv_int name = map_quad (λ n. n % 2 ^ 32) (getenv_quad name)

  unfoldable pub getenv_uint : (name : List ℕ) → Option ℕ
  unfolding getenv_quad
  getenv_uint name = map_quad (λ n. n % 2 ^ 32) (getenv_quad name)

  -- `getenv_long` and `getenv_ulong`: the cast keeps all bits.
  unfoldable pub getenv_long : (name : List ℕ) → Option ℕ
  unfolding getenv_quad
  getenv_long name = getenv_quad name

  unfoldable pub getenv_ulong : (name : List ℕ) → Option ℕ
  unfolding getenv_quad
  getenv_ulong name = getenv_quad name

scale_quad-shifted : (c iv : ℕ) → iv < quad_mod → scale_quad c iv ≡ shifted iv (exponent c)
unfolding scale_quad
scale_quad-shifted c iv h = ground arith

module _ (q : Strtoq) (kern_getenv : List ℕ → Option (List ℕ)) where
  -- For a variable that has a value, `getenv_quad` fails when the value does not start with a
  -- number, has more than one character behind it, or one that is no suffix; otherwise it gives
  -- the number times the power of two of that character, reduced to 64 bits.
  pub getenv_quad-shifted :
      (name value : List ℕ)
      → kern_getenv name ≡ some value
      → getenv_quad q kern_getenv name ≡ (
          let (iv, n) = q.strtoq value in
          let vtp = drop n value in
          if (n == 0) || ltb 1 (length vtp) then none else shifted iv (exponent (char_at vtp 0)))
  unfolding getenv_quad quad_of
  getenv_quad-shifted name value h =
      let (iv, n) = q.strtoq value in
      let vtp = drop n value in
      rw (getenv_quad, h)
        (ap (λ (o : Option ℕ). if (n == 0) || ltb 1 (length vtp) then none else o)
          (scale_quad-shifted (char_at vtp 0) iv (q.strtoq_word value)))
