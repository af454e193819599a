-- ===== src/Printf/Directive.antt =====
-- bsd/lib/lazybsd_subr_prf.c: how `kvprintf` reads a directive, from behind the '%' up to its
-- conversion character. An argument of a number's type is the 64 bits of its place in `va_list`.
use lazybsd.Prelude.{
  ℕ, zero, suc, ◌+◌, ◌-◌, ◌*◌, ◌%◌, ◌^◌, ◌≤◌, ◌<◌, Bool, true, false, not, ◌&&◌, ◌||◌, Option, none,
  some, List, [], ◌∷◌, if◌then◌else◌, ltb, leb, ◌==◌, length, arith, if_intro,
}
use native.Mathlib.Nat.{le_refl}

-- What a caller passes behind the format: a number or an address, a string (NULL is `none`), and
-- memory that `%D` dumps.
pub data Arg : Type 0 where
  slot : ℕ → Arg
  text : Option (List ℕ) → Arg
  bytes : List ℕ → Arg

-- The variables that one directive sets; `dwidth` is 0 where the source has a negative number, since it is
-- only compared with lengths.
pub record Spec : Type 0 where
  pub padc : ℕ
  pub width : ℕ
  pub dwidth : ℕ
  pub qflag : Bool
  pub lflag : Bool
  pub ladjust : Bool
  pub sharpflag : Bool
  pub sign : Bool
  pub dot : Bool
  pub cflag : Bool
  pub hflag : Bool
  pub jflag : Bool
  pub tflag : Bool
  pub zflag : Bool

abbrev pub fresh_spec : Spec
fresh_spec = record {
  padc = 32;
  width = 0;
  dwidth = 0;
  qflag = false;
  lflag = false;
  ladjust = false;
  sharpflag = false;
  sign = false;
  dot = false;
  cflag = false;
  hflag = false;
  jflag = false;
  tflag = false;
  zflag = false;
}

abbrev pub is_digit : ℕ → Bool
is_digit c = leb 48 c && leb c 57

-- A run of digits, with the number so far.
abbrev pub digit_run : ℕ → List ℕ → ℕ × List ℕ
digit_run n [] = (n, [])
digit_run n (c ∷ s) =
    let on = digit_run (n * 10 + (c - 48)) s in if is_digit c then on else (n, c ∷ s)

-- One character of a directive: it changes the variables, it is the conversion, or what follows is undefined in C: an argument is
-- missing or of another type, or an `int` overflows.
pub data Flag : Type 0 where
  reswitch : Spec → List ℕ → List Arg → Flag
  converts : Flag
  undefined : Flag

-- `va_arg(ap, int)` for a '*'; a pattern from 2 ^ 31 on is negative.
abbrev pub star : Spec → List ℕ → List Arg → Flag
star sp rest (slot a ∷ args) =
    let n = a % 2 ^ 32 in
    let minus = 2 ^ 32 - n in
    if sp.dot
    then reswitch (record sp { dwidth = if ltb n (2 ^ 31) then n else 0 }) rest args
    else if ltb n (2 ^ 31)
    then reswitch (record sp { width = n }) rest args
    else if n == 2 ^ 31
    then undefined
    else reswitch (record sp { width = minus; ladjust = not sp.ladjust }) rest args
star sp rest (text a ∷ args) = undefined
star sp rest (bytes a ∷ args) = undefined
star sp rest [] = undefined

-- The digits '1' to '9', and '0' behind a dot.
abbrev pub number_flag : ℕ → Spec → List ℕ → List Arg → Flag
number_flag c sp rest args =
    let run = digit_run (0 * 10 + (c - 48)) rest in
    if leb (2 ^ 31) run.0
    then undefined
    else if sp.dot
    then reswitch (record sp { dwidth = run.0 }) run.1 args
    else reswitch (record sp { width = run.0 }) run.1 args

-- The cases of `switch` that set a variable and take the next character.
unfoldable pub set_flag : ℕ → Spec → Option Spec
set_flag c sp =
    if c == 46
    then some (record sp { dot = true })
    else if c == 35
    then some (record sp { sharpflag = true })
    else if c == 43
    then some (record sp { sign = true })
    else if c == 45
    then some (record sp { ladjust = true })
    else if c == 48
    then some (record sp { padc = 48 })
    else if c == 104
    then some
        (if sp.hflag then record sp { hflag = false; cflag = true } else record sp { hflag = true })
    else if c == 106
    then some (record sp { jflag = true })
    else if c == 108
    then some
        (if sp.lflag then record sp { lflag = false; qflag = true } else record sp { lflag = true })
    else if c == 113
    then some (record sp { qflag = true })
    else if c == 116
    then some (record sp { tflag = true })
    else if c == 122
    then some (record sp { zflag = true })
    else none

abbrev pub flag_set : List ℕ → List Arg → Option Spec → Flag
flag_set rest args none = converts
flag_set rest args (some sp) = reswitch sp rest args

-- The cases of `switch` that another character follows. A '0' is a flag unless it stands behind a dot.
unfoldable pub flag : ℕ → Spec → List ℕ → List Arg → Flag
unfolding set_flag
flag c sp rest args =
    if c == 42
    then star sp rest args
    else if is_digit c && (sp.dot || not (c == 48))
    then number_flag c sp rest args
    else flag_set rest args (set_flag c sp)

-- A directive up to its conversion: the character, what follows it and the arguments that are left.
pub data Directive : Type 0 where
  conversion : ℕ → Spec → List ℕ → List Arg → Directive
  bad_directive : Directive
  endless : Directive

-- Behind a character: `next` is `reswitch`.
abbrev pub after_flag : (Spec → List ℕ → List Arg → Directive) → Directive → Flag → Directive
after_flag next end (reswitch sp rest args) = next sp rest args
after_flag next end converts = end
after_flag next end undefined = bad_directive

-- `reswitch`, on fuel. At the end of the format the switch sees NUL, whose default reads on behind it.
unfoldable pub directive : ℕ → Spec → List ℕ → List Arg → Directive
unfolding flag
directive fuel sp [] args = bad_directive
directive zero sp (c ∷ rest) args = endless
directive (suc fuel) sp (c ∷ rest) args =
    after_flag (directive fuel) (conversion c sp rest args) (flag c sp rest args)

-- A run of digits is no longer than the characters.
pub length-digit_run : (n : ℕ) (s : List ℕ) → length (digit_run n s).1 ≤ length s
length-digit_run n [] = omega arith
length-digit_run n (c ∷ s) = ground (arith, length-digit_run (n * 10 + (c - 48)) s)

-- Where a flag leaves off.
pub data Shorter (rest : List ℕ) : Flag → Type 0 where
  stays :
      (sp : Spec) (rest' : List ℕ) (args : List Arg)
      → length rest' ≤ length rest
      → Shorter rest (reswitch sp rest' args)
  no_flag : Shorter rest converts
  stray : Shorter rest undefined

star-Shorter : (sp : Spec) (rest : List ℕ) (args : List Arg) → Shorter rest (star sp rest args)
star-Shorter sp rest [] = stray
star-Shorter sp rest (text a ∷ args) = stray
star-Shorter sp rest (bytes a ∷ args) = stray
star-Shorter sp rest (slot a ∷ args) =
    let same = λ (sp : Spec). stays sp rest args (le_refl (length rest)) in
    let n = a % 2 ^ 32 in
    if_intro (Shorter rest) sp.dot (same (record sp { dwidth = if ltb n (2 ^ 31) then n else 0 })) (
      if_intro (Shorter rest) (ltb n (2 ^ 31)) (same (record sp { width = n })) (
        if_intro (Shorter rest) (n == 2 ^ 31) stray
          (same (record sp { width = 2 ^ 32 - n; ladjust = not sp.ladjust }))))

number_flag-Shorter :
    (c : ℕ) (sp : Spec) (rest : List ℕ) (args : List Arg)
    → Shorter rest (number_flag c sp rest args)
number_flag-Shorter c sp rest args =
    let run = length-digit_run (0 * 10 + (c - 48)) rest in
    if_intro (Shorter rest) _ stray
      (if_intro (Shorter rest) _ (stays _ _ args run) (stays _ _ args run))

flag_set-Shorter :
    (rest : List ℕ) (args : List Arg) (o : Option Spec) → Shorter rest (flag_set rest args o)
flag_set-Shorter rest args none = no_flag
flag_set-Shorter rest args (some sp) = stays sp rest args (le_refl (length rest))

flag-Shorter :
    (c : ℕ) (sp : Spec) (rest : List ℕ) (args : List Arg) → Shorter rest (flag c sp rest args)
unfolding flag
flag-Shorter c sp rest args = if_intro (Shorter rest) (c == 42) (star-Shorter sp rest args) (
    if_intro (Shorter rest) (is_digit c && (sp.dot || not (c == 48)))
      (number_flag-Shorter c sp rest args) (flag_set-Shorter rest args (set_flag c sp)))

-- A directive is read to its end, and leaves fewer characters than the format has.
pub data Ends (fmt : List ℕ) : Directive → Type 0 where
  at_conversion :
      (c : ℕ) (sp : Spec) (rest : List ℕ) (args : List Arg)
      → length rest < length fmt
      → Ends fmt (conversion c sp rest args)
  at_fault : Ends fmt bad_directive

after_flag-Ends :
    (fmt rest : List ℕ) (next : Spec → List ℕ → List Arg → Directive) (end : Directive)
    → Ends fmt end
    → ((sp : Spec) (rest' : List ℕ) (args : List Arg)
        → length rest' ≤ length rest
        → Ends fmt (next sp rest' args))
    → (f : Flag) → Shorter rest f
    → Ends fmt (after_flag next end f)
after_flag-Ends fmt rest next end e ih _ (stays sp rest' args h) = ih sp rest' args h
after_flag-Ends fmt rest next end e ih _ no_flag = e
after_flag-Ends fmt rest next end e ih _ stray = at_fault

-- With as much fuel as there are characters.
pub directive-Ends :
    (fmt : List ℕ) (fuel : ℕ) (sp : Spec) (rest : List ℕ) (args : List Arg)
    → length rest ≤ fuel
    → length rest ≤ length fmt
    → Ends fmt (directive fuel sp rest args)
unfolding directive
directive-Ends fmt fuel sp [] args h l = at_fault
directive-Ends fmt zero sp (c ∷ rest) args h l = absurd (omega arith)
directive-Ends fmt (suc fuel) sp (c ∷ rest) args h l =
    after_flag-Ends fmt rest (directive fuel) (conversion c sp rest args)
      (at_conversion c sp rest args (omega arith))
      (λ sp' rest' args' k. directive-Ends fmt fuel sp' rest' args' (omega arith) (omega arith))
      (flag c sp rest args) (flag-Shorter c sp rest args)
