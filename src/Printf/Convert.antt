-- ===== src/Printf/Convert.antt =====
-- bsd/lib/lazybsd_subr_prf.c: the conversions of `kvprintf`. Characters are bytes, and `char` is
-- signed.
use lazybsd.Prelude.{
  ℕ, zero, suc, ◌+◌, ◌-◌, ◌/◌, ◌%◌, ◌^◌, Bool, true, false, not, ◌&&◌, ◌||◌, Option, none, some,
  List, [], ◌∷◌, ◌++◌, if◌then◌else◌, ltb, leb, ◌==◌, length, take, replicate, is_some,
}
use Prim.Native.Nat.{max, min}
use mathlib.Core.Option.{map}
use lazybsd.Printf.Number.{Digits, ksprintn}
use lazybsd.Printf.Directive.{Spec, Arg, slot, text, bytes}

-- What a conversion does: it prints and goes on with the arguments left, it stores the number of characters
-- printed so far, it stops the reading of directives, or C leaves it undefined.
pub data Converted : Type 0 where
  prints : List ℕ → List Arg → Converted
  stores : (address size : ℕ) → List Arg → Converted
  stops : List ℕ → Converted
  undefined : Converted

-- The value of a signed type of `w` bits, widened to 64 bits.
abbrev pub sign_extend : (w n : ℕ) → ℕ
sign_extend w n = let m = n % 2 ^ w in if ltb m (2 ^ (w - 1)) then m else m + (2 ^ 64 - 2 ^ w)

-- Whether the whole place of an argument is its value.
abbrev pub is_wide : Spec → Bool
is_wide sp = sp.jflag || (sp.qflag || (sp.tflag || (sp.lflag || sp.zflag)))

-- `handle_nosign`
unfoldable pub handle_nosign : Spec → ℕ → ℕ
handle_nosign sp a =
    if is_wide sp
    then a
    else if sp.hflag
    then a % 2 ^ 16
    else if sp.cflag
    then a % 2 ^ 8
    else a % 2 ^ 32

-- `handle_sign`
unfoldable pub handle_sign : Spec → ℕ → ℕ
handle_sign sp a =
    if is_wide sp
    then a
    else if sp.hflag
    then sign_extend 16 a
    else if sp.cflag
    then sign_extend 8 a
    else sign_extend 32 a

-- `%s`
unfoldable pub string_field : Spec → List ℕ → List ℕ
string_field sp p =
    let n = if sp.dot then min sp.dwidth (length p) else length p in
    let padding = replicate (sp.width - n) sp.padc in
    if sp.ladjust then take n p ++ padding else padding ++ take n p

-- "(null)"
abbrev pub null_text : List ℕ
null_text = 40 ∷ 110 ∷ 117 ∷ 108 ∷ 108 ∷ 41 ∷ []

-- The end of a name of `%b`.
abbrev pub is_control : ℕ → Bool
is_control c = leb c 32 || leb 128 c

-- What `%b` prints for a string without a name.
abbrev pub before_name : Bool → ℕ
before_name tmp = if tmp then 44 else 60

abbrev pub shows_name : Option Bool → Bool
shows_name none = false
shows_name (some s) = s

-- The names of `%b`, from a place in the string on: `named` tells whether a name is shown or skipped there,
-- and is `none` before the first bit. A bit that is not one of `1 << 0` to `1 << 31` is undefined.
unfoldable pub bit_names :
    (num : ℕ) → (tmp : Bool) → (named : Option Bool) → List ℕ → Option (List ℕ)
bit_names num tmp named [] = some (if tmp then 62 ∷ [] else [])
bit_names num tmp named (c ∷ p) =
    let set = (num / 2 ^ (c - 1)) % 2 == 1 in
    let in_name = is_some named && not (is_control c) in
    let shows = shows_name named in
    let rest =
      bit_names num (if in_name then tmp else tmp || set) (some (if in_name then shows else set))
        p in
    if in_name
    then if shows then map (λ s. c ∷ s) rest else rest
    else if (c == 0) || ltb 32 c
    then none
    else if set
    then map (λ s. before_name tmp ∷ s) rest
    else rest

-- The bytes that an `%n` stores to.
abbrev pub n_size : Spec → ℕ
n_size sp =
    if sp.jflag || (sp.qflag || (sp.lflag || sp.zflag))
    then 8
    else if sp.hflag
    then 2
    else if sp.cflag
    then 1
    else 4

-- Whether a number counts as negative: its sign bit is set, and the conversion is a signed one.
abbrev pub is_negative : (sign : Bool) → (num : ℕ) → Bool
is_negative sign num = sign && leb (2 ^ 63) num

abbrev pub magnitude : (sign : Bool) → (num : ℕ) → ℕ
magnitude sign num = if is_negative sign num then 2 ^ 64 - num else num

-- What '#' puts before a number other than 0.
abbrev pub prefix : (base : ℕ) → (sharpflag : Bool) → (num : ℕ) → List ℕ
prefix base sharpflag num =
    if sharpflag && not (num == 0)
    then if base == 8 then 48 ∷ [] else if base == 16 then 48 ∷ 120 ∷ [] else []
    else []

abbrev pub minus_sign : Bool → List ℕ
minus_sign neg = if neg then 45 ∷ [] else []

-- Whether the width is filled with zeros.
abbrev pub zero_padded : Spec → Bool
zero_padded sp = not sp.ladjust && (sp.padc == 48)

module _ (g : Digits) where
  -- `number`, with the flags that the conversion sets itself
  unfoldable pub number : (base : ℕ) → (upper sharpflag sign : Bool) → Spec → (num : ℕ) → List ℕ
  number base upper sharpflag sign sp num =
      let signs = minus_sign (is_negative sign num) in
      let marks = prefix base sharpflag (magnitude sign num) in
      let p = ksprintn g (magnitude sign num) base upper in
      let n = length p in
      let tmp = length marks + length signs in
      let dwidth = if zero_padded sp then sp.width - tmp else sp.dwidth in
      let blanks = replicate (sp.width - (tmp + max dwidth n)) 32 in
      let body = signs ++ (marks ++ (replicate (dwidth - n) 48 ++ p)) in
      if sp.ladjust then body ++ blanks else blanks ++ body

  -- `%b`
  unfoldable pub bits : (num : ℕ) → List ℕ → Option (List ℕ)
  unfolding bit_names
  bits num [] = none
  bits num (base ∷ p) =
      let digits = ksprintn g num base false in
      if ltb base 2 || ltb 36 base
      then none
      else if num == 0
      then some digits
      else map (λ s. digits ++ s) (bit_names num false none p)

  -- `%D`: as many bytes as the width, with the string between them
  unfoldable pub dump : (sep : Option (List ℕ)) → (width : ℕ) → List ℕ → Option (List ℕ)
  dump sep zero up = some []
  dump sep (suc width) [] = none
  dump sep (suc width) (b ∷ up) =
      let both = λ (s : List ℕ). g.hex2ascii (b / 16) ∷ g.hex2ascii (b % 16) ∷ s in
      let rest = dump sep width up in
      if width == 0
      then some (both [])
      else elim sep [ none ↦ none | some q ↦ map (λ s. both (q ++ s)) rest ]

  abbrev pub or_undefined : List Arg → Option (List ℕ) → Converted
  or_undefined args none = undefined
  or_undefined args (some s) = prints s args

  -- The conversions that take a number or an address.
  abbrev pub with_slot : (ℕ → List Arg → Converted) → List Arg → Converted
  with_slot f (slot a ∷ args) = f a args
  with_slot f (text a ∷ args) = undefined
  with_slot f (bytes a ∷ args) = undefined
  with_slot f [] = undefined

  abbrev pub signed : (base : ℕ) → Spec → List Arg → Converted
  signed base sp =
      with_slot λ a args. prints (number base false sp.sharpflag true sp (handle_sign sp a)) args

  abbrev pub unsigned : (base : ℕ) → (upper : Bool) → Spec → List Arg → Converted
  unsigned base upper sp =
      with_slot λ a args. prints (number base upper sp.sharpflag false sp (handle_nosign sp a)) args

  abbrev pub pointer : Spec → List Arg → Converted
  pointer sp = with_slot λ a args. prints (number 16 false (sp.width == 0) false sp a) args

  abbrev pub string : Spec → List Arg → Converted
  string sp (text none ∷ args) = prints (string_field sp null_text) args
  string sp (text (some p) ∷ args) = prints (string_field sp p) args
  string sp (slot a ∷ args) = undefined
  string sp (bytes a ∷ args) = undefined
  string sp [] = undefined

  abbrev pub bits_arg : List Arg → Converted
  bits_arg (slot a ∷ text (some p) ∷ args) = or_undefined args (bits (a % 2 ^ 32) p)
  bits_arg (slot a ∷ text none ∷ args) = undefined
  bits_arg (slot a ∷ slot b ∷ args) = undefined
  bits_arg (slot a ∷ bytes b ∷ args) = undefined
  bits_arg (slot a ∷ []) = undefined
  bits_arg (text a ∷ args) = undefined
  bits_arg (bytes a ∷ args) = undefined
  bits_arg [] = undefined

  abbrev pub dump_arg : Spec → List Arg → Converted
  dump_arg sp (bytes up ∷ text q ∷ args) =
      or_undefined args (dump q (if sp.width == 0 then 16 else sp.width) up)
  dump_arg sp (bytes up ∷ slot b ∷ args) = undefined
  dump_arg sp (bytes up ∷ bytes b ∷ args) = undefined
  dump_arg sp (bytes up ∷ []) = undefined
  dump_arg sp (slot a ∷ args) = undefined
  dump_arg sp (text a ∷ args) = undefined
  dump_arg sp [] = undefined

  -- The cases of `switch` that end it; `whole` is the directive from its '%' on, which the default prints.
  unfoldable pub convert : (radix : ℕ) → (whole : List ℕ) → (c : ℕ) → Spec → List Arg → Converted
  unfolding number bits dump string_field handle_sign handle_nosign
  convert radix whole c sp args =
      if c == 37
      then prints (37 ∷ []) args
      else if c == 98
      then bits_arg args
      else if c == 99
      then with_slot (λ a rest. prints (a % 2 ^ 8 ∷ []) rest) args
      else if c == 68
      then dump_arg sp args
      else if (c == 100) || (c == 105)
      then signed 10 sp args
      else if c == 110
      then with_slot (λ a rest. stores a (n_size sp) rest) args
      else if c == 111
      then unsigned 8 false sp args
      else if c == 112
      then pointer sp args
      else if c == 114
      then if sp.sign then signed radix sp args else unsigned radix false sp args
      else if c == 115
      then string sp args
      else if c == 117
      then unsigned 10 false sp args
      else if c == 88
      then unsigned 16 true sp args
      else if c == 120
      then unsigned 16 false sp args
      else if c == 121
      then signed 16 sp args
      else stops whole
