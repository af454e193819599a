-- ===== src/Printf/Buffer.antt =====
-- bsd/lib/lazybsd_subr_prf.c: `putbuf` and `kputchar`, the output function of `vprintf`. What is
-- written between `p_bufr` and `p_next` is a list, and the NUL behind it is not written down.
use lazybsd.Prelude.{
  ℕ, ◌+◌, ◌-◌, ◌%◌, ◌^◌, Bool, true, ◌||◌, Option, none, some, List, [], ◌∷◌, ◌++◌, if◌then◌else◌,
  ◌==◌,
}

-- What is called to show characters.
pub data Event : Type 0 where
  putchar : ℕ → Event
  puts : List ℕ → Event
  cnputs : List ℕ → Event
  msglogstr : List ℕ → Event

-- `struct putchar_arg`: the bits of `flags`, the buffer when there is one, and the calls so far.
pub record PutcharArg : Type 0 where
  pub to_cons : Bool
  pub to_log : Bool
  pub p_bufr : Option (List ℕ)
  pub n_bufr : ℕ
  pub remain : ℕ
  pub events : List Event

-- A C string ends at its first NUL.
abbrev pub c_string : List ℕ → List ℕ
c_string [] = []
c_string (c ∷ s) = let on = c_string s in if c == 0 then [] else c ∷ on

abbrev pub on_console : Bool → List Event → Event → List Event
on_console to_cons events e = if to_cons then events ++ (e ∷ []) else events

-- The buffer goes to the console and starts again.
abbrev pub flush : List ℕ → PutcharArg → PutcharArg
flush text a = record a {
  p_bufr = some [];
  remain = a.n_bufr;
  events = on_console a.to_cons a.events (puts (c_string text));
}

-- The character in the buffer, if there is one; `remain` is a `size_t`.
unfoldable pub put_in : ℕ → PutcharArg → Option (List ℕ) → PutcharArg
put_in c a none = record a { events = on_console a.to_cons a.events (putchar c) }
put_in c a (some text) =
    let stored = text ++ (c ∷ []) in
    let remain' = (a.remain + 2 ^ 64 - 1) % 2 ^ 64 in
    if (remain' == 2) || (c == 10)
    then flush stored a
    else record a { p_bufr = some stored; remain = remain' }

-- `putbuf`
unfoldable pub putbuf : ℕ → PutcharArg → PutcharArg
unfolding put_in
putbuf c a = put_in c a a.p_bufr

-- `kputchar`
unfoldable pub kputchar : ℕ → PutcharArg → PutcharArg
unfolding putbuf
kputchar c a =
    if a.to_cons then putbuf c a else if a.to_log then if c == 0 then a else putbuf c a else a

-- Every character that `kvprintf` prints, in order.
abbrev pub kputchars : List ℕ → PutcharArg → PutcharArg
kputchars [] a = a
kputchars (c ∷ s) a = kputchars s (kputchar c a)

-- The argument that `vprintf` starts with; `bufr_size` is `PRINTF_BUFR_SIZE`, where it is defined.
abbrev pub console_arg : (bufr_size : Option ℕ) → PutcharArg
console_arg none = record {
  to_cons = true;
  to_log = true;
  p_bufr = none;
  n_bufr = 0;
  remain = 0;
  events = [];
}
console_arg (some n) = record {
  to_cons = true;
  to_log = true;
  p_bufr = some [];
  n_bufr = n;
  remain = n;
  events = [];
}

-- The end of `vprintf`: what is left in the buffer.
unfoldable pub last_output : PutcharArg → List Event
last_output a = elim a.p_bufr [
  | none ↦ a.events
  | some [] ↦ a.events
  | some (c ∷ s) ↦
      let text = c_string (c ∷ s) in
      if c == 0 then a.events else a.events ++ (cnputs text ∷ msglogstr text ∷ [])
]
