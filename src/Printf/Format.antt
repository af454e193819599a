-- ===== src/Printf/Format.antt =====
-- bsd/lib/lazybsd_subr_prf.c: the loop of `kvprintf`, on fuel, and the functions that call it.
use lazybsd.Prelude.{
  ℕ, zero, suc, ◌-◌, Bool, true, false, not, ◌&&◌, ◌||◌, Option, none, some, List, [], ◌∷◌, ◌++◌,
  if◌then◌else◌, ltb, ◌==◌, length, take,
}
use lazybsd.Printf.Number.{Digits}
use lazybsd.Printf.Directive.{
  Arg, fresh_spec, Directive, conversion, bad_directive, endless, directive,
}
use lazybsd.Printf.Convert.{Converted, prints, stores, stops, undefined, convert}
use lazybsd.Printf.Buffer.{Event, console_arg, kputchars, last_output}

-- What `%n` writes: the number of bytes and the characters printed before.
pub record Store : Type 0 where
  pub address : ℕ
  pub size : ℕ
  pub retval : ℕ

-- The variables of `kvprintf` between two directives; `retval` is the length of what is printed.
pub record Reader : Type 0 where
  pub fmt : List ℕ
  pub args : List Arg
  pub stop : Bool
  pub out : List ℕ
  pub written : List Store

-- A character of the text, or a whole directive.
pub data Round : Type 0 where
  more : Reader → Round
  returns : Reader → Round
  undefined_round : Round
  endless_round : Round

-- How `kvprintf` ends.
pub data Outcome : Type 0 where
  printed : Reader → Outcome
  undefined_outcome : Outcome
  out_of_fuel : Outcome

-- The state behind a conversion.
abbrev pub converted : Reader → List ℕ → Converted → Round
converted r rest (prints s args) = more (record r { fmt = rest; args = args; out = r.out ++ s })
converted r rest (stores address size args) =
    let st : Store = record { address = address; size = size; retval = length r.out } in
    more (record r { fmt = rest; args = args; written = r.written ++ (st ∷ []) })
converted r rest (stops s) = more (record r { fmt = rest; out = r.out ++ s; stop = true })
converted r rest undefined = undefined_round

module _ (g : Digits) (radix : ℕ) where
  -- A directive has been read; `fmt` begins with its '%'.
  abbrev pub at_directive : Reader → Directive → Round
  at_directive r (conversion c sp rest args) =
      let whole = take (length r.fmt - length rest) r.fmt in
      converted r rest (convert g radix whole c sp args)
  at_directive r bad_directive = undefined_round
  at_directive r endless = endless_round

  unfoldable pub round_at : Reader → List ℕ → Round
  unfolding directive convert
  round_at r [] = returns r
  round_at r (c ∷ rest) =
      if (c == 37) && not r.stop
      then at_directive r (directive (length rest) fresh_spec rest r.args)
      else more (record r { fmt = rest; out = r.out ++ (c ∷ []) })

  -- One round of `for`, or of its inner loop.
  abbrev pub round : Reader → Round
  round r = round_at r r.fmt

  abbrev pub after_round : (Reader → Outcome) → Round → Outcome
  after_round next (more r) = next r
  after_round next (returns r) = printed r
  after_round next undefined_round = undefined_outcome
  after_round next endless_round = out_of_fuel

  unfoldable pub format_loop : (fuel : ℕ) → Reader → Outcome
  unfolding round_at
  format_loop zero r = out_of_fuel
  format_loop (suc fuel) r = after_round (format_loop fuel) (round r)

-- "(fmt null)\n"
abbrev pub null_format : List ℕ
null_format = 40 ∷ 102 ∷ 109 ∷ 116 ∷ 32 ∷ 110 ∷ 117 ∷ 108 ∷ 108 ∷ 41 ∷ 10 ∷ []

abbrev pub format_or_null : Option (List ℕ) → List ℕ
format_or_null none = null_format
format_or_null (some s) = s

abbrev pub radix_or_ten : ℕ → ℕ
radix_or_ten radix = if ltb radix 2 || ltb 36 radix then 10 else radix

abbrev pub start_reader : List ℕ → List Arg → Reader
start_reader fmt args = record { fmt = fmt; args = args; stop = false; out = []; written = [] }

-- `kvprintf`; the characters go to `func`, or to memory, in the order of `out`.
unfoldable pub kvprintf : Digits → (fmt : Option (List ℕ)) → (radix : ℕ) → List Arg → Outcome
unfolding format_loop
kvprintf g fmt radix args =
    let s = format_or_null fmt in
    format_loop g (radix_or_ten radix) (suc (length s)) (start_reader s args)

-- `vprintf`: the calls that show the text, and its length.
abbrev pub console_output : (bufr_size : Option ℕ) → Outcome → Option (List Event × ℕ)
console_output size (printed r) =
    some (last_output (kputchars r.out (console_arg size)), length r.out)
console_output size undefined_outcome = none
console_output size out_of_fuel = none

unfoldable pub vprintf :
    (bufr_size : Option ℕ) → Digits → (fmt : Option (List ℕ)) → List Arg → Option (List Event × ℕ)
unfolding kvprintf
vprintf size g fmt args = console_output size (kvprintf g fmt 10 args)
