-- ===== src/Printf/Output.antt =====
-- The text that `kvprintf` of bsd/lib/lazybsd_subr_prf.c prints: it ends, the text between directives
-- stands in it as written, and a field has the width asked for.
use lazybsd.Prelude.{
  ℕ, zero, suc, ◌+◌, ◌-◌, ◌<◌, ◌≡◌, refl, sym, ap, ◌∙◌, Bool, true, false, not, ◌&&◌, Option, some,
  List, [], ◌∷◌, ◌++◌, ◌==◌, length, take, arith, if_intro, if_false, if_true, length-append,
}
use mathlib.Core.List.{append_assoc, append-nil}
use lazybsd.Printf.Number.{Digits}
use lazybsd.Printf.Directive.{
  Arg, Spec, fresh_spec, Directive, directive, flag, converts, conversion, after_flag, Ends,
  at_conversion, at_fault, directive-Ends,
}
use lazybsd.Printf.Convert.{Converted, prints, stores, stops, undefined, convert}
use lazybsd.Printf.Format.{
  Reader, Round, more, returns, undefined_round, Outcome, printed, undefined_outcome, converted,
  at_directive, round_at, round, after_round, format_loop, format_or_null, radix_or_ten,
  start_reader, kvprintf,
}

-- The outcome of a run that has an end.
pub data Halts : Outcome → Type 0 where
  prints_all : (r : Reader) → Halts (printed r)
  is_undefined : Halts undefined_outcome

-- A round leaves fewer characters.
pub data Advances (fmt : List ℕ) : Round → Type 0 where
  goes_on : (r : Reader) → length r.fmt < length fmt → Advances fmt (more r)
  at_end : (r : Reader) → Advances fmt (returns r)
  at_fault_round : Advances fmt undefined_round

module _ (g : Digits) (radix : ℕ) where
  converted-Advances :
      (r : Reader) (fmt rest : List ℕ) (o : Converted)
      → length rest < length fmt
      → Advances fmt (converted r rest o)
  converted-Advances r fmt rest (prints s args) h = goes_on _ h
  converted-Advances r fmt rest (stores a n args) h = goes_on _ h
  converted-Advances r fmt rest (stops s) h = goes_on _ h
  converted-Advances r fmt rest undefined h = at_fault_round

  at_directive-Advances :
      (r : Reader) (fmt : List ℕ) (d : Directive)
      → Ends fmt d
      → Advances fmt (at_directive g radix r d)
  at_directive-Advances r fmt _ (at_conversion c sp rest args h) =
      converted-Advances r fmt rest (convert g radix _ c sp args) h
  at_directive-Advances r fmt _ at_fault = at_fault_round

  round_at-Advances : (r : Reader) (fmt : List ℕ) → Advances fmt (round_at g radix r fmt)
  unfolding round_at
  round_at-Advances r [] = at_end r
  round_at-Advances r (c ∷ rest) =
      if_intro (Advances (c ∷ rest)) ((c == 37) && not r.stop)
        (at_directive-Advances r (c ∷ rest) (directive (length rest) fresh_spec rest r.args) (
          directive-Ends (c ∷ rest) (length rest) fresh_spec rest r.args (omega arith)
            (omega arith)))
        (goes_on _ (omega arith))

  after_round-Halts :
      (fuel : ℕ) (fmt : List ℕ) (o : Round)
      → Advances fmt o
      → length fmt < suc fuel
      → ((r : Reader) → length r.fmt < fuel → Halts (format_loop g radix fuel r))
      → Halts (after_round g radix (format_loop g radix fuel) o)
  after_round-Halts fuel fmt _ (goes_on r h) k ih = ih r (omega arith)
  after_round-Halts fuel fmt _ (at_end r) k ih = prints_all r
  after_round-Halts fuel fmt _ at_fault_round k ih = is_undefined

  format_loop-Halts :
      (fuel : ℕ) (r : Reader) → length r.fmt < fuel → Halts (format_loop g radix fuel r)
  unfolding format_loop
  format_loop-Halts zero r h = absurd (omega arith)
  format_loop-Halts (suc fuel) r h =
      after_round-Halts fuel r.fmt (round g radix r) (round_at-Advances r r.fmt) h
        (format_loop-Halts fuel)

-- `kvprintf` ends on every format with every list of arguments: its loops have enough fuel, and it either returns or meets something that
-- C leaves undefined.
pub kvprintf-Halts :
    (g : Digits) (fmt : Option (List ℕ)) (radix : ℕ) (args : List Arg)
    → Halts (kvprintf g fmt radix args)
unfolding kvprintf
kvprintf-Halts g fmt radix args =
    let s = format_or_null fmt in
    format_loop-Halts g (radix_or_ten radix) (suc (length s)) (start_reader s args) (omega arith)

-- Characters that are printed as they stand: once directives are ignored all, else all but '%'.
abbrev pub Literal : (stop : Bool) → List ℕ → Type 0
Literal stop [] = Unit
Literal stop (c ∷ s) = ((c == 37) && not stop ≡ false) × Literal stop s

abbrev pub reader : Reader → List ℕ → List ℕ → Reader
reader r fmt out = record r { fmt = fmt; out = out }

all_Literal : (s : List ℕ) → Literal true s
all_Literal [] = tt
all_Literal (c ∷ s) = (ground arith, all_Literal s)

-- After an unknown directive every character is text.
abbrev pub ignores : Reader → List ℕ → List ℕ → Reader
ignores r fmt out = record r { fmt = fmt; out = out; stop = true }

module _ (g : Digits) (radix : ℕ) where
  format_loop-Literal :
      (n fuel : ℕ) (r : Reader) (s rest out : List ℕ)
      → Literal r.stop s
      → n ≡ length s + fuel
      → format_loop g radix n (reader r (s ++ rest) out)
        ≡ format_loop g radix fuel (reader r rest (out ++ s))
  unfolding format_loop round_at
  format_loop-Literal n fuel r [] rest out h e =
      let same : n ≡ fuel = omega arith in
      ap (λ m. format_loop g radix m (reader r rest out)) same
      ∙ ap (λ o. format_loop g radix fuel (reader r rest o)) (sym (append-nil out))
  format_loop-Literal zero fuel r (c ∷ s) rest out h e = absurd (omega arith)
  format_loop-Literal (suc n) fuel r (c ∷ s) rest out h e =
      ap (after_round g radix (format_loop g radix n)) (if_false _ _ h.0)
      ∙ format_loop-Literal n fuel r s rest (out ++ (c ∷ [])) h.1 (omega arith)
      ∙ ap (λ o. format_loop g radix fuel (reader r rest o)) (append_assoc out (c ∷ []) s)

  -- All that is left is text.
  format_loop-text :
      (fuel : ℕ) (r : Reader) (s out : List ℕ)
      → Literal r.stop s
      → length s < fuel
      → format_loop g radix fuel (reader r s out) ≡ printed (reader r [] (out ++ s))
  unfolding format_loop round_at
  format_loop-text fuel r s out h l =
      let left = fuel - length s - 1 in
      ap (λ t. format_loop g radix fuel (reader r t out)) (sym (append-nil s))
      ∙ format_loop-Literal fuel (suc left) r s [] out h (omega arith)

  -- A directive that no case of the switch knows.
  abbrev pub Unknown : ℕ → Type 0
  Unknown c =
      (sp : Spec) (rest : List ℕ) (args : List Arg)
      → (flag c sp rest args ≡ converts)
        × ((whole : List ℕ) → convert g radix whole c sp args ≡ stops whole)

  module _ (c : ℕ) (u : Unknown c) (r : Reader) (st : r.stop ≡ false) (rest out : List ℕ) where
    directive_unknown :
        (k : ℕ) (sp : Spec) → directive (suc k) sp (c ∷ rest) r.args ≡ conversion c sp rest r.args
    unfolding directive
    directive_unknown k sp =
        ap (after_flag (directive k) (conversion c sp rest r.args)) (u sp rest r.args).0

    at_directive_unknown :
        at_directive g radix (reader r (37 ∷ c ∷ rest) out) (conversion c fresh_spec rest r.args)
        ≡ more (ignores r rest (out ++ (37 ∷ c ∷ [])))
    at_directive_unknown =
        let fmt = 37 ∷ c ∷ rest in
        let two : length fmt - length rest ≡ 2 = omega arith in
        let whole : take (length fmt - length rest) fmt ≡ 37 ∷ c ∷ [] = ap (λ k. take k fmt) two in
        ap (converted (reader r fmt out) rest) ((u fresh_spec rest r.args).1 _)
        ∙ ap (λ w. more (ignores r rest (out ++ w))) whole

    round_unknown :
        round g radix (reader r (37 ∷ c ∷ rest) out) ≡ more (ignores r rest (out ++ (37 ∷ c ∷ [])))
    unfolding round_at
    round_unknown =
        let fmt = 37 ∷ c ∷ rest in
        if_true _ _ (ap not st)
        ∙ ap (at_directive g radix (reader r fmt out)) (directive_unknown (length rest) fresh_spec)
        ∙ at_directive_unknown

    after_unknown :
        (n : ℕ)
        → length rest < n
        → format_loop g radix (suc n) (reader r (37 ∷ c ∷ rest) out)
          ≡ printed (ignores r [] (out ++ (37 ∷ c ∷ rest)))
    unfolding format_loop
    after_unknown n l =
        ap (after_round g radix (format_loop g radix n)) round_unknown
        ∙ format_loop-text n (ignores r rest out) rest (out ++ (37 ∷ c ∷ [])) (all_Literal rest) l
        ∙ ap (λ o. printed (ignores r [] o)) (append_assoc out (37 ∷ c ∷ []) rest)

module _ (g : Digits) (radix : ℕ) (s : List ℕ) (plain : Literal false s) (args : List Arg) where
  -- A format without '%' is printed as it stands, and no argument is used.
  pub kvprintf_plain : kvprintf g (some s) radix args ≡ printed (reader (start_reader s args) [] s)
  unfolding kvprintf
  kvprintf_plain =
      let r = start_reader s args in
      format_loop-text g (radix_or_ten radix) (suc (length s)) r s [] plain (omega arith)

  -- Behind text without '%', a directive whose character is none that `kvprintf` knows is printed as it
  -- stands, and so is all that follows it, further directives included; no argument is used.
  pub kvprintf-Unknown :
      (c : ℕ) (rest : List ℕ)
      → Unknown g (radix_or_ten radix) c
      → let fmt = s ++ (37 ∷ c ∷ rest) in
        kvprintf g (some fmt) radix args ≡ printed (ignores (start_reader fmt args) [] fmt)
  unfolding kvprintf
  kvprintf-Unknown c rest u =
      let base = radix_or_ten radix in
      let after = 37 ∷ c ∷ rest in
      let fmt = s ++ after in
      let r = start_reader fmt args in
      let fuel = suc (suc (length rest)) in
      let longer = length-append s after in
      format_loop-Literal g base (suc (length fmt)) (suc fuel) r s after [] plain (omega arith)
      ∙ after_unknown g base c u r refl rest s fuel (omega arith)
