-- ===== src/Printf/Examples.antt =====
-- Tests of the model of bsd/lib/lazybsd_subr_prf.c, and instances of its theorems.
use lazybsd.Prelude.{
  ℕ, ◌+◌, ◌-◌, ◌^◌, ◌≤◌, ◌<◌, ◌≡◌, refl, true, ◌&&◌, Option, none, some, List, [], ◌∷◌,
  if◌then◌else◌, ltb, leb, length, arith,
}
use lazybsd.Printf.Number.{Digits, ksprintn, number_of, ksprintn-number_of}
use lazybsd.Printf.Buffer.{console_arg, kputchars, last_output}
use lazybsd.Printf.Console.{passed_all, IsConsole, last_output-kputchars}
use lazybsd.Printf.Directive.{Spec, fresh_spec, Arg, slot, text, bytes, flag}
use lazybsd.Printf.Convert.{convert}
use lazybsd.Printf.Format.{Outcome, printed, undefined_outcome, out_of_fuel, kvprintf}
use lazybsd.Printf.Output.{Unknown}

abbrev ascii_digit : ℕ → ℕ
ascii_digit d = if ltb d 10 then 48 + d else 87 + d

abbrev to_upper : ℕ → ℕ
to_upper c = if leb 97 c && leb c 122 then c - 32 else c

abbrev value : ℕ → ℕ
value c = if leb 97 c then c - 87 else if leb 65 c then c - 55 else c - 48

ascii_digit-value : (d : ℕ) → d < 36 → value (ascii_digit d) ≡ d
ascii_digit-value d h = ground arith

to_upper-value : (d : ℕ) → d < 36 → value (to_upper (ascii_digit d)) ≡ d
to_upper-value d h = ground arith

abbrev ascii : Digits
ascii = record {
  hex2ascii = ascii_digit;
  toupper = to_upper;
  digit_of = value;
  digit_of_hex = ascii_digit-value;
  digit_of_upper = to_upper-value;
}

-- The text that a format prints.
abbrev text_of : Outcome → Option (List ℕ)
text_of (printed r) = some r.out
text_of undefined_outcome = none
text_of out_of_fuel = none

abbrev run : List ℕ → List Arg → Option (List ℕ)
run fmt args = text_of (kvprintf ascii (some fmt) 10 args)

-- "%d" of -7
run_minus : run (37 ∷ 100 ∷ []) (slot (2 ^ 32 - 7) ∷ []) ≡ some (45 ∷ 55 ∷ [])
unfolding kvprintf ksprintn
run_minus = refl

-- "%05x" of 0xbeef
run_zeros : run (37 ∷ 48 ∷ 53 ∷ 120 ∷ []) (slot 48879 ∷ []) ≡ some (48 ∷ 98 ∷ 101 ∷ 101 ∷ 102 ∷ [])
unfolding kvprintf ksprintn
run_zeros = refl

-- "reg=%b\n" of 3 with "\10\2BITTWO\1BITONE", shortened to one letter each: "3<T,O>"
run_bits :
    run (37 ∷ 98 ∷ []) (slot 3 ∷ text (some (8 ∷ 2 ∷ 84 ∷ 1 ∷ 79 ∷ [])) ∷ [])
    ≡ some (51 ∷ 60 ∷ 84 ∷ 44 ∷ 79 ∷ 62 ∷ [])
unfolding kvprintf ksprintn
run_bits = refl

-- "%2D" of the bytes 0x1f and 0xa0 with ":" is "1f:a0".
run_dump :
    run (37 ∷ 50 ∷ 68 ∷ []) (bytes (31 ∷ 160 ∷ []) ∷ text (some (58 ∷ [])) ∷ [])
    ≡ some (49 ∷ 102 ∷ 58 ∷ 97 ∷ 48 ∷ [])
unfolding kvprintf ksprintn
run_dump = refl

-- A format that ends in a directive is read on behind its end.
run_past : run (97 ∷ 37 ∷ []) [] ≡ none
unfolding kvprintf ksprintn
run_past = refl

ksprintn-number_of_example :
    let s = ksprintn ascii 255 16 true in
    (number_of ascii 16 0 s ≡ 255) × ((1 ≤ length s) × (length s ≤ 64))
ksprintn-number_of_example =
    ksprintn-number_of ascii 255 16 true (omega arith) (omega arith) (omega arith)

abbrev greeting : List ℕ
greeting = 72 ∷ 105 ∷ 10 ∷ 33 ∷ []

last_output-kputchars_example :
    let a = kputchars greeting (console_arg (some 4)) in
    (passed_all (last_output a) ≡ greeting) × IsConsole a
last_output-kputchars_example =
    last_output-kputchars (some 4) greeting (omega arith, omega arith)
      (omega arith, (omega arith, (omega arith, (omega arith, tt))))

k-Unknown : Unknown ascii 10 107
unfolding flag convert
k-Unknown sp rest args = (refl, λ whole. refl)

abbrev narrow : Spec
narrow = record fresh_spec { dot = true; dwidth = 2; width = 5 }
