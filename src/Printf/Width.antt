-- ===== src/Printf/Width.antt =====
-- The widths of the fields that `kvprintf` of bsd/lib/lazybsd_subr_prf.c prints.
use lazybsd.Prelude.{
  ℕ, zero, suc, ◌+◌, ◌-◌, ◌≤◌, ◌≡◌, refl, ◌∙◌, Bool, true, false, List, ◌++◌, if◌then◌else◌, length,
  take, replicate, arith, if_intro, length-append, length-take,
}
use Prim.Native.Nat.{max, min}
use lazybsd.Printf.Number.{Digits, ksprintn}
use lazybsd.Printf.Directive.{Spec}
use lazybsd.Printf.Convert.{
  string_field, number, is_negative, magnitude, prefix, minus_sign, zero_padded,
}

length-replicate : (n c : ℕ) → length (replicate n c) ≡ n
length-replicate zero c = refl
length-replicate (suc n) c = omega (arith, length-replicate n c)

-- Padding on either side.
length_padded :
    (b : Bool) (padding body : List ℕ)
    → length (if b then body ++ padding else padding ++ body) ≡ length padding + length body
length_padded b padding body =
    if_intro (λ l. length l ≡ length padding + length body) b
      (omega (arith, length-append body padding)) (length-append padding body)

-- A string's field prints the string up to the precision, if there is one, and is as wide as asked for or as what it
-- prints, whichever is more.
pub length-string_field :
    (sp : Spec) (p : List ℕ)
    → let n = if sp.dot then min sp.dwidth (length p) else length p in
      length (string_field sp p) ≡ max sp.width n
unfolding string_field
length-string_field sp p =
    let n = if sp.dot then min sp.dwidth (length p) else length p in
    let fits : n ≤ length p = ground arith in
    length_padded sp.ladjust (replicate (sp.width - n) sp.padc) (take n p)
    ∙ omega (arith, length-replicate (sp.width - n) sp.padc, length-take n p)

-- The sign, the prefix and the zeros before the digits.
length_body :
    (signs marks p : List ℕ) (zeros : ℕ)
    → length (signs ++ (marks ++ (replicate zeros 48 ++ p)))
      ≡ length marks + length signs + (zeros + length p)
length_body signs marks p zeros = omega (
  arith,
  length-append signs (marks ++ (replicate zeros 48 ++ p)),
  length-append marks (replicate zeros 48 ++ p),
  length-append (replicate zeros 48) p,
  length-replicate zeros 48,
)

fills :
    (width precision tmp n : ℕ) (b : Bool) (blanks body : ℕ)
    → let dwidth = if b then width - tmp else precision in
      blanks ≡ width - (tmp + max dwidth n)
      → body ≡ tmp + (dwidth - n + n)
      → blanks + body ≡ max width (tmp + (if b then n else max precision n))
fills width precision tmp n true blanks body h k = omega arith
fills width precision tmp n false blanks body h k = omega arith

module _ (g : Digits) where
  -- A number's field is as wide as asked for, or else as wide as its sign, its prefix and its digits, the digits filled up
  -- with zeros to the precision unless the width is; so a wide number is never cut.
  pub length-number :
      (base : ℕ) (upper sharpflag sign : Bool) (sp : Spec) (num : ℕ)
      → let signs = minus_sign (is_negative sign num) in
        let marks = prefix base sharpflag (magnitude sign num) in
        let n = length (ksprintn g (magnitude sign num) base upper) in
        let digits = if zero_padded sp then n else max sp.dwidth n in
        length (number g base upper sharpflag sign sp num)
        ≡ max sp.width (length marks + length signs + digits)
  unfolding number
  length-number base upper sharpflag sign sp num =
      let signs = minus_sign (is_negative sign num) in
      let marks = prefix base sharpflag (magnitude sign num) in
      let p = ksprintn g (magnitude sign num) base upper in
      let n = length p in
      let tmp = length marks + length signs in
      let dwidth = if zero_padded sp then sp.width - tmp else sp.dwidth in
      let blanks = sp.width - (tmp + max dwidth n) in
      let body = signs ++ (marks ++ (replicate (dwidth - n) 48 ++ p)) in
      length_padded sp.ladjust (replicate blanks 32) body
      ∙ fills sp.width sp.dwidth tmp n (zero_padded sp) (length (replicate blanks 32)) (length body)
          (length-replicate blanks 32) (length_body signs marks p (dwidth - n))
