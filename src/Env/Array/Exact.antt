-- ===== src/Env/Array/Exact.antt =====
-- The values that `getenv_array` of bsd/lib/lazybsd_kern_environment.c accepts are exact.
use lazybsd.Prelude.{
  ℕ, ◌-◌, ◌*◌, ◌^◌, ◌<◌, ◌≡◌, Bool, true, false, ◌||◌, ◌&&◌, not, Option, none, some, List, [], ◌∷◌,
  if◌then◌else◌, ◌==◌, drop, arith, inl, inr, if_intro, refl, sym, ap, ◌⊎◌,
}
use mathlib.Core.Path.{subst}
use native.Mathlib.Nat.{mod-lt}
use lazybsd.Env.Number.{Strtoq, quad_mod, one_of}
use lazybsd.Env.Array.{
  negative, shl, sar, fits, suffix_shift, skip_separators, checked_value, next_value,
}

-- The pattern `v` is that of the number of `old` times 2 to the power of `shift`.
pub record IsExact (old shift v : ℕ) : Type 0 where
  pub above : negative old ≡ false → (negative v ≡ false) × (v ≡ old * 2 ^ shift)
  pub below :
      negative old ≡ true → (negative v ≡ true) × (quad_mod - v ≡ (quad_mod - old) * 2 ^ shift)

-- The shifts of the suffixes.
abbrev IsShift : ℕ → Type 0
IsShift shift = (shift ≡ 0) ⊎ ((shift ≡ 10) ⊎ ((shift ≡ 20) ⊎ ((shift ≡ 30) ⊎ (shift ≡ 40))))

IsExact-0 : (old : ℕ) → old < quad_mod → sar (shl old 0) 0 ≡ old → IsExact old 0 (shl old 0)
IsExact-0 old h e = record { above = λ n. ground arith; below = λ n. ground arith }

IsExact-10 : (old : ℕ) → old < quad_mod → sar (shl old 10) 10 ≡ old → IsExact old 10 (shl old 10)
IsExact-10 old h e = record { above = λ n. ground arith; below = λ n. ground arith }

IsExact-20 : (old : ℕ) → old < quad_mod → sar (shl old 20) 20 ≡ old → IsExact old 20 (shl old 20)
IsExact-20 old h e = record { above = λ n. ground arith; below = λ n. ground arith }

IsExact-30 : (old : ℕ) → old < quad_mod → sar (shl old 30) 30 ≡ old → IsExact old 30 (shl old 30)
IsExact-30 old h e = record { above = λ n. ground arith; below = λ n. ground arith }

IsExact-40 : (old : ℕ) → old < quad_mod → sar (shl old 40) 40 ≡ old → IsExact old 40 (shl old 40)
IsExact-40 old h e = record { above = λ n. ground arith; below = λ n. ground arith }

-- The overflow check is sound: a shift that can be undone lost nothing.
sar-shl-IsExact :
    (old shift : ℕ)
    → old < quad_mod
    → IsShift shift
    → sar (shl old shift) shift ≡ old
    → IsExact old shift (shl old shift)
sar-shl-IsExact old shift h k =
    let P = λ (n : ℕ). sar (shl old n) n ≡ old → IsExact old n (shl old n) in
    elim k [
      | inl e ↦ subst P (sym e) (IsExact-0 old h)
      | inr (inl e) ↦ subst P (sym e) (IsExact-10 old h)
      | inr (inr (inl e)) ↦ subst P (sym e) (IsExact-20 old h)
      | inr (inr (inr (inl e))) ↦ subst P (sym e) (IsExact-30 old h)
      | inr (inr (inr (inr e))) ↦ subst P (sym e) (IsExact-40 old h)
    ]

abbrev ShiftOf : Option (ℕ × List ℕ) → Type 0
ShiftOf none = Unit {0}
ShiftOf (some r) = IsShift r.0

suffix_shift-IsShift : (s : List ℕ) → ShiftOf (suffix_shift s)
unfolding suffix_shift
suffix_shift-IsShift [] = inl refl
suffix_shift-IsShift (c ∷ s) = if_intro ShiftOf (one_of c 116 84) (inr (inr (inr (inr refl)))) (
    if_intro ShiftOf (one_of c 103 71) (inr (inr (inr (inl refl)))) (
      if_intro ShiftOf (one_of c 109 77) (inr (inr (inl refl))) (
        if_intro ShiftOf (one_of c 107 75) (inr (inl refl))
          (if_intro ShiftOf (one_of c 32 9 || (c == 44)) (inl refl) tt))))

-- What a result tells of the tests before it.
both_held :
    {A : Type 0} (b c : Bool) (x y : A)
    → (if b && c then some x else none) ≡ some y
    → (b ≡ true) × (c ≡ true) × (x ≡ y)
both_held true true x y e = (refl, refl, cc)
both_held true false x y e = cc
both_held false c x y e = cc

passed :
    {A : Type 0} (b : Bool) (o : Option A) (y : A)
    → (if b then none else o) ≡ some y
    → (b ≡ false) × (o ≡ some y)
passed true o y e = cc
passed false o y e = (refl, e)

module _ (q : Strtoq) (type_size : ℕ) (allow_signed : Bool) where
  -- What is known of a value that is accepted.
  pub record Accepted (old : ℕ) (end : Option (ℕ × List ℕ)) (v : ℕ) : Type 0 where
    pub shift : ℕ
    pub tail : List ℕ
    pub suffix : end ≡ some (shift, tail)
    pub exact : IsExact old shift v
    pub in_range : fits type_size allow_signed v ≡ true
    pub word : v < quad_mod

  checked_value-Accepted :
      (old : ℕ) (end : Option (ℕ × List ℕ)) (v : ℕ) (rest : List ℕ)
      → old < quad_mod
      → ShiftOf end
      → checked_value q type_size allow_signed old end ≡ some (v, rest)
      → Accepted old end v
  unfolding checked_value
  checked_value-Accepted old none v rest h k e = cc
  checked_value-Accepted old (some (shift, tail)) v rest h k e =
      let w = shl old shift in
      let held =
        both_held (sar w shift == old) (fits type_size allow_signed w) (w, skip_separators tail)
          (v, rest) e in
      let same : w ≡ v = ap (λ r. r.0) held.2 in
      let undone : sar w shift ≡ old = ground (arith, held.0) in
      record {
        shift = shift;
        tail = tail;
        suffix = refl;
        exact = subst (IsExact old shift) same (sar-shl-IsExact old shift h k undone);
        word = subst (λ x. x < quad_mod) same (mod-lt (old * 2 ^ shift) (omega arith));
        in_range = subst (λ x. fits type_size allow_signed x ≡ true) same held.1;
      }

  -- A number that `getenv_array` accepts is stored exactly: it is the number that was read, signed,
  -- times the power of two of its suffix, without overflow; it is in the range of the element type,
  -- and not negative before the suffix unless signed numbers are allowed.
  pub next_value-Accepted :
      (ptr : List ℕ) (v : ℕ) (rest : List ℕ)
      → next_value q type_size allow_signed ptr ≡ some (v, rest)
      → Accepted (q.strtoq ptr).0 (suffix_shift (drop (q.strtoq ptr).1 ptr)) v
        × ((negative (q.strtoq ptr).0 && not allow_signed) ≡ false)
  unfolding next_value
  next_value-Accepted ptr v rest e =
      let (old, n) = q.strtoq ptr in
      let end = suffix_shift (drop n ptr) in
      let k = suffix_shift-IsShift (drop n ptr) in
      let (kept, r) = passed ((negative old && not allow_signed) || (n == 0)) _ (v, rest) e in
      (checked_value-Accepted old end v rest (q.strtoq_word ptr) k r, ground (arith, kept))
