-- ===== src/Start/Order.antt =====
-- The sort of `mi_startup` of bsd/lib/lazybsd_main.c.
use lazybsd.Prelude.{
  ℕ, ◌<◌, ◌≤◌, ◌⊎◌, zero, suc, ◌≡◌, refl, ap, ◌∙◌, Bool, true, false, if◌then◌else◌, List, [], ◌∷◌,
  length, count, arith, Bool-cases, inl, inr,
}
use lazybsd.Start.{in_order, pass, sort_rounds, sort}

abbrev pub All : (ℕ → Type 0) → List ℕ → Type 0
All P [] = Unit {0}
All P (x ∷ xs) = P x × All P xs

module _ (sub order : ℕ → ℕ) where
  -- In an earlier subsystem, or in the same one with no later order
  abbrev pub IsBefore : (a b : ℕ) → Type 0
  IsBefore a b = (sub a < sub b) ⊎ ((sub a ≡ sub b) × (order a ≤ order b))

  abbrev pub IsFirst : ℕ → List ℕ → Type 0
  IsFirst a l = All (IsBefore a) l

  -- Every initialiser is before all behind it.
  abbrev pub IsSorted : List ℕ → Type 0
  IsSorted [] = Unit {0}
  IsSorted (x ∷ xs) = IsFirst x xs × IsSorted xs

  IsBefore-trans : (a b c : ℕ) → IsBefore a b → IsBefore b c → IsBefore a c
  IsBefore-trans a b c h k = ground arith

  in_order-IsBefore : (a b : ℕ) → in_order sub order a b ≡ true → IsBefore a b
  in_order-IsBefore a b h = ground arith

  in_order_else : (a b : ℕ) → in_order sub order a b ≡ false → IsBefore b a
  in_order_else a b h = ground arith

  IsBefore-refl : (a : ℕ) → IsBefore a a
  IsBefore-refl a = inr (refl, omega arith)

  -- What holds of all initialisers still does behind a pass, and behind the sort.
  pass-All :
      (P : ℕ → Type 0) (cur : ℕ) (xs : List ℕ)
      → P cur
      → All P xs
      → P (pass sub order cur xs).0 × All P (pass sub order cur xs).1
  unfolding pass
  pass-All P cur [] h k = (h, tt)
  pass-All P cur (x ∷ xs) h k = elim (Bool-cases (in_order sub order cur x)) [
    | inl keep ↦ rw keep (let r = pass-All P cur xs h k.1 in (r.0, (k.0, r.1)))
    | inr swap ↦ rw swap (let r = pass-All P x xs k.0 k.1 in (r.0, (h, r.1)))
  ]

  pub sort_rounds-All :
      (P : ℕ → Type 0) (n : ℕ) (l : List ℕ) → All P l → All P (sort_rounds n sub order l)
  unfolding sort_rounds
  sort_rounds-All P zero l h = h
  sort_rounds-All P (suc n) [] h = tt
  sort_rounds-All P (suc n) (x ∷ xs) h =
      let r = pass-All P x xs h.0 h.1 in (r.0, sort_rounds-All P n (pass sub order x xs).1 r.1)

  IsFirst-step :
      (cur x : ℕ) (xs : List ℕ) (keep : Bool)
      → in_order sub order cur x ≡ keep
      → ((c : ℕ)
          → (IsBefore (pass sub order c xs).0 c)
            × IsFirst (pass sub order c xs).0 (pass sub order c xs).1)
      → let r = pass sub order (if keep then cur else x) xs in
        (IsBefore r.0 cur) × IsFirst r.0 ((if keep then x else cur) ∷ r.1)
  IsFirst-step cur x xs true e ih =
      let r = ih cur in
      (r.0, (IsBefore-trans (pass sub order cur xs).0 cur x r.0 (in_order-IsBefore cur x e), r.1))
  IsFirst-step cur x xs false e ih =
      let r = ih x in
      let other = IsBefore-trans (pass sub order x xs).0 x cur r.0 (in_order_else cur x e) in
      (other, (other, r.1))

  pass-IsFirst :
      (cur : ℕ) (xs : List ℕ)
      → (IsBefore (pass sub order cur xs).0 cur)
        × IsFirst (pass sub order cur xs).0 (pass sub order cur xs).1
  unfolding pass
  pass-IsFirst cur [] = (IsBefore-refl cur, tt)
  pass-IsFirst cur (x ∷ xs) =
      IsFirst-step cur x xs (in_order sub order cur x) refl (λ c. pass-IsFirst c xs)

  length-pass : (cur : ℕ) (xs : List ℕ) → length (pass sub order cur xs).1 ≡ length xs
  unfolding pass
  length-pass cur [] = refl
  length-pass cur (x ∷ xs) = ap suc (length-pass (if in_order sub order cur x then cur else x) xs)

  count-pass :
      (a cur : ℕ) (xs : List ℕ)
      → count a ((pass sub order cur xs).0 ∷ (pass sub order cur xs).1) ≡ count a (cur ∷ xs)
  unfolding pass
  count-pass a cur [] = refl
  count-pass a cur (x ∷ xs) = elim (Bool-cases (in_order sub order cur x)) [
    | inl keep ↦ rw keep (omega (arith, count-pass a cur xs))
    | inr swap ↦ rw swap (omega (arith, count-pass a x xs))
  ]

  sort_rounds-IsSorted : (n : ℕ) (l : List ℕ) → length l ≡ n → IsSorted (sort_rounds n sub order l)
  unfolding sort_rounds
  sort_rounds-IsSorted zero [] h = tt
  sort_rounds-IsSorted zero (x ∷ xs) h = absurd (omega (arith, h))
  sort_rounds-IsSorted (suc n) [] h = tt
  sort_rounds-IsSorted (suc n) (x ∷ xs) h =
      let r = pass sub order x xs in
      let small : length r.1 ≡ n = length-pass x xs ∙ omega (arith, h) in
      (
        sort_rounds-All (λ b. IsBefore r.0 b) n r.1 (pass-IsFirst x xs).1,
        sort_rounds-IsSorted n r.1 small,
      )

  pub count-sort_rounds : (a n : ℕ) (l : List ℕ) → count a (sort_rounds n sub order l) ≡ count a l
  unfolding sort_rounds
  count-sort_rounds a zero l = refl
  count-sort_rounds a (suc n) [] = refl
  count-sort_rounds a (suc n) (x ∷ xs) =
      let r = pass sub order x xs in
      let ih = count-sort_rounds a n r.1 in omega (arith, count-pass a x xs, ih)

  -- The sort of `mi_startup` puts every initialiser behind those of earlier subsystems, and of earlier or
  -- equal orders in its own subsystem, and each is there as often as before.
  pub sort-IsSorted :
      (l : List ℕ)
      → IsSorted (sort sub order l) × ((a : ℕ) → count a (sort sub order l) ≡ count a l)
  unfolding sort
  sort-IsSorted l = (sort_rounds-IsSorted (length l) l refl, λ a. count-sort_rounds a (length l) l)
