-- ===== src/Cred/Groups.antt =====
-- `groupmember` of bsd/lib/lazybsd_patch.c finds the groups that are there.
use lazybsd.Prelude.{
  ℕ, zero, suc, ◌+◌, ◌-◌, ◌/◌, ◌≤◌, ◌<◌, ◌≡◌, ◌≢◌, refl, ap, sym, ◌∙◌, Bool, true, false, ◌||◌,
  ◌&&◌, some, ltb, ◌==◌, arith, Bool-cases, inl, inr,
}
use lazybsd.Cred.{search, groupmember}

-- Whether `gid` is one of the first `n` groups, looked at one after the other
abbrev pub is_among : (groups : ℕ → ℕ) → (n gid : ℕ) → Bool
is_among groups zero gid = false
is_among groups (suc n) gid = is_among groups n gid || groups n == gid

-- `crsetgroups` sorts the groups behind the first one.
abbrev pub AreSorted : (groups : ℕ → ℕ) → (n : ℕ) → Type 0
AreSorted groups n = (i j : ℕ) → 1 ≤ i → i ≤ j → j < n → groups i ≤ groups j

module _ (groups : ℕ → ℕ) (gid : ℕ) where
  is_among-true : (n i : ℕ) → i < n → groups i ≡ gid → is_among groups n gid ≡ true
  is_among-true zero i lt e = absurd (omega arith)
  is_among-true (suc n) i lt e = elim (Bool-cases (i == n)) [
    | inl last ↦
        let same : i ≡ n = ground arith in
        let here : groups n ≡ gid = ap groups (sym same) ∙ e in ground arith
    | inr before ↦
        let small : i < n = ground arith in let ih = is_among-true n i small e in ground arith
  ]

  is_among-false : (n : ℕ) → ((i : ℕ) → i < n → groups i ≢ gid) → is_among groups n gid ≡ false
  is_among-false zero h = refl
  is_among-false (suc n) h =
      let ih = is_among-false n (λ i lt. h i (omega (arith, lt))) in
      let last = h n (omega arith) in ground arith

  -- The groups before `p` are below `gid`, those from `p` on are not.
  record Splits (n p : ℕ) : Type 0 where
    from_one : 1 ≤ p
    to_end : p ≤ n
    lower : (i : ℕ) → 1 ≤ i → i < p → groups i < gid
    upper : (i : ℕ) → p ≤ i → i < n → gid ≤ groups i

  half : (l h : ℕ) → l < h → (l ≤ l + (h - l) / 2) × (l + (h - l) / 2 < h)
  half l h lt = omega arith

  search-Splits :
      (n : ℕ)
      → AreSorted groups n
      → (fuel l h : ℕ) → h < l + fuel
      → 1 ≤ l
      → l ≤ h
      → h ≤ n
      → ((i : ℕ) → 1 ≤ i → i < l → groups i < gid)
      → ((i : ℕ) → h ≤ i → i < n → gid ≤ groups i)
      → (p : ℕ) × (search fuel groups gid l h ≡ some p) × Splits n p
  unfolding search
  search-Splits n s zero l h enough one le le_n lower upper = absurd (omega arith)
  search-Splits n s (suc fuel) l h enough one le le_n lower upper = elim (Bool-cases (ltb l h)) [
    | inr ended ↦
        let same : l ≡ h = ground arith in
        (
          l,
          rw ended refl,
          record {
            from_one = one;
            to_end = omega arith;
            lower = lower;
            upper = λ i a b. upper i (omega (arith, a)) b;
          },
        )
    | inl goes_on ↦
        let lt : l < h = ground arith in
        let m = l + (h - l) / 2 in
        let mid = half l h lt in
        elim (Bool-cases (ltb (groups m) gid)) [
          | inl less ↦
              let below : groups m < gid = ground arith in
              rw (goes_on, less)
                (search-Splits n s fuel (m + 1) h (omega (arith, mid)) (omega arith)
                  (omega (arith, mid.1)) le_n
                  (λ i a b.
                    let c = s i m a (omega (arith, b)) (omega (arith, mid.1)) in
                    omega (arith, c, below))
                  upper)
          | inr not_less ↦
              let above : gid ≤ groups m = ground arith in
              rw (goes_on, not_less)
                (search-Splits n s fuel l m (omega (arith, mid.1)) one mid.0 (omega (arith, mid.1))
                  lower
                  (λ i a b. let c = s m i (omega (arith, mid.0)) a b in omega (arith, c, above)))
        ]
  ]

  Splits-is_among :
      (n p : ℕ)
      → 1 ≤ n
      → AreSorted groups n
      → Splits n p
      → groups 0 ≢ gid
      → (ltb p n && groups p == gid) ≡ is_among groups n gid
  Splits-is_among n p n1 s c first = elim (Bool-cases (ltb p n && groups p == gid)) [
    | inl found ↦
        let lt : p < n = ground arith in
        let here : groups p ≡ gid = ground arith in found ∙ sym (is_among-true n p lt here)
    | inr missing ↦ missing ∙ sym (is_among-false n (λ i lt e. apart i lt e missing))
  ]
    where
      apart : (i : ℕ) → i < n → groups i ≡ gid → (ltb p n && groups p == gid) ≡ false → ⊥
      apart zero lt e missing = first e
      apart (suc i) lt e missing = elim (Bool-cases (ltb (suc i) p)) [
        | inl left ↦
            let low = c.lower (suc i) (omega arith) (ground arith) in absurd (omega (arith, low, e))
        | inr right ↦
            let le : p ≤ suc i = ground arith in
            let order = s p (suc i) c.from_one le lt in
            let high = c.upper p (omega arith) (omega (arith, le, lt)) in
            let here : groups p ≡ gid = omega (arith, order, high, e) in
            let inside : p < n = omega (arith, le, lt) in ground arith
      ]

-- With the groups behind the first one sorted, `groupmember` returns in as many rounds as there are groups, and
-- its binary search answers what looking at the groups one after the other does.
pub groupmember-is_among :
    (groups : ℕ → ℕ) (n gid : ℕ)
    → 1 ≤ n
    → AreSorted groups n
    → groupmember n groups n gid ≡ some (is_among groups n gid)
unfolding groupmember
groupmember-is_among groups n gid n1 s = elim (Bool-cases (groups 0 == gid)) [
  | inl first ↦
      let here : groups 0 ≡ gid = ground arith in
      rw first (ap some (sym (is_among-true groups gid n 0 (omega arith) here)))
  | inr other ↦
      let apart : groups 0 ≢ gid = ground arith in
      let r =
        search-Splits groups gid n s n 1 n (omega arith) (omega arith) n1 (omega arith)
          (λ i a b. absurd (omega (arith, a, b))) (λ i a b. absurd (omega (arith, a, b))) in
      rw (other, r.1) (ap some (Splits-is_among groups gid n r.0 n1 s r.2 apart))
]
