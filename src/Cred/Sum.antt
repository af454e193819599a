-- ===== src/Cred/Sum.antt =====
-- `chgsbsize` of bsd/lib/lazybsd_patch.c keeps account of the buffers of a user's sockets.
use lazybsd.Prelude.{
  ℕ, zero, suc, ◌+◌, ◌-◌, ◌%◌, ◌^◌, ◌≤◌, ◌<◌, ◌≡◌, refl, ap, Bool, true, false, if◌then◌else◌, ltb,
  leb, ◌==◌, List, [], ◌∷◌, update, arith, Bool-cases, inl, inr,
}
use lazybsd.Cred.{Uidinfo, is_above_zero, widened, chglimit, chgsbsize}

is_above : (d : ℕ) → 1 ≤ d → d < 2 ^ 31 → is_above_zero d ≡ true
is_above d h k = ground arith

-- By a difference above zero, with a limit
chglimit_up :
    (n d max : ℕ)
    → n ≤ max
    → 1 ≤ d
    → d < 2 ^ 31
    → max < 2 ^ 63
    → 1 ≤ max
    → chglimit n d max ≡ (if leb (n + d) max then (n + d, true) else (n, false))
unfolding chglimit
chglimit_up n d max h one small k has =
    let limited : (max == 0) ≡ false = ground arith in
    let wide : widened d ≡ d = ground arith in
    let sum : (n + d) % 2 ^ 64 ≡ n + d = omega arith in
    let back : (n + d + 2 ^ 64 - d) % 2 ^ 64 ≡ n = omega arith in
    rw (is_above d one small, limited, wide, sum, back)
      (elim (Bool-cases (leb (n + d) max)) [
        | inl fits ↦ let no : ltb max (n + d) ≡ false = ground arith in rw (fits, no) refl
        | inr over ↦ let yes : ltb max (n + d) ≡ true = ground arith in rw (over, yes) refl
      ])

-- By a difference that is not above zero
chglimit_down :
    (n d max : ℕ)
    → d ≤ n
    → d < 2 ^ 31
    → n < 2 ^ 63
    → chglimit n ((2 ^ 32 - d) % 2 ^ 32) max ≡ (n - d, true)
unfolding chglimit
chglimit_down n d max h small k =
    let below : is_above_zero ((2 ^ 32 - d) % 2 ^ 32) ≡ false = ground arith in
    let sum : (n + widened ((2 ^ 32 - d) % 2 ^ 32)) % 2 ^ 64 ≡ n - d = ground arith in
    rw (below, sum) refl

abbrev user : Uidinfo → (n : ℕ) → Uidinfo
user u n = record u { ui_sbsize = n }

-- A user who has `s` bytes in other buffers gets the new size if the sum is within the limit, and
-- otherwise nothing changes.
chgsbsize_lem :
    (u : Uidinfo) (s hiwat to max : ℕ)
    → s + hiwat ≤ max
    → max < 2 ^ 63
    → hiwat < 2 ^ 31
    → to < 2 ^ 31
    → chgsbsize (user u (s + hiwat)) hiwat to max ≡ (
        if leb (s + to) max
        then (user u (s + to), to, true)
        else (user u (s + hiwat), hiwat, false))
unfolding chgsbsize
chgsbsize_lem u s hiwat to max h k a b = elim (Bool-cases (ltb hiwat to)) [
  | inr down ↦
      let le : to ≤ hiwat = ground arith in
      let diff : (to + 2 ^ 32 - hiwat) % 2 ^ 32 ≡ (2 ^ 32 - (hiwat - to)) % 2 ^ 32 =
        ap (λ x. x % 2 ^ 32) (omega arith) in
      let below : is_above_zero ((2 ^ 32 - (hiwat - to)) % 2 ^ 32) ≡ false = ground arith in
      let fits : leb (s + to) max ≡ true = ground arith in
      let left : s + hiwat - (hiwat - to) ≡ s + to = omega arith in
      rw
        (
          diff,
          below,
          chglimit_down (s + hiwat) (hiwat - to) max (omega arith) (omega arith) (omega arith),
          fits,
          left,
        )
        refl
  | inl up ↦
      let lt : hiwat < to = ground arith in
      let diff : (to + 2 ^ 32 - hiwat) % 2 ^ 32 ≡ to - hiwat = omega arith in
      let above = is_above (to - hiwat) (omega arith) (omega arith) in
      elim (Bool-cases (max == 0)) [
        | inl nothing ↦
            let over : leb (s + to) max ≡ false = ground arith in
            rw (diff, above, nothing, over) refl
        | inr limited ↦
            let sum : s + hiwat + (to - hiwat) ≡ s + to = omega arith in
            let r =
              chglimit_up (s + hiwat) (to - hiwat) max h (omega arith) (omega arith) k
                (ground arith) in
            rw (diff, above, limited, r, sum) (by_test (leb (s + to) max))
      ]
]
  where
    given : ℕ × Bool → Uidinfo × ℕ × Bool
    given r = (user u r.0, (if r.1 then to else hiwat), r.1)

    by_test :
        (f : Bool)
        → given (if f then (s + to, true) else (s + hiwat, false))
          ≡ (if f then (user u (s + to), to, true) else (user u (s + hiwat), hiwat, false))
    by_test true = refl
    by_test false = refl

-- The sizes that a user's sockets have, added up
abbrev pub total : (n : ℕ) → (hiwat : ℕ → ℕ) → ℕ
total zero hiwat = 0
total (suc n) hiwat = total n hiwat + hiwat n

total-update_above :
    (n i x : ℕ) (hiwat : ℕ → ℕ) → n ≤ i → total n (update hiwat i x) ≡ total n hiwat
total-update_above zero i x hiwat h = refl
total-update_above (suc n) i x hiwat h =
    let other : (n == i) ≡ false = ground arith in
    rw other (omega (arith, total-update_above n i x hiwat (omega arith)))

total-update :
    (n i x : ℕ) (hiwat : ℕ → ℕ) → i < n → total n (update hiwat i x) + hiwat i ≡ total n hiwat + x
total-update zero i x hiwat h = absurd (omega arith)
total-update (suc n) i x hiwat h = elim (Bool-cases (n == i)) [
  | inl last ↦
      let same : n ≡ i = ground arith in
      let here : hiwat n ≡ hiwat i = ap hiwat same in
      rw last (omega (arith, total-update_above n i x hiwat (omega arith), here))
  | inr before ↦
      let lt : i < n = ground arith in rw before (omega (arith, total-update n i x hiwat lt))
]

one-le-total : (n i : ℕ) (hiwat : ℕ → ℕ) → i < n → hiwat i ≤ total n hiwat
one-le-total zero i hiwat h = absurd (omega arith)
one-le-total (suc n) i hiwat h = elim (Bool-cases (i == n)) [
  | inl last ↦
      let same : i ≡ n = ground arith in
      let here : hiwat i ≡ hiwat n = ap hiwat same in omega (arith, here)
  | inr before ↦ let lt : i < n = ground arith in omega (arith, one-le-total n i hiwat lt)
]

-- Calls for sockets of the user, one after the other: the socket and the size that it is to have
abbrev pub resize : (max : ℕ) → List (ℕ × ℕ) → Uidinfo → (hiwat : ℕ → ℕ) → Uidinfo × (ℕ → ℕ)
resize max [] uip hiwat = (uip, hiwat)
resize max ((i, to) ∷ calls) uip hiwat =
    let r = chgsbsize uip (hiwat i) to max in resize max calls r.0 (update hiwat i r.1)

abbrev pub AreSizes : (n : ℕ) → List (ℕ × ℕ) → Type 0
AreSizes n [] = Unit {0}
AreSizes n ((i, to) ∷ calls) = (i < n) × (to < 2 ^ 31) × AreSizes n calls

-- The counter of the user is the sum of the sizes, which is within the limit.
pub record IsAccounted (n max : ℕ) (uip : Uidinfo) (hiwat : ℕ → ℕ) : Type 0 where
  pub sum : uip.ui_sbsize ≡ total n hiwat
  pub limited : total n hiwat ≤ max
  pub small : (i : ℕ) → i < n → hiwat i < 2 ^ 31

chgsbsize-IsAccounted :
    (n max i to : ℕ) (uip : Uidinfo) (hiwat : ℕ → ℕ)
    → max < 2 ^ 63
    → i < n
    → to < 2 ^ 31
    → IsAccounted n max uip hiwat
    → let r = chgsbsize uip (hiwat i) to max in IsAccounted n max r.0 (update hiwat i r.1)
chgsbsize-IsAccounted n max i to uip hiwat k lt b a =
    let s = total n hiwat - hiwat i in
    let le = one-le-total n i hiwat lt in
    let back : uip ≡ user uip (s + hiwat i) = ap (user uip) (omega (arith, a.sum, le)) in
    let e =
      chgsbsize_lem uip s (hiwat i) to max (omega (arith, le, a.limited)) k (a.small i lt) b in
    rw (ap (λ (u : Uidinfo). chgsbsize u (hiwat i) to max) back, e)
      (by_test (leb (s + to) max) refl)
  where
    kept_small : (x : ℕ) → x < 2 ^ 31 → (j : ℕ) → j < n → update hiwat i x j < 2 ^ 31
    kept_small x h j l = elim (Bool-cases (j == i)) [
      | inl here ↦ rw here h
      | inr other ↦ rw other (a.small j l)
    ]

    by_test :
        (f : Bool)
        → leb (total n hiwat - hiwat i + to) max ≡ f
        → let r : Uidinfo × ℕ × Bool =
            if f
            then (user uip (total n hiwat - hiwat i + to), to, true)
            else (user uip (total n hiwat - hiwat i + hiwat i), hiwat i, false) in
          IsAccounted n max r.0 (update hiwat i r.1)
    by_test true fits =
        let below : total n hiwat - hiwat i + to ≤ max = ground arith in
        let t = total-update n i to hiwat lt in
        let le = one-le-total n i hiwat lt in
        record {
          sum = omega (arith, t, le);
          limited = omega (arith, t, le, below);
          small = kept_small to b;
        }
    by_test false over =
        let t = total-update n i (hiwat i) hiwat lt in
        let le = one-le-total n i hiwat lt in
        record {
          sum = omega (arith, t, le);
          limited = omega (arith, t, a.limited);
          small = kept_small (hiwat i) (a.small i lt);
        }

-- Whatever sizes below 2^31 are asked for, one after the other, the counter of the user stays the sum of what the
-- sockets have, and neither exceeds the limit, also where the limit is 0 and stands for none elsewhere.
pub resize-IsAccounted :
    (n max : ℕ) (calls : List (ℕ × ℕ)) (uip : Uidinfo) (hiwat : ℕ → ℕ)
    → max < 2 ^ 63
    → AreSizes n calls
    → IsAccounted n max uip hiwat
    → let r = resize max calls uip hiwat in IsAccounted n max r.0 r.1
resize-IsAccounted n max [] uip hiwat k h a = a
resize-IsAccounted n max ((i, to) ∷ calls) uip hiwat k h a =
    let r = chgsbsize uip (hiwat i) to max in
    resize-IsAccounted n max calls r.0 (update hiwat i r.1) k h.2
      (chgsbsize-IsAccounted n max i to uip hiwat k h.0 h.1 a)
