-- ===== src/Callout/Softclock/Suffix.antt =====
-- The part of a bucket of bsd/lib/lazybsd_kern_timeout.c that a walk has still before it.
use lazybsd.Prelude.{
  ℕ, ◌≤◌, ◌≡◌, refl, ◌∙◌, points, ◌≢◌, Option, none, some, List, [], ◌∷◌, if◌then◌else◌, ◌==◌,
  arith, count, erase, after, Bool-cases, Option-cases, inl, inr, count-erase, first,
}
use lazybsd.Callout.Invariant.{count-after, count-after_self}

abbrev pub drop_to : ℕ → List ℕ → List ℕ
drop_to c [] = []
drop_to c (x ∷ l) = if c == x then x ∷ l else drop_to c l

-- From the cursor on; nothing is left behind NULL.
abbrev pub suffix : Option ℕ → List ℕ → List ℕ
suffix none l = []
suffix (some c) l = drop_to c l

-- No callout stands on a list twice.
abbrev pub Once : List ℕ → Type 0
Once l = (c : ℕ) → count c l ≤ 1

pub Once-tail : (x : ℕ) (l : List ℕ) → Once (x ∷ l) → Once l
Once-tail x l h c = omega (arith, h c)

count-drop_to-le : (c d : ℕ) (l : List ℕ) → count d (drop_to c l) ≤ count d l
count-drop_to-le c d [] = omega arith
count-drop_to-le c d (x ∷ l) = ground (arith, count-drop_to-le c d l)

-- The walk goes on behind `c`, and loses nothing else.
pub count-suffix-after :
    (c d : ℕ) (l : List ℕ) → Once l → d ≢ c → count d (suffix (after c l) l) ≡ count d (drop_to c l)
count-suffix-after c d [] h n = refl
count-suffix-after c d (x ∷ []) h n = ground arith
count-suffix-after c d (x ∷ y ∷ l) h n =
    let rest = count-suffix-after c d (y ∷ l) (Once-tail x (y ∷ l) h) n in
    elim (Bool-cases (c == x)) [
      | inl e ↦ ground (arith, h y)
      | inr e ↦ elim (Option-cases (after c (y ∷ l))) [
        | inl o ↦ ground (arith, rest)
        | inr (z, o) ↦ ground (arith, rest, h z, count-after c z (y ∷ l) o)
      ]
    ]

-- Another callout than the cursor is unlinked.
pub count-suffix-erase :
    (o : Option ℕ) (c d : ℕ) (l : List ℕ)
    → o ≢ some c
    → d ≢ c
    → count d (suffix o (erase c l)) ≡ count d (suffix o l)
count-suffix-erase none c d l p n = refl
count-suffix-erase (some e) c d [] p n = refl
count-suffix-erase (some e) c d (x ∷ l) p n =
    ground (arith, count-suffix-erase (some e) c d l p n, count-erase c d l)

after_ne : (c : ℕ) (l : List ℕ) → Once l → after c l ≢ some c
after_ne c l h e = omega (arith, h c, count-after_self c l e)

-- A callout is unlinked, and the cursor moves on if it was there.
pub count-suffix_unlink :
    (o : Option ℕ) (c d : ℕ) (l : List ℕ)
    → Once l
    → d ≢ c
    → count d (suffix (if points o c then after c l else o) (erase c l)) ≡ count d (suffix o l)
count-suffix_unlink none c d l h n = refl
count-suffix_unlink (some x) c d l h n = elim (Bool-cases (x == c)) [
  | inl e ↦
      let same : x ≡ c = ground arith in
      rw (e, same)
        (count-suffix-erase (after c l) c d l (after_ne c l h) n ∙ count-suffix-after c d l h n)
  | inr e ↦
      let other : some x ≢ some c = ground arith in rw e (count-suffix-erase (some x) c d l other n)
]

-- The walk starts at the head.
pub suffix-first : (l : List ℕ) → suffix (first l) l ≡ l
suffix-first [] = refl
suffix-first (x ∷ l) = ground arith
