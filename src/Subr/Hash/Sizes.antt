-- ===== src/Subr/Hash/Sizes.antt =====
-- The sizes that bsd/lib/lazybsd_kern_subr.c gives to hash tables.
use lazybsd.Prelude.{
  ℕ, zero, suc, ◌+◌, ◌-◌, ◌*◌, ◌/◌, ◌%◌, ◌^◌, ◌≤◌, ◌<◌, ◌≡◌, refl, sym, ap, ◌∙◌, pos, Bool, true,
  Option, some, List, [], ◌∷◌, ltb, ◌&&◌, leb, take, drop, if_true, if_cases, arith, bit_and,
  bit_and_mask, replicate, length, count, pow_pos,
}
use native.Mathlib.Nat.{pow-suc}
use mathlib.Core.Path.{subst}
use lazybsd.Subr.Hash.{
  table, double_past, hash_size, fresh_table, head_size, primes, prime_size, hashinit_flags,
  phashinit_flags, hashdestroy, all_empty,
}

-- `size` is a power of two, and the least that is greater than `n`, if it was at most twice `n`.
record IsPast (n size : ℕ) : Type 0 where
  power : ℕ
  same : size ≡ 2 ^ suc power
  greater : n < size
  least : 2 ^ power ≤ n

double_past-IsPast :
    (fuel k n : ℕ) → 2 ^ k ≤ n → n < 2 ^ k * 2 + fuel → IsPast n (double_past fuel (2 ^ k * 2) n)
unfolding double_past
double_past-IsPast zero k n h e = record {
  power = k;
  same = omega (arith, pow-suc 2 k);
  greater = omega arith;
  least = h;
}
double_past-IsPast (suc fuel) k n h e =
    if_cases (IsPast n) (leb (2 ^ k * 2) n)
      (λ t.
        let twice : 2 ^ suc k ≡ 2 ^ k * 2 = omega (arith, pow-suc 2 k) in
        subst (λ m. IsPast n (double_past fuel (m * 2) n)) twice
          (double_past-IsPast fuel (suc k) n (ground arith) (ground (arith, pow_pos k))))
      (λ t. record {
        power = k;
        same = omega (arith, pow-suc 2 k);
        greater = ground arith;
        least = h;
      })

-- The size of a table is a power of two.
record IsBelow (n size : ℕ) : Type 0 where
  power : ℕ
  same : size ≡ 2 ^ power
  least : size ≤ n
  greater : n < 2 * size

hash_size-IsBelow : (n : ℕ) → IsBelow (suc n) (hash_size (suc n))
unfolding hash_size double_past
hash_size-IsBelow n =
    let p = double_past-IsPast n 0 (suc n) (omega arith) (omega arith) in
    let one : leb 1 (suc n) ≡ true = ground arith in
    let start : double_past (suc n) 1 (suc n) ≡ double_past n 2 (suc n) = if_true _ _ one in
    let half : hash_size (suc n) ≡ 2 ^ p.power =
      ap (λ x. x / 2) start ∙ omega (arith, p.same, pow-suc 2 p.power) in
    record {
      power = p.power;
      same = half;
      least = omega (arith, half, p.least);
      greater = omega (arith, half, p.same, p.greater, pow-suc 2 p.power);
    }

length-replicate : {A : Type 0} (n : ℕ) (a : A) → length (replicate n a) ≡ n
length-replicate zero a = refl
length-replicate (suc n) a = ap (λ x. suc x) (length-replicate n a)

all_empty_fresh : (n m : ℕ) → all_empty (take m (replicate n [])) ≡ true
all_empty_fresh zero zero = refl
all_empty_fresh zero (suc m) = refl
all_empty_fresh (suc n) zero = refl
all_empty_fresh (suc n) (suc m) = all_empty_fresh n m

hashdestroy_fresh : (n m : ℕ) → hashdestroy (replicate n []) m ≡ true
unfolding hashdestroy
hashdestroy_fresh n m = all_empty_fresh n (suc m)

-- A table of `hashinit_flags` for `n` elements.
pub record IsHashTable (n : ℕ) (chains : List (List ℕ)) (hashmask : ℕ) : Type 0 where
  pub power : ℕ
  pub size : length chains ≡ 2 ^ power
  pub least : length chains ≤ n
  pub greater : n < 2 * length chains
  pub index : (h : ℕ) → bit_and h hashmask ≡ h % length chains
  pub destroyed : hashdestroy chains hashmask ≡ true

-- When `malloc` returns memory for it, `hashinit_flags` for `n` elements, at least one, gives a
-- table whose size is the greatest power of two that is at most `n`; masking a number by `*hashmask`
-- is its remainder by the size, and `hashdestroy` accepts the table.
pub hashinit_flags-IsHashTable :
    (malloc : ℕ → Option ℕ) (n address : ℕ)
    → malloc (hash_size (suc n) * head_size) ≡ some address
    → (chains : List (List ℕ)) × (hashmask : ℕ) × (hashinit_flags malloc (pos (suc n))
        ≡ table address chains hashmask)
      × IsHashTable (suc n) chains hashmask
unfolding hashinit_flags fresh_table
hashinit_flags-IsHashTable malloc n address h =
    let p = hash_size-IsBelow n in
    let size = hash_size (suc n) in
    let long = length-replicate {A = List ℕ} size [] in
    (
      replicate size [],
      size - 1,
      ap (fresh_table size (size - 1)) h,
      record {
        power = p.power;
        size = long ∙ p.same;
        least = omega (arith, long, p.least);
        greater = omega (arith, long, p.greater);
        index = λ k.
            ap (λ m. bit_and k (m - 1)) p.same
            ∙ bit_and_mask p.power k
            ∙ ap (λ m. k % m) (sym (long ∙ p.same));
        destroyed = hashdestroy_fresh size (size - 1);
      },
    )

-- The list goes up from `last`.
abbrev Ascending : ℕ → List ℕ → Type 0
Ascending last [] = Unit {0}
Ascending last (p ∷ ps) = (last < p) × Ascending p ps

abbrev ascending : ℕ → List ℕ → Bool
ascending last [] = true
ascending last (p ∷ ps) = ltb last p && ascending p ps

Ascending-intro : (last : ℕ) (ps : List ℕ) → ascending last ps ≡ true → Ascending last ps
Ascending-intro last [] h = tt
Ascending-intro last (p ∷ ps) h = (ground arith, Ascending-intro p ps (ground arith))

-- `size` is on the list, is not above `n`, and nothing on the list lies between them.
record IsGreatest (n : ℕ) (ps : List ℕ) (size : ℕ) : Type 0 where
  known : 0 < count size ps
  below : size ≤ n
  greatest : (p : ℕ) → 0 < count p ps → p ≤ n → p ≤ size

above_all : (p last : ℕ) (ps : List ℕ) → Ascending last ps → 0 < count p ps → last < p
above_all p last [] a h = omega arith
above_all p last (q ∷ ps) a h = ground (arith, above_all p q ps a.1)

prime_size-IsGreatest :
    (n last : ℕ) (ps : List ℕ)
    → last ≤ n
    → Ascending last ps
    → IsGreatest n (last ∷ ps) (prime_size n last ps)
unfolding prime_size
prime_size-IsGreatest n last [] h a = record {
  known = ground arith;
  below = h;
  greatest = λ p k l. ground arith;
}
prime_size-IsGreatest n last (q ∷ ps) h a =
    if_cases (IsGreatest n (last ∷ q ∷ ps)) (leb q n)
      (λ t.
        let r = prime_size-IsGreatest n q ps (ground arith) a.1 in
        record {
          known = omega (arith, r.known);
          below = r.below;
          greatest = λ p k l. ground (arith, r.greatest p, r.greatest q);
        })
      (λ t. record {
        known = ground arith;
        below = h;
        greatest = λ p k l. ground (arith, above_all p q ps a.1);
      })

-- When `malloc` returns memory for it, `phashinit_flags` for `n` elements, at least one, gives as
-- many chains as it reports; their number is from the table of primes, is at most `n`, and no
-- number of the table that is at most `n` is greater.
pub phashinit_flags_greatest :
    (malloc : ℕ → Option ℕ) (n address : ℕ)
    → 1 ≤ n
    → malloc (prime_size n 1 (drop 1 primes) * head_size) ≡ some address
    → (size : ℕ) × (phashinit_flags malloc n ≡ table address (replicate size []) size)
      × (0 < count size primes)
      × (size ≤ n)
      × ((p : ℕ) → 0 < count p primes → p ≤ n → p ≤ size)
unfolding phashinit_flags fresh_table
phashinit_flags_greatest malloc n address h m =
    let size = prime_size n 1 (drop 1 primes) in
    let r = prime_size-IsGreatest n 1 (drop 1 primes) h (Ascending-intro 1 (drop 1 primes) refl) in
    (size, ap (fresh_table size size) m, r.known, r.below, r.greatest)
