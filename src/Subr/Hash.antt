-- ===== src/Subr/Hash.antt =====
-- bsd/lib/lazybsd_kern_subr.c: `hashinit_flags`, `hashinit`, `hashdestroy` and `phashinit_flags`. A
-- hash table is the list of its chains; `malloc` gets a size in bytes and may return NULL.
pub mod Sizes
use lazybsd.Prelude.{
  ℕ, zero, suc, ◌+◌, ◌-◌, ◌*◌, ◌/◌, ◌≤◌, ℤ, pos, negsuc, Bool, true, false, ◌&&◌, Option, none,
  some, List, [], ◌∷◌, if◌then◌else◌, leb, take, drop, replicate,
}

-- How the allocation of a table ends. A table has its address, its chains and what `*hashmask` or
-- `*nentries` is set to.
pub data Table : Type 0 where
  bad_elements : Table
  no_memory : Table
  table : (address : ℕ) → (chains : List (List ℕ)) → (told : ℕ) → Table

-- `for (hashsize = 1; hashsize <= elements; hashsize <<= 1)`; a doubling is at least one more, so
-- `elements` rounds are enough.
unfoldable pub double_past : (fuel hashsize elements : ℕ) → ℕ
double_past zero hashsize elements = hashsize
double_past (suc fuel) hashsize elements =
    let on = double_past fuel (hashsize * 2) elements in
    if leb hashsize elements then on else hashsize

-- `hashsize` of `hashinit_flags`, after `hashsize >>= 1`
unfoldable pub hash_size : (elements : ℕ) → ℕ
unfolding double_past
hash_size elements = double_past elements 1 elements / 2

-- `sizeof(*hashtbl)`
abbrev pub head_size : ℕ
head_size = 8

-- The table at the address that `malloc` returned.
unfoldable pub fresh_table : (size told : ℕ) → Option ℕ → Table
fresh_table size told none = no_memory
fresh_table size told (some address) = table address (replicate size []) told

-- `primes`
abbrev pub primes : List ℕ
primes =
    1 ∷ 13 ∷ 31 ∷ 61 ∷ 127 ∷ 251 ∷ 509 ∷ 761 ∷ 1021 ∷ 1531 ∷ 2039 ∷ 2557 ∷ 3067 ∷ 3583 ∷ 4093 ∷ 4603
    ∷ 5119 ∷ 5623 ∷ 6143 ∷ 6653 ∷ 7159 ∷ 7673 ∷ 8191 ∷ 12281 ∷ 16381 ∷ 24571 ∷ 32749 ∷ []

-- The loop of `phashinit_flags`: `last` is `primes[i - 1]`, and the list starts at `primes[i]`.
unfoldable pub prime_size : (elements last : ℕ) → List ℕ → ℕ
prime_size elements last [] = last
prime_size elements last (p ∷ ps) = if leb p elements then prime_size elements p ps else last

abbrev pub all_empty : List (List ℕ) → Bool
all_empty [] = true
all_empty ([] ∷ l) = all_empty l
all_empty ((x ∷ c) ∷ l) = false

module _ (malloc : ℕ → Option ℕ) where
  -- `hashinit_flags`; the flags only choose how `malloc` waits.
  unfoldable pub hashinit_flags : (elements : ℤ) → Table
  unfolding hash_size fresh_table
  hashinit_flags (negsuc n) = bad_elements
  hashinit_flags (pos zero) = bad_elements
  hashinit_flags (pos (suc n)) =
      let size = hash_size (suc n) in fresh_table size (size - 1) (malloc (size * head_size))

  -- `hashinit`
  unfoldable pub hashinit : (elements : ℤ) → Table
  unfolding hashinit_flags
  hashinit elements = hashinit_flags elements

  -- `phashinit_flags` for `elements` that its assertion lets pass
  unfoldable pub phashinit_flags : (elements : ℕ) → Table
  unfolding prime_size fresh_table
  phashinit_flags elements =
      let size = prime_size elements 1 (drop 1 primes) in
      fresh_table size size (malloc (size * head_size))

-- `hashdestroy`: whether its assertion holds, that the chains up to `hashmask` are empty.
unfoldable pub hashdestroy : (chains : List (List ℕ)) → (hashmask : ℕ) → Bool
hashdestroy chains hashmask = all_empty (take (suc hashmask) chains)
