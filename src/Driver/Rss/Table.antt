-- ===== src/Driver/Rss/Table.antt =====
-- `lazybsd_rss_check` and `set_rss_table` of src/lazybsd_dpdk.cc agree on the queue of a connection.
use lazybsd.Prelude.{
  ℕ, zero, suc, ◌+◌, ◌*◌, ◌/◌, ◌%◌, ◌^◌, ◌≤◌, ◌<◌, ◌≡◌, refl, ap, ◌∙◌, Option, none, some, ltb, leb,
  ◌==◌, List, ◌++◌, get_elem?, bit_and_mask, arith, pow_pos,
}
use Prim.Native.Nat.{max}
use native.Mathlib.Nat.{mod-lt}
use native.Mathlib.Numerals.{towards_suc}
use lazybsd.Driver.Rss.{
  reta_group_size, fill_group, fill_groups, set_rss_table, le_bytes, toeplitz_hash, rss_check,
}

get_elem?-fill_group :
    (rounds hash n j : ℕ)
    → j < rounds
    → get_elem? (fill_group rounds hash n) j ≡ some ((hash + j) % n)
unfolding fill_group
get_elem?-fill_group zero hash n j h = absurd (omega arith)
get_elem?-fill_group (suc rounds) hash n zero h = let e : hash + 0 ≡ hash = omega arith in rw e refl
get_elem?-fill_group (suc rounds) hash n (suc j) h =
    let e : hash + suc j ≡ hash + 1 + j = omega arith in
    rw e (get_elem?-fill_group rounds (hash + 1) n j (omega arith))

get_elem?-fill_groups :
    (rounds hash n i : ℕ)
    → i < rounds
    → get_elem? (fill_groups rounds hash n) i
      ≡ some (fill_group reta_group_size (hash + reta_group_size * i) n)
unfolding fill_groups
get_elem?-fill_groups zero hash n i h = absurd (omega arith)
get_elem?-fill_groups (suc rounds) hash n zero h =
    let e : hash + reta_group_size * 0 ≡ hash = omega arith in rw e refl
get_elem?-fill_groups (suc rounds) hash n (suc i) h =
    let e : hash + reta_group_size * suc i ≡ hash + reta_group_size + reta_group_size * i =
      omega arith in
    rw e (get_elem?-fill_groups rounds (hash + reta_group_size) n i (omega arith))

-- The entry of the table at an index, in groups of 64
abbrev in_group : Option (List ℕ) → ℕ → Option ℕ
in_group none j = none
in_group (some l) j = get_elem? l j

abbrev pub entry : List (List ℕ) → ℕ → Option ℕ
entry table e = in_group (get_elem? table (e / reta_group_size)) (e % reta_group_size)

entry-set_rss_table :
    (reta_size n e : ℕ)
    → 64 ≤ reta_size
    → e < reta_size / 64 * 64
    → entry (set_rss_table reta_size n) e ≡ some (e % n)
unfolding set_rss_table
entry-set_rss_table reta_size n e big h =
    let q = e / reta_group_size in
    let r = e % reta_group_size in
    let count : max 1 (reta_size / reta_group_size) ≡ reta_size / reta_group_size = omega arith in
    let some_size : (reta_size == 0) ≡ ltb 1 0 = ground arith in
    let group = get_elem?-fill_groups (reta_size / reta_group_size) 0 n q (omega arith) in
    let slot = get_elem?-fill_group reta_group_size (0 + reta_group_size * q) n r (omega arith) in
    let all : 0 + reta_group_size * q + r ≡ e = omega arith in
    rw (some_size, count) (ap (λ g. in_group g r) group ∙ slot ∙ ap (λ k. some (k % n)) all)

-- The NIC takes the entry of the table that the low bits of the hash select. For a table of 64 * 2 ^ k
-- entries, as the driver fills it for more than one queue, `lazybsd_rss_check` says whether that entry is
-- the queue on which this process sends: an address and port that pass the check have their answers
-- come back to the same process.
pub rss_check-entry :
    (keylen : ℕ) (key : ℕ → ℕ) (n k queueid saddr daddr sport dport : ℕ)
    → 2 ≤ n
    → let reta_size = 2 ^ (k + 6) in
      let bytes = le_bytes 4 saddr ++ le_bytes 4 daddr ++ le_bytes 2 sport ++ le_bytes 2 dport in
      (queue : ℕ) × (entry (set_rss_table reta_size n) (toeplitz_hash keylen key bytes % reta_size)
        ≡ some queue)
      × (rss_check keylen key n reta_size queueid saddr daddr sport dport ≡ (queue == queueid))
unfolding rss_check
rss_check-entry keylen key n k queueid saddr daddr sport dport h =
    let size = 2 ^ (k + 6) in
    let bytes = le_bytes 4 saddr ++ le_bytes 4 daddr ++ le_bytes 2 sport ++ le_bytes 2 dport in
    let hash = toeplitz_hash keylen key bytes in
    let pow : size ≡ 64 * 2 ^ k = simp towards_suc (omega arith) in
    let some_pow = pow_pos k in
    let low : hash % size < size = mod-lt hash (omega arith) in
    let whole : size / 64 * 64 ≡ size = omega arith in
    let many : leb n 1 ≡ ltb 1 0 = ground arith in
    (
      hash % size % n,
      entry-set_rss_table size n (hash % size) (omega arith) (omega arith),
      rw (many, bit_and_mask (k + 6) hash) refl,
    )
