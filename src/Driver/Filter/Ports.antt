-- ===== src/Driver/Filter/Ports.antt =====
-- The bitmaps of ports of src/lazybsd_dpdk.cc hold the ports that were put in.
use lazybsd.Prelude.{
  all_below, all_below-at, ℕ, ◌/◌, ◌%◌, ◌^◌, ◌<◌, ◌≡◌, refl, Bool, true, ◌||◌, if◌then◌else◌, ltb,
  ◌==◌, bit_and, bit_or, arith, Bool-cases, inl, inr, ==_iff,
}
use lazybsd.Driver.Filter.{magic_bits, htons, set_bitmap, get_bitmap}

abbrev same_bool : Bool → Bool → Bool
same_bool a b = if a then b else (if b then ltb 1 0 else true)

same_bool-eq : (a b : Bool) → same_bool a b ≡ true → a ≡ b
same_bool-eq a b h = ground arith

-- The law of one byte, for all bytes and bits.
abbrev bit_law : (i j n : ℕ) → Bool
bit_law i j n =
    same_bool (ltb 0 (bit_and (bit_or n (magic_bits i)) (magic_bits j)))
      (i == j || ltb 0 (bit_and n (magic_bits j)))

bit_table : all_below 8 (λ i. all_below 8 (λ j. all_below 256 (bit_law i j))) ≡ true
unfolding all_below
bit_table = refl

bit_and-bit_or :
    (i j n : ℕ)
    → i < 8
    → j < 8
    → n < 256
    → ltb 0 (bit_and (bit_or n (magic_bits i)) (magic_bits j))
      ≡ (i == j || ltb 0 (bit_and n (magic_bits j)))
bit_and-bit_or i j n hi hj hn =
    let at_i =
      all_below-at 8 (λ i. all_below 8 (λ j. all_below 256 (bit_law i j))) i bit_table hi in
    let at_j = all_below-at 8 (λ j. all_below 256 (bit_law i j)) j at_i hj in
    same_bool-eq _ _ (all_below-at 256 (bit_law i j) n at_j hn)

-- A port in network order is found in the bitmap exactly when it was put in, in host order, or was
-- there before; the bitmap holds bytes.
pub get_bitmap-set_bitmap :
    (bitmap : ℕ → ℕ) (bytes : (i : ℕ) → bitmap i < 256) (p q : ℕ)
    → get_bitmap q (set_bitmap p bitmap) ≡ (htons (p % 2 ^ 16) == q || get_bitmap q bitmap)
unfolding get_bitmap set_bitmap
get_bitmap-set_bitmap bitmap bytes p q =
    let n = htons (p % 2 ^ 16) in
    let law =
      bit_and-bit_or (n % 8) (q % 8) (bitmap (n / 8)) (omega arith) (omega arith) (bytes (n / 8)) in
    elim (Bool-cases (q / 8 == n / 8)) [
      | inl same ↦
          let e : q / 8 ≡ n / 8 = (==_iff _ _).0 same in
          let one : (n % 8 == q % 8) ≡ (n == q) = ground arith in rw same (rw e (rw (← one) law))
      | inr other ↦ let one : (n == q) ≡ ltb 1 0 = ground arith in rw other (rw one refl)
    ]
