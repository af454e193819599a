-- ===== src/Veth/Prefix.antt =====
-- bsd/lib/lazybsd_veth.c: the prefix mask of `lazybsd_veth_setaddr6` and `lazybsd_veth_setvaddr6`.
use lazybsd.Prelude.{
  ℕ, zero, suc, ◌+◌, ◌-◌, ◌*◌, ◌/◌, ◌%◌, ◌^◌, ◌≤◌, ◌<◌, ◌≡◌, refl, sym, ap, ◌∙◌, Bool, true, false,
  List, [], ◌∷◌, ◌++◌, if◌then◌else◌, ◌==◌, length, replicate, arith, length-append,
}
use mathlib.Core.List.{append_assoc}
use native.Mathlib.Nat.{mod-lt}

-- `((1 << n) - 1) << (8 - n)`, stored in a byte
abbrev pub high_bits : ℕ → ℕ
high_bits n = ((2 ^ n - 1) * 2 ^ (8 - n)) % 2 ^ 8

-- The byte that is only partly filled, if there is one.
abbrev pub last_byte : ℕ → List ℕ
last_byte prefix_length =
    let mask_size_mod = prefix_length % 8 in
    if mask_size_mod == 0 then [] else high_bits mask_size_mod ∷ []

-- The bytes of the mask, which is 0 before, for a prefix of at most 128 bits; a longer one writes behind the address.
unfoldable pub prefix_mask : (prefix_length : ℕ) → List ℕ
prefix_mask prefix_length =
    let bytes = replicate (prefix_length / 8) 255 ++ last_byte prefix_length in
    bytes ++ replicate (16 - length bytes) 0

-- The bits of a byte, from the highest on.
abbrev pub bits_of : ℕ → List Bool
bits_of b =
    (b / 128 % 2 == 1)
    ∷ (b / 64 % 2 == 1)
    ∷ (b / 32 % 2 == 1)
    ∷ (b / 16 % 2 == 1)
    ∷ (b / 8 % 2 == 1)
    ∷ (b / 4 % 2 == 1)
    ∷ (b / 2 % 2 == 1)
    ∷ (b % 2 == 1)
    ∷ []

abbrev pub all_bits : List ℕ → List Bool
all_bits [] = []
all_bits (b ∷ s) = bits_of b ++ all_bits s

all_bits-append : (s t : List ℕ) → all_bits (s ++ t) ≡ all_bits s ++ all_bits t
all_bits-append [] t = refl
all_bits-append (b ∷ s) t =
    ap (λ l. bits_of b ++ l) (all_bits-append s t)
    ∙ sym (append_assoc (bits_of b) (all_bits s) (all_bits t))

replicate-append {ℓ} :
    {A : Type ℓ} (a b : ℕ) (x : A) → replicate a x ++ replicate b x ≡ replicate (a + b) x
replicate-append zero b x = let e : b ≡ 0 + b = omega arith in ap (λ k. replicate k x) e
replicate-append (suc a) b x =
    let e : suc (a + b) ≡ suc a + b = omega arith in
    ap (λ l. x ∷ l) (replicate-append a b x) ∙ ap (λ k. replicate k x) e

-- Equal bytes
eight_more : (n : ℕ) → suc (suc (suc (suc (suc (suc (suc (suc (n * 8)))))))) ≡ suc n * 8
eight_more n = omega arith

ones : (n : ℕ) → all_bits (replicate n 255) ≡ replicate (n * 8) true
ones zero = refl
ones (suc n) = ap (λ l. bits_of 255 ++ l) (ones n) ∙ ap (λ k. replicate k true) (eight_more n)

zeros : (n : ℕ) → all_bits (replicate n 0) ≡ replicate (n * 8) false
zeros zero = refl
zeros (suc n) = ap (λ l. bits_of 0 ++ l) (zeros n) ∙ ap (λ k. replicate k false) (eight_more n)

-- The bits of the last byte that are 0.
abbrev rest_bits : ℕ → ℕ
rest_bits m = if m == 0 then 0 else 8 - m

last_bits :
    (m : ℕ)
    → m < 8
    → all_bits (if m == 0 then [] else high_bits m ∷ [])
      ≡ replicate m true ++ replicate (rest_bits m) false
last_bits zero h = refl
last_bits (suc zero) h = refl
last_bits (suc (suc zero)) h = refl
last_bits (suc (suc (suc zero))) h = refl
last_bits (suc (suc (suc (suc zero)))) h = refl
last_bits (suc (suc (suc (suc (suc zero))))) h = refl
last_bits (suc (suc (suc (suc (suc (suc zero)))))) h = refl
last_bits (suc (suc (suc (suc (suc (suc (suc zero))))))) h = refl
last_bits (suc (suc (suc (suc (suc (suc (suc (suc n)))))))) h = absurd (omega arith)

length-replicate {ℓ} : {A : Type ℓ} (n : ℕ) (x : A) → length (replicate n x) ≡ n
length-replicate zero x = refl
length-replicate (suc n) x = omega (arith, length-replicate n x)

room_left :
    (p : ℕ) → p ≤ 128 → rest_bits (p % 8) + (16 - (p / 8 + length (last_byte p))) * 8 ≡ 128 - p
room_left p h = ground arith

bytes_length :
    (p : ℕ) → length (replicate (p / 8) 255 ++ last_byte p) ≡ p / 8 + length (last_byte p)
bytes_length p = omega (
  arith,
  length-append (replicate (p / 8) 255) (last_byte p),
  length-replicate {A = ℕ} (p / 8) 255,
)

-- The mask of a prefix of at most 128 bits has that many bits set, from the first on, and no others.
pub prefix_mask-bits :
    (p : ℕ) → p ≤ 128 → all_bits (prefix_mask p) ≡ replicate p true ++ replicate (128 - p) false
unfolding prefix_mask
prefix_mask-bits p h =
    let q = p / 8 in
    let m = p % 8 in
    let full : List ℕ = replicate q 255 in
    let bytes = full ++ last_byte p in
    let z = 16 - length bytes in
    let r = rest_bits m in
    let low : m < 8 = mod-lt p (omega arith) in
    let whole : q * 8 + m ≡ p = omega arith in
    let left : r + z * 8 ≡ 128 - p = omega (arith, room_left p h, bytes_length p) in
    let set = replicate (q * 8) true in
    let clear = replicate r false in
    all_bits-append bytes (replicate z 0)
    ∙ ap (λ l. l ++ all_bits (replicate z 0)) (all_bits-append full (last_byte p))
    ∙ ap (λ l. (l ++ all_bits (last_byte p)) ++ all_bits (replicate z 0)) (ones q)
    ∙ ap (λ l. (set ++ l) ++ all_bits (replicate z 0)) (last_bits m low)
    ∙ ap (λ l. (set ++ (replicate m true ++ clear)) ++ l) (zeros z)
    ∙ append_assoc set (replicate m true ++ clear) (replicate (z * 8) false)
    ∙ ap (λ l. set ++ l) (append_assoc (replicate m true) clear (replicate (z * 8) false))
    ∙ sym (append_assoc set (replicate m true) (clear ++ replicate (z * 8) false))
    ∙ ap (λ l. l ++ (clear ++ replicate (z * 8) false))
        (replicate-append (q * 8) m true ∙ ap (λ k. replicate k true) whole)
    ∙ ap (λ l. replicate p true ++ l)
        (replicate-append r (z * 8) false ∙ ap (λ k. replicate k false) left)
