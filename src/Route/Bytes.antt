-- ===== src/Route/Bytes.antt =====
-- Bytes that are copied to a place of the memory, as `bcopy` and assignments of structures in
-- bsd/lib/lazybsd_route.c do.
use lazybsd.Prelude.{
  ℕ, ◌+◌, ◌-◌, ◌≤◌, ◌<◌, ◌≡◌, ◌∙◌, ap, ◌⊎◌, true, ◌&&◌, if◌then◌else◌, ltb, leb, arith, if_true,
}
use lazybsd.Sock.Address.{Memory}

abbrev pub write : Memory → (dst n : ℕ) → (ℕ → ℕ) → Memory
write m dst n bytes x = if leb dst x && ltb x (dst + n) then bytes (x - dst) else m x

pub write_off : (m : Memory) (c d x : ℕ) (f : ℕ → ℕ) → (x < c) ⊎ (c + d ≤ x) → write m c d f x ≡ m x
write_off m c d x f out = ground arith

pub write_in : (m : Memory) (c d x : ℕ) (f : ℕ → ℕ) → x < d → write m c d f (c + x) ≡ f x
write_in m c d x f lt =
    let inside : (leb c (c + x) && ltb (c + x) (c + d)) ≡ true = ground arith in
    if_true (f (c + x - c)) (m (c + x)) inside ∙ ap f (omega arith)
