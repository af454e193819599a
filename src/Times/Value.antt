-- ===== src/Times/Value.antt =====
-- Sums and differences of times of bsd/lib/lazybsd_patch.c.
use lazybsd.Prelude.{
  ℕ, ◌+◌, ◌*◌, ◌<◌, ◌≡◌, pos_part, neg_part, arith, ◌+ℤ◌, ◌-ℤ◌, +ℤ_parts, -ℤ_parts, one_part, ◌≤◌,
}
use lazybsd.Times.{Timeval, million, borrow, carry, timevalfix, timevaladd, timevalsub}

-- The microseconds of a time are the difference of these two.
abbrev pub up : Timeval → ℕ
up tv = pos_part tv.tv_sec * million + pos_part tv.tv_usec

abbrev pub down : Timeval → ℕ
down tv = neg_part tv.tv_sec * million + neg_part tv.tv_usec

-- The microseconds are those of less than a second.
pub record IsNormal (tv : Timeval) : Type 0 where
  pub from_zero : neg_part tv.tv_usec ≡ 0
  pub below : pos_part tv.tv_usec < million

pub borrow_lem :
    (tv : Timeval)
    → neg_part tv.tv_usec ≤ million
    → pos_part tv.tv_usec < million + million
    → (up (borrow tv) + down tv ≡ up tv + down (borrow tv))
      × (neg_part (borrow tv).tv_usec ≡ 0)
      × (pos_part (borrow tv).tv_usec < million + million)
borrow_lem tv h k = unfold ◌+ℤ◌ ◌-ℤ◌ in ground arith

carry_lem :
    (tv : Timeval)
    → neg_part tv.tv_usec ≡ 0
    → pos_part tv.tv_usec < million + million
    → (up (carry tv) + down tv ≡ up tv + down (carry tv))
      × (neg_part (carry tv).tv_usec ≡ 0)
      × (pos_part (carry tv).tv_usec < million)
carry_lem tv h k = unfold ◌+ℤ◌ ◌-ℤ◌ in ground arith

timevalfix_lem :
    (tv : Timeval)
    → neg_part tv.tv_usec ≤ million
    → pos_part tv.tv_usec < million + million
    → (up (timevalfix tv) + down tv ≡ up tv + down (timevalfix tv)) × IsNormal (timevalfix tv)
unfolding timevalfix
timevalfix_lem tv h k =
    let b = borrow_lem tv h k in
    let c = carry_lem (borrow tv) b.1 b.2 in
    (omega (arith, b.0, c.0), record { from_zero = c.1; below = c.2 })

-- `timevaladd` gives a normal time with the sum of the microseconds, whatever the signs of the seconds.
pub timevaladd_lem :
    (a b : Timeval)
    → IsNormal a
    → IsNormal b
    → (up (timevaladd a b) + down a + down b ≡ up a + up b + down (timevaladd a b))
      × IsNormal (timevaladd a b)
unfolding timevaladd
timevaladd_lem a b h k =
    let s = +ℤ_parts a.tv_sec b.tv_sec in
    let u = +ℤ_parts a.tv_usec b.tv_usec in
    let one = one_part (a.tv_usec +ℤ b.tv_usec) in
    let sum : Timeval = record {
      tv_sec = a.tv_sec +ℤ b.tv_sec;
      tv_usec = a.tv_usec +ℤ b.tv_usec;
    } in
    let f =
      timevalfix_lem sum (omega (arith, u, one, h.from_zero, k.from_zero))
        (omega (arith, u, one, h.below, k.below, h.from_zero, k.from_zero)) in
    (omega (arith, s, u, f.0), f.1)

-- `timevalsub` gives a normal time with the difference of the microseconds, also when that is below zero.
pub timevalsub_lem :
    (a b : Timeval)
    → IsNormal a
    → IsNormal b
    → (up (timevalsub a b) + down a + up b ≡ up a + down b + down (timevalsub a b))
      × IsNormal (timevalsub a b)
unfolding timevalsub
timevalsub_lem a b h k =
    let s = -ℤ_parts a.tv_sec b.tv_sec in
    let u = -ℤ_parts a.tv_usec b.tv_usec in
    let one = one_part (a.tv_usec -ℤ b.tv_usec) in
    let difference : Timeval = record {
      tv_sec = a.tv_sec -ℤ b.tv_sec;
      tv_usec = a.tv_usec -ℤ b.tv_usec;
    } in
    let f =
      timevalfix_lem difference (omega (arith, u, one, h.below, k.below, h.from_zero, k.from_zero))
        (omega (arith, u, one, h.below, k.below, h.from_zero, k.from_zero)) in
    (omega (arith, s, u, f.0), f.1)
