-- ===== src/Times/Ticks.antt =====
-- `tvtohz` of bsd/lib/lazybsd_patch.c: no timeout ends early, and none overflows.
use lazybsd.Prelude.{
  ℕ, ◌+◌, ◌-◌, ◌*◌, ◌/◌, ◌%◌, ◌^◌, ◌≤◌, ◌<◌, ◌≡◌, refl, ap, ◌∙◌, leb, arith, Bool-cases, inl, inr,
}
use native.Mathlib.Nat.{
  div-add-mod, mod-lt, mod-eq_of_lt, mul_comm, mul_assoc, add-mul, mul-le-mul_left,
  le-div_iff_mul-le, div-le_self,
}
use lazybsd.Times.{million, long_max, int_max, cut, ticks_of, tvtohz}
use lazybsd.Times.Timer.{time}

-- Rounding up
ceil : (x tick : ℕ) → 1 ≤ tick → x ≤ (x + (tick - 1)) / tick * tick
ceil x tick h =
    let y = x + (tick - 1) in
    let split = div-add-mod y tick in
    let low = mod-lt y h in let turn = mul_comm tick (y / tick) in omega (arith, split, low, turn)

-- A whole number of ticks and one more are enough.
ticks_of-enough :
    (tick hz sec usec : ℕ)
    → 1 ≤ tick
    → 1 ≤ hz
    → tick * hz ≡ million
    → usec < million
    → ticks_of tick hz sec usec < long_max
    → sec * million + usec + tick ≤ ticks_of tick hz sec usec * tick
unfolding ticks_of
ticks_of-enough tick hz sec usec ht hh hz_tick hu small =
    let tick_small : tick ≤ million = omega (arith, mul-le-mul_left tick hh, hz_tick) in
    elim (Bool-cases (leb sec (long_max / million))) [
      | inl fits ↦
          let le : sec ≤ long_max / million = ground arith in
          let x = sec * million + usec + (tick - 1) in
          let q = x / tick in
          let whole : x % 2 ^ 64 ≡ x = mod-eq_of_lt (omega arith) in
          let q_small = div-le_self x tick in
          let result : (q + 1) % 2 ^ 64 ≡ q + 1 = mod-eq_of_lt (omega (arith, q_small)) in
          let enough = ceil (sec * million + usec) tick ht in
          let product = add-mul q 1 tick in
          rw (fits, whole, result) (omega (arith, enough, product))
      | inr long ↦ elim (Bool-cases (leb sec (long_max / hz))) [
        | inl fits ↦
            let le : sec ≤ long_max / hz = ground arith in
            let bound : sec * hz ≤ long_max = (le-div_iff_mul-le hh).0 le in
            let x = usec + (tick - 1) in
            let q = x / tick in
            let whole : x % 2 ^ 64 ≡ x = mod-eq_of_lt (omega arith) in
            let q_small = div-le_self x tick in
            let result : (sec * hz + q + 1) % 2 ^ 64 ≡ sec * hz + q + 1 =
              mod-eq_of_lt (omega (arith, q_small, bound)) in
            let enough = ceil usec tick ht in
            let secs : sec * hz * tick ≡ sec * million =
              mul_assoc sec hz tick ∙ ap (λ k. sec * k) (mul_comm hz tick ∙ hz_tick) in
            let product = add-mul (sec * hz + q) 1 tick in
            let product' = add-mul (sec * hz) q tick in
            rw (long, fits, whole, result) (omega (arith, enough, product, product', secs))
        | inr over ↦
            let none : ticks_of tick hz sec usec ≡ long_max =
              unfold ticks_of in rw (long, over) refl in
            absurd (omega (arith, none, small))
      ]
    ]

cut-le : (t : ℕ) → cut t ≤ int_max
cut-le t = ground arith

cut_below : (t : ℕ) → cut t < int_max → cut t ≡ t
cut_below t h = ground arith

-- `tvtohz` gives at most INT_MAX. Where it gives less, so many ticks, one of which may have begun, last at
-- least as long as the time: no timeout ends before its time. A second has `hz` ticks of `tick`
-- microseconds.
pub tvtohz-enough :
    (tick hz sec usec : ℕ)
    → 1 ≤ tick
    → 1 ≤ hz
    → tick * hz ≡ million
    → usec < million
    → let r = tvtohz tick hz (time sec usec) in
      (r ≤ int_max) × (r < int_max → sec * million + usec + tick ≤ r * tick)
unfolding tvtohz
tvtohz-enough tick hz sec usec ht hh e hu = (
  cut-le (ticks_of tick hz sec usec),
  λ small.
      let same = cut_below (ticks_of tick hz sec usec) small in
      let below : ticks_of tick hz sec usec < long_max = omega (arith, small, same) in
      rw same (ticks_of-enough tick hz sec usec ht hh e hu below),
)
