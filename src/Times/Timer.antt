-- ===== src/Times/Timer.antt =====
-- The interval timer of bsd/lib/lazybsd_patch.c does not drift.
use lazybsd.Prelude.{
  ℕ, zero, suc, refl, ap, leb, ◌∙◌, ◌+◌, ◌-◌, ◌<◌, ◌≤◌, ◌≡◌, Bool, true, false, ℤ, pos, pos_part,
  neg_part, arith, ◌+ℤ◌, ◌-ℤ◌, -ℤ_parts, one_part, ltb_ℤ, Bool-cases, inl, inr,
}
use lazybsd.Times.{
  Timeval, Itimerval, million, itimerdecr, timevalisset, reload, borrow, with_left, is_zero,
}
use lazybsd.Times.Value.{up, down, borrow_lem, IsNormal}

-- A time from 0 on, and a timer of such.
abbrev pub time : (sec usec : ℕ) → Timeval
time s u = record { tv_sec = pos s; tv_usec = pos u }

abbrev pub timer : (interval value : Timeval) → Itimerval
timer interval value = record { it_interval = interval; it_value = value }

sub_le : (a b : ℕ) → b ≤ a → pos a -ℤ pos b ≡ pos (a - b)
unfolding ◌-ℤ◌
sub_le a b h = ground arith

add_pos : (a b : ℕ) → pos a +ℤ pos b ≡ pos (a + b)
unfolding ◌+ℤ◌
add_pos a b = ground arith

-- A timer that has expired `late` microseconds ago is set again, by that much less.
reload_lem :
    (late i j : ℕ) (value : Timeval)
    → late < million
    → j < million
    → timevalisset (time i j) ≡ true
    → let v = (reload (pos late) (timer (time i j) value)).it_value in
      (up v + late ≡ up (time i j) + down v)
      × (neg_part v.tv_usec ≡ 0)
      × (pos_part v.tv_usec < million)
reload_lem late i j value h k e =
    let p = -ℤ_parts (pos j) (pos late) in
    let one = one_part (pos j -ℤ pos late) in
    let left : Timeval = record { tv_sec = pos i; tv_usec = pos j -ℤ pos late } in
    let b = borrow_lem left (omega (arith, p, one)) (omega (arith, p, one)) in
    rw e (omega (arith, p, one, b.0), b.1, borrow_below i j late h k)
  where
    borrow_below :
        (i j late : ℕ)
        → late < million
        → j < million
        → pos_part (borrow (record { tv_sec = pos i; tv_usec = pos j -ℤ pos late })).tv_usec
          < million
    borrow_below i j late h k = unfold ◌+ℤ◌ ◌-ℤ◌ in ground arith

module _ (i j s m usec : ℕ) (hm : m < million) (hu : usec < million) where
  -- The cases of `itimerdecr`: no borrow, a borrow, and expired in the interval before
  decr_within :
      usec ≤ m
      → itimerdecr (timer (time i j) (time s m)) (pos usec)
        ≡ with_left (time s (m - usec)) (timer (time i j) (time s m))
  unfolding itimerdecr
  decr_within h =
      let early : ltb_ℤ (pos m) (pos usec) ≡ false = ground arith in
      rw early (
        ap
          (λ (x : ℤ).
            with_left (record { tv_sec = pos s; tv_usec = x }) (timer (time i j) (time s m)))
          (sub_le m usec h))

  decr_borrow :
      m < usec
      → itimerdecr (timer (time i j) (time (suc s) m)) (pos usec)
        ≡ with_left (time s (m + million - usec)) (timer (time i j) (time (suc s) m))
  unfolding itimerdecr
  decr_borrow h =
      let late : ltb_ℤ (pos m) (pos usec) ≡ true = ground arith in
      let some_sec : is_zero (pos (suc s)) ≡ false = ground arith in
      let sec : pos (suc s) -ℤ pos 1 ≡ pos s =
        sub_le (suc s) 1 (omega arith) ∙ ap pos (omega arith) in
      let usec_left : pos m +ℤ pos million -ℤ pos usec ≡ pos (m + million - usec) =
        ap (λ (x : ℤ). x -ℤ pos usec) (add_pos m million)
        ∙ sub_le (m + million) usec (omega arith) in
      rw late (
        rw some_sec (
          ap
            (λ (x : ℤ).
              with_left (record { tv_sec = x; tv_usec = pos m +ℤ pos million -ℤ pos usec })
                (timer (time i j) (time (suc s) m)))
            sec
          ∙ ap
              (λ (x : ℤ).
                with_left (record { tv_sec = pos s; tv_usec = x })
                  (timer (time i j) (time (suc s) m)))
              usec_left))

  decr_expired :
      m < usec
      → itimerdecr (timer (time i j) (time 0 m)) (pos usec)
        ≡ (reload (pos (usec - m)) (timer (time i j) (time 0 m)), false)
  unfolding itimerdecr
  decr_expired h =
      let late : ltb_ℤ (pos m) (pos usec) ≡ true = ground arith in
      rw late (
        ap (λ (x : ℤ). (reload x (timer (time i j) (time 0 m)), false))
          (sub_le usec m (omega arith)))

-- What the timer has to hold after `usec` microseconds: what is left, or the interval less what is over.
pub record Decremented (i j total usec : ℕ) (r : Itimerval × Bool) : Type 0 where
  pub running : usec < total → (r.1 ≡ true) × (up r.0.it_value + usec ≡ total + down r.0.it_value)
  pub expired :
      total ≤ usec
      → (r.1 ≡ false) × (up r.0.it_value + usec ≡ total + up (time i j) + down r.0.it_value)
  pub normal : IsNormal r.0.it_value

with_left-Decremented :
    (i j s u total usec : ℕ) (value : Timeval)
    → j < million
    → u < million
    → timevalisset (time i j) ≡ true
    → up (time s u) + usec ≡ total
    → Decremented i j total usec (with_left (time s u) (timer (time i j) value))
with_left-Decremented i j s u total usec value hj hu set e =
    elim (Bool-cases (timevalisset (time s u))) [
      | inl more ↦
          let pos_left : 1 ≤ up (time s u) = ground arith in
          rw more record {
            running = λ h. (refl, omega (arith, e));
            expired = λ h. absurd (omega (arith, e, pos_left, h));
            normal = record { from_zero = refl; below = hu };
          }
      | inr none ↦
          let nothing : up (time s u) ≡ 0 = ground arith in
          let r = reload_lem 0 i j (time s u) (omega arith) hj set in
          rw none record {
            running = λ h. absurd (omega (arith, e, nothing, h));
            expired = λ h. (refl, omega (arith, r.0, e, nothing));
            normal = record { from_zero = r.1; below = r.2 };
          }
    ]

-- A timer with an interval, by `usec` microseconds of less than a second: while it has more than that left, it
-- runs on with that much less. Otherwise it expires, and is set to its interval less the time that it
-- is late, so that it does not drift.
pub itimerdecr-Decremented :
    (i j s m usec : ℕ)
    → j < million
    → m < million
    → usec < million
    → timevalisset (time i j) ≡ true
    → Decremented i j (up (time s m)) usec (itimerdecr (timer (time i j) (time s m)) (pos usec))
itimerdecr-Decremented i j s m usec hj hm hu set = elim (Bool-cases (leb usec m)) [
  | inl within ↦
      let le : usec ≤ m = ground arith in
      rw (decr_within i j s m usec hm hu le) (
        with_left-Decremented i j s (m - usec) (up (time s m)) usec (time s m) hj (omega arith) set
          (omega arith))
  | inr over ↦ let lt : m < usec = ground arith in by_seconds s lt
]
  where
    by_seconds :
        (s : ℕ)
        → m < usec
        → Decremented i j (up (time s m)) usec (itimerdecr (timer (time i j) (time s m)) (pos usec))
    by_seconds zero lt =
        let r = reload_lem (usec - m) i j (time 0 m) (omega arith) hj set in
        rw (decr_expired i j 0 m usec hm hu lt) record {
          running = λ h. absurd (omega (arith, h));
          expired = λ h. (refl, omega (arith, r.0));
          normal = record { from_zero = r.1; below = r.2 };
        }
    by_seconds (suc s) lt = rw (decr_borrow i j s m usec hm hu lt) (
        with_left-Decremented i j s (m + million - usec) (up (time (suc s) m)) usec (time (suc s) m)
          hj (omega arith) set (omega arith))
