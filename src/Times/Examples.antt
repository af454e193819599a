-- ===== src/Times/Examples.antt =====
-- The theorems on times and rates of bsd/lib/lazybsd_patch.c at work, and runs of the functions.
use lazybsd.Prelude.{
  ◌+◌, ◌*◌, ◌≤◌, ◌<◌, ◌≡◌, refl, none, some, pos, negsuc, true, false, arith, [], ◌∷◌,
}
use lazybsd.Times.{
  million, int_max, itimerfix, itimerdecr, timevalsub, ratecheck, ppsratecheck, tvtohz,
}
use lazybsd.Times.Value.{up, IsNormal}
use lazybsd.Times.Timer.{time, timer, Decremented, itimerdecr-Decremented}
use lazybsd.Times.Ticks.{tvtohz-enough}
use lazybsd.Times.Limit.{passed}

-- One second less one and a half is half a second before 0.
before : timevalsub (time 1 0) (time 1 500000) ≡ record { tv_sec = negsuc 0; tv_usec = pos 500000 }
unfolding timevalsub
before = refl

rejects : itimerfix (pos 10000) (time 1 1000000) ≡ none
unfolding itimerfix
rejects = refl

raised : itimerfix (pos 10000) (time 0 1) ≡ some (time 0 10000)
unfolding itimerfix
raised = refl

first_event : ratecheck (time 5 0) (time 0 0) (time 3600 0) ≡ (time 5 0, true)
unfolding ratecheck
first_event = refl

too_early : ratecheck (time 8 0) (time 5 0) (time 4 0) ≡ (time 5 0, false)
unfolding ratecheck
too_early = refl

-- The timer is 30 microseconds late: the next interval has that much less.
late :
    itimerdecr (timer (time 1 0) (time 0 70)) (pos 100) ≡ (timer (time 1 0) (time 0 999970), false)
unfolding itimerdecr
late = refl

ticks_of_time : tvtohz 10000 100 (time 0 10001) ≡ 3
unfolding tvtohz
ticks_of_time = refl

example_a-IsNormal : IsNormal (time 1 700000)
example_a-IsNormal = record { from_zero = refl; below = omega arith }

example_b-IsNormal : IsNormal (time 2 400000)
example_b-IsNormal = record { from_zero = refl; below = omega arith }

itimerdecr-Decremented_example :
    Decremented 1 0 (up (time 0 70)) 100 (itimerdecr (timer (time 1 0) (time 0 70)) (pos 100))
itimerdecr-Decremented_example =
    itimerdecr-Decremented 1 0 0 70 100 (omega arith) (omega arith) (omega arith) refl

tvtohz-enough_example :
    let r = tvtohz 10000 100 (time 0 10001) in
    (r ≤ int_max) × (r < int_max → 0 * million + 10001 + 10000 ≤ r * 10000)
tvtohz-enough_example =
    tvtohz-enough 10000 100 0 10001 (omega arith) (omega arith) refl (omega arith)

-- Of four events in a second, of which three may pass, two do.
four_events : passed 100 3 (7 ∷ 8 ∷ 9 ∷ 20 ∷ []) (record { lasttime = 0; curpps = 0 }) ≡ 2
unfolding ppsratecheck
four_events = refl
