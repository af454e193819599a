-- ===== src/Times.antt =====
-- bsd/lib/lazybsd_patch.c: times and what limits events by them, `itimerfix`, `itimerdecr`,
-- `timevaladd`, `timevalsub`, `timevalfix`, `ratecheck`, `ppsratecheck` and `tvtohz`. Seconds and
-- microseconds are integers; only `tvtohz`, which is about overflow, and the counters of `ppsratecheck` are on
-- machine words.
pub mod Value
pub mod Timer
pub mod Ticks
pub mod Limit
mod Examples
use lazybsd.Prelude.{
  ℕ, zero, suc, ◌+◌, ◌-◌, ◌*◌, ◌/◌, ◌%◌, ◌^◌, Bool, true, false, not, ◌&&◌, ◌||◌, Option, none,
  some, if◌then◌else◌, ltb, leb, ◌==◌, ℤ, pos, negsuc, ltb_ℤ, is_neg, ◌+ℤ◌, ◌-ℤ◌,
}

-- `struct timeval` and `struct itimerval`
pub record Timeval : Type 0 where
  pub tv_sec : ℤ
  pub tv_usec : ℤ

pub record Itimerval : Type 0 where
  pub it_interval : Timeval
  pub it_value : Timeval

abbrev pub million : ℕ
million = 1000000

abbrev pub is_zero : ℤ → Bool
is_zero (pos n) = n == 0
is_zero (negsuc n) = false

-- `timevalisset`
abbrev pub timevalisset : Timeval → Bool
timevalisset tv = not (is_zero tv.tv_sec && is_zero tv.tv_usec)

-- `itimerfix`; `none` is EINVAL.
unfoldable pub itimerfix : (tick : ℤ) → Timeval → Option Timeval
itimerfix tick tv =
    if is_neg tv.tv_sec || (is_neg tv.tv_usec || not (ltb_ℤ tv.tv_usec (pos million)))
    then none
    else if is_zero tv.tv_sec && (not (is_zero tv.tv_usec) && ltb_ℤ tv.tv_usec tick)
    then some (record tv { tv_usec = tick })
    else some tv

-- The label `expire` of `itimerdecr`: the interval, less what is left of `usec`
abbrev pub borrow : Timeval → Timeval
borrow tv =
    if is_neg tv.tv_usec
    then record { tv_sec = tv.tv_sec -ℤ pos 1; tv_usec = tv.tv_usec +ℤ pos million }
    else tv

abbrev pub reload : (usec : ℤ) → Itimerval → Itimerval
reload usec it =
    if timevalisset it.it_interval
    then record it {
      it_value = borrow (record it.it_interval { tv_usec = it.it_interval.tv_usec -ℤ usec });
    }
    else record it { it_value = record it.it_value { tv_usec = pos 0 } }

-- `itimerdecr`; the result is whether the timer still runs.
abbrev pub with_left : (left : Timeval) → Itimerval → Itimerval × Bool
with_left left it =
    let it' = record it { it_value = left } in
    if timevalisset left then (it', true) else (reload (pos 0) it', false)

abbrev pub run_down : (usec : ℤ) → (value : Timeval) → Itimerval → Itimerval × Bool
run_down usec value it = with_left (record value { tv_usec = value.tv_usec -ℤ usec }) it

unfoldable pub itimerdecr : Itimerval → (usec : ℤ) → Itimerval × Bool
unfolding ◌+ℤ◌ ◌-ℤ◌
itimerdecr it usec =
    let v = it.it_value in
    if ltb_ℤ v.tv_usec usec
    then if is_zero v.tv_sec
      then (reload (usec -ℤ v.tv_usec) it, false)
      else run_down usec (record { tv_sec = v.tv_sec -ℤ pos 1; tv_usec = v.tv_usec +ℤ pos million })
          it
    else run_down usec v it

-- `timevalfix`
abbrev pub carry : Timeval → Timeval
carry tv =
    if ltb_ℤ tv.tv_usec (pos million)
    then tv
    else record { tv_sec = tv.tv_sec +ℤ pos 1; tv_usec = tv.tv_usec -ℤ pos million }

unfoldable pub timevalfix : Timeval → Timeval
unfolding ◌+ℤ◌ ◌-ℤ◌
timevalfix tv = carry (borrow tv)

unfoldable pub timevaladd : Timeval → Timeval → Timeval
unfolding timevalfix
timevaladd a b =
    timevalfix (record { tv_sec = a.tv_sec +ℤ b.tv_sec; tv_usec = a.tv_usec +ℤ b.tv_usec })

unfoldable pub timevalsub : Timeval → Timeval → Timeval
unfolding timevalfix
timevalsub a b =
    timevalfix (record { tv_sec = a.tv_sec -ℤ b.tv_sec; tv_usec = a.tv_usec -ℤ b.tv_usec })

-- `timevalcmp` with `>=`
abbrev pub same_sec : ℤ → ℤ → Bool
same_sec a b = not (ltb_ℤ a b) && not (ltb_ℤ b a)

abbrev pub at_least : Timeval → Timeval → Bool
at_least a b =
    if same_sec a.tv_sec b.tv_sec then not (ltb_ℤ a.tv_usec b.tv_usec) else ltb_ℤ b.tv_sec a.tv_sec

-- `ratecheck`, with the time that `getmicrouptime` gives: `lasttime`, and whether the event may be
unfoldable pub ratecheck : (tv : Timeval) → (lasttime mininterval : Timeval) → Timeval × Bool
unfolding timevalsub
ratecheck tv lasttime mininterval =
    if at_least (timevalsub tv lasttime) mininterval
      || (is_zero lasttime.tv_sec && is_zero lasttime.tv_usec)
    then (tv, true)
    else (lasttime, false)

-- `ppsratecheck`: `ticks`, `tv_sec` of `lasttime` and the difference are 32-bit patterns, `hz` is positive;
-- `curpps` does not overflow. `none` stands for a `maxpps` below zero.
pub record Rate : Type 0 where
  pub lasttime : ℕ
  pub curpps : ℕ

abbrev pub below_limit : (count : ℕ) → Option ℕ → Bool
below_limit count none = true
below_limit count (some maxpps) = ltb count maxpps

abbrev pub is_limited_to_zero : Option ℕ → Bool
is_limited_to_zero none = false
is_limited_to_zero (some maxpps) = maxpps == 0

unfoldable pub ppsratecheck : (ticks hz : ℕ) → (maxpps : Option ℕ) → Rate → Rate × Bool
ppsratecheck ticks hz maxpps r =
    if r.lasttime == 0 || leb hz ((ticks + 2 ^ 32 - r.lasttime) % 2 ^ 32)
    then (record { lasttime = ticks; curpps = 1 }, not (is_limited_to_zero maxpps))
    else (record r { curpps = r.curpps + 1 }, below_limit (r.curpps + 1) maxpps)

-- `tvtohz` for a time with seconds from 0 on: `long` and `unsigned long` have 64 bits.
abbrev pub long_max : ℕ
long_max = 2 ^ 63 - 1

abbrev pub int_max : ℕ
int_max = 2 ^ 31 - 1

abbrev pub cut : ℕ → ℕ
cut ticks = if ltb int_max ticks then int_max else ticks

unfoldable pub ticks_of : (tick hz sec usec : ℕ) → ℕ
ticks_of tick hz sec usec =
    if leb sec (long_max / million)
    then ((sec * million + usec + (tick - 1)) % 2 ^ 64 / tick + 1) % 2 ^ 64
    else if leb sec (long_max / hz)
    then (sec * hz + (usec + (tick - 1)) % 2 ^ 64 / tick + 1) % 2 ^ 64
    else long_max

-- `tvtohz`: a negative number of microseconds borrows a second, and a time below zero is one tick.
-- What is negative behind that becomes an unsigned number.
abbrev pub of_parts : (tick hz : ℕ) → (sec usec : ℤ) → ℕ
of_parts tick hz (negsuc s) usec = 1
of_parts tick hz (pos s) (pos u) = cut (ticks_of tick hz s u)
of_parts tick hz (pos s) (negsuc u) = cut (ticks_of tick hz s (2 ^ 64 - suc u))

unfoldable pub tvtohz : (tick hz : ℕ) → Timeval → ℕ
unfolding ◌+ℤ◌ ◌-ℤ◌ ticks_of
tvtohz tick hz tv = let t = borrow tv in of_parts tick hz t.tv_sec t.tv_usec
