-- ===== src/Callout/Examples.antt =====
-- The theorems on bsd/lib/lazybsd_kern_timeout.c at work on a small facility, and runs of its
-- operations.
use lazybsd.Prelude.{
  ℕ, zero, suc, ◌+◌, ◌-◌, ◌^◌, ◌≤◌, ◌<◌, ◌≡◌, ◌≢◌, refl, pos, Bool, true, false, none, some, [],
  ◌∷◌, if◌then◌else◌, ◌==◌, arith, u32_mod, sub32, first, bit_and, if_cases, ap,
}
use native.Mathlib.Nat.{pow-suc}
use lazybsd.Callout.Run.{ok, Ensures}
use lazybsd.Callout.State.{Exec, State}
use lazybsd.Callout.Init.{
  Fls, zeroed, callout_init, callout_init_lock, callout_count, callwheel_init,
}
use lazybsd.Callout.Init.Wheel.{IsReady, callout_init-IsValid, callwheel_init-IsReady}
use lazybsd.Callout.Invariant.{IsValid}
use lazybsd.Callout.State.{cc_add}
use lazybsd.Callout.Stable.{Stable-IsValid}
use lazybsd.Callout.Api.{cpu_refused, reschedule, reset, StopFlags, cancelled, not_scheduled, stop}
use lazybsd.Callout.Reset.{Rearmed, reset-IsArmed, reschedule-Stable}
use lazybsd.Callout.Stop.{IsStopped, stop-IsStopped}
use lazybsd.Callout.Softclock.{World, reset_request, tick_loop, begin_call, bucket_loop}
use lazybsd.Callout.Softclock.Quiet.{IsQuiet, Callable, Returns}
use lazybsd.Callout.Softclock.Ends.{Done, bucket_loop-Returns}
use lazybsd.Callout.Softclock.Walk.{taken, Stands-first, Walks-begin, bucket_loop_done}
use lazybsd.Callout.Softclock.Tick.{at, NoneDue, tick_loop_skips}

-- One more bit at each power of two.
unfoldable sample_fls : ℕ → ℕ
sample_fls zero = 0
sample_fls (suc n) = let k = sample_fls n in if 2 ^ k == suc n then k + 1 else k

-- The bounds of `n` by the position of its highest bit.
record InBits (n k : ℕ) : Type 0 where
  upper : n < 2 ^ k
  lower : 0 < n → 2 ^ (k - 1) ≤ n
  start : n < 1 → 2 ^ (k - 1) ≤ 1

sample_fls-InBits : (n : ℕ) → InBits n (sample_fls n)
unfolding sample_fls
sample_fls-InBits zero = record {
  upper = omega arith;
  lower = λ h. omega arith;
  start = λ h. omega arith;
}
sample_fls-InBits (suc n) =
    let p = sample_fls-InBits n in
    let k = sample_fls n in
    let same : k + 1 - 1 ≡ k = omega arith in
    record {
      upper = ground (arith, p.upper, pow-suc 2 k);
      start = λ h. absurd (omega arith);
      lower = λ h.
          if_cases (λ m. 2 ^ (m - 1) ≤ suc n) (2 ^ k == suc n)
            (λ e. ground (arith, ap (λ x. 2 ^ x) same)) (λ e. grind (arith, p.lower, p.start));
    }

abbrev sample_bits : Fls
unfolding sample_fls
sample_bits = record {
  fls = sample_fls;
  fls_zero = refl;
  fls_lower = λ n. (sample_fls-InBits n).lower;
  fls_upper = λ n. (sample_fls-InBits n).upper;
}

abbrev idle_exec : Exec
idle_exec = record { curr = none; drain = none; cancel = false; waiting = false }

-- Memory before the start.
abbrev blank : State
blank = record {
  store = λ c. zeroed;
  wheel = λ b. [];
  expireq = [];
  callfree = [];
  exec0 = idle_exec;
  exec1 = idle_exec;
  next = none;
  softticks = 0;
  bucket = 0;
  inited = false;
  ticks = 0;
  mask = 0;
  trace = [];
}

-- Two callouts, and four buckets.
abbrev booted : State
booted = callwheel_init sample_bits blank 0 0 (some 2) 10 0

booted_ready : (booted.callfree ≡ 11 ∷ 10 ∷ []) × (booted.mask ≡ 3) × (booted.inited ≡ true)
unfolding callwheel_init sample_fls
booted_ready = (refl, refl, refl)

booted-IsReady :
    IsReady sample_bits
      (callout_count 0 0 (some 2))
      (callwheel_init sample_bits blank 0 0 (some 2) 10 0)
booted-IsReady =
    callwheel_init-IsReady sample_bits blank 0 0 (some 2) 10 0
      (λ c. record { processed = refl; shared = refl; dfr_migration = refl; word = omega arith })
      (λ c. refl)

booted-IsValid : IsValid booted
booted-IsValid = booted-IsReady.valid

-- `callout_reset(10, 2 ticks, 77, 5)` on the new facility.
first_run :
    Rearmed booted-IsValid 10 (pos 2) 77 5 false (reset 256 booted 10 (pos 2) 77 5 (pos 0) false)
unfolding callwheel_init cpu_refused
first_run = reset-IsArmed booted-IsValid 10 256 (pos 2) 77 5 (pos 0) false refl refl

abbrev armed : State
armed = (reschedule booted 10 (pos 2) 77 5 false false).0

armed-IsValid : IsValid armed
armed-IsValid = reschedule-Stable Stable-IsValid booted-IsValid 10 (pos 2) 77 5 false false

armed_wheel : (armed.wheel 2 ≡ 10 ∷ []) × (armed.wheel 1 ≡ []) × ((armed.store 10).time ≡ 2)
unfolding reschedule callwheel_init sample_fls cc_add
armed_wheel = (refl, refl, refl)

abbrev no_wait : StopFlags
no_wait = record { drain = false; executing = false; callback = none }

abbrev wait : StopFlags
wait = record { drain = true; executing = false; callback = none }

stop-IsStopped_example :
    (t : State) × (stop 1 no_wait armed 10
      ≡ ok (t, if (armed.store 10).pending then cancelled else not_scheduled))
    × IsValid t
    × IsStopped armed t 10
unfolding reschedule callwheel_init cc_add
stop-IsStopped_example = stop-IsStopped armed-IsValid 10 0 no_wait refl

-- Three ticks later, with the soft clock behind.
abbrev later : State
later = record armed { ticks = 3; trace = [] }

later-IsValid : IsValid later
later-IsValid = record {
  linked = armed-IsValid.linked;
  plain = armed-IsValid.plain;
  cursor = armed-IsValid.cursor;
  idle = armed-IsValid.idle;
}

tick_loop_skips_example :
    (t : ℕ) × (b : Bool) × (tick_loop 4 later ≡ ok (at later t, b))
    × (t < u32_mod)
    × NoneDue later later.softticks t
    × (sub32 t later.softticks ≤ sub32 later.ticks later.softticks)
unfolding reschedule callwheel_init cc_add
tick_loop_skips_example =
    tick_loop_skips 4 later later-IsValid (omega arith) (omega arith) (omega arith)

-- The two empty ticks are passed over, and the bucket of tick 2 asks for `softclock`.
later_ticks : tick_loop 4 later ≡ ok (at later 2, true)
unfolding tick_loop reschedule callwheel_init sample_fls cc_add
later_ticks = refl

-- A callback that schedules callout 10 again.
abbrev world : World
world = record {
  max_cpu = 256;
  is_rm = λ l. false;
  callback = λ f a s. reset_request 10 (pos 1) f a (pos 0) false ∷ [];
  drainer = λ d a s. [];
  acquiring = λ l s. [];
}

bucket_loop_done_example :
    Ensures
      (λ t. IsValid t × ((d : ℕ) → (t.store d).pending ≡ true → (t.store d).time ≢ 2))
      (bucket_loop world 5 2 later (first (later.wheel (bit_and 2 later.mask))))
bucket_loop_done_example = bucket_loop_done world 5 2 later _ (Stands-first 2 later later-IsValid)

-- Callout 10 in its callback.
abbrev running : State
running = begin_call world (taken 2 later 10) 10 true

running-IsValid : IsValid running
unfolding reschedule cc_add callwheel_init sample_bits
running-IsValid = (Walks-begin 2 later 10 (Stands-first 2 later later-IsValid) world).valid

-- Callout 20, which was initialised without a lock.
abbrev unlocked_callout : State
unlocked_callout = callout_init_lock booted 20 none false false 0

-- Callout 30, which runs directly from the clock.
abbrev direct_callout : State
direct_callout = (reschedule (callout_init booted 30 true 0) 30 (pos 2) 77 5 true false).0

direct_callout-IsValid : IsValid direct_callout
unfolding callwheel_init
direct_callout-IsValid =
    reschedule-Stable Stable-IsValid (callout_init-IsValid 30 true 0 booted-IsValid refl) 30 (pos 2)
      77 5 true false

abbrev direct_running : State
direct_running = begin_call world (taken 2 direct_callout 30) 30 true

direct_running-IsValid : IsValid direct_running
unfolding reschedule cc_add callout_init callwheel_init sample_bits
direct_running-IsValid =
    (Walks-begin 2 direct_callout 30 (Stands-first 2 direct_callout direct_callout-IsValid)
      world).valid

-- Nobody makes a call.
abbrev quiet : World
quiet = record {
  max_cpu = 256;
  is_rm = λ l. false;
  callback = λ f a s. [];
  drainer = λ d a s. [];
  acquiring = λ l s. [];
}

quiet-IsQuiet : IsQuiet quiet
quiet-IsQuiet = record {
  callback = λ f a s. refl;
  drainer = λ d a s. refl;
  acquiring = λ l s. refl;
}

later-Callable : Callable later
unfolding reschedule callwheel_init cc_add callout_init
later-Callable = λ c p l. ground arith

bucket_loop-Returns_example :
    Returns (Done 2) (bucket_loop quiet 2 2 later (first (later.wheel (bit_and 2 later.mask))))
unfolding reschedule callwheel_init cc_add sample_bits
bucket_loop-Returns_example =
    bucket_loop-Returns quiet quiet-IsQuiet 2 2 later _ (Stands-first 2 later later-IsValid)
      later-Callable (omega arith)
