-- ===== src/Callout/Reset.antt =====
-- What `callout_reset_tick_on` of bsd/lib/lazybsd_kern_timeout.c does to a well-formed state.
use lazybsd.Prelude.{
  ℕ, zero, suc, ◌+◌, ◌%◌, ◌≡◌, ◌≢◌, refl, ℤ, pos, negsuc, Bool, true, false, not, ◌&&◌, ◌||◌,
  if◌then◌else◌, u32_mod, points, is_some, Bool-cases, inl, inr, if_intro, arith,
}
use Prim.Native.Nat.{max}
use lazybsd.Callout.Run.{Run, ok, Ensures}
use lazybsd.Callout.State.{State, entity, set_entity, cc_add, unlink}
use lazybsd.Callout.Api.{cpu_refused, at_least_one, take_off, reschedule, reset}
use lazybsd.Callout.Stable.{Stable, Stable-IsValid, set_entity-Stable, take_off-Stable}
use lazybsd.Callout.Invariant.{IsValid}

-- How far ahead a time is that is asked for as `n` ticks.
abbrev pub ticks_ahead : ℤ → ℕ
ticks_ahead (pos n) = max n 1
ticks_ahead (negsuc n) = 1

at_least_one-ticks_ahead : (n : ℤ) → at_least_one n ≡ ticks_ahead n
unfolding at_least_one
at_least_one-ticks_ahead (pos zero) = omega arith
at_least_one-ticks_ahead (pos (suc n)) = omega arith
at_least_one-ticks_ahead (negsuc n) = refl

-- A callout as `callout_cc_add` leaves it, and the others as they were.
pub record IsArmed (s t : State) (c to_ticks f a : ℕ) : Type 0 where
  pub pending : (t.store c).pending ≡ true
  pub active : (t.store c).active ≡ true
  pub func : (t.store c).func ≡ f
  pub arg : (t.store c).arg ≡ a
  pub time : (t.store c).time ≡ (s.ticks + to_ticks) % u32_mod
  pub others : (d : ℕ) → d ≢ c → t.store d ≡ s.store d

module _ {P : State → Type 0} (st : Stable P) {s : State} (p : P s) (c : ℕ) where
  -- Once it is off the wheel if it was on it.
  abbrev cleared_of : State
  cleared_of = if (s.store c).pending then take_off s c else s

  cleared_of-pending : (cleared_of.store c).pending ≡ false
  unfolding take_off
  cleared_of-pending = ground arith

  cleared_of-Stable : P cleared_of
  cleared_of-Stable = if_intro P (s.store c).pending (take_off-Stable st p c) p

  pub reschedule-Stable : (n : ℤ) (f a : ℕ) (d b : Bool) → P (reschedule s c n f a d b).0
  unfolding reschedule
  reschedule-Stable n f a d b =
      st.adds c (at_least_one n) f a d cleared_of-Stable cleared_of-pending

  reschedule-IsArmed :
      (n : ℤ) (f a : ℕ) (d b : Bool) → IsArmed s (reschedule s c n f a d b).0 c (ticks_ahead n) f a
  unfolding reschedule cc_add unlink take_off
  reschedule-IsArmed n f a d b = record {
    pending = ground arith;
    active = ground arith;
    func = ground arith;
    arg = ground arith;
    time = rw (← at_least_one-ticks_ahead n) (ground arith);
    others = λ e q. ground arith;
  }

-- Whether `callout_reset_tick_on` finds the callout running, and someone waiting for its end.
abbrev pub drain_waits : State → ℕ → Bool → Bool
drain_waits s c direct = points (entity s direct).curr c && (entity s direct).waiting

-- Whether it cancels a callout that has not been called yet.
abbrev pub cancels : State → ℕ → Bool → Bool
cancels s c direct =
    points (entity s direct).curr c && (is_some (s.store c).lock && not (entity s direct).cancel)

-- Whatever it finds, `callout_reset_tick_on` keeps what the primitive steps keep.
pub reset-Stable :
    {P : State → Type 0} (st : Stable P) {s : State} (c max_cpu : ℕ) (n : ℤ) (f a : ℕ) (cpu : ℤ)
    (d : Bool)
    → P s
    → Ensures (λ r. P r.0) (reset max_cpu s c n f a cpu d)
unfolding reset
reset-Stable {P} st {s} c max_cpu n f a cpu d p =
    let e = entity s d in
    let Q = Ensures {A = State × Bool} (λ r. P r.0) in
    let stops = is_some (s.store c).lock && not e.cancel in
    let w = set_entity-Stable st p d (record e { cancel = stops || e.cancel }) refl in
    if_intro Q (cpu_refused max_cpu cpu s) tt (
      if_intro Q (points e.curr c) (if_intro Q e.waiting w (reschedule-Stable st w c n f a d stops))
        (reschedule-Stable st p c n f a d false))

module _ {s : State} (v : IsValid s) (c : ℕ) where
  -- What a successful `callout_reset_tick_on` gives.
  abbrev pub Rearmed : (n : ℤ) (f a : ℕ) (d : Bool) → Run (State × Bool) → Type 0
  Rearmed n f a d r =
      (t : State) × (r ≡ ok (t, (s.store c).pending || cancels s c d))
      × IsValid t
      × IsArmed s t c (ticks_ahead n) f a

  module _ (max_cpu : ℕ) (n : ℤ) (f a : ℕ) (cpu : ℤ) where
    reset_idle :
        (d : Bool)
        → cpu_refused max_cpu cpu s ≡ false
        → points (entity s d).curr c ≡ false
        → Rearmed n f a d (reset max_cpu s c n f a cpu d)
    unfolding reset
    reset_idle d h r = (
      (reschedule s c n f a d false).0,
      rw (h, r) refl,
      reschedule-Stable Stable-IsValid v c n f a d false,
      reschedule-IsArmed Stable-IsValid v c n f a d false,
    )

    reset_running :
        cpu_refused max_cpu cpu s ≡ false
        → points s.exec1.curr c ≡ true
        → s.exec1.waiting ≡ false
        → Rearmed n f a true (reset max_cpu s c n f a cpu true)
    unfolding reset
    reset_running h r k =
        let stops = is_some (s.store c).lock && not s.exec1.cancel in
        let e = record s.exec1 { cancel = stops || s.exec1.cancel } in
        let w = set_entity-Stable Stable-IsValid v true e refl in
        let armed = reschedule-IsArmed Stable-IsValid w c n f a true stops in
        (
          (reschedule (set_entity s true e) c n f a true stops).0,
          rw (h, r, k) refl,
          reschedule-Stable Stable-IsValid w c n f a true stops,
          record {
            pending = armed.pending;
            active = armed.active;
            func = armed.func;
            arg = armed.arg;
            time = armed.time;
            others = armed.others;
          },
        )

    pub reset-IsArmed :
        (d : Bool)
        → cpu_refused max_cpu cpu s ≡ false
        → drain_waits s c d ≡ false
        → Rearmed n f a d (reset max_cpu s c n f a cpu d)
    reset-IsArmed false h k = reset_idle false h (ground (arith, v.idle))
    reset-IsArmed true h k = elim (Bool-cases (points s.exec1.curr c)) [
      | inl r ↦ reset_running h r (ground arith)
      | inr r ↦ reset_idle true h r
    ]
