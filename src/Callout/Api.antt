-- ===== src/Callout/Api.antt =====
-- bsd/lib/lazybsd_kern_timeout.c: `callout_reset_tick_on` and `_callout_stop_safe`, with the calls
-- that are made of them.
use lazybsd.Prelude.{
  ℕ, zero, suc, ℤ, pos, negsuc, Bool, true, false, not, ◌&&◌, ◌||◌, Option, if◌then◌else◌, leb,
  points, is_some,
}
use lazybsd.Callout.Run.{Run, ok, panic, out_of_fuel}
use lazybsd.Callout.State.{Callout, State, entity, set_entity, write, cc_add, cc_del, unlink}

-- What the code reads of a CPU number: `cpu == -1` leaves the callout where it is, and
-- `cpu >= MAXCPU` is refused.
unfoldable pub cpu_refused : (max_cpu : ℕ) → ℤ → State → Bool
cpu_refused max_cpu (pos n) s = leb max_cpu n || not s.inited
cpu_refused max_cpu (negsuc zero) s = false
cpu_refused max_cpu (negsuc (suc n)) s = not s.inited

-- `if (to_ticks <= 0) to_ticks = 1`
unfoldable pub at_least_one : ℤ → ℕ
at_least_one (pos zero) = 1
at_least_one (pos (suc n)) = suc n
at_least_one (negsuc n) = 1

-- The callout is on the wheel or the queue already: it is taken off.
unfoldable pub take_off : State → ℕ → State
take_off s c =
    let t = unlink s c in write t c (record (t.store c) { pending = false; active = false })

-- `callout_reset_tick_on` from `callout_cc_add` on, after a pending callout was taken off.
unfoldable pub reschedule :
    State → (c : ℕ) → (to_ticks : ℤ) → (func arg : ℕ) → (direct cancelled : Bool) → State × Bool
unfolding take_off at_least_one
reschedule s c to_ticks func arg direct cancelled =
    let k = s.store c in
    let t = if k.pending then take_off s c else s in
    (cc_add t c (at_least_one to_ticks) func arg direct, k.pending || cancelled)

-- `callout_reset_tick_on`; the flag C_DIRECT_EXEC is the argument `direct`. It returns whether a
-- callout was cancelled.
unfoldable pub reset :
    (max_cpu : ℕ)
    → State
    → (c : ℕ) → (to_ticks : ℤ) → (func arg : ℕ) → (cpu : ℤ) → (direct : Bool) → Run (State × Bool)
unfolding cpu_refused reschedule
reset max_cpu s c to_ticks func arg cpu direct =
    let e = entity s direct in
    if cpu_refused max_cpu cpu s
    then panic
    else if points e.curr c
    then (let stops = is_some (s.store c).lock && not e.cancel in
        let t = set_entity s direct (record e { cancel = stops || e.cancel }) in
        if e.waiting then ok (t, stops) else ok (reschedule t c to_ticks func arg direct stops))
    else ok (reschedule s c to_ticks func arg direct false)

-- `callout_schedule_on`, which keeps the function and the argument.
unfoldable pub schedule_on :
    (max_cpu : ℕ) → State → (c : ℕ) → (to_ticks : ℤ) → (cpu : ℤ) → Run (State × Bool)
unfolding reset
schedule_on max_cpu s c to_ticks cpu =
    reset max_cpu s c to_ticks (s.store c).func (s.store c).arg cpu false

-- `callout_schedule`
unfoldable pub schedule : (max_cpu : ℕ) → State → (c : ℕ) → (to_ticks : ℤ) → Run (State × Bool)
unfolding schedule_on
schedule max_cpu s c to_ticks = schedule_on max_cpu s c to_ticks (pos (s.store c).cpu)

-- The flags CS_DRAIN and CS_EXECUTING, and the function `drain`.
pub record StopFlags : Type 0 where
  pub drain : Bool
  pub executing : Bool
  pub callback : Option ℕ

-- A value of `int`: 1, 0 or -1.
pub data Stopped : Type 0 where
  cancelled not_cancelled not_scheduled : Stopped

abbrev pub stopped_if : Bool → Stopped
stopped_if true = cancelled
stopped_if false = not_cancelled

-- The end of `_callout_stop_safe`, from the test of CALLOUT_PENDING on.
unfoldable pub stop_pending :
    State → (c : ℕ) → (direct not_on_a_list : Bool) → (result : Stopped) → State × Stopped
stop_pending s c direct not_on_a_list result =
    let k = s.store c in
    if k.pending
    then (let t = write s c (record k { pending = false; active = false }) in
        let t' = if not_on_a_list then t else unlink t c in (cc_del t' c, result))
    else (s, if points (entity s direct).curr c then result else not_scheduled)

-- `_callout_stop_safe` for a callout that is running, where the caller does not wait for it.
unfoldable pub stop_running :
    StopFlags → State → (c : ℕ) → (direct use_lock not_on_a_list : Bool) → State × Stopped
stop_running f s c direct use_lock not_on_a_list =
    let e = entity s direct in
    let k = s.store c in
    let settled = write s c (record k { dfr_migration = false }) in
    let told =
      set_entity s direct
        (record e { drain = if is_some f.callback then f.callback else e.drain }) in
    if use_lock && not e.cancel && not (is_some f.callback)
    then (set_entity settled direct (record e { cancel = true }), cancelled)
    else if k.dfr_migration
    then (write told c (record k { dfr_migration = false }), stopped_if f.executing)
    else stop_pending told c direct not_on_a_list (stopped_if f.executing)

-- The special case at the label `again`: a callout that was about to run after a migration.
abbrev pub slipped_in : Callout → Bool
slipped_in k = k.dfr_migration && k.pending && k.active

-- `_callout_stop_safe` from the label `again` on. The calls of the sleep queue are macros that do
-- nothing, so the wait for a running callout goes round by `goto again`. A round here is two passes:
-- one with `sq_locked` unset, which jumps back with it set, and one that marks the entity as waited
-- for and unsets it again.
unfoldable pub stop_again :
    (fuel : ℕ) → StopFlags → State → (c : ℕ) → (direct use_lock : Bool) → Run (State × Stopped)
stop_again zero f s c direct use_lock = out_of_fuel
stop_again (suc fuel) f s c direct use_lock =
    let k = s.store c in
    let slipped = slipped_in k in
    let t = if slipped then write s c (record k { pending = false; active = false }) else s in
    let e = entity t direct in
    let t' = write t c (record (t.store c) { active = false }) in
    let waited = set_entity t' direct (record e { waiting = true }) in
    let again = stop_again fuel f waited c direct use_lock in
    if points e.curr c
    then if f.drain then again else ok (stop_running f t' c direct use_lock slipped)
    else ok (stop_pending t c direct slipped cancelled)

-- `_callout_stop_safe`; `mtx_owned` is 1.
unfoldable pub stop : (fuel : ℕ) → StopFlags → State → (c : ℕ) → Run (State × Stopped)
unfolding stop_again
stop fuel f s c =
    let k = s.store c in stop_again fuel f s c k.direct (not f.drain && is_some k.lock)
