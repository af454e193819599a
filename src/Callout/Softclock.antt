-- ===== src/Callout/Softclock.antt =====
-- bsd/lib/lazybsd_kern_timeout.c: `callout_tick`, `softclock_call_cc`, `softclock` and
-- `lazybsd_hardclock`, the part that runs callouts when their time has come.
pub mod Suffix
pub mod Keeps
pub mod Walk
pub mod Tick
pub mod Call
pub mod Quiet
pub mod Ends
use lazybsd.Prelude.{
  ℕ, zero, suc, ◌+◌, ◌%◌, ◌^◌, ℤ, Bool, true, false, not, Option, none, some, List, [], ◌∷◌,
  if◌then◌else◌, ◌==◌, ltb, first, sub32, u32_mod,
}
use lazybsd.Callout.Run.{Run, ok, fault, out_of_fuel, ◌>>=◌}
use lazybsd.Callout.State.{
  LockStatus, exclusive, tracker, shared_status, locked, unlocked, called, drained, woken, State,
  entity, set_entity, get_bucket, list_next, list_remove, write, emit, cc_del,
}
use lazybsd.Callout.Api.{StopFlags, reset, stop}

-- What a callback asks of this interface.
pub data Request : Type 0 where
  reset_request : (c : ℕ) → (to_ticks : ℤ) → (func arg : ℕ) → (cpu : ℤ) → (direct : Bool) → Request
  stop_request : StopFlags → (c : ℕ) → Request

-- The world around the facility: the constant MAXCPU, whether a lock is an `rm` lock, and the calls
-- that are made of the facility by a callback, by a drain function, and by others while a lock is
-- being taken. Each sees the state in which it starts.
pub record World : Type 0 where
  pub max_cpu : ℕ
  pub is_rm : ℕ → Bool
  pub callback : (func arg : ℕ) → State → List Request
  pub drainer : (drain arg : ℕ) → State → List Request
  pub acquiring : (lock : ℕ) → State → List Request

-- `(cc->cc_softticks - ticks) < 0`, as an `int`
unfoldable pub behind : State → Bool
behind s = not (ltb (sub32 s.softticks s.ticks) (2 ^ 31))

abbrev pub tick_word : ℕ → ℕ
tick_word t = (t + 1) % u32_mod

abbrev pub is_empty : List ℕ → Bool
is_empty [] = true
is_empty (x ∷ xs) = false

-- The loop of `callout_tick`. It returns `need_softclock`.
unfoldable pub tick_loop : (fuel : ℕ) → State → Run (State × Bool)
unfolding behind
tick_loop zero s = out_of_fuel
tick_loop (suc fuel) s =
    let rest = tick_loop fuel (record s { softticks = tick_word s.softticks }) in
    if behind s
    then if is_empty (s.wheel (get_bucket s s.softticks)) then rest else ok (s, true)
    else ok (s, false)

-- `lock_status` of `softclock_call_cc`
abbrev pub lock_status : Bool → Bool → LockStatus
lock_status false is_rm = exclusive
lock_status true true = tracker
lock_status true false = shared_status

module _ (w : World) where
  unfoldable pub request : (fuel : ℕ) → Request → State → Run State
  unfolding reset stop
  request fuel (reset_request c to_ticks func arg cpu direct) s =
      reset w.max_cpu s c to_ticks func arg cpu direct >>= λ r. ok r.0
  request fuel (stop_request f c) s = stop fuel f s c >>= λ r. ok r.0

  unfoldable pub requests : (fuel : ℕ) → List Request → State → Run State
  unfolding request
  requests fuel [] s = ok s
  requests fuel (r ∷ rs) s = request fuel r s >>= requests fuel rs

  -- The start of `softclock_call_cc`, up to CC_UNLOCK.
  unfoldable pub begin_call : State → (c : ℕ) → (direct : Bool) → State
  begin_call s c direct =
      let k = s.store c in
      let k' =
        if k.local_alloc
        then record k {
          pending = false;
          processed = false;
          direct = false;
          return_unlocked = false;
          shared_lock = false;
          dfr_migration = false;
        }
        else record k { pending = false } in
      let e = entity s direct in
      set_entity (write s c k') direct (record e { curr = some c; cancel = false; drain = none })

  -- `drain(c_arg)`, if a function was left in `cc_drain`.
  unfoldable pub call_drain : (fuel : ℕ) → (arg : ℕ) → Option ℕ → State → Run State
  unfolding requests
  call_drain fuel arg none s = ok s
  call_drain fuel arg (some d) s =
      let t = emit s (drained d arg) in requests fuel (w.drainer d arg t) t

  -- The threads that wait for the end of the callout are woken, and a callout of `timeout` is put
  -- back on the free list.
  unfoldable pub wake : (c : ℕ) → (local_alloc direct : Bool) → State → State
  wake c local_alloc direct s =
      let e = entity s direct in
      let t =
        if e.waiting then emit (set_entity s direct (record e { waiting = false })) woken else s in
      if local_alloc then cc_del t c else t

  -- The end of `softclock_call_cc`, from the label `skip` on. `local_alloc` and `arg` are the
  -- copies that were taken at its start.
  unfoldable pub end_call :
      (fuel : ℕ) → (c arg : ℕ) → (local_alloc direct : Bool) → State → Run State
  unfolding call_drain wake
  end_call fuel c arg local_alloc direct s =
      let e = entity s direct in
      let t = set_entity s direct (record e { curr = none; drain = none }) in
      call_drain fuel arg e.drain t >>= λ u. ok (wake c local_alloc direct u)

  -- `if ((c_iflags & CALLOUT_RETURNUNLOCKED) == 0) class->lc_unlock(c_lock)`; without a lock `class`
  -- is NULL.
  unfoldable pub release : (return_unlocked : Bool) → Option ℕ → State → Run State
  release true lock s = ok s
  release false none s = fault
  release false (some l) s = ok (emit s (unlocked l))

  -- The call of the callback, and the release of the lock unless the callback has released it.
  unfoldable pub run_callback :
      (fuel : ℕ)
      → (func arg : ℕ) → (c : ℕ) → Option ℕ
      → (return_unlocked : Bool) → State
      → Run State
  unfolding requests release
  run_callback fuel func arg c lock return_unlocked s =
      let t = emit s (called c func arg) in
      requests fuel (w.callback func arg t) t >>= release return_unlocked lock

  -- The callout's lock is taken; others may use the interface meanwhile, and cancel the callout.
  unfoldable pub run_locked :
      (fuel : ℕ)
      → (func arg : ℕ) → (c : ℕ) → (lock : ℕ) → LockStatus
      → (return_unlocked : Bool) → (direct : Bool) → State
      → Run State
  unfolding run_callback
  run_locked fuel func arg c l status return_unlocked direct s =
      let t = emit s (locked l status) in
      requests fuel (w.acquiring l t) t >>= λ u.
      let e = entity u direct in
      let v = set_entity u direct (record e { cancel = true }) in
      if e.cancel
      then ok (emit u (unlocked l))
      else run_callback fuel func arg c (some l) return_unlocked v

  -- The two branches on `c_lock != NULL`; `shared` is CALLOUT_SHAREDLOCK in `c_flags`.
  unfoldable pub dispatch :
      (fuel : ℕ)
      → (func arg : ℕ) → (c : ℕ) → Option ℕ
      → (shared return_unlocked direct : Bool) → State
      → Run State
  dispatch fuel func arg c none shared return_unlocked direct =
      run_callback fuel func arg c none return_unlocked
  dispatch fuel func arg c (some l) shared return_unlocked direct =
      run_locked fuel func arg c l (lock_status shared (w.is_rm l)) return_unlocked direct

  -- `softclock_call_cc`
  unfoldable pub call_cc : (fuel : ℕ) → State → (c : ℕ) → (direct : Bool) → Run State
  call_cc fuel s c direct =
      let k = s.store c in
      dispatch fuel k.func k.arg c k.lock k.shared k.return_unlocked direct (begin_call s c direct)
      >>= end_call fuel c k.arg k.local_alloc direct

  -- The inner loop of `softclock`: the callouts of one bucket, from `c` on.
  unfoldable pub bucket_loop : (fuel : ℕ) → (curticks : ℕ) → State → Option ℕ → Run State
  unfolding call_cc
  bucket_loop fuel curticks s none = ok s
  bucket_loop zero curticks s (some c) = out_of_fuel
  bucket_loop (suc fuel) curticks s (some c) =
      let on = bucket_loop fuel curticks s (list_next s c) in
      let t = list_remove (record s { next = list_next s c; bucket = get_bucket s curticks }) c in
      let fired = call_cc fuel t c true >>= λ u.
      bucket_loop fuel curticks (record u { next = none }) u.next in
      if (s.store c).time == curticks then fired else on

  -- `softclock`
  unfoldable pub softclock : (fuel : ℕ) → State → Run State
  unfolding bucket_loop
  softclock zero s = out_of_fuel
  softclock (suc fuel) s =
      let t = record s { softticks = tick_word s.softticks } in
      let head = first (s.wheel (get_bucket s s.softticks)) in
      let on = bucket_loop fuel s.softticks t head >>= softclock fuel in
      if s.softticks == s.ticks then ok s else on

  -- `callout_tick`
  unfoldable pub callout_tick : (fuel : ℕ) → State → Run State
  unfolding tick_loop softclock
  callout_tick fuel s = tick_loop fuel s >>= λ r. if r.1 then softclock fuel r.0 else ok r.0

  -- `lazybsd_hardclock`, its first two lines.
  unfoldable pub hardclock : (fuel : ℕ) → State → Run State
  unfolding callout_tick
  hardclock fuel s = callout_tick fuel (record s { ticks = tick_word s.ticks })
