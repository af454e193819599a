-- ===== src/Callout/Init.antt =====
-- bsd/lib/lazybsd_kern_timeout.c: `callout_callwheel_init`, `callout_cpu_init`, `callout_init` and
-- `_callout_init_lock`.
pub mod Wheel
use lazybsd.Prelude.{
  ℕ, zero, suc, ◌+◌, ◌-◌, ◌^◌, ◌≤◌, ◌<◌, ◌≡◌, Bool, true, false, Option, none, some, [], ◌∷◌,
  if◌then◌else◌, ltb,
}
use lazybsd.Callout.State.{Callout, null_func, Exec, State, write, cce_cleanup}

-- The address of `Giant.lock_object`.
abbrev pub giant : ℕ
giant = 1

-- `bzero(c, sizeof *c)`
abbrev pub zeroed : Callout
zeroed = record {
  time = 0;
  func = null_func;
  arg = 0;
  lock = none;
  cpu = 0;
  active = false;
  shared = false;
  local_alloc = false;
  pending = false;
  processed = false;
  direct = false;
  return_unlocked = false;
  shared_lock = false;
  dfr_migration = false;
}

-- `callout_init`; `timeout_cpu` is its last argument.
unfoldable pub callout_init : State → ℕ → (mpsafe : Bool) → (timeout_cpu : ℕ) → State
callout_init s c mpsafe timeout_cpu =
    if mpsafe
    then write s c (record zeroed { lock = none; return_unlocked = true; cpu = timeout_cpu })
    else write s c (record zeroed { lock = some giant; cpu = timeout_cpu })

-- `_callout_init_lock`; the two flags that it accepts are arguments.
unfoldable pub callout_init_lock :
    State → ℕ → Option ℕ → (return_unlocked shared_lock : Bool) → (timeout_cpu : ℕ) → State
callout_init_lock s c lock return_unlocked shared_lock timeout_cpu = write s c (record zeroed {
  lock = lock;
  return_unlocked = return_unlocked;
  shared_lock = shared_lock;
  cpu = timeout_cpu;
})

-- `fls` of the kernel library: the position, counted from one, of the highest bit that is set.
pub record Fls : Type 0 where
  pub fls : ℕ → ℕ
  pub fls_zero : fls 0 ≡ 0
  pub fls_lower : (n : ℕ) → 0 < n → 2 ^ (fls n - 1) ≤ n
  pub fls_upper : (n : ℕ) → n < 2 ^ fls n

-- `ncallout = imin(16 + maxproc + maxfiles, 18508)`, which the tunable replaces if it is set.
unfoldable pub callout_count : (maxproc maxfiles : ℕ) → (tunable : Option ℕ) → ℕ
callout_count maxproc maxfiles (some n) = n
callout_count maxproc maxfiles none =
    let n = 16 + maxproc + maxfiles in if ltb 18508 n then 18508 else n

-- One round of the loop of `callout_cpu_init` over the preallocated callouts.
unfoldable pub preallocate_one : (c timeout_cpu : ℕ) → State → State
unfolding callout_init
preallocate_one c timeout_cpu s =
    let t = callout_init s c false timeout_cpu in
    let k = t.store c in
    let t' = write t c (record k {
      local_alloc = true;
      pending = false;
      processed = false;
      direct = false;
      return_unlocked = false;
      shared_lock = false;
      dfr_migration = false;
    }) in
    record t' { callfree = c ∷ t'.callfree }

-- The loop: `n` callouts are left, from address `c` on.
unfoldable pub preallocate : (n c : ℕ) → (timeout_cpu : ℕ) → State → State
unfolding preallocate_one
preallocate zero c timeout_cpu s = s
preallocate (suc n) c timeout_cpu s =
    preallocate n (c + 1) timeout_cpu (preallocate_one c timeout_cpu s)

-- `callout_cpu_init`; `callouts` is `cc_callout`.
unfoldable pub cpu_init : State → Option ℕ → (ncallout timeout_cpu : ℕ) → State
unfolding preallocate cce_cleanup
cpu_init s callouts ncallout timeout_cpu =
    let t = record s { callfree = []; inited = true; wheel = λ b. []; expireq = [] } in
    let t' = cce_cleanup (cce_cleanup t false) true in
    elim callouts [ none ↦ t' | some base ↦ preallocate ncallout base timeout_cpu t' ]

-- `memset(CC_CPU(0), 0, sizeof(cc_cpu))`
abbrev pub cleared : State → State
cleared s =
    let idle : Exec = record { curr = none; drain = none; cancel = false; waiting = false } in
    record s {
      wheel = λ b. [];
      expireq = [];
      callfree = [];
      exec0 = idle;
      exec1 = idle;
      next = none;
      softticks = 0;
      bucket = 0;
      inited = false;
    }

module _ (f : Fls) where
  -- `callwheelsize = 1 << fls(ncallout)`
  unfoldable pub wheel_size : ℕ → ℕ
  wheel_size ncallout = 2 ^ f.fls ncallout

  -- `callout_callwheel_init`; `callouts` is what `malloc` returns.
  unfoldable pub callwheel_init :
      State → (maxproc maxfiles : ℕ) → (tunable : Option ℕ) → (callouts timeout_cpu : ℕ) → State
  unfolding callout_count cpu_init wheel_size
  callwheel_init s maxproc maxfiles tunable callouts timeout_cpu =
      let ncallout = callout_count maxproc maxfiles tunable in
      let t = record (cleared s) { mask = wheel_size ncallout - 1 } in
      cpu_init t (some callouts) ncallout timeout_cpu
