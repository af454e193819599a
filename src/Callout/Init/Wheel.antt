-- ===== src/Callout/Init/Wheel.antt =====
-- The size of the wheel and its first state, after `callout_callwheel_init` of
-- bsd/lib/lazybsd_kern_timeout.c.
use lazybsd.Prelude.{
  ℕ, zero, suc, ◌+◌, ◌-◌, ◌*◌, ◌%◌, ◌^◌, ◌≤◌, ◌<◌, ◌≡◌, refl, ◌∙◌, Bool, true, false, Option, none,
  some, arith, bit_and, bit_and_mask, length, if_intro, ap,
}
use native.Mathlib.Nat.{pow-suc}
use lazybsd.Callout.State.{Callout, State, get_bucket, write, cce_cleanup}
use lazybsd.Callout.Init.{
  Fls, zeroed, callout_init, callout_init_lock, callout_count, preallocate, preallocate_one,
  cpu_init, cleared, wheel_size, callwheel_init, giant,
}
use lazybsd.Callout.Invariant.{IsValid, IsPlain, OnBucket-intro, OnBucket-elim}

-- A callout that is not on the wheel may be written anew.
write_idle-IsValid :
    {s : State} (c : ℕ) (k : Callout)
    → IsValid s
    → (s.store c).pending ≡ false
    → k.pending ≡ false
    → IsPlain k
    → IsValid (write s c k)
write_idle-IsValid {s} c k v h i p = record {
  linked = λ e b. ground (arith, v.linked e b);
  plain = λ e. ground (arith, v.plain e);
  cursor = OnBucket-intro (write s c k) _ λ d q. ground (arith, OnBucket-elim s s.next v.cursor d);
  idle = v.idle;
}

zeroed-IsPlain :
    (k : Callout)
    → k.processed ≡ false
    → k.shared ≡ false
    → k.dfr_migration ≡ false
    → k.time ≡ 0
    → IsPlain k
zeroed-IsPlain k a b c d = record {
  processed = a;
  shared = b;
  dfr_migration = c;
  word = omega arith;
}

-- `callout_init` and `_callout_init_lock` may be called on any callout that is not scheduled; it is
-- then known, idle, and not scheduled.
pub callout_init-IsValid :
    {s : State} (c : ℕ) (mpsafe : Bool) (cpu : ℕ)
    → IsValid s
    → (s.store c).pending ≡ false
    → IsValid (callout_init s c mpsafe cpu)
unfolding callout_init
callout_init-IsValid {s} c mpsafe cpu v h =
    let k =
      λ (l : Option ℕ) (r : Bool). record zeroed { lock = l; return_unlocked = r; cpu = cpu } in
    if_intro IsValid mpsafe
      (write_idle-IsValid c (k none true) v h refl
        (zeroed-IsPlain (k none true) refl refl refl refl))
      (write_idle-IsValid c (k (some giant) false) v h refl
        (zeroed-IsPlain (k (some giant) false) refl refl refl refl))

pub callout_init_lock-IsValid :
    {s : State} (c : ℕ) (l : Option ℕ) (r sh : Bool) (cpu : ℕ)
    → IsValid s
    → (s.store c).pending ≡ false
    → IsValid (callout_init_lock s c l r sh cpu)
unfolding callout_init_lock
callout_init_lock-IsValid c l r sh cpu v h =
    let k = record zeroed { lock = l; return_unlocked = r; shared_lock = sh; cpu = cpu } in
    write_idle-IsValid c k v h refl (zeroed-IsPlain k refl refl refl refl)

-- A state in which no callout is scheduled.
abbrev pub AllIdle : State → Type 0
AllIdle s = (c : ℕ) → (s.store c).pending ≡ false

-- What the loop of `callout_cpu_init` keeps, with `n` callouts put on the free list.
record Allocated (s t : State) (n : ℕ) : Type 0 where
  valid : IsValid t
  all_idle : AllIdle t
  free : length t.callfree ≡ n + length s.callfree
  mask : t.mask ≡ s.mask

module _ (s : State) (v : IsValid s) (h : AllIdle s) (c cpu : ℕ) where
  preallocate_one-store : (d : ℕ) → ((preallocate_one c cpu s).store d).pending ≡ false
  unfolding preallocate_one callout_init
  preallocate_one-store d = ground (arith, h d)

  preallocate_one-IsPlain : (d : ℕ) → IsPlain ((preallocate_one c cpu s).store d)
  unfolding preallocate_one callout_init
  preallocate_one-IsPlain d = ground (arith, v.plain d)

  preallocate_one-Allocated : Allocated s (preallocate_one c cpu s) 1
  unfolding preallocate_one callout_init
  preallocate_one-Allocated = record {
    valid = record {
      linked = λ e b. ground (arith, v.linked e b, h e);
      plain = preallocate_one-IsPlain;
      cursor =
          OnBucket-intro (preallocate_one c cpu s) _
            λ d q. ground (arith, OnBucket-elim s s.next v.cursor d, h d);
      idle = v.idle;
    };
    all_idle = preallocate_one-store;
    free = omega arith;
    mask = refl;
  }

preallocate-Allocated :
    (n c cpu : ℕ) (s : State) → IsValid s → AllIdle s → Allocated s (preallocate n c cpu s) n
unfolding preallocate
preallocate-Allocated zero c cpu s v h = record {
  valid = v;
  all_idle = h;
  free = omega arith;
  mask = refl;
}
preallocate-Allocated (suc n) c cpu s v h =
    let a = preallocate_one-Allocated s v h c cpu in
    let b = preallocate-Allocated n (c + 1) cpu (preallocate_one c cpu s) a.valid a.all_idle in
    record {
      valid = b.valid;
      all_idle = b.all_idle;
      free = b.free ∙ omega (arith, a.free);
      mask = b.mask ∙ a.mask;
    }

-- The facility as it is after `callout_callwheel_init`.
pub record IsReady (f : Fls) (ncallout : ℕ) (t : State) : Type 0 where
  pub valid : IsValid t
  pub all_idle : AllIdle t
  pub free : length t.callfree ≡ ncallout
  pub buckets : (time : ℕ) → get_bucket t time ≡ time % wheel_size f ncallout
  pub enough : ncallout < wheel_size f ncallout
  pub not_twice : 0 < ncallout → wheel_size f ncallout ≤ 2 * ncallout

power-not_twice : (k n : ℕ) → 2 ^ (k - 1) ≤ n → n < 2 ^ k → 0 < n → 2 ^ k ≤ 2 * n
power-not_twice zero n a b h = omega arith
power-not_twice (suc k) n a b h =
    let same : suc k - 1 ≡ k = omega arith in omega (arith, pow-suc 2 k, ap (λ x. 2 ^ x) same)

module _ (f : Fls) where
  wheel_size-enough : (n : ℕ) → n < wheel_size f n
  unfolding wheel_size
  wheel_size-enough n = f.fls_upper n

  wheel_size-not_twice : (n : ℕ) → 0 < n → wheel_size f n ≤ 2 * n
  unfolding wheel_size
  wheel_size-not_twice n h = power-not_twice (f.fls n) n (f.fls_lower n h) (f.fls_upper n) h

  wheel_size-bucket : (n t : ℕ) → bit_and t (wheel_size f n - 1) ≡ t % wheel_size f n
  unfolding wheel_size
  wheel_size-bucket n t = bit_and_mask (f.fls n) t

  module _ (s : State) (mask : ℕ) (plain : (c : ℕ) → IsPlain (s.store c)) (h : AllIdle s) where
    -- Before the loop over the preallocated callouts.
    abbrev empty_wheel : State
    empty_wheel = cpu_init (record (cleared s) { mask = mask }) none 0 0

    empty_wheel-IsValid : IsValid empty_wheel
    unfolding cpu_init cce_cleanup
    empty_wheel-IsValid = record {
      linked = λ c b. ground (arith, h c);
      plain = plain;
      cursor = tt;
      idle = refl;
    }

    cpu_init-Allocated :
        (base n cpu : ℕ)
        → Allocated empty_wheel (cpu_init (record (cleared s) { mask = mask }) (some base) n cpu) n
    unfolding cpu_init
    cpu_init-Allocated base n cpu =
        preallocate-Allocated n base cpu empty_wheel empty_wheel-IsValid h

  -- When no callout is scheduled yet, `callout_callwheel_init` gives a well-formed state with none
  -- scheduled and `ncallout` callouts free; the bucket of a time is its remainder by the size of
  -- the wheel, which is greater than `ncallout` and at most twice `ncallout` if that is not 0.
  pub callwheel_init-IsReady :
      (s : State) (maxproc maxfiles : ℕ) (tunable : Option ℕ) (callouts cpu : ℕ)
      → ((c : ℕ) → IsPlain (s.store c))
      → AllIdle s
      → IsReady f
          (callout_count maxproc maxfiles tunable)
          (callwheel_init f s maxproc maxfiles tunable callouts cpu)
  unfolding callwheel_init
  callwheel_init-IsReady s maxproc maxfiles tunable callouts cpu plain h =
      let n = callout_count maxproc maxfiles tunable in
      let a = cpu_init-Allocated s (wheel_size f n - 1) plain h callouts n cpu in
      record {
        valid = a.valid;
        all_idle = a.all_idle;
        free = a.free ∙ omega arith;
        buckets = λ t. ap (bit_and t) (a.mask) ∙ wheel_size-bucket n t;
        enough = wheel_size-enough n;
        not_twice = wheel_size-not_twice n;
      }
