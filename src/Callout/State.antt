-- ===== src/Callout/State.antt =====
-- bsd/lib/lazybsd_kern_timeout.c: `struct cc_exec`, `struct callout_cpu` and the callouts in memory.
-- A pointer to a callout, a function, an argument or a lock is its address, a number; NULL is `none`,
-- or `null_func` for a function. `c_iflags` and `c_flags` are bit sets, one Boolean for each bit.
-- There is one `callout_cpu`, so `cc` is the state itself; its lock is a macro that does nothing
-- (bsd/include/sys/mutex.h).
use lazybsd.Prelude.{
  ℕ, ◌+◌, ◌%◌, Bool, true, false, ◌||◌, Option, none, some, List, ◌∷◌, bit_and, update, erase,
  after, if◌then◌else◌, ◌==◌, u32_mod, points,
}

pub record Callout : Type 0 where
  -- `c_time`, `c_func`, `c_arg`, `c_lock`, `c_cpu`
  pub time : ℕ
  pub func : ℕ
  pub arg : ℕ
  pub lock : Option ℕ
  pub cpu : ℕ
  -- CALLOUT_ACTIVE and CALLOUT_SHAREDLOCK in `c_flags`
  pub active : Bool
  pub shared : Bool
  -- the bits of `c_iflags`
  pub local_alloc : Bool
  pub pending : Bool
  pub processed : Bool
  pub direct : Bool
  pub return_unlocked : Bool
  pub shared_lock : Bool
  pub dfr_migration : Bool

abbrev pub null_func : ℕ
null_func = 0

-- `struct cc_exec`
pub record Exec : Type 0 where
  pub curr : Option ℕ
  pub drain : Option ℕ
  pub cancel : Bool
  pub waiting : Bool

-- How a lock is taken: `lock_status` 0, the address of the tracker, or 1.
pub data LockStatus : Type 0 where
  exclusive tracker shared_status : LockStatus

-- What the code does to locks, callbacks and sleepers, in order.
pub data Event : Type 0 where
  locked : ℕ → LockStatus → Event
  unlocked : ℕ → Event
  called : ℕ → ℕ → ℕ → Event
  drained : ℕ → ℕ → Event
  woken : Event

-- `struct callout_cpu` with the globals `ticks` and `callwheelmask`. The wheel maps a bucket to the
-- callouts linked on it. The links `c_links` of a callout belong to the bucket of its time.
-- `exec0` and `exec1` are the array `cc_exec_entity`. `trace` is what was done, the last first.
pub record State : Type 0 where
  pub store : ℕ → Callout
  pub wheel : ℕ → List ℕ
  pub expireq : List ℕ
  pub callfree : List ℕ
  pub exec0 : Exec
  pub exec1 : Exec
  pub next : Option ℕ
  pub softticks : ℕ
  pub bucket : ℕ
  pub inited : Bool
  pub ticks : ℕ
  pub mask : ℕ
  pub trace : List Event

-- `cc->cc_exec_entity[direct]`
abbrev pub entity : State → Bool → Exec
entity s direct = if direct then s.exec1 else s.exec0

abbrev pub set_entity : State → Bool → Exec → State
set_entity s direct e = record s {
  exec0 = if direct then s.exec0 else e;
  exec1 = if direct then e else s.exec1;
}

-- `cc_cce_cleanup`
unfoldable pub cce_cleanup : State → Bool → State
cce_cleanup s dir =
    set_entity s dir (record (entity s dir) { curr = none; cancel = false; waiting = false })

-- `cc_cce_migrating`: callouts never migrate.
abbrev pub cce_migrating : State → Bool → Bool
cce_migrating s dir = false

-- `callout_get_bucket`
abbrev pub get_bucket : State → ℕ → ℕ
get_bucket s t = bit_and t s.mask

-- The list that a callout's links belong to.
abbrev pub home : State → ℕ → ℕ
home s c = get_bucket s (s.store c).time

-- `LIST_NEXT(c, c_links.le)`
abbrev pub list_next : State → ℕ → Option ℕ
list_next s c = after c (s.wheel (home s c))

-- `LIST_REMOVE(c, c_links.le)`
abbrev pub list_remove : State → ℕ → State
list_remove s c = record s { wheel = update s.wheel (home s c) (erase c (s.wheel (home s c))) }

-- A write to the callout at an address.
abbrev pub write : State → ℕ → Callout → State
write s c k = record s { store = update s.store c k }

abbrev pub emit : State → Event → State
emit s e = record s { trace = e ∷ s.trace }

-- `callout_cc_add`. `to_ticks` is positive when it is called.
unfoldable pub cc_add : State → ℕ → (to_ticks func arg : ℕ) → (direct : Bool) → State
cc_add s c to_ticks func arg direct =
    let k = s.store c in
    let t = (s.ticks + to_ticks) % u32_mod in
    let b = get_bucket s t in
    record s {
      store = update s.store c (record k {
        arg = arg;
        pending = true;
        processed = false;
        active = true;
        direct = direct || k.direct;
        func = func;
        time = t;
      });
      wheel = update s.wheel b (c ∷ s.wheel b);
      next = if s.bucket == b then some c else s.next;
    }

-- `callout_cc_del`
unfoldable pub cc_del : State → ℕ → State
cc_del s c =
    if (s.store c).local_alloc
    then record s {
      store = update s.store c (record (s.store c) { func = null_func });
      callfree = c ∷ s.callfree;
    }
    else s

-- A pending callout leaves the wheel, or the queue of expired callouts.
unfoldable pub unlink : State → ℕ → State
unlink s c =
    if (s.store c).processed
    then record s { expireq = erase c s.expireq }
    else let fixed = record s { next = if points s.next c then list_next s c else s.next } in
      list_remove fixed c
