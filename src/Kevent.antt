-- ===== src/Kevent.antt =====
-- bsd/lib/lazybsd_kevent.c: `lazybsd_kqueue`, `lazybsd_kevent` and `lazybsd_kevent_do_each`. The kernel
-- takes changes and gives events in batches, by the two functions that it is passed.
pub mod Batches
mod Examples
use lazybsd.Prelude.{
  ℕ, zero, suc, ◌+◌, ◌≡◌, Option, none, some, List, [], ◌∷◌, ◌++◌, if◌then◌else◌, ◌==◌, take, drop,
  ℤ, pos, negsuc,
}
use lazybsd.Errno.{ErrorName, lazybsd_os_errno}

-- `struct sys_kevent_args`: the changes from `changelist` on, however many they are, the events stored so far, and the caller's
-- list, which only `do_each` knows, if there is one. An event is given
-- by an identifier; the fields that neither function reads are left out.
pub record SysKeventArgs (U : Type 0) : Type 0 where
  pub changelist : ℕ → ℕ
  pub stored : List ℕ
  pub user : U
  pub do_each : Option (U → ℕ → U)

-- The copied_entries that stand from a place of the memory on
abbrev pub copied_entries : (count : ℕ) → (ℕ → ℕ) → List ℕ
copied_entries zero l = []
copied_entries (suc count) l = l 0 ∷ copied_entries count (λ i. l (suc i))

module _ {U : Type 0} where
  -- The loop over `do_each`
  abbrev pub each : (U → ℕ → U) → List ℕ → U → U
  each f [] u = u
  each f (e ∷ es) u = each f es (f u e)

  abbrev pub out_to : Option (U → ℕ → U) → List ℕ → SysKeventArgs U → SysKeventArgs U
  out_to none kevp uap = record uap { stored = uap.stored ++ kevp }
  out_to (some f) kevp uap = record uap { user = each f kevp uap.user }

  -- `kevent_copyout`
  unfoldable pub kevent_copyout : List ℕ → SysKeventArgs U → SysKeventArgs U
  kevent_copyout kevp uap = out_to uap.do_each kevp uap

  -- `kevent_copyin`: the changes that are copied, and what is left
  unfoldable pub kevent_copyin : (count : ℕ) → SysKeventArgs U → List ℕ × SysKeventArgs U
  kevent_copyin count uap = (
    copied_entries count uap.changelist,
    record uap { changelist = λ i. uap.changelist (count + i) },
  )

-- What `kern_kevent` does with the two functions, one call after the other.
pub data Step : Type 0 where
  copyin : (count : ℕ) → Step
  copyout : List ℕ → Step

-- The kernel: the calls that `kern_kevent` makes, its error and `td_retval[0]`, and the same of `kern_kqueue`.
pub record KqReply : Type 0 where
  pub steps : List Step
  pub error : ℕ
  pub retval : ℕ

pub record KqKernel : Type 0 where
  pub kern_kqueue : KqReply
  pub kern_kevent : (kq nchanges nevents : ℕ) → (sec nsec : ℕ) → KqReply
  pub host : ErrorName → ℕ

-- The state behind a call: the changes that the kernel has, the arguments, and `errno` if it is set.
pub record KqState (U : Type 0) : Type 0 where
  pub changes : List ℕ
  pub uap : SysKeventArgs U
  pub errno : Option ℕ

module _ {U : Type 0} where
  abbrev pub kq_step : Step → KqState U → KqState U
  kq_step (copyin count) s =
      let r = kevent_copyin count s.uap in record s { changes = s.changes ++ r.0; uap = r.1 }
  kq_step (copyout kevp) s = record s { uap = kevent_copyout kevp s.uap }

  -- The calls of one `kern_kevent`
  abbrev pub kq_steps : List Step → KqState U → KqState U
  kq_steps [] s = s
  kq_steps (x ∷ xs) s = kq_steps xs (kq_step x s)

  -- The result of both functions: the value, or -1 with `errno`
  abbrev pub kq_result : (host : ErrorName → ℕ) → KqReply → KqState U → KqState U × ℤ
  kq_result host r s =
      if r.error == 0
      then (s, pos r.retval)
      else (record s { errno = some (lazybsd_os_errno host r.error) }, negsuc 0)

  -- `lazybsd_kevent_do_each`; the timeout of the caller is not used.
  unfoldable pub lazybsd_kevent_do_each :
      KqKernel
      → (kq : ℕ) → (changelist : ℕ → ℕ) → (nchanges : ℕ) → (eventlist : U) → (nevents : ℕ)
      → Option (U → ℕ → U)
      → KqState U × ℤ
  unfolding kevent_copyin kevent_copyout lazybsd_os_errno
  lazybsd_kevent_do_each k kq changelist nchanges eventlist nevents do_each =
      let r = k.kern_kevent kq nchanges nevents 0 0 in
      let uap : SysKeventArgs U = record {
        changelist = changelist;
        stored = [];
        user = eventlist;
        do_each = do_each;
      } in
      kq_result k.host r (kq_steps r.steps (record { changes = []; uap = uap; errno = none }))

-- `lazybsd_kevent`
unfoldable pub lazybsd_kevent :
    KqKernel → (kq : ℕ) → (changelist : ℕ → ℕ) → (nchanges nevents : ℕ) → KqState ℕ × ℤ
unfolding lazybsd_kevent_do_each
lazybsd_kevent k kq changelist nchanges nevents =
    lazybsd_kevent_do_each k kq changelist nchanges 0 nevents none

-- `lazybsd_kqueue`
unfoldable pub lazybsd_kqueue : KqKernel → Option ℕ × ℤ
unfolding lazybsd_os_errno
lazybsd_kqueue k =
    let r = k.kern_kqueue in
    if r.error == 0
    then (none, pos r.retval)
    else (some (lazybsd_os_errno k.host r.error), negsuc 0)
