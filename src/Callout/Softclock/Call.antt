-- ===== src/Callout/Softclock/Call.antt =====
-- How `softclock_call_cc` of bsd/lib/lazybsd_kern_timeout.c treats the lock of a callout.
use lazybsd.Prelude.{ℕ, ◌≡◌, ◌≢◌, ap, Bool, false, Option, none, some}
use lazybsd.Callout.Run.{Run, ok, fault, panic, out_of_fuel, ◌>>=◌}
use lazybsd.Callout.State.{State, exclusive, called, emit}
use lazybsd.Callout.Invariant.{IsValid}
use lazybsd.Callout.Softclock.{
  World, requests, begin_call, run_callback, run_locked, release, end_call, dispatch, call_cc,
}

module _ (w : World) (fuel : ℕ) where
  dispatch-exclusive :
      (f a c l : ℕ) (o : Option ℕ) (shared r d : Bool)
      → o ≡ some l
      → shared ≡ false
      → dispatch w fuel f a c o shared r d ≡ run_locked w fuel f a c l exclusive r d
  unfolding dispatch
  dispatch-exclusive f a c l o shared r d h q = rw (h, q)

  -- In a well-formed state a callout with a lock is called with the lock held exclusively, also if
  -- it was initialised with CALLOUT_SHAREDLOCK.
  pub call_cc-exclusive :
      {s : State} (c l : ℕ) (d : Bool)
      → IsValid s
      → (s.store c).lock ≡ some l
      → call_cc w fuel s c d ≡ (
          run_locked w fuel
            (s.store c).func
            (s.store c).arg
            c
            l
            exclusive
            (s.store c).return_unlocked
            d
            (begin_call w s c d)
          >>= end_call w fuel c (s.store c).arg (s.store c).local_alloc d)
  unfolding call_cc
  call_cc-exclusive {s} c l d v h =
      let k = s.store c in
      let e =
        dispatch-exclusive k.func k.arg c l k.lock k.shared k.return_unlocked d h
          (v.plain c).shared in
      ap (λ f. f (begin_call w s c d) >>= end_call w fuel c k.arg k.local_alloc d) e

  never_released :
      (m : Run State) (f : State → Run State) (t : State)
      → (m >>= release w false none >>= f) ≢ ok t
  unfolding release
  never_released (ok s) f t e = cc
  never_released panic f t e = cc
  never_released fault f t e = cc
  never_released out_of_fuel f t e = cc

  dispatch-no_lock :
      (f a c : ℕ) (o : Option ℕ) (shared r d : Bool) (s : State) (g : State → Run State) (t : State)
      → o ≡ none
      → r ≡ false
      → (dispatch w fuel f a c o shared r d s >>= g) ≢ ok t
  unfolding dispatch run_callback
  dispatch-no_lock f a c o shared r d s g t h q =
      let u = emit s (called c f a) in
      rw (h, q) (never_released (requests w fuel (w.callback f a u) u) g t)

  -- The call of a callout that has no lock and is not marked to return unlocked never comes to an
  -- end: the release goes through a NULL lock class.
  pub call_cc-no_lock :
      (s : State) (c : ℕ) (d : Bool) (t : State)
      → (s.store c).lock ≡ none
      → (s.store c).return_unlocked ≡ false
      → call_cc w fuel s c d ≢ ok t
  unfolding call_cc
  call_cc-no_lock s c d t h r =
      let k = s.store c in
      dispatch-no_lock k.func k.arg c k.lock k.shared k.return_unlocked d (begin_call w s c d) _ t h
        r
