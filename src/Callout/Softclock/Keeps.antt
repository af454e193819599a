-- ===== src/Callout/Softclock/Keeps.antt =====
-- What a call of `softclock_call_cc` of bsd/lib/lazybsd_kern_timeout.c keeps, whatever the callback
-- and the drain function ask of the interface.
use lazybsd.Prelude.{ℕ, refl, Bool, true, false, Option, none, some, List, [], ◌∷◌, if_intro}
use lazybsd.Callout.Run.{Ensures, Ensures-bind}
use lazybsd.Callout.State.{
  State, Exec, set_entity, emit, LockStatus, locked, unlocked, called, drained, woken,
}
use lazybsd.Callout.Stable.{Stable, emit-Stable, cc_del-Stable}
use lazybsd.Callout.Reset.{reset-Stable}
use lazybsd.Callout.Stop.{stop-Stable}
use lazybsd.Callout.Softclock.{
  Request, reset_request, stop_request, World, lock_status, request, requests, begin_call,
  call_drain, wake, end_call, release, run_callback, run_locked, dispatch, call_cc,
}

module _ {P : State → Type 0} (st : Stable P) (w : World) (fuel : ℕ) where
  request-Stable : (r : Request) (s : State) → P s → Ensures P (request w fuel r s)
  unfolding request
  request-Stable (reset_request c n f a cpu d) s p =
      Ensures-bind (λ r. P r.0) P _ _ (reset-Stable st c w.max_cpu n f a cpu d p) (λ r h. h)
  request-Stable (stop_request f c) s p =
      Ensures-bind (λ r. P r.0) P _ _ (stop-Stable st fuel f s c p) (λ r h. h)

  requests-Stable : (rs : List Request) (s : State) → P s → Ensures P (requests w fuel rs s)
  unfolding requests
  requests-Stable [] s p = p
  requests-Stable (r ∷ rs) s p =
      Ensures-bind P P (request w fuel r s) _ (request-Stable r s p) (requests-Stable rs)

  -- The entity of callouts that run from the clock may be written freely.
  exec1-Stable : {s : State} (e : Exec) → P s → P (set_entity s true e)
  exec1-Stable {s} e p = st.frames s.exec0 e s.callfree s.trace p refl

  call_drain-Stable :
      (arg : ℕ) (o : Option ℕ) (s : State) → P s → Ensures P (call_drain w fuel arg o s)
  unfolding call_drain
  call_drain-Stable arg none s p = p
  call_drain-Stable arg (some d) s p = requests-Stable _ _ (emit-Stable st p (drained d arg))

  wake-Stable : (c : ℕ) (l : Bool) {s : State} → P s → P (wake w c l true s)
  unfolding wake
  wake-Stable c l {s} p =
      let q = exec1-Stable (record s.exec1 { waiting = false }) p in
      let t = if_intro P s.exec1.waiting (emit-Stable st q woken) p in
      if_intro P l (cc_del-Stable st c t) t

  end_call-Stable :
      (c arg : ℕ) (l : Bool) (s : State) → P s → Ensures P (end_call w fuel c arg l true s)
  unfolding end_call
  end_call-Stable c arg l s p =
      let e = record s.exec1 { curr = none; drain = none } in
      Ensures-bind P P (call_drain w fuel arg s.exec1.drain (set_entity s true e)) _
        (call_drain-Stable arg s.exec1.drain _ (exec1-Stable e p)) (λ u q. wake-Stable c l q)

  release-Stable : (r : Bool) (l : Option ℕ) (s : State) → P s → Ensures P (release w r l s)
  unfolding release
  release-Stable true l s p = p
  release-Stable false none s p = tt
  release-Stable false (some l) s p = emit-Stable st p (unlocked l)

  run_callback-Stable :
      (f a c : ℕ) (l : Option ℕ) (r : Bool) (s : State)
      → P s
      → Ensures P (run_callback w fuel f a c l r s)
  unfolding run_callback
  run_callback-Stable f a c l r s p =
      let t = emit s (called c f a) in
      Ensures-bind P P (requests w fuel (w.callback f a t) t) _
        (requests-Stable _ _ (emit-Stable st p (called c f a))) (release-Stable r l)

  run_locked-Stable :
      (f a c l : ℕ) (status : LockStatus) (r : Bool) (s : State)
      → P s
      → Ensures P (run_locked w fuel f a c l status r true s)
  unfolding run_locked
  run_locked-Stable f a c l status r s p =
      let t = emit s (locked l status) in
      Ensures-bind P P (requests w fuel (w.acquiring l t) t) _
        (requests-Stable _ _ (emit-Stable st p (locked l status)))
        λ u q. if_intro (Ensures P) u.exec1.cancel (emit-Stable st q (unlocked l)) (
          run_callback-Stable f a c (some l) r _
            (exec1-Stable (record u.exec1 { cancel = true }) q))

  dispatch-Stable :
      (f a c : ℕ) (o : Option ℕ) (shared r : Bool) (s : State)
      → P s
      → Ensures P (dispatch w fuel f a c o shared r true s)
  unfolding dispatch
  dispatch-Stable f a c none shared r s p = run_callback-Stable f a c none r s p
  dispatch-Stable f a c (some l) shared r s p =
      run_locked-Stable f a c l (lock_status shared (w.is_rm l)) r s p

  -- Once the callout is marked as running, its call keeps what the primitive steps keep.
  pub call_cc-Stable :
      (s : State) (c : ℕ) → P (begin_call w s c true) → Ensures P (call_cc w fuel s c true)
  unfolding call_cc
  call_cc-Stable s c p =
      let k = s.store c in
      Ensures-bind P P _ _ (dispatch-Stable k.func k.arg c k.lock k.shared k.return_unlocked _ p)
        (end_call-Stable c k.arg k.local_alloc)
