-- ===== src/Callout/Softclock/Quiet.antt =====
-- `softclock_call_cc` of bsd/lib/lazybsd_kern_timeout.c returns, when the callbacks make no calls.
use lazybsd.Prelude.{
  ℕ, ◌≡◌, refl, Bool, true, false, Option, none, some, List, [], ◌∷◌, arith, if_intro,
}
use lazybsd.Callout.Run.{Run, ok, panic, fault, out_of_fuel, ◌>>=◌}
use lazybsd.Callout.State.{
  State, Exec, Event, emit, set_entity, cc_del, locked, unlocked, called, drained, woken,
}
use lazybsd.Callout.Softclock.{
  World, Request, lock_status, requests, begin_call, call_drain, wake, end_call, release,
  run_callback, run_locked, dispatch, call_cc,
}

-- Nothing that runs from the clock makes a call.
pub record IsQuiet (w : World) : Type 0 where
  pub callback : (f a : ℕ) (s : State) → w.callback f a s ≡ []
  pub drainer : (d a : ℕ) (s : State) → w.drainer d a s ≡ []
  pub acquiring : (l : ℕ) (s : State) → w.acquiring l s ≡ []

-- A scheduled callout has a lock, or does not want it released.
abbrev pub Callable : State → Type 0
Callable s =
    (c : ℕ)
    → (s.store c).pending ≡ true
    → (s.store c).lock ≡ none
    → (s.store c).return_unlocked ≡ true

-- The wheel and the cursor stay.
pub record Framed (s u : State) : Type 0 where
  pub wheel : u.wheel ≡ s.wheel
  pub next : u.next ≡ s.next
  pub mask : u.mask ≡ s.mask
  pub callable : Callable u

-- A computation returns, and its result has a property.
abbrev pub Returns : {A : Type 0} → (A → Type 0) → Run A → Type 0
Returns Q (ok a) = Q a
Returns Q panic = ⊥
Returns Q fault = ⊥
Returns Q out_of_fuel = ⊥

pub Returns-bind :
    {A B : Type 0} (P : A → Type 0) (Q : B → Type 0) (m : Run A) (f : A → Run B)
    → Returns P m
    → ((a : A) → P a → Returns Q (f a))
    → Returns Q (m >>= f)
Returns-bind P Q (ok a) f h next = next a h
Returns-bind P Q panic f h next = absurd h
Returns-bind P Q fault f h next = absurd h
Returns-bind P Q out_of_fuel f h next = absurd h

module _ (w : World) (q : IsQuiet w) (fuel : ℕ) (s : State) where
  requests_quiet :
      (rs : List Request) (u : State)
      → rs ≡ []
      → Framed s u
      → Returns (Framed s) (requests w fuel rs u)
  unfolding requests
  requests_quiet [] u e h = h
  requests_quiet (r ∷ rs) u e h = cc

  emit-Framed : (e : Event) (u : State) → Framed s u → Framed s (emit u e)
  emit-Framed e u h = record {
    wheel = h.wheel;
    next = h.next;
    mask = h.mask;
    callable = h.callable;
  }

  exec1-Framed : (e : Exec) (u : State) → Framed s u → Framed s (set_entity u true e)
  exec1-Framed e u h = record {
    wheel = h.wheel;
    next = h.next;
    mask = h.mask;
    callable = h.callable;
  }

  cc_del-Framed : (c : ℕ) (u : State) → Framed s u → Framed s (cc_del u c)
  unfolding cc_del
  cc_del-Framed c u h =
      if_intro (Framed s) (u.store c).local_alloc
        (record {
          wheel = h.wheel;
          next = h.next;
          mask = h.mask;
          callable = λ d. ground (arith, h.callable d);
        })
        h

  call_drain_quiet :
      (arg : ℕ) (o : Option ℕ) (u : State)
      → Framed s u
      → Returns (Framed s) (call_drain w fuel arg o u)
  unfolding call_drain
  call_drain_quiet arg none u h = h
  call_drain_quiet arg (some d) u h =
      requests_quiet _ _ (q.drainer d arg _) (emit-Framed (drained d arg) u h)

  wake-Framed : (c : ℕ) (l : Bool) (u : State) → Framed s u → Framed s (wake w c l true u)
  unfolding wake
  wake-Framed c l u h =
      let t = set_entity u true (record u.exec1 { waiting = false }) in
      let p = if_intro (Framed s) u.exec1.waiting (emit-Framed woken t (exec1-Framed _ u h)) h in
      if_intro (Framed s) l (cc_del-Framed c _ p) p

  end_call_quiet :
      (c arg : ℕ) (l : Bool) (u : State)
      → Framed s u
      → Returns (Framed s) (end_call w fuel c arg l true u)
  unfolding end_call
  end_call_quiet c arg l u h =
      let e = record u.exec1 { curr = none; drain = none } in
      Returns-bind (Framed s) (Framed s) (call_drain w fuel arg u.exec1.drain (set_entity u true e))
        _ (call_drain_quiet arg u.exec1.drain _ (exec1-Framed e u h)) λ v k. wake-Framed c l v k

  release_quiet :
      (r : Bool) (l : Option ℕ) (u : State)
      → (l ≡ none → r ≡ true)
      → Framed s u
      → Returns (Framed s) (release w r l u)
  unfolding release
  release_quiet true l u e h = h
  release_quiet false none u e h = let never : false ≡ true = e refl in ground arith
  release_quiet false (some l) u e h = emit-Framed (unlocked l) u h

  run_callback_quiet :
      (f a c : ℕ) (l : Option ℕ) (r : Bool) (u : State)
      → (l ≡ none → r ≡ true)
      → Framed s u
      → Returns (Framed s) (run_callback w fuel f a c l r u)
  unfolding run_callback
  run_callback_quiet f a c l r u e h =
      let t = emit u (called c f a) in
      Returns-bind (Framed s) (Framed s) (requests w fuel (w.callback f a t) t) _
        (requests_quiet _ t (q.callback f a t) (emit-Framed (called c f a) u h))
        λ v k. release_quiet r l v e k

  dispatch_quiet :
      (f a c : ℕ) (o : Option ℕ) (shared r : Bool) (u : State)
      → (o ≡ none → r ≡ true)
      → Framed s u
      → Returns (Framed s) (dispatch w fuel f a c o shared r true u)
  unfolding dispatch run_locked
  dispatch_quiet f a c none shared r u e h = run_callback_quiet f a c none r u e h
  dispatch_quiet f a c (some l) shared r u e h =
      let t = emit u (locked l (lock_status shared (w.is_rm l))) in
      Returns-bind (Framed s) (Framed s) (requests w fuel (w.acquiring l t) t) _
        (requests_quiet _ t (q.acquiring l t) (emit-Framed _ u h))
        λ v k. if_intro (Returns (Framed s)) v.exec1.cancel (emit-Framed (unlocked l) v k) (
          run_callback_quiet f a c (some l) r _ (λ z. cc)
            (exec1-Framed (record v.exec1 { cancel = true }) v k))

  pub call_cc_quiet :
      (c : ℕ)
      → ((s.store c).lock ≡ none → (s.store c).return_unlocked ≡ true)
      → Framed s (begin_call w s c true)
      → Returns (Framed s) (call_cc w fuel s c true)
  unfolding call_cc
  call_cc_quiet c e h =
      let k = s.store c in
      Returns-bind (Framed s) (Framed s)
        (dispatch w fuel k.func k.arg c k.lock k.shared k.return_unlocked true
          (begin_call w s c true))
        _ (dispatch_quiet k.func k.arg c k.lock k.shared k.return_unlocked _ e h)
        λ u q. end_call_quiet c k.arg k.local_alloc u q
