-- ===== src/Callout/Stop.antt =====
-- What `_callout_stop_safe` of bsd/lib/lazybsd_kern_timeout.c does to a well-formed state.
use lazybsd.Prelude.{
  ℕ, zero, suc, ◌≡◌, ◌≢◌, refl, ap, ◌∙◌, Bool, true, false, not, ◌&&◌, some, if◌then◌else◌, points,
  is_some, if_intro, if_true, if_false, arith,
}
use lazybsd.Callout.Run.{ok, out_of_fuel, Ensures}
use lazybsd.Callout.State.{State, entity, set_entity, write, cc_del, unlink}
use lazybsd.Callout.Api.{
  StopFlags, Stopped, cancelled, not_scheduled, stopped_if, slipped_in, stop_pending, stop_running,
  stop_again, stop,
}
use lazybsd.Callout.Invariant.{IsPlain, IsValid}
use lazybsd.Callout.Stable.{Stable, Stable-IsValid, set_entity-Stable, cc_del-Stable, unlink-Stable}

-- A pending callout is off the wheel, the others are as they were.
pub record IsStopped (s t : State) (c : ℕ) : Type 0 where
  pub pending : (t.store c).pending ≡ false
  pub others : (d : ℕ) → d ≢ c → t.store d ≡ s.store d

stop_pending-Stable :
    {P : State → Type 0} (st : Stable P) {s : State} (c : ℕ) (d : Bool) (r : Stopped)
    → P s
    → P (stop_pending s c d false r).0
unfolding stop_pending
stop_pending-Stable {P} st {s} c d r p =
    if_intro (λ (x : State × Stopped). P x.0) (s.store c).pending
      (cc_del-Stable st c (unlink-Stable st p c)) p

module _ (s : State) (c : ℕ) where
  -- What the end of `_callout_stop_safe` returns.
  abbrev pub pending_result : (d : Bool) → Stopped → Stopped
  pending_result d r =
      if (s.store c).pending then r else if points (entity s d).curr c then r else not_scheduled

  stop_pending-IsStopped :
      (d : Bool) (r : Stopped)
      → ((stop_pending s c d false r).1 ≡ pending_result d r)
        × IsStopped s (stop_pending s c d false r).0 c
  unfolding stop_pending unlink cc_del
  stop_pending-IsStopped d r =
      (ground arith, record { pending = ground arith; others = λ e q. ground arith })

module _ {P : State → Type 0} (st : Stable P) {s : State} (c : ℕ) (p : P s) where
  calm : slipped_in (s.store c) ≡ false
  calm = let v = st.valid p in ground (arith, v.plain c)

  inactive-Stable : P (write s c (record (s.store c) { active = false }))
  inactive-Stable =
      let v = st.valid p in
      st.writes c (record (s.store c) { active = false }) p refl refl (ground (arith, v.plain c))

  stop_running-Stable : (f : StopFlags) (d u : Bool) → P (stop_running f s c d u false).0
  unfolding stop_running
  stop_running-Stable f d u =
      let v = st.valid p in
      let e = entity s d in
      let k = record (s.store c) { dfr_migration = false } in
      let plain : IsPlain k = ground (arith, v.plain c) in
      let drain = if is_some f.callback then f.callback else e.drain in
      let told = set_entity-Stable st p d (record e { drain = drain }) refl in
      let Q = λ (x : State × Stopped). P x.0 in
      if_intro Q (u && not e.cancel && not (is_some f.callback))
        (set_entity-Stable st (st.writes c k p refl refl plain) d (record e { cancel = true }) refl)
        (if_intro Q (s.store c).dfr_migration (st.writes c k told refl refl plain)
          (stop_pending-Stable st c d (stopped_if f.executing) told))

-- The callout is marked as inactive, and its entity as waited for.
abbrev waited : State → ℕ → Bool → State
waited s c d =
    set_entity (write s c (record (s.store c) { active = false })) d
      (record (entity s d) { waiting = true })

waited-Stable :
    {P : State → Type 0} (st : Stable P) {s : State} (c : ℕ) (d : Bool) → P s → P (waited s c d)
waited-Stable st {s} c d p =
    set_entity-Stable st (inactive-Stable st c p) d (record (entity s d) { waiting = true }) refl

stop_again-Stable :
    {P : State → Type 0} (st : Stable P) (fuel : ℕ) (f : StopFlags) (s : State) (c : ℕ) (d u : Bool)
    → P s
    → Ensures (λ r. P r.0) (stop_again fuel f s c d u)
unfolding stop_again
stop_again-Stable st zero f s c d u p = tt
stop_again-Stable {P} st (suc fuel) f s c d u p =
    let Q = Ensures {A = State × Stopped} (λ r. P r.0) in
    rw (calm st c p) (
      if_intro Q (points (entity s d).curr c)
        (if_intro Q f.drain
          (stop_again-Stable st fuel f (waited s c d) c d u (waited-Stable st c d p))
          (stop_running-Stable st c (inactive-Stable st c p) f d u))
        (stop_pending-Stable st c d cancelled p))

-- Whatever it finds, `_callout_stop_safe` keeps what the primitive steps keep.
pub stop-Stable :
    {P : State → Type 0} (st : Stable P) (fuel : ℕ) (f : StopFlags) (s : State) (c : ℕ)
    → P s
    → Ensures (λ r. P r.0) (stop fuel f s c)
unfolding stop
stop-Stable st fuel f s c p = stop_again-Stable st fuel f s c _ _ p

-- Whether the callout runs in the entity that `_callout_stop_safe` looks at.
abbrev pub seen_running : State → ℕ → Bool
seen_running s c = points (entity s (s.store c).direct).curr c

module _ {s : State} (v : IsValid s) (c : ℕ) where
  stop-not_running :
      (fuel : ℕ) (f : StopFlags)
      → seen_running s c ≡ false
      → stop (suc fuel) f s c ≡ ok (stop_pending s c (s.store c).direct false cancelled)
  unfolding stop
  stop-not_running fuel f h = rw (calm Stable-IsValid c v, h)

  -- In a well-formed state, stopping a callout that is not seen running returns at once, with 1
  -- if it was scheduled and -1 if it was not; it is not scheduled any more, no other callout is
  -- changed, and the state is well formed.
  pub stop-IsStopped :
      (fuel : ℕ) (f : StopFlags)
      → seen_running s c ≡ false
      → (t : State) × (stop (suc fuel) f s c
          ≡ ok (t, if (s.store c).pending then cancelled else not_scheduled))
        × IsValid t
        × IsStopped s t c
  stop-IsStopped fuel f h =
      let d = (s.store c).direct in
      let p = stop_pending s c d false cancelled in
      let (r, off) = stop_pending-IsStopped s c d cancelled in
      let result : p.1 ≡ (if (s.store c).pending then cancelled else not_scheduled) =
        ground arith in
      (
        p.0,
        stop-not_running fuel f h ∙ ap (λ x. ok (p.0, x)) result,
        stop_pending-Stable Stable-IsValid c d cancelled v,
        off,
      )

stop_again_spins :
    (fuel : ℕ) (f : StopFlags) (s : State) (c : ℕ) (d u : Bool)
    → IsValid s
    → f.drain ≡ true
    → points (entity s d).curr c ≡ true
    → stop_again fuel f s c d u ≡ out_of_fuel
unfolding stop_again
stop_again_spins zero f s c d u v h r = refl
stop_again_spins (suc fuel) f s c d u v h r =
    let still : points (entity (waited s c d) d).curr c ≡ true = ground arith in
    let spins =
      stop_again_spins fuel f (waited s c d) c d u (waited-Stable Stable-IsValid c d v) h still in
    rw (calm Stable-IsValid c v, r) (if_true _ _ h ∙ spins)

-- In a well-formed state, a call that waits for a callout that is seen running, as its own
-- callback may make it, never returns.
pub stop-out_of_fuel :
    (fuel : ℕ) (f : StopFlags) (s : State) (c : ℕ)
    → IsValid s
    → f.drain ≡ true
    → seen_running s c ≡ true
    → stop fuel f s c ≡ out_of_fuel
unfolding stop
stop-out_of_fuel fuel f s c v h r = stop_again_spins fuel f s c _ _ v h r

-- In a well-formed state, while the clock runs a callout that is neither scheduled again nor
-- marked for direct execution, stopping it is answered with -1, as if it were not executing, and
-- changes nothing.
pub stop_unseen :
    (fuel : ℕ) (f : StopFlags) (s : State) (c : ℕ)
    → IsValid s
    → s.exec1.curr ≡ some c
    → (s.store c).direct ≡ false
    → (s.store c).pending ≡ false
    → stop (suc fuel) f s c ≡ ok (s, not_scheduled)
unfolding stop_pending
stop_unseen fuel f s c v r d p =
    let unseen : seen_running s c ≡ false = ground (arith, v.idle) in
    stop-not_running v c fuel f unseen
    ∙ ap ok (if_false _ _ p ∙ ap (λ x. (s, x)) (if_false _ _ unseen))
