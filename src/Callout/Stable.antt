-- ===== src/Callout/Stable.antt =====
-- What a predicate on the state needs in order to be kept by the operations of
-- bsd/lib/lazybsd_kern_timeout.c: it implies that the callouts are well formed, and each primitive
-- step keeps it. The operations are proved once for all such predicates.
use lazybsd.Prelude.{
  ℕ, ◌≡◌, refl, ◌∙◌, Bool, true, false, List, ◌∷◌, if_intro, if◌then◌else◌, arith, ap, update,
  bit_and, erase, after, points,
}
use lazybsd.Callout.Api.{take_off}
use lazybsd.Callout.State.{
  Callout, Event, Exec, State, entity, set_entity, null_func, write, emit, cc_add, cc_del, unlink,
}
use lazybsd.Callout.Invariant.{
  IsPlain, IsValid, off, off-IsValid, write-IsValid, cc_add-IsValid, take_off-off,
}

pub record Stable (P : State → Type 0) : Type 0 where
  pub valid : {s : State} → P s → IsValid s
  pub adds :
      {s : State} (c n f a : ℕ) (d : Bool)
      → P s
      → (s.store c).pending ≡ false
      → P (cc_add s c n f a d)
  pub offs : {s : State} (c : ℕ) (k : Callout) → P s → k.pending ≡ false → IsPlain k → P (off s c k)
  pub writes :
      {s : State} (c : ℕ) (k : Callout)
      → P s
      → k.pending ≡ (s.store c).pending
      → k.time ≡ (s.store c).time
      → IsPlain k
      → P (write s c k)
  pub frames :
      {s : State} (exec0 exec1 : Exec) (callfree : List ℕ) (trace : List Event)
      → P s
      → exec0.curr ≡ s.exec0.curr
      → P (record s { exec0 = exec0; exec1 = exec1; callfree = callfree; trace = trace })

pub Stable-IsValid : Stable IsValid
Stable-IsValid = record {
  valid = λ {s} v. v;
  adds = λ {s} c n f a d v h. cc_add-IsValid v c n f a d h;
  offs = λ {s} c k v h p. off-IsValid v c k h p;
  writes = λ {s} c k v h t p. write-IsValid v c k h t p;
  frames = λ {s} exec0 exec1 callfree trace v h. record {
    linked = v.linked;
    plain = v.plain;
    cursor = v.cursor;
    idle = h ∙ v.idle;
  };
}

module _ {P : State → Type 0} (st : Stable P) {s : State} (p : P s) where
  pub set_entity-Stable : (d : Bool) (e : Exec) → e.curr ≡ (entity s d).curr → P (set_entity s d e)
  set_entity-Stable false e h = st.frames e s.exec1 s.callfree s.trace p h
  set_entity-Stable true e h = st.frames s.exec0 e s.callfree s.trace p refl

  pub emit-Stable : (e : Event) → P (emit s e)
  emit-Stable e = st.frames s.exec0 s.exec1 s.callfree (e ∷ s.trace) p refl

  pub take_off-Stable : (c : ℕ) → P (take_off s c)
  take_off-Stable c =
      let v = st.valid p in rw (take_off-off v c) (st.offs c _ p refl (ground (arith, v.plain c)))

  -- A callout marked as stopped.
  abbrev pub marked : ℕ → Callout
  marked c = record (s.store c) { pending = false; active = false }

  -- Marked first and unlinked then: the links of a callout are found through its time, which stays.
  unlink-write : (c : ℕ) → unlink (write s c (marked c)) c ≡ off s c (marked c)
  unfolding unlink
  unlink-write c =
      let v = st.valid p in
      let t = write s c (marked c) in
      let plain : (t.store c).processed ≡ false = ground (arith, v.plain c) in
      let same : (t.store c).time ≡ (s.store c).time = ground arith in
      rw plain (
        ap
          (λ (x : ℕ).
            let l = s.wheel (bit_and x s.mask) in
            record t {
              wheel = update s.wheel (bit_and x s.mask) (erase c l);
              next = if points s.next c then after c l else s.next;
            })
          same)

  pub unlink-Stable : (c : ℕ) → P (unlink (write s c (marked c)) c)
  unlink-Stable c =
      let v = st.valid p in
      rw (unlink-write c) (st.offs c (marked c) p refl (ground (arith, v.plain c)))

pub cc_del-Stable : {P : State → Type 0} (st : Stable P) {s : State} (c : ℕ) → P s → P (cc_del s c)
unfolding cc_del
cc_del-Stable {P} st {s} c p =
    let v = st.valid p in
    let k = record (s.store c) { func = null_func } in
    let w = st.writes c k p refl refl (ground (arith, v.plain c)) in
    if_intro P (s.store c).local_alloc (st.frames s.exec0 s.exec1 (c ∷ s.callfree) s.trace w refl) p
