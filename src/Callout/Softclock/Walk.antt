-- ===== src/Callout/Softclock/Walk.antt =====
-- The walk of `softclock` of bsd/lib/lazybsd_kern_timeout.c through one bucket, while callbacks add
-- and remove callouts.
use lazybsd.Prelude.{
  ℕ, suc, ◌<◌, ◌≡◌, ◌≢◌, refl, ap, sym, ◌∙◌, Bool, true, false, Option, none, some, List, [], ◌∷◌,
  ◌==◌, arith, count, bit_and, first, if_intro, if_cases, zero,
}
use lazybsd.Callout.State.{State, Callout, cc_add, home, list_next, write, list_remove, get_bucket}
use lazybsd.Callout.Invariant.{
  IsValid, off, OnBucket-elim, OnBucket-intro, Linked-off, list_next_lem, list_next_ne,
}
use lazybsd.Callout.Stable.{Stable, Stable-IsValid}
use lazybsd.Callout.Run.{Ensures, Ensures-bind}
use lazybsd.Callout.Softclock.{World, begin_call, call_cc, bucket_loop}
use lazybsd.Callout.Softclock.Keeps.{call_cc-Stable}
use lazybsd.Callout.Softclock.Suffix.{
  suffix, Once, count-suffix-after, count-suffix_unlink, count-suffix-erase, suffix-first,
}

-- The callouts that are due at `curticks` stand on the bucket from the cursor on.
abbrev pub Ahead : (curticks : ℕ) → State → Option ℕ → Type 0
Ahead curticks s o =
    (d : ℕ)
    → (s.store d).pending ≡ true
    → (s.store d).time ≡ curticks
    → 0 < count d (suffix o (s.wheel (bit_and curticks s.mask)))

-- The state while a callback runs.
pub record Walks (curticks : ℕ) (s : State) : Type 0 where
  pub valid : IsValid s
  pub here : s.bucket ≡ bit_and curticks s.mask
  pub ahead : Ahead curticks s s.next

pub wheel-Once : {s : State} (v : IsValid s) (b : ℕ) → Once (s.wheel b)
wheel-Once v b c = ground (arith, v.linked c b)

module _ {curticks : ℕ} {s : State} (p : Walks curticks s) where
  Ahead-cc_add :
      (c n f a : ℕ) (d : Bool)
      → (s.store c).pending ≡ false
      → Ahead curticks (cc_add s c n f a d) (cc_add s c n f a d).next
  unfolding cc_add
  Ahead-cc_add c n f a d h e q t =
      ground (arith, p.ahead e, p.here, p.valid.linked e (bit_and curticks s.mask))

  Ahead-off :
      (c : ℕ) (k : Callout) → k.pending ≡ false → Ahead curticks (off s c k) (off s c k).next
  Ahead-off c k h e q t =
      let n : e ≢ c = ground arith in
      let l = s.wheel (home s c) in
      ground (
        arith,
        count-suffix_unlink s.next c e l (wheel-Once p.valid (home s c)) n,
        p.ahead e,
        p.here,
        OnBucket-elim s s.next p.valid.cursor c,
      )

  Ahead-write :
      (c : ℕ) (k : Callout)
      → k.pending ≡ (s.store c).pending
      → k.time ≡ (s.store c).time
      → Ahead curticks (write s c k) s.next
  Ahead-write c k h t e q u = ground (arith, p.ahead e)

-- A callback may ask for anything: the walk stays in order.
pub Stable-Walks : (curticks : ℕ) → Stable (Walks curticks)
unfolding cc_add
Stable-Walks curticks =
    let st = Stable-IsValid in
    record {
      valid = λ {s} p. p.valid;
      adds = λ {s} c n f a d p h. record {
        valid = st.adds c n f a d p.valid h;
        here = p.here;
        ahead = Ahead-cc_add p c n f a d h;
      };
      offs = λ {s} c k p h q. record {
        valid = st.offs c k p.valid h q;
        here = p.here;
        ahead = Ahead-off p c k h;
      };
      writes = λ {s} c k p h t q. record {
        valid = st.writes c k p.valid h t q;
        here = p.here;
        ahead = Ahead-write p c k h t;
      };
      frames = λ {s} exec0 exec1 callfree trace p h. record {
        valid = st.frames exec0 exec1 callfree trace p.valid h;
        here = p.here;
        ahead = p.ahead;
      };
    }

-- The state when the walk is at the cursor `o`, a callout of the bucket or its end.
pub record Stands (curticks : ℕ) (s : State) (o : Option ℕ) : Type 0 where
  pub valid : IsValid s
  pub on :
      (c : ℕ) → o ≡ some c → ((s.store c).pending ≡ true) × (home s c ≡ bit_and curticks s.mask)
  pub ahead : Ahead curticks s o

count-first : (c : ℕ) (l : List ℕ) → first l ≡ some c → 0 < count c l
count-first c [] h = cc
count-first c (x ∷ l) h = ground arith

module _ (curticks : ℕ) (s : State) where
  -- At the head of the bucket everything is still ahead.
  pub Stands-first : IsValid s → Stands curticks s (first (s.wheel (bit_and curticks s.mask)))
  Stands-first v =
      let b = bit_and curticks s.mask in
      record {
        valid = v;
        on = λ c h. ground (arith, count-first c (s.wheel b) h, v.linked c b);
        ahead = λ d q t. rw (suffix-first (s.wheel b)) (ground (arith, v.linked d b));
      }

  -- Past the end nothing that is due is left.
  pub Stands-none :
      Stands curticks s none → (d : ℕ) → (s.store d).pending ≡ true → (s.store d).time ≢ curticks
  Stands-none p d q t = omega (arith, p.ahead d q t)

  -- A callback has returned, and the walk goes on at `cc_next`.
  pub Stands-next : Walks curticks s → Stands curticks (record s { next = none }) s.next
  Stands-next p = record {
    valid = record {
      linked = p.valid.linked;
      plain = p.valid.plain;
      cursor = tt;
      idle = p.valid.idle;
    };
    on = λ c h. ground (arith, OnBucket-elim s s.next p.valid.cursor c h, p.here);
    ahead = p.ahead;
  }

  -- The state in which `softclock_call_cc` is called.
  abbrev pub taken : ℕ → State
  taken c = list_remove (record s { next = list_next s c; bucket = get_bucket s curticks }) c

  module _ (c : ℕ) (p : Stands curticks s (some c)) where
    after-ahead :
        (d : ℕ)
        → d ≢ c
        → (s.store d).pending ≡ true
        → (s.store d).time ≡ curticks
        → 0 < count d (suffix (list_next s c) (s.wheel (bit_and curticks s.mask)))
    after-ahead d n q t =
        let l = s.wheel (home s c) in
        ground (
          arith,
          count-suffix-after c d l (wheel-Once p.valid (home s c)) n,
          p.ahead d q t,
          p.on c refl,
        )

    -- A callout that is not due is passed.
    pub Stands-skip : (s.store c).time ≢ curticks → Stands curticks s (list_next s c)
    Stands-skip n = record {
      valid = p.valid;
      on = λ d h. ground (arith, list_next_lem p.valid c d h, p.on c refl);
      ahead = λ d q t. after-ahead d (λ e. n (ap (λ x. (s.store x).time) (sym e) ∙ t)) q t;
    }

    -- A callout that is due leaves the wheel, and its call begins.
    pub Walks-begin : (w : World) → Walks curticks (begin_call w (taken c) c true)
    unfolding begin_call
    Walks-begin w = record {
      valid = record {
        linked = Linked-off p.valid c _ (if_intro (λ (k : Callout). k.pending ≡ false) _ refl refl);
        plain = λ d. ground (arith, p.valid.plain d);
        cursor = OnBucket-intro (begin_call w (taken c) c true) _ λ d h.
            ground (arith, list_next_lem p.valid c d h, list_next_ne p.valid c d h, p.on c refl);
        idle = p.valid.idle;
      };
      here = refl;
      ahead = λ d q t.
          let n : d ≢ c = ground arith in
          let l = s.wheel (home s c) in
          ground (
            arith,
            count-suffix-erase (list_next s c) c d l (λ e. list_next_ne p.valid c c e refl) n,
            after-ahead d n,
            p.on c refl,
          );
    }

-- Started in a well-formed state, at a callout of a tick's bucket from which on all that are due
-- at the tick stand, a walk that ends leaves the callouts well formed and none pending for the
-- tick, whatever the callbacks did.
pub bucket_loop_done :
    (w : World) (fuel curticks : ℕ) (s : State) (o : Option ℕ)
    → Stands curticks s o
    → Ensures
        (λ t. IsValid t × ((d : ℕ) → (t.store d).pending ≡ true → (t.store d).time ≢ curticks))
        (bucket_loop w fuel curticks s o)
unfolding bucket_loop
bucket_loop_done w fuel curticks s none p = (p.valid, Stands-none curticks s p)
bucket_loop_done w zero curticks s (some c) p = tt
bucket_loop_done w (suc fuel) curticks s (some c) p =
    let Q = λ (t : State).
      IsValid t × ((d : ℕ) → (t.store d).pending ≡ true → (t.store d).time ≢ curticks) in
    if_cases (Ensures Q) ((s.store c).time == curticks)
      (λ e.
        Ensures-bind (Walks curticks) Q (call_cc w fuel (taken curticks s c) c true) _
          (call_cc-Stable (Stable-Walks curticks) w fuel (taken curticks s c) c
            (Walks-begin curticks s c p w))
          λ u q.
            bucket_loop_done w fuel curticks (record u { next = none }) u.next
              (Stands-next curticks u q))
      (λ e.
        let other : (s.store c).time ≢ curticks = ground arith in
        bucket_loop_done w fuel curticks s (list_next s c) (Stands-skip curticks s c p other))
