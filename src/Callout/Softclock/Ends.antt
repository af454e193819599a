-- ===== src/Callout/Softclock/Ends.antt =====
-- The walk of `softclock` of bsd/lib/lazybsd_kern_timeout.c ends, when the callbacks make no calls.
use lazybsd.Prelude.{
  ℕ, zero, suc, ◌<◌, ◌≡◌, ◌≢◌, refl, sym, true, Option, none, some, List, [], ◌∷◌, ◌==◌, arith,
  length, count, erase, after, bit_and, if_cases, if_true, ==_refl, Bool-cases, Option-cases, inl,
  inr,
}
use lazybsd.Callout.Run.{Run, ok, panic, fault, out_of_fuel, Ensures}
use lazybsd.Callout.State.{State, home, list_next}
use lazybsd.Callout.Invariant.{IsValid, count-after}
use lazybsd.Callout.Softclock.{World, begin_call, call_cc, bucket_loop}
use mathlib.Core.Path.{subst}
use lazybsd.Callout.Softclock.Keeps.{call_cc-Stable}
use lazybsd.Callout.Softclock.Walk.{
  Stands, Stands-none, Stands-next, Stands-skip, Walks, Walks-begin, Stable-Walks, taken,
  wheel-Once,
}
use lazybsd.Callout.Softclock.Suffix.{suffix, drop_to, Once, Once-tail}
use lazybsd.Callout.Softclock.Quiet.{
  IsQuiet, Callable, Framed, Returns, Returns-bind, call_cc_quiet,
}

Returns-Ensures :
    {A : Type 0} (P R : A → Type 0) (m : Run A)
    → Returns P m
    → Ensures R m
    → Returns (λ a. P a × R a) m
Returns-Ensures P R (ok a) p r = (p, r)
Returns-Ensures P R panic p r = p
Returns-Ensures P R fault p r = p
Returns-Ensures P R out_of_fuel p r = p

-- What is left gets shorter: behind a callout,
length-suffix-after :
    (c : ℕ) (l : List ℕ)
    → Once l
    → 0 < count c l
    → length (suffix (after c l) l) < length (drop_to c l)
length-suffix-after c [] h n = absurd (omega arith)
length-suffix-after c (x ∷ []) h n = ground arith
length-suffix-after c (x ∷ y ∷ l) h n =
    let rest = length-suffix-after c (y ∷ l) (Once-tail x (y ∷ l) h) in
    elim (Bool-cases (c == x)) [
      | inl e ↦ ground (arith, h y)
      | inr e ↦ elim (Option-cases (after c (y ∷ l))) [
        | inl o ↦ ground (arith, rest)
        | inr (z, o) ↦ ground (arith, rest, h z, count-after c z (y ∷ l) o)
      ]
    ]

-- and behind a callout that is unlinked.
length-suffix-erase :
    (c : ℕ) (l : List ℕ)
    → Once l
    → 0 < count c l
    → length (suffix (after c l) (erase c l)) < length (drop_to c l)
length-suffix-erase c [] h n = absurd (omega arith)
length-suffix-erase c (x ∷ []) h n = ground arith
length-suffix-erase c (x ∷ y ∷ l) h n =
    let rest = length-suffix-erase c (y ∷ l) (Once-tail x (y ∷ l) h) in
    elim (Bool-cases (c == x)) [
      | inl e ↦ ground (arith, h y)
      | inr e ↦ elim (Option-cases (after c (y ∷ l))) [
        | inl o ↦ ground (arith, rest)
        | inr (z, o) ↦ ground (arith, rest, h z, count-after c z (y ∷ l) o)
      ]
    ]

-- The callouts are well formed, and none is pending for the tick.
abbrev pub Done : (curticks : ℕ) → State → Type 0
Done curticks t = IsValid t × ((d : ℕ) → (t.store d).pending ≡ true → (t.store d).time ≢ curticks)

module _ (w : World) (q : IsQuiet w) (curticks : ℕ) where
  module _ (s : State) (c : ℕ) (p : Stands curticks s (some c)) (k : Callable s) where
    begin_call-Framed : Framed (taken curticks s c) (begin_call w (taken curticks s c) c true)
    unfolding begin_call
    begin_call-Framed = record {
      wheel = refl;
      next = refl;
      mask = refl;
      callable = λ d. ground (arith, k d);
    }

    standing : 0 < count c (s.wheel (home s c))
    standing = ground (arith, p.valid.linked c (home s c), p.on c refl)

    length-skip :
        length (suffix (list_next s c) (s.wheel (bit_and curticks s.mask)))
        < length (suffix (some c) (s.wheel (bit_and curticks s.mask)))
    length-skip =
        let on : home s c ≡ bit_and curticks s.mask = (p.on c refl).1 in
        subst
          (λ b. length (suffix (list_next s c) (s.wheel b)) < length (suffix (some c) (s.wheel b)))
          on (length-suffix-after c (s.wheel (home s c)) (wheel-Once p.valid (home s c)) standing)

    -- After the call of a callout that was due.
    length-next :
        (u : State)
        → Framed (taken curticks s c) u
        → length (suffix u.next (u.wheel (bit_and curticks u.mask)))
          < length (suffix (some c) (s.wheel (bit_and curticks s.mask)))
    length-next u f =
        let t = taken curticks s c in
        let on : home s c ≡ bit_and curticks s.mask = (p.on c refl).1 in
        let l = s.wheel (home s c) in
        let gone : t.wheel (home s c) ≡ erase c l = if_true _ _ (==_refl (home s c)) in
        let less = length-suffix-erase c l (wheel-Once p.valid (home s c)) standing in
        let less' : length (suffix (list_next s c) (t.wheel (home s c)))
            < length (suffix (some c) l) =
          subst (λ x. length (suffix (list_next s c) x) < length (suffix (some c) l)) (sym gone)
            less in
        let here =
          subst
            (λ b.
              length (suffix (list_next s c) (t.wheel b)) < length (suffix (some c) (s.wheel b)))
            on less' in
        rw (f.next, f.wheel, f.mask) here

  -- When nothing that runs from the clock makes a call, and each scheduled callout has a lock or
  -- does not want it released, the walk through a tick's bucket, started in a well-formed state
  -- at a callout from which on all that are due stand, returns within one round more than there
  -- are callouts from there on; then the callouts are well formed, and none is pending for the
  -- tick.
  pub bucket_loop-Returns :
      (fuel : ℕ) (s : State) (o : Option ℕ)
      → Stands curticks s o
      → Callable s
      → length (suffix o (s.wheel (bit_and curticks s.mask))) < fuel
      → Returns (Done curticks) (bucket_loop w fuel curticks s o)
  unfolding bucket_loop
  bucket_loop-Returns fuel s none p k h = (p.valid, Stands-none curticks s p)
  bucket_loop-Returns zero s (some c) p k h = absurd (omega arith)
  bucket_loop-Returns (suc fuel) s (some c) p k h =
      let t = taken curticks s c in
      if_cases (Returns (Done curticks)) ((s.store c).time == curticks)
        (λ e.
          Returns-bind (λ u. Framed t u × Walks curticks u) (Done curticks)
            (call_cc w fuel t c true) _
            (Returns-Ensures (Framed t) (Walks curticks) (call_cc w fuel t c true)
              (call_cc_quiet w q fuel t c (k c (p.on c refl).0) (begin_call-Framed s c p k))
              (call_cc-Stable (Stable-Walks curticks) w fuel t c (Walks-begin curticks s c p w)))
            λ u (f, g).
              bucket_loop-Returns fuel (record u { next = none }) u.next (Stands-next curticks u g)
                f.callable (omega (arith, length-next s c p k u f)))
        (λ e.
          let other : (s.store c).time ≢ curticks = ground arith in
          bucket_loop-Returns fuel s (list_next s c) (Stands-skip curticks s c p other) k
            (omega (arith, length-skip s c p k)))
