-- ===== src/Start/Runs.antt =====
-- What a traversal of `mi_startup` of bsd/lib/lazybsd_main.c keeps.
use lazybsd.Prelude.{
  ℕ, ◌+◌, ◌≡◌, refl, ap, sym, ◌∙◌, Bool, true, false, ◌||◌, Option, none, some, if◌then◌else◌, ◌==◌,
  update, List, [], ◌∷◌, ◌++◌, count, arith, Bool-cases, inl, inr, ==_iff, if_cases,
}
use lazybsd.Start.{
  World, Startup, sysinit_add, add_all, call, Traversal, finished, restart, restarted, is_skipped,
  after_call, traverse,
}
use lazybsd.Start.Order.{All}

add_all_keeps :
    (sets : List (List ℕ)) (s : Startup)
    → ((add_all sets s).calls ≡ s.calls)
      × ((add_all sets s).subsystem ≡ s.subsystem)
      × ((add_all sets s).sysinit ≡ s.sysinit)
unfolding sysinit_add
add_all_keeps [] s = (refl, refl, refl)
add_all_keeps (set ∷ sets) s = add_all_keeps sets (sysinit_add set s)

pub call_keeps :
    (w : World) (x : ℕ) (s : Startup)
    → ((call w x s).calls ≡ s.calls ++ x ∷ [])
      × ((call w x s).subsystem ≡ update s.subsystem x w.si_sub_done)
      × ((call w x s).sysinit ≡ s.sysinit)
unfolding call
call_keeps w x s =
    let k = add_all_keeps (w.added x) (record s { calls = s.calls ++ x ∷ [] }) in
    (k.0, ap (λ f. update f x w.si_sub_done) k.1, k.2)

count-append_one :
    (a x : ℕ) (l : List ℕ) → count a (l ++ x ∷ []) ≡ count a l + (if a == x then 1 else 0)
count-append_one a x [] = omega arith
count-append_one a x (y ∷ l) = omega (arith, count-append_one a x l)

abbrev pub one_if : Bool → ℕ
one_if b = if b then 1 else 0

-- What has been called is what is checked off, and nothing else changed.
pub record Called (w : World) (before : ℕ → ℕ) (s : Startup) : Type 0 where
  pub once : (a : ℕ) → count a s.calls ≡ one_if (s.subsystem a == w.si_sub_done)
  pub kept : (a : ℕ) → s.subsystem a == w.si_sub_done ≡ false → s.subsystem a ≡ before a

module _ (w : World) (before : ℕ → ℕ) where
  call-Called :
      (x : ℕ) (s : Startup)
      → is_skipped w s x ≡ false
      → Called w before s
      → Called w before (call w x s)
  call-Called x s open_one h =
      let k = call_keeps w x s in
      let fresh : s.subsystem x == w.si_sub_done ≡ false = ground arith in
      record {
        once = λ a.
            ap (count a) k.0
            ∙ count-append_one a x s.calls
            ∙ once_at a fresh (h.once a)
            ∙ sym (ap (λ f. one_if (f a == w.si_sub_done)) k.1);
        kept = λ a e.
            ap (λ f. f a) k.1 ∙ kept_at a (sym (ap (λ f. f a == w.si_sub_done) k.1) ∙ e) (h.kept a);
      }
    where
      once_at :
          (a : ℕ)
          → s.subsystem x == w.si_sub_done ≡ false
          → count a s.calls ≡ one_if (s.subsystem a == w.si_sub_done)
          → count a s.calls + (if a == x then 1 else 0)
            ≡ one_if (update s.subsystem x w.si_sub_done a == w.si_sub_done)
      once_at a fresh h = elim (Bool-cases (a == x)) [
        | inl same ↦
            let e : a ≡ x = (==_iff a x).0 same in
            let gone : one_if (s.subsystem a == w.si_sub_done) ≡ 0 =
              ap (λ y. one_if (s.subsystem y == w.si_sub_done)) e ∙ ap one_if fresh in
            let self : w.si_sub_done == w.si_sub_done ≡ true = ground arith in
            rw (same, self) (omega (arith, h ∙ gone))
        | inr other ↦ rw other (omega (arith, h))
      ]

      kept_at :
          (a : ℕ)
          → update s.subsystem x w.si_sub_done a == w.si_sub_done ≡ false
          → (s.subsystem a == w.si_sub_done ≡ false → s.subsystem a ≡ before a)
          → update s.subsystem x w.si_sub_done a ≡ before a
      kept_at a e h = elim (Bool-cases (a == x)) [
        | inl same ↦ absurd (ground arith)
        | inr other ↦
            let f : s.subsystem a == w.si_sub_done ≡ false = ground arith in rw other (h f)
      ]

-- A state in which every initialiser that was skipped before still is.
abbrev pub Skips : World → Startup → Startup → Type 0
Skips w s t = (a : ℕ) → is_skipped w s a ≡ true → is_skipped w t a ≡ true

call-Skips :
    (w : World) (x : ℕ) (s : Startup)
    → Skips w s (call w x s) × (is_skipped w (call w x s) x ≡ true)
call-Skips w x s =
    let k = (call_keeps w x s).1 in
    let self : (x == x) ≡ true = ground arith in
    let done : (w.si_sub_done == w.si_sub_done) ≡ true = ground arith in
    (λ a h. rw k (still a h), rw (k, self, done) (ground arith))
  where
    still :
        (a : ℕ)
        → is_skipped w s a ≡ true
        → (update s.subsystem x w.si_sub_done a == w.si_sub_dummy
            || update s.subsystem x w.si_sub_done a == w.si_sub_done)
          ≡ true
    still a h = ground arith

-- A property of the state in which a traversal ends or starts again.
abbrev pub InBoth : (Startup → Type 0) → Traversal → Type 0
InBoth P (finished t) = P t
InBoth P (restart t) = P t

after_call-InBoth :
    (P : Startup → Type 0) (o : Option (List ℕ)) (t : Startup) (on : Traversal)
    → ((new : List ℕ) → P (restarted new t))
    → InBoth P on
    → InBoth P (after_call o t on)
after_call-InBoth P none t on h k = k
after_call-InBoth P (some new) t on h k = h new

pub traverse-Called :
    (w : World) (before : ℕ → ℕ) (l : List ℕ) (s : Startup)
    → Called w before s
    → InBoth (Called w before) (traverse w l s)
unfolding traverse
traverse-Called w before [] s h = h
traverse-Called w before (x ∷ xs) s h =
    if_cases (InBoth (Called w before)) (is_skipped w s x) (λ e. traverse-Called w before xs s h)
      (λ e.
        let t = call w x s in
        let c = call-Called w before x s e h in
        after_call-InBoth (Called w before) t.newsysinit t (traverse w xs t)
          (λ new. record { once = c.once; kept = c.kept }) (traverse-Called w before xs t c))

-- At the end all initialisers of the list are dummies or checked off.
abbrev pub Ends : World → List ℕ → Startup → Traversal → Type 0
Ends w l s (finished t) =
    Skips w s t × All (λ a. is_skipped w t a ≡ true) l × (t.sysinit ≡ s.sysinit)
Ends w l s (restart t) = Unit {0}

skipped-Ends :
    (w : World) (x : ℕ) (xs : List ℕ) (s : Startup) (r : Traversal)
    → is_skipped w s x ≡ true
    → Ends w xs s r
    → Ends w (x ∷ xs) s r
skipped-Ends w x xs s (finished t) e h = (h.0, (h.0 x e, h.1), h.2)
skipped-Ends w x xs s (restart t) e h = tt

called-Ends :
    (w : World) (x : ℕ) (xs : List ℕ) (s : Startup) (r : Traversal)
    → Ends w xs (call w x s) r
    → Ends w (x ∷ xs) s r
called-Ends w x xs s (finished t) h =
    let c = call-Skips w x s in
    (λ a e. h.0 a (c.0 a e), (h.0 x c.1, h.1), h.2 ∙ (call_keeps w x s).2)
called-Ends w x xs s (restart t) h = tt

after_call-Ends :
    (w : World) (l : List ℕ) (s : Startup) (o : Option (List ℕ)) (t : Startup) (on : Traversal)
    → Ends w l s on
    → Ends w l s (after_call o t on)
after_call-Ends w l s none t on h = h
after_call-Ends w l s (some new) t on h = tt

pub traverse-Ends : (w : World) (l : List ℕ) (s : Startup) → Ends w l s (traverse w l s)
unfolding traverse
traverse-Ends w [] s = (λ a e. e, tt, refl)
traverse-Ends w (x ∷ xs) s =
    if_cases (Ends w (x ∷ xs) s) (is_skipped w s x)
      (λ e. skipped-Ends w x xs s (traverse w xs s) e (traverse-Ends w xs s))
      (λ e.
        let t = call w x s in
        after_call-Ends w (x ∷ xs) s t.newsysinit t (traverse w xs t)
          (called-Ends w x xs s (traverse w xs t) (traverse-Ends w xs t)))
