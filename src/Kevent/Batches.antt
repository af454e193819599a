-- ===== src/Kevent/Batches.antt =====
-- The batches of the kernel are not seen by a caller of bsd/lib/lazybsd_kevent.c.
use lazybsd.Prelude.{
  ℕ, zero, suc, ◌+◌, ◌<◌, length, get_elem?, ◌≡◌, refl, sym, ap, ◌∙◌, Option, none, some, List, [],
  ◌∷◌, ◌++◌, ◌==◌, ℤ, arith, if_intro,
}
use mathlib.Core.List.{append_assoc, append-nil}
use lazybsd.Kevent.{
  copied_entries, SysKeventArgs, each, out_to, kevent_copyout, kevent_copyin, Step, copyin, copyout,
  KqKernel, KqState, kq_step, kq_steps, lazybsd_kevent_do_each,
}

-- How many changes the kernel takes in all, and the events that it gives.
abbrev pub taken : List Step → ℕ
taken [] = 0
taken (copyin count ∷ xs) = count + taken xs
taken (copyout kevp ∷ xs) = taken xs

abbrev pub given : List Step → List ℕ
given [] = []
given (copyin count ∷ xs) = given xs
given (copyout kevp ∷ xs) = kevp ++ given xs

copied_entries_same :
    (n : ℕ) (l k : ℕ → ℕ) → ((i : ℕ) → l i ≡ k i) → copied_entries n l ≡ copied_entries n k
copied_entries_same zero l k h = refl
copied_entries_same (suc n) l k h =
    ap (λ x. x ∷ copied_entries n (λ i. l (suc i))) (h 0)
    ∙ ap (λ t. k 0 ∷ t) (copied_entries_same n (λ i. l (suc i)) (λ i. k (suc i)) (λ i. h (suc i)))

copied_entries-append :
    (n k : ℕ) (l : ℕ → ℕ)
    → copied_entries n l ++ copied_entries k (λ i. l (n + i)) ≡ copied_entries (n + k) l
copied_entries-append zero k l =
    let none_more : 0 + k ≡ k = omega arith in
    rw none_more (copied_entries_same k (λ i. l (0 + i)) l (λ i. ap l (omega arith)))
copied_entries-append (suc n) k l =
    let next : suc n + k ≡ suc (n + k) = omega arith in
    rw next (
      ap (λ t. l 0 ∷ t)
        (ap (λ t. copied_entries n (λ i. l (suc i)) ++ t)
            (copied_entries_same k (λ i. l (suc n + i)) (λ i. l (suc (n + i)))
              (λ i. ap l (omega arith)))
          ∙ copied_entries-append n k (λ i. l (suc i))))

length-copied_entries : (n : ℕ) (l : ℕ → ℕ) → length (copied_entries n l) ≡ n
length-copied_entries zero l = refl
length-copied_entries (suc n) l = omega (arith, length-copied_entries n (λ i. l (suc i)))

get_elem?-copied_entries :
    (n i : ℕ) (l : ℕ → ℕ) → i < n → get_elem? (copied_entries n l) i ≡ some (l i)
get_elem?-copied_entries zero i l lt = absurd (omega (arith, lt))
get_elem?-copied_entries (suc n) zero l lt = refl
get_elem?-copied_entries (suc n) (suc i) l lt =
    get_elem?-copied_entries n i (λ j. l (suc j)) (omega (arith, lt))

-- A list has the first `n` entries at a place of the memory, in order.
pub record HasFirst (n : ℕ) (l : ℕ → ℕ) (changes : List ℕ) : Type 0 where
  pub how_many : length changes ≡ n
  pub entry : (i : ℕ) → i < n → get_elem? changes i ≡ some (l i)

copied_entries-HasFirst :
    (n : ℕ) (l : ℕ → ℕ) (changes : List ℕ) → changes ≡ copied_entries n l → HasFirst n l changes
copied_entries-HasFirst n l changes e = record {
  how_many = ap length e ∙ length-copied_entries n l;
  entry = λ i lt. ap (λ c. get_elem? c i) e ∙ get_elem?-copied_entries n i l lt;
}

module _ {U : Type 0} where
  -- A caller's list once every event has been handed to its function, one after the other.
  abbrev pub handed : (U → ℕ → U) → List ℕ → U → U
  handed f [] u = u
  handed f (e ∷ es) u = handed f es (f u e)

  each-handed : (f : U → ℕ → U) (es : List ℕ) (u : U) → each f es u ≡ handed f es u
  each-handed f [] u = refl
  each-handed f (e ∷ es) u = each-handed f es (f u e)

  out_to-changelist :
      (o : Option (U → ℕ → U)) (es : List ℕ) (uap : SysKeventArgs U)
      → (out_to o es uap).changelist ≡ uap.changelist
  out_to-changelist none es uap = refl
  out_to-changelist (some f) es uap = refl

  handed-append :
      (f : U → ℕ → U) (xs ys : List ℕ) (u : U) → handed f (xs ++ ys) u ≡ handed f ys (handed f xs u)
  handed-append f [] ys u = refl
  handed-append f (x ∷ xs) ys u = handed-append f xs ys (f u x)

  out_to-do_each :
      (o : Option (U → ℕ → U)) (es : List ℕ) (uap : SysKeventArgs U)
      → (out_to o es uap).do_each ≡ uap.do_each
  out_to-do_each none es uap = refl
  out_to-do_each (some f) es uap = refl

  changes-kq_steps :
      (xs : List Step) (s : KqState U)
      → (kq_steps xs s).changes ≡ s.changes ++ copied_entries (taken xs) s.uap.changelist
  unfolding kevent_copyin kevent_copyout
  changes-kq_steps [] s = sym (append-nil s.changes)
  changes-kq_steps (copyin n ∷ xs) s =
      let l = s.uap.changelist in
      changes-kq_steps xs (kq_step (copyin n) s)
      ∙ append_assoc s.changes (copied_entries n l) (copied_entries (taken xs) (λ i. l (n + i)))
      ∙ ap (λ t. s.changes ++ t) (copied_entries-append n (taken xs) l)
  changes-kq_steps (copyout es ∷ xs) s =
      changes-kq_steps xs (kq_step (copyout es) s)
      ∙ ap (λ t. s.changes ++ copied_entries (taken xs) t)
          (out_to-changelist s.uap.do_each es s.uap)

  -- The events where a caller finds them: stored one after the other, or handed to `do_each` in order.
  abbrev pub Delivered :
      Option (U → ℕ → U)
      → (stored : List ℕ) → (user : U) → (events : List ℕ) → SysKeventArgs U
      → Type 0
  Delivered none stored user events uap = uap.stored ≡ stored ++ events
  Delivered (some f) stored user events uap = uap.user ≡ handed f events user

  Delivered-kq_steps :
      (xs : List Step) (s : KqState U) (o : Option (U → ℕ → U))
      → s.uap.do_each ≡ o
      → Delivered o s.uap.stored s.uap.user (given xs) (kq_steps xs s).uap
  unfolding kevent_copyin kevent_copyout
  Delivered-kq_steps [] s none h = sym (append-nil s.uap.stored)
  Delivered-kq_steps [] s (some f) h = refl
  Delivered-kq_steps (copyin n ∷ xs) s o h = Delivered-kq_steps xs (kq_step (copyin n) s) o h
  Delivered-kq_steps (copyout es ∷ xs) s none h =
      let t = kq_step (copyout es) s in
      let same = out_to-do_each s.uap.do_each es s.uap in
      Delivered-kq_steps xs t none (same ∙ h)
      ∙ ap (λ l. l ++ given xs) (ap (λ o. (out_to o es s.uap).stored) h)
      ∙ append_assoc s.uap.stored es (given xs)
  Delivered-kq_steps (copyout es ∷ xs) s (some f) h =
      let t = kq_step (copyout es) s in
      let same = out_to-do_each s.uap.do_each es s.uap in
      Delivered-kq_steps xs t (some f) (same ∙ h)
      ∙ ap (λ o. handed f (given xs) (out_to o es s.uap).user) h
      ∙ ap (handed f (given xs)) (each-handed f es s.uap.user)
      ∙ sym (handed-append f es (given xs) s.uap.user)

  -- Whatever batches the kernel takes and gives, and whether it fails in the end or not, `lazybsd_kevent_do_each` passes it
  -- the changes from the first on, as many as it asks for in all, and every event that it gives
  -- reaches the caller once and in order: stored one behind the other, or handed to `do_each`.
  pub kevent_do_each-Delivered :
      (k : KqKernel) (kq nchanges nevents : ℕ) (l : ℕ → ℕ) (u : U) (o : Option (U → ℕ → U))
      → let steps = (k.kern_kevent kq nchanges nevents 0 0).steps in
        let s = (lazybsd_kevent_do_each k kq l nchanges u nevents o).0 in
        HasFirst (taken steps) l s.changes × Delivered o [] u (given steps) s.uap
  unfolding lazybsd_kevent_do_each
  kevent_do_each-Delivered k kq nchanges nevents l u o =
      let r = k.kern_kevent kq nchanges nevents 0 0 in
      let uap : SysKeventArgs U = record { changelist = l; stored = []; user = u; do_each = o } in
      let s : KqState U = record { changes = []; uap = uap; errno = none } in
      if_intro
        (λ (q : KqState U × ℤ).
          HasFirst (taken r.steps) l q.0.changes × Delivered o [] u (given r.steps) q.0.uap)
        (r.error == 0)
        (
          copied_entries-HasFirst (taken r.steps) l _ (changes-kq_steps r.steps s),
          Delivered-kq_steps r.steps s o refl,
        )
        (
          copied_entries-HasFirst (taken r.steps) l _ (changes-kq_steps r.steps s),
          Delivered-kq_steps r.steps s o refl,
        )
