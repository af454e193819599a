-- ===== src/Kevent/Examples.antt =====
-- Tests of the model of bsd/lib/lazybsd_kevent.c, and an instance of its theorem.
use lazybsd.Prelude.{ℕ, ◌≡◌, refl, ◌+◌, ◌*◌, some, [], ◌∷◌}
use lazybsd.Kevent.{copyin, copyout, KqReply, KqKernel, lazybsd_kevent, lazybsd_kevent_do_each}
use lazybsd.Kevent.Batches.{taken, given, HasFirst, Delivered, kevent_do_each-Delivered}

-- A kernel that takes three changes in two batches and gives three events in two.
abbrev two_batches : KqReply
two_batches = record {
  steps = copyin 2 ∷ copyin 1 ∷ copyout (7 ∷ []) ∷ copyout (8 ∷ 9 ∷ []) ∷ [];
  error = 0;
  retval = 3;
}

abbrev kernel : KqKernel
kernel = record {
  kern_kqueue = two_batches;
  kern_kevent = λ kq nchanges nevents sec nsec. two_batches;
  host = λ x. 11;
}

kevent_stores : (lazybsd_kevent kernel 4 (λ i. i + 1) 3 8).0.uap.stored ≡ 7 ∷ 8 ∷ 9 ∷ []
unfolding lazybsd_kevent
kevent_stores = refl

kevent_do_each-Delivered_example :
    let s =
      (lazybsd_kevent_do_each {U = ℕ} kernel 4 (λ i. i + 1) 3 0 8 (some (λ u e. u * 10 + e))).0 in
    HasFirst (taken two_batches.steps) (λ i. i + 1) s.changes
    × Delivered {U = ℕ} (some (λ u e. u * 10 + e)) [] 0 (given two_batches.steps) s.uap
kevent_do_each-Delivered_example =
    kevent_do_each-Delivered {U = ℕ} kernel 4 3 8 (λ i. i + 1) 0 (some (λ u e. u * 10 + e))
