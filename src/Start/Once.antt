-- ===== src/Start/Once.antt =====
-- `mi_startup` of bsd/lib/lazybsd_main.c comes to its end, and calls every initialiser once.
use lazybsd.Prelude.{
  ℕ, zero, suc, ◌+◌, ◌≤◌, ◌<◌, ◌≡◌, true, not, Option, none, some, ◌==◌, List, [], ◌∷◌, count,
}
use lazybsd.Start.{World, Startup, Traversal, finished, restart, is_skipped}
use lazybsd.Start.Order.{All}
use lazybsd.Start.Runs.{one_if, Called}

abbrev pub Below : ℕ → List ℕ → Type 0
Below n l = All (λ a. a < n) l

abbrev BelowNew : ℕ → Option (List ℕ) → Type 0
BelowNew n none = Unit {0}
BelowNew n (some l) = Below n l

abbrev pub BelowAll : ℕ → List (List ℕ) → Type 0
BelowAll n [] = Unit {0}
BelowAll n (l ∷ ls) = Below n l × BelowAll n ls

-- All initialisers that there are, and that initialisers add, have names below `n`.
pub record IsBounded (n : ℕ) (w : World) : Type 0 where
  pub added : (x : ℕ) → BelowAll n (w.added x)

abbrev InRange : ℕ → Startup → Type 0
InRange n s = Below n s.sysinit × BelowNew n s.newsysinit

-- The initialisers below `n` that are not checked off.
pub pending : (n done : ℕ) → (ℕ → ℕ) → ℕ
pending zero done sub = 0
pending (suc n) done sub = one_if (not (sub n == done)) + pending n done sub

-- A traversal that starts again has checked off an initialiser more.
abbrev Fewer : ℕ → World → Startup → Traversal → Type 0
Fewer n w s (finished t) = Unit {0}
Fewer n w s (restart t) =
    (pending n w.si_sub_done t.subsystem < pending n w.si_sub_done s.subsystem) × InRange n t

-- Every initialiser in the sets at the end is a dummy or has been called once, and none more than once.
abbrev Complete : World → (ℕ → ℕ) → Startup → Type 0
Complete w before t =
    Called w before t × ((a : ℕ) → 1 ≤ count a t.sysinit → is_skipped w t a ≡ true)

abbrev Returns : World → (ℕ → ℕ) → Option Startup → Type 0
Returns w before none = ⊥
Returns w before (some t) = Complete w before t
