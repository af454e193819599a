-- ===== src/Callout/Softclock/Tick.antt =====
-- `callout_tick` of bsd/lib/lazybsd_kern_timeout.c: the ticks that it skips, and that it ends.
use lazybsd.Prelude.{
  ℕ, zero, suc, ◌^◌, ◌≤◌, ◌<◌, ◌≡◌, ◌≢◌, refl, Bool, true, false, Bool-cases, inl, inr, ltb, arith,
  sub32, u32_mod,
}
use lazybsd.Callout.Run.{ok}
use lazybsd.Callout.State.{State, get_bucket}
use lazybsd.Callout.Invariant.{IsValid}
use lazybsd.Callout.Softclock.{behind, tick_word, is_empty, tick_loop}

-- The state with another `cc_softticks`.
abbrev pub at : State → ℕ → State
at s t = record s { softticks = t }

-- No pending callout has a time from `from` on and before `to`, counted round the word.
abbrev pub NoneDue : State → (from to : ℕ) → Type 0
NoneDue s from to =
    (d : ℕ) → (s.store d).pending ≡ true → sub32 to from ≤ sub32 (s.store d).time from

module _ {s : State} (v : IsValid s) where
  -- An empty bucket holds no callout for its tick.
  empty_skips :
      (t d : ℕ)
      → is_empty (s.wheel (get_bucket s t)) ≡ true
      → (s.store d).pending ≡ true
      → (s.store d).time ≢ t
  empty_skips t d h p e = ground (arith, v.linked d (get_bucket s t))

  at-IsValid : (t : ℕ) → IsValid (at s t)
  at-IsValid t = record { linked = v.linked; plain = v.plain; cursor = v.cursor; idle = v.idle }

-- The next tick, where none is due at this one.
NoneDue-step :
    (s : State)
    → IsValid s
    → s.softticks < u32_mod
    → is_empty (s.wheel (get_bucket s s.softticks)) ≡ true
    → (to : ℕ) → to < u32_mod
    → sub32 to s.softticks ≢ 0
    → NoneDue s (tick_word s.softticks) to
    → NoneDue s s.softticks to
NoneDue-step s v h g to k n due d p =
    omega (arith, due d p, empty_skips v s.softticks d g p, (v.plain d).word)

-- In a well-formed state whose two clocks are 32-bit words, the loop of `callout_tick` ends when
-- it may go as many rounds as the clock is ahead of `cc_softticks` and one more; it only advances
-- `cc_softticks`, never beyond the clock, and no pending callout has a time among the ticks that
-- it passes over.
pub tick_loop_skips :
    (fuel : ℕ) (s : State)
    → IsValid s
    → s.softticks < u32_mod
    → s.ticks < u32_mod
    → sub32 s.ticks s.softticks < fuel
    → (t : ℕ) × (b : Bool) × (tick_loop fuel s ≡ ok (at s t, b))
      × (t < u32_mod)
      × NoneDue s s.softticks t
      × (sub32 t s.softticks ≤ sub32 s.ticks s.softticks)
unfolding tick_loop behind
tick_loop_skips zero s v h k f = absurd (omega arith)
tick_loop_skips (suc fuel) s v h k f =
    let here : NoneDue s s.softticks s.softticks = λ d p. omega arith in
    elim (Bool-cases (ltb (sub32 s.softticks s.ticks) (2 ^ 31))) [
      | inl e ↦ (s.softticks, false, rw e refl, h, here, omega arith)
      | inr e ↦ elim (Bool-cases (is_empty (s.wheel (get_bucket s s.softticks)))) [
        | inr g ↦ (s.softticks, true, rw (e, g) refl, h, here, omega arith)
        | inl g ↦
            let next = tick_word s.softticks in
            let late : 2 ^ 31 ≤ sub32 s.softticks s.ticks = ground arith in
            let rest =
              tick_loop_skips fuel (at s next) (at-IsValid v next) (omega arith) k (ground arith) in
            (
              rest.0,
              rest.1,
              rw (e, g) rest.2,
              rest.3,
              NoneDue-step s v h g rest.0 rest.3 (omega (arith, late, rest.3, rest.5)) rest.4,
              omega (arith, late, rest.3, rest.5),
            )
      ]
    ]
