-- ===== src/Times/Limit.antt =====
-- How many events `ppsratecheck` and `ratecheck` of bsd/lib/lazybsd_patch.c let pass.
use lazybsd.Prelude.{
  ℕ, zero, suc, ◌+◌, ◌-◌, ◌%◌, ◌^◌, ◌≤◌, ◌<◌, ◌≡◌, refl, Bool, true, false, some, if◌then◌else◌,
  ltb, leb, ◌==◌, List, [], ◌∷◌, arith, not, ◌||◌,
}
use lazybsd.Times.{Rate, ppsratecheck}

-- Events at given ticks, one after the other: how many pass.
abbrev pub passed : (hz maxpps : ℕ) → List ℕ → Rate → ℕ
passed hz maxpps [] r = 0
passed hz maxpps (ticks ∷ l) r =
    let x = ppsratecheck ticks hz (some maxpps) r in (if x.1 then 1 else 0) + passed hz maxpps l x.0

-- The ticks are in the second that began at `lasttime`.
abbrev pub Within : (hz lasttime : ℕ) → List ℕ → Type 0
Within hz lasttime [] = Unit {0}
Within hz lasttime (ticks ∷ l) = ((ticks + 2 ^ 32 - lasttime) % 2 ^ 32 < hz) × Within hz lasttime l

within_step :
    (hz maxpps ticks : ℕ) (r : Rate)
    → 1 ≤ r.lasttime
    → (ticks + 2 ^ 32 - r.lasttime) % 2 ^ 32 < hz
    → ppsratecheck ticks hz (some maxpps) r
      ≡ (record { lasttime = r.lasttime; curpps = r.curpps + 1 }, ltb (r.curpps + 1) maxpps)
unfolding ppsratecheck
within_step hz maxpps ticks r h k =
    let begun : (r.lasttime == 0) ≡ false = ground arith in
    let inside : leb hz ((ticks + 2 ^ 32 - r.lasttime) % 2 ^ 32) ≡ false = ground arith in
    rw (begun, inside) refl

passed-le :
    (hz maxpps : ℕ) (l : List ℕ) (r : Rate)
    → 1 ≤ r.lasttime
    → Within hz r.lasttime l
    → passed hz maxpps l r ≤ maxpps - 1 - r.curpps
passed-le hz maxpps [] r h k = omega arith
passed-le hz maxpps (ticks ∷ l) r h k =
    let e = within_step hz maxpps ticks r h k.0 in
    let rest =
      passed-le hz maxpps l (record { lasttime = r.lasttime; curpps = r.curpps + 1 }) h k.1 in
    rw e (by_test (ltb (r.curpps + 1) maxpps) refl rest)
  where
    by_test :
        (b : Bool)
        → ltb (r.curpps + 1) maxpps ≡ b
        → passed hz maxpps l (record { lasttime = r.lasttime; curpps = r.curpps + 1 })
          ≤ maxpps - 1 - (r.curpps + 1)
        → (if b then 1 else 0)
            + passed hz maxpps l (record { lasttime = r.lasttime; curpps = r.curpps + 1 })
          ≤ maxpps - 1 - r.curpps
    by_test true e h = let lt : r.curpps + 1 < maxpps = ground arith in omega (arith, h, lt)
    by_test false e h = omega (arith, h)

begin_step :
    (hz maxpps ticks : ℕ) (r : Rate)
    → r.lasttime == 0 || leb hz ((ticks + 2 ^ 32 - r.lasttime) % 2 ^ 32) ≡ true
    → ppsratecheck ticks hz (some maxpps) r
      ≡ (record { lasttime = ticks; curpps = 1 }, not (maxpps == 0))
unfolding ppsratecheck
begin_step hz maxpps ticks r h = rw h refl

-- In the second that begins with an event at a tick other than 0, `maxpps` events pass at most, and
-- `maxpps - 1` at most where `maxpps` is 2 or more, whatever their number.
pub ppsratecheck-limits :
    (hz maxpps ticks : ℕ) (l : List ℕ) (r : Rate)
    → r.lasttime == 0 || leb hz ((ticks + 2 ^ 32 - r.lasttime) % 2 ^ 32) ≡ true
    → 1 ≤ ticks
    → Within hz ticks l
    → (passed hz maxpps (ticks ∷ l) r ≤ maxpps)
      × (2 ≤ maxpps → passed hz maxpps (ticks ∷ l) r ≤ maxpps - 1)
ppsratecheck-limits hz maxpps ticks l r begins h k =
    let rest = passed-le hz maxpps l (record { lasttime = ticks; curpps = 1 }) h k in
    rw (begin_step hz maxpps ticks r begins) (by_limit maxpps rest)
  where
    by_limit :
        (m : ℕ) {n : ℕ}
        → n ≤ m - 1 - 1
        → ((if not (m == 0) then 1 else 0) + n ≤ m)
          × (2 ≤ m → (if not (m == 0) then 1 else 0) + n ≤ m - 1)
    by_limit zero le = (omega (arith, le), λ two. omega (arith, two))
    by_limit (suc m) le = (ground arith, λ two. ground arith)
