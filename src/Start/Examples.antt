-- ===== src/Start/Examples.antt =====
-- The theorems on bsd/lib/lazybsd_main.c at work, and a run of `mi_startup`.
use lazybsd.Prelude.{ℕ, ◌≡◌, refl, none, some, [], ◌∷◌, if◌then◌else◌, ◌==◌, count}
use lazybsd.Start.{World, Startup, sort, mi_startup}
use lazybsd.Start.Order.{IsSorted, sort-IsSorted}

-- The initialiser 2 adds the initialiser 0, which belongs to an earlier subsystem than 1.
abbrev world : World
world = record {
  si_sub_dummy = 0;
  si_sub_done = 1;
  order = λ a. a;
  added = λ a. if a == 2 then (0 ∷ []) ∷ [] else [];
}

abbrev subsystems : ℕ → ℕ
subsystems a = if a == 0 then 5 else if a == 1 then 7 else if a == 2 then 3 else 0

abbrev startup : Startup
startup = record { sysinit = 3 ∷ 1 ∷ 2 ∷ []; newsysinit = none; subsystem = subsystems; calls = [] }

runs :
    mi_startup 3 world startup
    ≡ some record {
      sysinit = 3 ∷ 2 ∷ 0 ∷ 1 ∷ [];
      newsysinit = none;
      subsystem =
          λ a. if a == 1 then 1 else if a == 0 then 1 else if a == 2 then 1 else subsystems a;
      calls = 2 ∷ 0 ∷ 1 ∷ [];
    }
unfolding mi_startup
runs = refl

sort-IsSorted_example :
    IsSorted subsystems (λ a. a) (sort subsystems (λ a. a) (3 ∷ 1 ∷ 2 ∷ []))
    × ((a : ℕ) → count a (sort subsystems (λ a. a) (3 ∷ 1 ∷ 2 ∷ [])) ≡ count a (3 ∷ 1 ∷ 2 ∷ []))
sort-IsSorted_example = sort-IsSorted subsystems (λ a. a) (3 ∷ 1 ∷ 2 ∷ [])
