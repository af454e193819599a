-- ===== src/Start.antt =====
-- bsd/lib/lazybsd_main.c: `sysinit_add` and `mi_startup`, which run the initialisers of the stack. An
-- initialiser is a name; its subsystem, which is set to SI_SUB_DONE behind its call, is in a store,
-- as the sets hold pointers. What an initialiser does is a parameter: the sets that it adds.
pub mod Order
pub mod Runs
pub mod Once
mod Examples
use lazybsd.Prelude.{
  ℕ, zero, suc, Bool, true, false, ◌&&◌, ◌||◌, Option, none, some, if◌then◌else◌, ltb, leb, ◌==◌,
  update, List, [], ◌∷◌, ◌++◌, length,
}

-- The numbers that the kernel's headers give, the order of an initialiser in its subsystem, and the calls
-- of `sysinit_add` that an initialiser makes.
pub record World : Type 0 where
  pub si_sub_dummy : ℕ
  pub si_sub_done : ℕ
  pub order : ℕ → ℕ
  pub added : ℕ → List (List ℕ)

-- `sysinit`, `newsysinit`, the subsystems, and the calls so far
pub record Startup : Type 0 where
  pub sysinit : List ℕ
  pub newsysinit : Option (List ℕ)
  pub subsystem : ℕ → ℕ
  pub calls : List ℕ

-- `sysinit_add`; without memory there is a panic, which is left out.
abbrev pub merged : Option (List ℕ) → (sysinit set : List ℕ) → List ℕ
merged none sysinit set = sysinit ++ set
merged (some new) sysinit set = new ++ set

unfoldable pub sysinit_add : List ℕ → Startup → Startup
sysinit_add set s = record s { newsysinit = some (merged s.newsysinit s.sysinit set) }

-- The test of the sort, under which two initialisers stay as they are
abbrev pub in_order : (subsystem order : ℕ → ℕ) → ℕ → ℕ → Bool
in_order sub order a b = ltb (sub a) (sub b) || (sub a == sub b && leb (order a) (order b))

-- The inner loop of the sort: the initialiser at `sipp`, and those behind it
unfoldable pub pass : (subsystem order : ℕ → ℕ) → ℕ → List ℕ → ℕ × List ℕ
pass sub order cur [] = (cur, [])
pass sub order cur (x ∷ xs) =
    let keep = in_order sub order cur x in
    let r = pass sub order (if keep then cur else x) xs in (r.0, (if keep then x else cur) ∷ r.1)

-- The outer loop, for the rounds left
unfoldable pub sort_rounds : (rounds : ℕ) → (subsystem order : ℕ → ℕ) → List ℕ → List ℕ
unfolding pass
sort_rounds zero sub order l = l
sort_rounds (suc rounds) sub order [] = []
sort_rounds (suc rounds) sub order (x ∷ xs) =
    let r = pass sub order x xs in r.0 ∷ sort_rounds rounds sub order r.1

unfoldable pub sort : (subsystem order : ℕ → ℕ) → List ℕ → List ℕ
unfolding sort_rounds
sort sub order l = sort_rounds (length l) sub order l

-- An initialiser is called, adds its sets, and is checked off.
abbrev pub add_all : List (List ℕ) → Startup → Startup
add_all [] s = s
add_all (set ∷ sets) s = add_all sets (sysinit_add set s)

unfoldable pub call : World → ℕ → Startup → Startup
unfolding sysinit_add
call w x s =
    let t = add_all (w.added x) (record s { calls = s.calls ++ x ∷ [] }) in
    record t { subsystem = update t.subsystem x w.si_sub_done }

-- The traversal: it comes to its end, or a set was added and the sort starts again.
pub data Traversal : Type 0 where
  finished : Startup → Traversal
  restart : Startup → Traversal

abbrev pub restarted : List ℕ → Startup → Startup
restarted new s = record s { sysinit = new; newsysinit = none }

abbrev pub is_skipped : World → Startup → ℕ → Bool
is_skipped w s x = s.subsystem x == w.si_sub_dummy || s.subsystem x == w.si_sub_done

-- Behind a call: if a set was added, the sort starts again, otherwise the traversal goes on.
abbrev pub after_call : Option (List ℕ) → Startup → Traversal → Traversal
after_call none t on = on
after_call (some new) t on = restart (restarted new t)

unfoldable pub traverse : World → List ℕ → Startup → Traversal
unfolding call
traverse w [] s = finished s
traverse w (x ∷ xs) s =
    let t = call w x s in
    let skip = traverse w xs s in
    let on = traverse w xs t in if is_skipped w s x then skip else after_call t.newsysinit t on

-- `mi_startup` from the label `restart` on; the fuel bounds the sorts, and `none` is its end.
unfoldable pub mi_startup : ℕ → World → Startup → Option Startup
unfolding traverse sort
mi_startup zero w s = none
mi_startup (suc fuel) w s =
    let l = sort s.subsystem w.order s.sysinit in
    elim (traverse w l (record s { sysinit = l })) [
      | finished t ↦ some t
      | restart t ↦ mi_startup fuel w t
    ]
