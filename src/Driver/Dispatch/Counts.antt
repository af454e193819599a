-- ===== src/Driver/Dispatch/Counts.antt =====
-- How often the actions of `process_packets` of src/lazybsd_dpdk.cc hand on or make a packet.
use lazybsd.Prelude.{ℕ, ◌+◌, ◌≡◌, Bool, if◌then◌else◌, ◌==◌, List, [], ◌∷◌, ◌++◌, arith}
use lazybsd.Driver.Dispatch.{Received, Action, transmit, free, enqueue, enqueue_kni, clone, input}

abbrev pub one_if : Bool → ℕ
one_if b = if b then 1 else 0

-- How often a packet is handed on: sent, freed, put in a ring or given to the stack.
abbrev pub disposed : ℕ → List Action → ℕ
disposed a [] = 0
disposed a (transmit x len ∷ l) = one_if (a == x) + disposed a l
disposed a (free x ∷ l) = one_if (a == x) + disposed a l
disposed a (enqueue queue x ∷ l) = one_if (a == x) + disposed a l
disposed a (enqueue_kni x ∷ l) = one_if (a == x) + disposed a l
disposed a (clone source x ∷ l) = disposed a l
disposed a (input x ∷ l) = one_if (a == x) + disposed a l

-- How often it is made as a clone.
abbrev pub made : ℕ → List Action → ℕ
made a [] = 0
made a (clone source x ∷ l) = one_if (a == x) + made a l
made a (_ ∷ l) = made a l

abbrev pub names : List Received → List ℕ
names [] = []
names (p ∷ ps) = p.name ∷ names ps

pub disposed-append :
    (a : ℕ) (xs ys : List Action) → disposed a (xs ++ ys) ≡ disposed a xs + disposed a ys
disposed-append a [] ys = omega arith
disposed-append a (transmit x len ∷ xs) ys = omega (arith, disposed-append a xs ys)
disposed-append a (free x ∷ xs) ys = omega (arith, disposed-append a xs ys)
disposed-append a (enqueue queue x ∷ xs) ys = omega (arith, disposed-append a xs ys)
disposed-append a (enqueue_kni x ∷ xs) ys = omega (arith, disposed-append a xs ys)
disposed-append a (clone source x ∷ xs) ys = disposed-append a xs ys
disposed-append a (input x ∷ xs) ys = omega (arith, disposed-append a xs ys)

pub made-append : (a : ℕ) (xs ys : List Action) → made a (xs ++ ys) ≡ made a xs + made a ys
made-append a [] ys = omega arith
made-append a (transmit x len ∷ xs) ys = made-append a xs ys
made-append a (free x ∷ xs) ys = made-append a xs ys
made-append a (enqueue queue x ∷ xs) ys = made-append a xs ys
made-append a (enqueue_kni x ∷ xs) ys = made-append a xs ys
made-append a (clone source x ∷ xs) ys = omega (arith, made-append a xs ys)
made-append a (input x ∷ xs) ys = made-append a xs ys

-- The actions hand on what they make, and `extra` besides.
abbrev pub Balanced : ℕ → (extra : ℕ) → List Action → Type 0
Balanced a extra l = disposed a l ≡ made a l + extra

pub append-Balanced :
    (a m n : ℕ) (xs ys : List Action)
    → Balanced a m xs
    → Balanced a n ys
    → Balanced a (m + n) (xs ++ ys)
append-Balanced a m n xs ys h k = omega (arith, disposed-append a xs ys, made-append a xs ys)
