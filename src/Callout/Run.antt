-- ===== src/Callout/Run.antt =====
-- How a call of the callout code ends.
pub data Run (A : Type 0) : Type 0 where
  ok : A → Run A
  -- `panic` was called
  panic : Run A
  -- a NULL pointer was dereferenced
  fault : Run A
  -- the rounds given to a loop are used up
  out_of_fuel : Run A

infixl 5 ◌>>=◌
abbrev pub ◌>>=◌ : {A B : Type 0} → Run A → (A → Run B) → Run B
ok a >>= f = f a
panic >>= f = panic
fault >>= f = fault
out_of_fuel >>= f = out_of_fuel

-- A property of the result of every call that returns.
abbrev pub Ensures : {A : Type 0} → (A → Type 0) → Run A → Type 0
Ensures P (ok a) = P a
Ensures P panic = Unit
Ensures P fault = Unit
Ensures P out_of_fuel = Unit

pub Ensures-bind :
    {A B : Type 0} (P : A → Type 0) (Q : B → Type 0) (m : Run A) (f : A → Run B)
    → Ensures P m
    → ((a : A) → P a → Ensures Q (f a))
    → Ensures Q (m >>= f)
Ensures-bind P Q (ok a) f h next = next a h
Ensures-bind P Q panic f h next = tt
Ensures-bind P Q fault f h next = tt
Ensures-bind P Q out_of_fuel f h next = tt
