-- ===== src/Env/Lookup.antt =====
-- bsd/lib/lazybsd_kern_environment.c: `_getenv_dynamic_locked`, `_getenv_static_from` and the
-- functions on top of them. A string is the list of its characters, without the NUL.
use lazybsd.Prelude.{
  ℕ, zero, suc, ◌-◌, ◌≤◌, ◌≡◌, ◌≢◌, refl, sym, ap, if_true, if_false, if_cases, ◌∙◌, Bool, true,
  false, ◌&&◌, Option, none, some, List, [], ◌∷◌, if◌then◌else◌, ◌==◌, length, drop, arith,
}

-- `s[i]`, with the NUL at the end
abbrev pub char_at : List ℕ → ℕ → ℕ
char_at [] i = 0
char_at (c ∷ s) zero = c
char_at (c ∷ s) (suc i) = char_at s i

-- `strncmp(a, b, n) == 0`
abbrev pub strncmp_eq : ℕ → List ℕ → List ℕ → Bool
strncmp_eq zero a b = true
strncmp_eq (suc n) [] [] = true
strncmp_eq (suc n) [] (y ∷ b) = false
strncmp_eq (suc n) (x ∷ a) [] = false
strncmp_eq (suc n) (x ∷ a) (y ∷ b) = if x == y then strncmp_eq n a b else false

abbrev pub or_else {ℓ} : {A : Type ℓ} → Option A → Option A → Option A
or_else none o = o
or_else (some a) o = some a

abbrev pub equals_sign : ℕ
equals_sign = 61

-- One entry in the loop of `_getenv_dynamic_locked`
unfoldable pub dynamic_entry : (name entry : List ℕ) → Option (List ℕ)
dynamic_entry name s =
    let len = length name in
    if strncmp_eq len s name && (char_at s len == equals_sign)
    then some (drop (suc len) s)
    else none

-- `_getenv_dynamic_locked`, on the entries of `kenvp` up to NULL; its callers here pass no `idx`.
unfoldable pub dynamic_lookup : (name : List ℕ) → (kenvp : List (List ℕ)) → Option (List ℕ)
unfolding dynamic_entry
dynamic_lookup name [] = none
dynamic_lookup name (s ∷ kenvp) = or_else (dynamic_entry name s) (dynamic_lookup name kenvp)

-- The inner loop of `_getenv_static_from`: `ep - cp`
unfoldable pub key_length : List ℕ → ℕ
key_length [] = 0
key_length (c ∷ s) = if c == equals_sign then 0 else suc (key_length s)

-- One entry in the loop of `_getenv_static_from`
unfoldable pub static_entry : (name entry : List ℕ) → Option (List ℕ)
unfolding key_length
static_entry name s =
    let len = key_length s in
    if char_at s len == equals_sign
    then if strncmp_eq len name s && (char_at name len == 0) then some (drop (suc len) s) else none
    else none

abbrev pub is_nil : List ℕ → Bool
is_nil [] = true
is_nil (c ∷ s) = false

-- `_getenv_static_from` with `kernenv_next`. The block is the strings that stand one behind the
-- other in it; an empty string after the first ends it.
unfoldable pub static_from : (name : List ℕ) → (block : List (List ℕ)) → Option (List ℕ)
unfolding static_entry
static_from name [] = none
static_from name (s ∷ []) = static_entry name s
static_from name (s ∷ t ∷ block) =
    let rest = static_from name (t ∷ block) in
    or_else (static_entry name s) (if is_nil t then none else rest)

-- The globals `md_envp`, `kern_envp`, `kenvp` and `dynamic_kenv`, and how often `kenv_lock` is held.
pub record Kenv : Type 0 where
  pub md_envp : Option (List (List ℕ))
  pub kern_envp : Option (List (List ℕ))
  pub kenvp : List (List ℕ)
  pub dynamic_kenv : Bool
  pub held : ℕ

-- `_getenv_static_from`, which finds nothing in NULL
abbrev pub static_in : (name : List ℕ) → Option (List (List ℕ)) → Option (List ℕ)
static_in name none = none
static_in name (some block) = static_from name block

-- `_getenv_static`
unfoldable pub getenv_static : Kenv → (name : List ℕ) → Option (List ℕ)
unfolding static_from
getenv_static e name = or_else (static_in name e.md_envp) (static_in name e.kern_envp)

-- The lock, taken for the lookup, stays held when a value is found.
abbrev pub keep_lock : Kenv → Option (List ℕ) → Kenv × Option (List ℕ)
keep_lock e none = (e, none)
keep_lock e (some v) = (record e { held = suc e.held }, some v)

-- `kenv_acquire`
unfoldable pub kenv_acquire : Kenv → (name : List ℕ) → Kenv × Option (List ℕ)
unfolding dynamic_lookup getenv_static
kenv_acquire e name =
    if e.dynamic_kenv then keep_lock e (dynamic_lookup name e.kenvp) else (e, getenv_static e name)

-- `kenv_release`
unfoldable pub kenv_release : Kenv → Option (List ℕ) → Kenv
kenv_release e none = e
kenv_release e (some v) = if e.dynamic_kenv then record e { held = e.held - 1 } else e

-- The strings of a block that are searched: an empty one after the first ends it.
abbrev pub live : List (List ℕ) → List (List ℕ)
live [] = []
live (s ∷ []) = s ∷ []
live (s ∷ t ∷ block) = if is_nil t then s ∷ [] else s ∷ live (t ∷ block)

-- A name that an entry can have: no `=` and no NUL.
pub record IsKey (name : List ℕ) : Type 0 where
  pub plain : (i : ℕ) → char_at name i ≢ equals_sign
  pub whole : (i : ℕ) → suc i ≤ length name → char_at name i ≢ 0

-- What stands behind `name=`, if the entry starts with it.
abbrev pub value_of : (name entry : List ℕ) → Option (List ℕ)
value_of [] [] = none
value_of [] (c ∷ s) = if c == equals_sign then some s else none
value_of (x ∷ name) [] = none
value_of (x ∷ name) (c ∷ s) = if x == c then value_of name s else none

dynamic_entry-value_of : (name s : List ℕ) → dynamic_entry name s ≡ value_of name s
unfolding dynamic_entry
dynamic_entry-value_of [] [] = refl
dynamic_entry-value_of [] (c ∷ s) = refl
dynamic_entry-value_of (x ∷ name) [] = refl
dynamic_entry-value_of (x ∷ name) (c ∷ s) = ground (arith, dynamic_entry-value_of name s)

IsKey-tail : (x : ℕ) (name : List ℕ) → IsKey (x ∷ name) → IsKey name
IsKey-tail x name k = record {
  plain = λ i. k.plain (suc i);
  whole = λ i h. k.whole (suc i) (omega arith);
}

static_entry-value_of : (name s : List ℕ) → IsKey name → static_entry name s ≡ value_of name s
unfolding static_entry key_length
static_entry-value_of [] [] k = refl
static_entry-value_of [] (c ∷ s) k = ground arith
static_entry-value_of (x ∷ name) [] k = refl
static_entry-value_of (x ∷ name) (c ∷ s) k =
    ground (arith, static_entry-value_of name s (IsKey-tail x name k), k.plain 0, k.whole 0)

-- The value of the first entry that starts with `name=`.
abbrev pub found : (name : List ℕ) → List (List ℕ) → Option (List ℕ)
found name [] = none
found name (s ∷ rest) = or_else (value_of name s) (found name rest)

dynamic_lookup-found : (name : List ℕ) (l : List (List ℕ)) → dynamic_lookup name l ≡ found name l
unfolding dynamic_lookup
dynamic_lookup-found name [] = refl
dynamic_lookup-found name (s ∷ l) =
    rw (dynamic_entry-value_of name s, dynamic_lookup-found name l) refl

or_else-none : {A : Type 0} (o : Option A) → or_else o none ≡ o
or_else-none none = refl
or_else-none (some a) = refl

static_from-found :
    (name : List ℕ) (l : List (List ℕ)) → IsKey name → static_from name l ≡ found name (live l)
unfolding static_from
static_from-found name [] k = refl
static_from-found name (s ∷ []) k =
    static_entry-value_of name s k ∙ sym (or_else-none (value_of name s))
static_from-found name (s ∷ [] ∷ l) k = rw (static_entry-value_of name s k) refl
static_from-found name (s ∷ (c ∷ t) ∷ l) k =
    rw (static_entry-value_of name s k, static_from-found name ((c ∷ t) ∷ l) k) refl

-- For a name without `=` and NUL, both lookups return what stands behind `name=` in the first entry
-- that starts with it: the dynamic one among all strings up to NULL, the static one among the
-- strings of the block up to the first empty string after the first.
pub lookups_agree :
    (name : List ℕ) (l : List (List ℕ))
    → IsKey name
    → (dynamic_lookup name l ≡ found name l) × (static_from name l ≡ found name (live l))
lookups_agree name l k = (dynamic_lookup-found name l, static_from-found name l k)

kenv_release-keep_lock :
    (e : Kenv) (o : Option (List ℕ))
    → e.dynamic_kenv ≡ true
    → kenv_release (keep_lock e o).0 (keep_lock e o).1 ≡ e
unfolding kenv_release
kenv_release-keep_lock e none h = refl
kenv_release-keep_lock e (some v) h =
    let back : suc e.held - 1 ≡ e.held = omega arith in
    if_true _ _ h ∙ ap (λ n. record e { held = n }) back

kenv_release_static :
    (e : Kenv) (o : Option (List ℕ)) → e.dynamic_kenv ≡ false → kenv_release e o ≡ e
unfolding kenv_release
kenv_release_static e none h = refl
kenv_release_static e (some v) h = if_false _ _ h

-- `kenv_release` after `kenv_acquire` undoes it: the lock is held as often as before.
pub kenv_release-kenv_acquire :
    (e : Kenv) (name : List ℕ) → kenv_release (kenv_acquire e name).0 (kenv_acquire e name).1 ≡ e
unfolding kenv_acquire
kenv_release-kenv_acquire e name =
    if_cases (λ (r : Kenv × Option (List ℕ)). kenv_release r.0 r.1 ≡ e) e.dynamic_kenv
      (kenv_release-keep_lock e (dynamic_lookup name e.kenvp))
      (kenv_release_static e (getenv_static e name))
