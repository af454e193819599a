-- ===== src/Env/Examples.antt =====
-- The theorems on bsd/lib/lazybsd_kern_environment.c at work, and runs of its operations.
use lazybsd.Prelude.{
  ℕ, zero, suc, ◌+◌, ◌-◌, ◌*◌, ◌%◌, ◌≤◌, ◌<◌, ◌≡◌, ◌≢◌, refl, true, false, ◌&&◌, Option, none, some,
  List, [], ◌∷◌, if◌then◌else◌, leb, length, arith, if_intro,
}
use lazybsd.Env.Lookup.{Kenv, char_at, static_from, IsKey, kenv_acquire, kenv_release}
use lazybsd.Env.Number.{Strtoq, quad_mod, getenv_int}
use lazybsd.Env.Array.{getenv_array}

-- Decimal digits at the start of a string.
unfoldable digits : ℕ → List ℕ → ℕ × ℕ
digits acc [] = (acc, 0)
digits acc (c ∷ s) =
    let rest = digits ((acc * 10 + (c - 48)) % quad_mod) s in
    if leb 48 c && leb c 57 then (rest.0, suc rest.1) else (acc, 0)

record Reads (s : List ℕ) (r : ℕ × ℕ) : Type 0 where
  word : r.0 < quad_mod
  end : r.1 ≤ length s

digits-Reads : (acc : ℕ) (s : List ℕ) → acc < quad_mod → Reads s (digits acc s)
unfolding digits
digits-Reads acc [] h = record { word = h; end = omega arith }
digits-Reads acc (c ∷ s) h =
    let r = digits-Reads ((acc * 10 + (c - 48)) % quad_mod) s (omega arith) in
    let next = digits ((acc * 10 + (c - 48)) % quad_mod) s in
    let more : Reads (c ∷ s) (next.0, suc next.1) = record {
      word = r.word;
      end = omega (arith, r.end);
    } in
    if_intro (Reads (c ∷ s)) (leb 48 c && leb c 57) more (record { word = h; end = omega arith })

abbrev decimal : Strtoq
decimal = record {
  strtoq = digits 0;
  strtoq_word = λ s. (digits-Reads 0 s (omega arith)).word;
  strtoq_end = λ s. (digits-Reads 0 s (omega arith)).end;
}

-- "a", "a=64k", "b=1,2 3"
abbrev a_name : List ℕ
a_name = 97 ∷ []

abbrev entries : List (List ℕ)
entries = (98 ∷ 61 ∷ 49 ∷ 44 ∷ 50 ∷ 32 ∷ 51 ∷ []) ∷ (97 ∷ 61 ∷ 54 ∷ 52 ∷ 107 ∷ []) ∷ [] ∷ []

a_plain : (i : ℕ) → char_at a_name i ≢ 61
a_plain zero e = omega arith
a_plain (suc i) e = omega arith

a_whole : (i : ℕ) → suc i ≤ 1 → char_at a_name i ≢ 0
a_whole zero h e = omega arith
a_whole (suc i) h e = omega arith

a_name-IsKey : IsKey a_name
a_name-IsKey = record { plain = a_plain; whole = a_whole }

a_found : static_from a_name entries ≡ some (54 ∷ 52 ∷ 107 ∷ [])
unfolding static_from
a_found = refl

abbrev dynamic_env : Kenv
dynamic_env = record {
  md_envp = none;
  kern_envp = none;
  kenvp = entries;
  dynamic_kenv = true;
  held = 0;
}

-- A host environment with "64k" for every name.
abbrev host : List ℕ → Option (List ℕ)
host name = some (54 ∷ 52 ∷ 107 ∷ [])

sixty_four_k : getenv_int decimal host a_name ≡ some 65536
unfolding getenv_int digits
sixty_four_k = refl

-- The name "b"
abbrev b_name : List ℕ
b_name = 98 ∷ []

three_bytes :
    getenv_array decimal 1 false dynamic_env b_name 8
    ≡ (dynamic_env, some (record { stored = 1 ∷ 2 ∷ 3 ∷ []; psize = some 3; rc = true }))
unfolding getenv_array kenv_acquire kenv_release digits
three_bytes = refl
