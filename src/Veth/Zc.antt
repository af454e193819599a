-- ===== src/Veth/Zc.antt =====
-- bsd/lib/lazybsd_veth.c: buffers for sending without a copy, `lazybsd_zc_mbuf_get`,
-- `lazybsd_zc_mbuf_write` and `lazybsd_zc_mbuf_read`.
use lazybsd.Prelude.{
  ℕ, ◌+◌, ◌-◌, ◌%◌, ◌^◌, ◌&&◌, Bool, Option, none, some, List, [], ◌∷◌, ◌++◌, if◌then◌else◌, ltb,
  ◌==◌, length, take, drop,
}
use Prim.Native.Nat.{max, min}

-- One mbuf of a chain: what it holds, and the space behind that (`M_TRAILINGSPACE`).
pub record Mbuf : Type 0 where
  pub held : List ℕ
  pub space : ℕ

-- `struct lazybsd_zc_mbuf`: the chain up to `bsd_mbuf_off`, and from there on (nothing when it is NULL).
pub record ZcMbuf : Type 0 where
  pub before : List Mbuf
  pub ahead : List Mbuf
  pub off : ℕ
  pub len : ℕ

-- `lazybsd_zc_mbuf_get`, with `m_getm2` of the kernel as a parameter; `none` is the result -1, for a
-- NULL pointer or when there is no memory.
unfoldable pub zc_mbuf_get :
    (m_getm2 : ℕ → Option (List Mbuf)) → (null : Bool) → (len : ℕ) → Option ZcMbuf
zc_mbuf_get m_getm2 null len = if null then none else elim (m_getm2 (max len 1)) [
  | none ↦ none
  | some chain ↦ some record { before = []; ahead = chain; off = 0; len = len }
]

-- What fits is put behind what an mbuf holds.
abbrev pub fill : ℕ → List ℕ → Mbuf → Mbuf
fill n s mb = record { held = mb.held ++ take n s; space = mb.space - n }

-- The loop of `lazybsd_zc_mbuf_write`: the mbufs it has passed, and those from the last one on.
unfoldable pub write_loop : (s : List ℕ) → List Mbuf → List Mbuf × List Mbuf
write_loop s [] = ([], [])
write_loop s (mb ∷ ms) =
    let n = min mb.space (length s) in
    let on = write_loop (drop n s) ms in
    if length s == n then ([], fill n s mb ∷ ms) else (fill n s mb ∷ on.0, on.1)

-- The sum of two numbers of the type `int`, as the pattern of 32 bits that it wraps round to: negative from 2^31 on.
abbrev pub int_sum : ℕ → ℕ → ℕ
int_sum a b = (a + b) % 2 ^ 32

-- `lazybsd_zc_mbuf_write`; `none` is the result -1, for a NULL pointer or more than there is room for. Otherwise the result is the
-- number of bytes.
unfoldable pub zc_mbuf_write : Option ZcMbuf → List ℕ → Option (ZcMbuf × ℕ)
unfolding write_loop
zc_mbuf_write none s = none
zc_mbuf_write (some zm) s =
    let w = write_loop s zm.ahead in
    let sum = int_sum zm.off (length s) in
    if ltb sum (2 ^ 31) && ltb zm.len sum
    then none
    else some (record { before = zm.before ++ w.0; ahead = w.1; off = sum; len = zm.len }, length s)

-- `lazybsd_zc_mbuf_read`
unfoldable pub zc_mbuf_read : ZcMbuf → ℕ → ℕ
zc_mbuf_read zm len = 0

-- What the chain holds.
abbrev pub contents : List Mbuf → List ℕ
contents [] = []
contents (mb ∷ ms) = mb.held ++ contents ms

abbrev pub spaces : List Mbuf → ℕ
spaces [] = 0
spaces (mb ∷ ms) = mb.space + spaces ms
