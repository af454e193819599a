-- ===== src/Subr/Uio/Moves.antt =====
-- What `uiomove` and `copyinuio` of bsd/lib/lazybsd_kern_subr.c promise.
use lazybsd.Prelude.{
  ℕ, ◌+◌, ◌-◌, ◌%◌, ◌<◌, ◌≤◌, ◌≡◌, refl, Bool, true, false, Option, none, some, List, [], ◌∷◌, ltb,
  inl, inr, ◌⊎◌, length, take, arith, if_cases,
}
use lazybsd.Subr.Uio.{
  Iovec, Uio, Moved, moved, no_segment, unfinished, long_mod, Round, stop_with, again, UioConsts,
  int_max, sum_resid, Copied, copy_failed, copied_in, fill_uio, copyinuio,
}

-- The bytes that the segments have in all.
abbrev pub total : List Iovec → ℕ
total [] = 0
total (v ∷ vs) = v.iov_len + total vs

-- `uio_resid` is what the segments have, and an `int`.
pub record IsCounted (u : Uio) : Type 0 where
  pub resid : u.resid ≡ total u.iovs
  pub small : u.resid ≤ int_max

-- From `u` to `t`, `k` bytes were moved.
pub record Took (u t : Uio) (k : ℕ) : Type 0 where
  pub resid : t.resid + k ≡ u.resid
  pub offset : t.offset % long_mod ≡ (u.offset + k) % long_mod
  pub counted : IsCounted t

-- The end of a transfer of `n` bytes: all that there are, or fewer after an error.
abbrev pub Transferred : Uio → ℕ → Moved → Type 0
Transferred u n (moved error t) =
    (k : ℕ) × Took u t k × (k ≤ n) × (error ≡ 0 → (k ≡ n) ⊎ (t.resid ≡ 0))
Transferred u n no_segment = ⊥
Transferred u n unfinished = ⊥

-- What a round promises.
abbrev Rounded : Uio → ℕ → Round → Type 0
Rounded u n (stop_with m) = Transferred u n m
Rounded u n (again cp m t) =
    (k : ℕ) × Took u t k × (m + k ≡ n) × (m + length t.iovs < n + length u.iovs)

abbrev Summed : (resid : ℕ) → List Iovec → Option ℕ → Type 0
Summed resid vs none = int_max < resid + total vs
Summed resid vs (some r) = (r ≡ resid + total vs) × (r ≤ int_max)

Summed-cons :
    (resid : ℕ) (v : Iovec) (vs : List Iovec) (o : Option ℕ)
    → Summed (resid + v.iov_len) vs o
    → Summed resid (v ∷ vs) o
Summed-cons resid v vs none h = omega arith
Summed-cons resid v vs (some r) h = (omega arith, h.1)

sum_resid-Summed :
    (resid : ℕ) (vs : List Iovec) → resid ≤ int_max → Summed resid vs (sum_resid resid vs)
unfolding sum_resid
sum_resid-Summed resid [] h = (omega arith, h)
sum_resid-Summed resid (v ∷ vs) h =
    if_cases (Summed resid (v ∷ vs)) (ltb (int_max - resid) v.iov_len) (λ e. ground arith)
      (λ e.
        let fits : resid + v.iov_len ≤ int_max = ground arith in
        Summed-cons resid v vs _ (sum_resid-Summed (resid + v.iov_len) vs fits))

-- What `copyinuio` makes of the segments that it has copied in.
abbrev pub Filled : (einval : ℕ) → List Iovec → Copied → Type 0
Filled einval vs r =
    ((u : Uio) × (r ≡ copied_in u) × IsCounted u × (u.iovs ≡ vs))
    ⊎ ((r ≡ copy_failed einval) × (int_max < total vs))

fill_uio-Filled :
    (einval : ℕ) (reads : Bool) (vs : List Iovec) (o : Option ℕ)
    → Summed 0 vs o
    → Filled einval vs (fill_uio einval reads vs o)
unfolding fill_uio
fill_uio-Filled einval reads vs none h = inr (refl, omega arith)
fill_uio-Filled einval reads vs (some r) h =
    inl (_, refl, record { resid = omega arith; small = h.1 }, refl)

-- When there are no more segments than allowed, memory is there and `copyin` succeeds, `copyinuio`
-- makes a `uio` of the segments whose `uio_resid` is the sum of their lengths and an `int`, as
-- `uiomove` needs it; it fails with EINVAL only if the sum is greater than the greatest `int`.
pub copyinuio-Filled :
    (c : UioConsts) (iovs : List Iovec) (iovcnt : ℕ) (reads : Bool)
    → iovcnt ≤ c.uio_maxiov
    → Filled c.einval (take iovcnt iovs) (copyinuio c iovs iovcnt true 0 reads)
unfolding copyinuio
copyinuio-Filled c iovs iovcnt reads h =
    let vs = take iovcnt iovs in
    let few : ltb c.uio_maxiov iovcnt ≡ false = ground arith in
    rw few
      (fill_uio-Filled c.einval reads vs (sum_resid 0 vs) (sum_resid-Summed 0 vs (omega arith)))
