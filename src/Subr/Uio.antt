-- ===== src/Subr/Uio.antt =====
-- bsd/lib/lazybsd_kern_subr.c: `uiomove` and `copyinuio`. What is copied is kept as a list of
-- copies, each with its source, its target and its length; `copyin` and `copyout` are a parameter,
-- the error that a copy answers, 0 if none.
pub mod Moves
use lazybsd.Prelude.{
  ℕ, zero, suc, ◌+◌, ◌-◌, ◌*◌, ◌%◌, ◌^◌, ◌<◌, ◌≤◌, ◌≡◌, Bool, true, false, Option, none, some, List,
  [], ◌∷◌, ◌++◌, if◌then◌else◌, ◌==◌, ltb, leb, length, take, u32_mod,
}

-- `struct iovec`
pub record Iovec : Type 0 where
  pub iov_base : ℕ
  pub iov_len : ℕ

pub data Segflg : Type 0 where
  userspace sysspace nocopy : Segflg

pub record Copy : Type 0 where
  pub source : ℕ
  pub target : ℕ
  pub bytes : ℕ

-- `struct uio`, with the segments from `uio_iov` on and what has been copied, the last first.
-- `uio_resid` is the pattern of a 64-bit number; `reads` is `uio_rw == UIO_READ`.
pub record Uio : Type 0 where
  pub iovs : List Iovec
  pub resid : ℕ
  pub offset : ℕ
  pub segflg : Segflg
  pub reads : Bool
  pub copied : List Copy

-- How `uiomove` ends: with an error number, by reading behind the last segment, or not at all.
pub data Moved : Type 0 where
  moved : (error : ℕ) → Uio → Moved
  no_segment : Moved
  unfinished : Moved

abbrev pub long_mod : ℕ
long_mod = 2 ^ 64

-- `*iov` after the copy of `cnt` bytes
abbrev pub advance : Iovec → ℕ → Iovec
advance v cnt = record { iov_base = v.iov_base + cnt; iov_len = v.iov_len - cnt }

-- The copy of `cnt` bytes between `cp` and a segment, in the direction of the transfer.
abbrev pub copy_of : (reads : Bool) → (cp base cnt : ℕ) → Copy
copy_of true cp base cnt = record { source = cp; target = base; bytes = cnt }
copy_of false cp base cnt = record { source = base; target = cp; bytes = cnt }

-- The switch on `uio_segflg`: the error, and what is copied.
unfoldable pub transfer : (copy_error : Copy → ℕ) → Segflg → Copy → List Copy → ℕ × List Copy
transfer copy_error userspace c l = let e = copy_error c in (e, if e == 0 then c ∷ l else l)
transfer copy_error sysspace c l = (0, c ∷ l)
transfer copy_error nocopy c l = (0, l)

-- What a round of the loop does: it leaves the loop, or the next round starts at `cp` with `n` bytes
-- to move.
pub data Round : Type 0 where
  stop_with : Moved → Round
  again : (cp n : ℕ) → Uio → Round

abbrev pub follow : (ℕ → ℕ → Uio → Moved) → Round → Moved
follow loop (stop_with m) = m
follow loop (again cp n u) = loop cp n u

-- The end of a round, after `cnt` bytes of the segment `v` were copied with this error.
abbrev pub after_copy : (cp n cnt : ℕ) → Uio → Iovec → List Iovec → (result : ℕ × List Copy) → Round
after_copy cp n cnt u v vs (zero, l) = again (cp + cnt) (n - cnt) (record u {
  iovs = advance v cnt ∷ vs;
  resid = (u.resid + long_mod - cnt) % long_mod;
  offset = (u.offset + cnt) % long_mod;
  copied = l;
})
after_copy cp n cnt u v vs (suc e, l) = stop_with (moved (suc e) u)

module _ (copy_error : Copy → ℕ) where
  -- The body of the loop of `uiomove`, on the segments that are left.
  unfoldable pub move_round : (cp n : ℕ) → Uio → List Iovec → Round
  unfolding transfer
  move_round cp n u [] = stop_with no_segment
  move_round cp n u (v ∷ vs) =
      let len = v.iov_len % u32_mod in
      let cnt = if ltb n len then n else len in
      let result = transfer copy_error u.segflg (copy_of u.reads cp v.iov_base cnt) u.copied in
      if len == 0 then again cp n (record u { iovs = vs }) else after_copy cp n cnt u v vs result

  -- The loop of `uiomove`: `n` bytes are left to move, from `cp` on.
  unfoldable pub move_loop : (fuel cp n : ℕ) → Uio → Moved
  unfolding move_round
  move_loop zero cp n u = unfinished
  move_loop (suc fuel) cp n u =
      let go = follow (move_loop fuel) (move_round cp n u u.iovs) in
      if n == 0 then moved 0 u else if u.resid == 0 then moved 0 u else go

  -- `uiomove` for `n` bytes, at least none. Each round passes a segment or moves a byte at least.
  unfoldable pub uiomove : (cp n : ℕ) → Uio → Moved
  unfolding move_loop
  uiomove cp n u = move_loop (suc (n + length u.iovs)) cp n u

-- The constants EINVAL, ENOMEM and UIO_MAXIOV of the kernel's headers.
pub record UioConsts : Type 0 where
  pub einval : ℕ
  pub enomem : ℕ
  pub uio_maxiov : ℕ

abbrev pub int_max : ℕ
int_max = 2 ^ 31 - 1

-- The loop of `copyinuio` over the segments: `uio_resid`, or `none` for EINVAL.
unfoldable pub sum_resid : (resid : ℕ) → List Iovec → Option ℕ
sum_resid resid [] = some resid
sum_resid resid (v ∷ vs) =
    let on = sum_resid (resid + v.iov_len) vs in
    if ltb (int_max - resid) v.iov_len then none else on

pub data Copied : Type 0 where
  copy_failed : (error : ℕ) → Copied
  copied_in : Uio → Copied

-- The end of `copyinuio`; `reads` is not set by it, and `uio_offset` is -1.
unfoldable pub fill_uio : (einval : ℕ) → (reads : Bool) → List Iovec → Option ℕ → Copied
fill_uio einval reads iovs none = copy_failed einval
fill_uio einval reads iovs (some resid) = copied_in (record {
  iovs = iovs;
  resid = resid;
  offset = long_mod - 1;
  segflg = userspace;
  reads = reads;
  copied = [];
})

-- `copyinuio`; `space` is whether `malloc` returns memory, and `copyin_error` the result of
-- `copyin` for the segments.
unfoldable pub copyinuio :
    UioConsts
    → (iovs : List Iovec) → (iovcnt : ℕ) → (space : Bool) → (copyin_error : ℕ) → (reads : Bool)
    → Copied
unfolding sum_resid fill_uio
copyinuio c iovs iovcnt space copyin_error reads =
    if ltb c.uio_maxiov iovcnt
    then copy_failed c.einval
    else if space
    then if copyin_error == 0
      then fill_uio c.einval reads (take iovcnt iovs) (sum_resid 0 (take iovcnt iovs))
      else copy_failed copyin_error
    else copy_failed c.enomem
