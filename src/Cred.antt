-- ===== src/Cred.antt =====
-- bsd/lib/lazybsd_patch.c: what is counted for a user, `chglimit`, `chgproccnt`, `chgsbsize`, `chgptscnt`,
-- `chgkqcnt`, `chgumtxcnt`, and `groupmember`.
pub mod Groups
pub mod Sum
mod Examples
use lazybsd.Prelude.{
  ℕ, zero, suc, ◌+◌, ◌-◌, ◌*◌, ◌/◌, ◌%◌, ◌^◌, Bool, true, false, ◌&&◌, not, Option, none, some,
  if◌then◌else◌, ltb, leb, ◌==◌,
}

-- A difference is an `int`, here its 32-bit pattern; the counter and what is added to it have 64 bits.
abbrev pub is_above_zero : ℕ → Bool
is_above_zero diff = ltb 0 diff && ltb diff (2 ^ 31)

-- From `int` to `long`
abbrev pub widened : ℕ → ℕ
widened diff = if ltb diff (2 ^ 31) then diff else diff + (2 ^ 64 - 2 ^ 32)

-- `chglimit`: the counter, and whether it was changed. The sum is compared without a sign. The message for a
-- counter below zero is left out.
unfoldable pub chglimit : (limit diff max : ℕ) → ℕ × Bool
chglimit limit diff max =
    let sum = (limit + widened diff) % 2 ^ 64 in
    if is_above_zero diff && not (max == 0)
    then (if ltb max sum then ((sum + 2 ^ 64 - diff) % 2 ^ 64, false) else (sum, true))
    else (sum, true)

-- `struct uidinfo`
pub record Uidinfo : Type 0 where
  pub ui_proccnt : ℕ
  pub ui_sbsize : ℕ
  pub ui_ptscnt : ℕ
  pub ui_kqcnt : ℕ
  pub ui_umtxcnt : ℕ

unfoldable pub chgproccnt : Uidinfo → (diff max : ℕ) → Uidinfo × Bool
unfolding chglimit
chgproccnt uip diff max =
    let r = chglimit uip.ui_proccnt diff max in (record uip { ui_proccnt = r.0 }, r.1)

unfoldable pub chgptscnt : Uidinfo → (diff max : ℕ) → Uidinfo × Bool
unfolding chglimit
chgptscnt uip diff max =
    let r = chglimit uip.ui_ptscnt diff max in (record uip { ui_ptscnt = r.0 }, r.1)

unfoldable pub chgkqcnt : Uidinfo → (diff max : ℕ) → Uidinfo × Bool
unfolding chglimit
chgkqcnt uip diff max =
    let r = chglimit uip.ui_kqcnt diff max in (record uip { ui_kqcnt = r.0 }, r.1)

unfoldable pub chgumtxcnt : Uidinfo → (diff max : ℕ) → Uidinfo × Bool
unfolding chglimit
chgumtxcnt uip diff max =
    let r = chglimit uip.ui_umtxcnt diff max in (record uip { ui_umtxcnt = r.0 }, r.1)

-- `chgsbsize`: the user, `*hiwat` and the result
unfoldable pub chgsbsize : Uidinfo → (hiwat to max : ℕ) → Uidinfo × ℕ × Bool
chgsbsize uip hiwat to max =
    let diff = (to + 2 ^ 32 - hiwat) % 2 ^ 32 in
    let r = chglimit uip.ui_sbsize diff max in
    if is_above_zero diff && max == 0
    then (uip, hiwat, false)
    else (record uip { ui_sbsize = r.0 }, (if r.1 then to else hiwat), r.1)

-- The binary search of `groupmember`, from `l` to `h`; the fuel bounds the rounds, and `none` is its end.
unfoldable pub search : (fuel : ℕ) → (cr_groups : ℕ → ℕ) → (gid l h : ℕ) → Option ℕ
search zero groups gid l h = none
search (suc fuel) groups gid l h =
    let m = l + (h - l) / 2 in
    let on =
      search fuel groups gid (if ltb (groups m) gid then m + 1 else l)
        (if ltb (groups m) gid then h else m) in
    if ltb l h then on else some l

abbrev pub found_at : (cr_groups : ℕ → ℕ) → (cr_ngroups gid : ℕ) → Option ℕ → Option Bool
found_at groups n gid none = none
found_at groups n gid (some l) = some (ltb l n && groups l == gid)

-- `groupmember`
unfoldable pub groupmember : (fuel : ℕ) → (cr_groups : ℕ → ℕ) → (cr_ngroups gid : ℕ) → Option Bool
unfolding search
groupmember fuel groups n gid =
    let r = found_at groups n gid (search fuel groups gid 1 n) in
    if groups 0 == gid then some true else r
