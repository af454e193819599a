-- ===== src/Route/Xaddrs.antt =====
-- `rt_xaddrs` of bsd/lib/lazybsd_route.c: where the addresses of a message are.
pub mod Placed
use lazybsd.Prelude.{
  ℕ, zero, suc, ◌+◌, Bool, true, false, not, ◌&&◌, Option, none, some, if◌then◌else◌, ltb, ◌==◌,
  update,
}
use lazybsd.Sock.Address.{Memory}
use lazybsd.Route.{Kernel, Bits, Info}

-- Whether all went well, the memory and `rti_info`
pub record Parsed : Type 0 where
  pub ok : Bool
  pub memory : Memory
  pub info : Info

abbrev pub embedded : Kernel → Memory → ℕ → Memory
embedded k m p = if k.with_inet6 && m (p + 1) == k.af_inet6 then k.embedscope m p else m

-- The loop for the rounds left, from the bit `i` and the pointer `cp` on
unfoldable pub xaddrs_loop : (rounds i cp cplim : ℕ) → Kernel → Bits → Memory → Info → Parsed
xaddrs_loop zero i cp cplim k addrs m info = record { ok = true; memory = m; info = info }
xaddrs_loop (suc rounds) i cp cplim k addrs m info =
    let skip = xaddrs_loop rounds (i + 1) cp cplim k addrs m info in
    let next =
      xaddrs_loop rounds (i + 1) (cp + k.sa_size (m cp)) cplim k addrs (embedded k m cp)
        (update info i (some cp)) in
    if not (ltb cp cplim)
    then record { ok = true; memory = m; info = info }
    else if not (addrs i)
    then skip
    else if ltb cplim (cp + m cp)
    then record { ok = false; memory = m; info = info }
    else if m cp == 0
    then record { ok = true; memory = m; info = update info i (some k.sa_zero) }
    else next

-- `rt_xaddrs`
unfoldable pub rt_xaddrs : Kernel → (cp cplim : ℕ) → Bits → Memory → Info → Parsed
unfolding xaddrs_loop
rt_xaddrs k cp cplim addrs m info = xaddrs_loop k.rtax_max 0 cp cplim k addrs m info
