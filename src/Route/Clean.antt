-- ===== src/Route/Clean.antt =====
-- `cleanup_xaddrs` of bsd/lib/lazybsd_route.c with the functions that it calls: the addresses of a message are
-- checked, and brought to a standard form in their memory. A `struct sockaddr_in` has 16 bytes with the address at
-- 4, a `struct sockaddr_in6` 28 bytes with the address at 8 and the scope behind it, a `struct sockaddr_dl` its
-- index at 2, `sdl_nlen` at 5, `sdl_alen` at 6 and the name at 8.
pub mod Writes
pub mod Wrote
pub mod Effects
use lazybsd.Prelude.{
  ℕ, zero, suc, ◌+◌, ◌-◌, ◌*◌, Bool, true, false, not, ◌&&◌, ◌||◌, Option, none, some,
  if◌then◌else◌, ltb, leb, ◌==◌, update, bit_and,
}
use lazybsd.Sock.Address.{Memory}
use lazybsd.Route.{Kernel, Bits, Info}
use lazybsd.Route.Bytes.{write}

-- The places in `rti_info`, the bits of `rti_flags`, and the size of `struct sockaddr_dl_short`
pub record Places : Type 0 where
  pub rtax_dst : ℕ
  pub rtax_gateway : ℕ
  pub rtax_netmask : ℕ
  pub rtf_host : ℕ
  pub rtf_lldata : ℕ
  pub dl_short_size : ℕ

-- `struct rt_addrinfo`, with the memory that it points into
pub record AddrInfo : Type 0 where
  pub memory : Memory
  pub rti_info : Info
  pub rti_addrs : Bits
  pub rti_flags : Bits

pub data RouteError : Type 0 where
  einval eafnosupport enobufs eprotonosupport enotsup esrch eopnotsupp : RouteError
  other : ℕ → RouteError

-- The error, or none, and what has become of the addresses
abbrev pub Cleaned : Type 0
Cleaned = Option RouteError × AddrInfo

abbrev pub sockaddr_in : Kernel → (addr : ℕ → ℕ) → ℕ → ℕ
sockaddr_in k addr j =
    if j == 0
    then 16
    else if j == 1
    then k.af_inet
    else if leb 4 j && ltb j 8
    then addr (j - 4)
    else 0

unfoldable pub fill_sockaddr_inet : Kernel → Memory → (sin : ℕ) → (addr : ℕ → ℕ) → Memory
fill_sockaddr_inet k m sin addr = write m sin 16 (sockaddr_in k addr)

-- The callers give the scope 0.
abbrev pub sockaddr_in6 : Kernel → (addr6 : ℕ → ℕ) → ℕ → ℕ
sockaddr_in6 k addr6 j =
    if j == 0
    then 28
    else if j == 1
    then k.af_inet6
    else if leb 8 j && ltb j 24
    then addr6 (j - 8)
    else 0

unfoldable pub fill_sockaddr_inet6 : Kernel → Memory → (sin6 : ℕ) → (addr6 : ℕ → ℕ) → Memory
fill_sockaddr_inet6 k m sin6 addr6 = write m sin6 28 (sockaddr_in6 k addr6)

abbrev pub sockaddr_dl_short : Kernel → Places → Memory → (sdl : ℕ) → ℕ → ℕ
sockaddr_dl_short k p m sdl j =
    if j == 0
    then p.dl_short_size
    else if j == 1
    then k.af_link
    else if j == 2 || j == 3
    then m (sdl + j)
    else 0

unfoldable pub cleanup_xaddrs_lladdr : Kernel → (gw : ℕ) → AddrInfo → Cleaned
cleanup_xaddrs_lladdr k gw s =
    let m = s.memory in
    let bad =
      not (m (gw + 1) == k.af_link)
      || ((m (gw + 2) == 0 && m (gw + 3) == 0) || ltb (m gw) (8 + m (gw + 5) + m (gw + 6))) in
    ((if bad then some einval else none), s)

-- An address is written in its standard form if it is long enough.
abbrev pub refilled : (gw size : ℕ) → (filled : Memory) → AddrInfo → Cleaned
refilled gw size filled s =
    if ltb (s.memory gw) size then (some einval, s) else (none, record s { memory = filled })

unfoldable pub cleanup_xaddrs_gateway : Kernel → Places → (gw : ℕ) → AddrInfo → Cleaned
unfolding cleanup_xaddrs_lladdr fill_sockaddr_inet fill_sockaddr_inet6
cleanup_xaddrs_gateway k p gw s =
    let m = s.memory in
    let family = m (gw + 1) in
    if s.rti_flags p.rtf_lldata
    then cleanup_xaddrs_lladdr k gw s
    else if family == k.af_inet
    then refilled gw 16 (fill_sockaddr_inet k m gw (λ j. m (gw + 4 + j))) s
    else if k.with_inet6 && family == k.af_inet6
    then refilled gw 28 (fill_sockaddr_inet6 k m gw (λ j. m (gw + 8 + j))) s
    else if family == k.af_link
    then refilled gw p.dl_short_size (write m gw p.dl_short_size (sockaddr_dl_short k p m gw)) s
    else (none, s)

unfoldable pub remove_netmask : Places → AddrInfo → AddrInfo
remove_netmask p s = record s {
  rti_info = update s.rti_info p.rtax_netmask none;
  rti_flags = update s.rti_flags p.rtf_host true;
  rti_addrs = update s.rti_addrs p.rtax_netmask false;
}

-- The end of both functions: a gateway is checked.
abbrev pub with_gateway : Kernel → Places → Option ℕ → AddrInfo → Cleaned
with_gateway k p none s = (none, s)
with_gateway k p (some gw) s = cleanup_xaddrs_gateway k p gw s

-- The netmask, which is all ones where there is none, and whether it is all ones
abbrev pub mask_bytes : Memory → (at : ℕ) → Option ℕ → ℕ → ℕ
mask_bytes m at none j = 255
mask_bytes m at (some mask) j = m (mask + at + j)

abbrev pub is_ones : (n : ℕ) → (ℕ → ℕ) → Bool
is_ones zero f = true
is_ones (suc n) f = is_ones n f && f n == 255

abbrev pub is_short : Memory → (size : ℕ) → Option ℕ → Bool
is_short m size none = false
is_short m size (some sa) = ltb (m sa) size

-- The netmask is written in its standard form, or removed; `fill` writes it.
abbrev pub with_netmask :
    Places → (ones : Bool) → Option ℕ → (fill : Memory → ℕ → Memory) → AddrInfo → AddrInfo
with_netmask p true mask fill s = remove_netmask p s
with_netmask p false none fill s = s
with_netmask p false (some mask) fill s = record s { memory = fill s.memory mask }

unfoldable pub cleanup_xaddrs_inet : Kernel → Places → (dst : ℕ) → AddrInfo → Cleaned
unfolding remove_netmask fill_sockaddr_inet cleanup_xaddrs_gateway
cleanup_xaddrs_inet k p dst s =
    let m = s.memory in
    let mask_sa = s.rti_info p.rtax_netmask in
    let mask = mask_bytes m 4 mask_sa in
    let filled = record s {
      memory = fill_sockaddr_inet k m dst (λ j. bit_and (m (dst + 4 + j)) (mask j));
    } in
    let t =
      with_netmask p (is_ones 4 mask) mask_sa (λ n sa. fill_sockaddr_inet k n sa mask) filled in
    if ltb (m dst) 16 || is_short m 16 mask_sa
    then (some einval, s)
    else with_gateway k p (t.rti_info p.rtax_gateway) t

-- IN6_MASK_ADDR
abbrev pub masked6 : Memory → (dst : ℕ) → (mask : ℕ → ℕ) → Memory
masked6 m dst mask = write m (dst + 8) 16 (λ j. bit_and (m (dst + 8 + j)) (mask j))

unfoldable pub cleanup_xaddrs_inet6 : Kernel → Places → (dst : ℕ) → AddrInfo → Cleaned
unfolding remove_netmask fill_sockaddr_inet6 cleanup_xaddrs_gateway
cleanup_xaddrs_inet6 k p dst s =
    let mask_sa = s.rti_info p.rtax_netmask in
    let mask = mask_bytes s.memory 8 mask_sa in
    let m = masked6 s.memory dst mask in
    let filled = record s { memory = fill_sockaddr_inet6 k m dst (λ j. m (dst + 8 + j)) } in
    let t =
      with_netmask p (is_ones 16 mask) mask_sa (λ n sa. fill_sockaddr_inet6 k n sa mask) filled in
    if ltb (m dst) 28 || is_short m 28 mask_sa
    then (some einval, record s { memory = m })
    else with_gateway k p (t.rti_info p.rtax_gateway) t

abbrev pub by_family : Kernel → Places → (dst : ℕ) → AddrInfo → Cleaned
by_family k p dst s =
    if s.memory (dst + 1) == k.af_inet
    then cleanup_xaddrs_inet k p dst s
    else if k.with_inet6 && s.memory (dst + 1) == k.af_inet6
    then cleanup_xaddrs_inet6 k p dst s
    else (some eafnosupport, s)

abbrev pub with_dst : Kernel → Places → Option ℕ → AddrInfo → Cleaned
with_dst k p none s = (some einval, s)
with_dst k p (some dst) s =
    by_family k p dst (if s.rti_flags p.rtf_lldata then remove_netmask p s else s)

-- `cleanup_xaddrs`
unfoldable pub cleanup_xaddrs : Kernel → Places → AddrInfo → Cleaned
unfolding cleanup_xaddrs_inet cleanup_xaddrs_inet6 remove_netmask
cleanup_xaddrs k p s = with_dst k p (s.rti_info p.rtax_dst) s
