-- ===== src/Sock/Message.antt =====
-- bsd/lib/lazybsd_socket.c: control messages and `struct msghdr`, on a memory of bytes. A header of
-- Linux has its length in 8 bytes, then the level and the type; one of the kernel has the length in 4. Both
-- have their content 16 bytes behind their start.
use lazybsd.Prelude.{
  ℕ, zero, suc, ◌+◌, ◌-◌, ◌*◌, ◌%◌, ◌^◌, not, Option, none, some, if◌then◌else◌, ◌==◌, ltb, update,
}
use lazybsd.Sock.Address.{Memory, bcopy}
use lazybsd.Sock.Calls.{load32, store32}
use lazybsd.Sock.Names.{store64}

-- The kernel's numbers of the protocol and of its control messages, and the macros of its headers that find the first control
-- message and the next one.
pub record Cmsgs : Type 0 where
  pub ipproto_ip : ℕ
  pub ip_recvtos : ℕ
  pub ip_recvttl : ℕ
  pub ip_tos : ℕ
  pub ip_ttl : ℕ
  pub firsthdr : (control : ℕ) → (controllen : ℕ) → Option ℕ
  pub nxthdr : Memory → (control : ℕ) → (controllen : ℕ) → (cmsg : ℕ) → Option ℕ

-- LINUX_IP_TOS and LINUX_IP_TTL
abbrev pub linux_ip_tos : ℕ
linux_ip_tos = 1

abbrev pub linux_ip_ttl : ℕ
linux_ip_ttl = 2

abbrev pub load64 : Memory → ℕ → ℕ
load64 m a = load32 m a + 2 ^ 32 * load32 m (a + 4)

-- `_ALIGN`
abbrev pub align8 : ℕ → ℕ
align8 n = (n + 7) - (n + 7) % 8

-- `n - 16`, a word of 64 bits
abbrev pub less_16 : ℕ → ℕ
less_16 n = (n + 2 ^ 64 - 16) % 2 ^ 64

-- `LINUX_CMSG_LEN`, and the kernel's `CMSG_LEN`
abbrev pub cmsg_len : ℕ → ℕ
cmsg_len n = (16 + n) % 2 ^ 64

-- `LINUX_CMSG_FIRSTHDR` and `LINUX_CMSG_NXTHDR`
abbrev pub linux_firsthdr : (control controllen : ℕ) → Option ℕ
linux_firsthdr control controllen = if ltb controllen 16 then none else some control

abbrev pub linux_nxthdr : Memory → (control controllen cmsg : ℕ) → Option ℕ
linux_nxthdr m control controllen cmsg =
    let next = cmsg + align8 (load64 m cmsg) in
    if ltb (control + controllen) (next + 16) then none else some next

-- The three assignments to the header of Linux, from the last field to the first.
unfoldable pub freebsd2linux_header : Memory → (linux bsd : ℕ) → Memory
freebsd2linux_header m l f =
    let t = store32 m (l + 12) (load32 m (f + 8)) in
    let u = store32 t (l + 8) (load32 t (f + 4)) in store64 u l (cmsg_len (less_16 (load32 u f)))

-- `memcpy` of the content, which the length of the Linux header counts
abbrev pub copy_content : Memory → (from to linux : ℕ) → Memory
copy_content m from to l = bcopy m (from + 16) (to + 16) (less_16 (load64 m l))

-- `*linux_optval = *freebsd_optval`, for a byte and for an `int`
abbrev pub tos_message : Memory → (linux bsd : ℕ) → Memory
tos_message m l f = update m (l + 16) (m (f + 16))

abbrev pub ttl_message : Memory → (linux bsd : ℕ) → Memory
ttl_message m l f = store32 m (l + 16) (m (f + 16))

-- `*freebsd_optval = *(int *)linux_optval`
abbrev pub low_byte : Memory → (linux bsd : ℕ) → Memory
low_byte m l f = update m (f + 16) (load32 m (l + 16) % 256)

-- The cases of the nested `switch` over the level and the type.
pub data Kind : Type 0 where
  tos : Kind
  ttl : Kind
  other : Kind

unfoldable pub classify : (ip tos_number ttl_number : ℕ) → (level number : ℕ) → Kind
classify ip tos_number ttl_number level number =
    if not (level == ip)
    then other
    else if number == tos_number
    then tos
    else if number == ttl_number
    then ttl
    else other

-- What the case does when the header has been converted for Linux.
abbrev pub freebsd2linux_kind : Kind → Memory → (linux bsd : ℕ) → Memory
freebsd2linux_kind tos m l f = tos_message (store32 m (l + 12) linux_ip_tos) l f
freebsd2linux_kind ttl m l f =
    ttl_message (store32 (store64 m l (cmsg_len 4)) (l + 12) linux_ip_ttl) l f
freebsd2linux_kind other m l f = copy_content m f l l

module _ (c : Cmsgs) where
  abbrev pub kind_at : Memory → (linux : ℕ) → Kind
  kind_at m l =
      classify c.ipproto_ip c.ip_recvtos c.ip_recvttl (load32 m (l + 8)) (load32 m (l + 12))

  -- One control message for Linux, as `freebsd2linux_cmsghdr` converts it.
  unfoldable pub freebsd2linux_message : Memory → (linux bsd : ℕ) → Memory
  unfolding freebsd2linux_header classify
  freebsd2linux_message m l f =
      let t = freebsd2linux_header m l f in freebsd2linux_kind (kind_at t l) t l f

  -- The header for the kernel.
  unfoldable pub linux2freebsd_header : Memory → (linux bsd : ℕ) → Memory
  linux2freebsd_header m l f =
      let t = store32 m (f + 8) (load32 m (l + 12)) in
      let u = store32 t (f + 4) (load32 t (l + 8)) in
      store32 u f (cmsg_len (less_16 (load64 u l)) % 2 ^ 32)

  -- The content of IP_TOS, which a caller may give as an `int` or as a byte.
  abbrev pub tos_content : Memory → (linux bsd : ℕ) → Memory
  tos_content m l f =
      if load64 m l == cmsg_len 4
      then low_byte m l f
      else if load64 m l == cmsg_len 1
      then tos_message m f l
      else m

  -- What the case does when the header has been converted for the kernel.
  abbrev pub linux2freebsd_kind : Kind → Memory → (linux bsd : ℕ) → Memory
  linux2freebsd_kind tos m l f = tos_content (store32 (store32 m (f + 8) c.ip_tos) f 17) l f
  linux2freebsd_kind ttl m l f = low_byte (store32 (store32 m (f + 8) c.ip_ttl) f 17) l f
  linux2freebsd_kind other m l f = copy_content m l f l

  -- One control message for the kernel, as `linux2freebsd_cmsg` converts it.
  unfoldable pub linux2freebsd_message : Memory → (linux bsd : ℕ) → Memory
  unfolding linux2freebsd_header classify
  linux2freebsd_message m l f =
      let t = linux2freebsd_header m l f in
      let kind =
        classify c.ipproto_ip linux_ip_tos linux_ip_ttl (load32 t (l + 8)) (load32 t (l + 12)) in
      linux2freebsd_kind kind t l f

  -- The loops over the control messages, on fuel; `message` converts one.
  unfoldable pub cmsg_loop :
      (message : Memory → ℕ → ℕ → Memory)
      → (fuel : ℕ) → (lcontrol fcontrol llen flen : ℕ) → (linux bsd : Option ℕ) → Memory
      → Option Memory
  cmsg_loop message fuel lcontrol fcontrol llen flen none bsd m = some m
  cmsg_loop message fuel lcontrol fcontrol llen flen (some l) none m = some m
  cmsg_loop message zero lcontrol fcontrol llen flen (some l) (some f) m = none
  cmsg_loop message (suc fuel) lcontrol fcontrol llen flen (some l) (some f) m =
      let t = message m l f in
      cmsg_loop message fuel lcontrol fcontrol llen flen (linux_nxthdr t lcontrol llen l)
        (c.nxthdr t fcontrol flen f) t
