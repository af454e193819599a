-- ===== src/Sock/Address.antt =====
-- bsd/lib/lazybsd_socket.c: `linux2freebsd_sockaddr` and `freebsd2linux_sockaddr`, on a memory of
-- bytes. `struct linux_sockaddr` (lazybsd_socket.h) starts with the family in two bytes, the low one
-- first; `struct sockaddr` starts with `sa_len` and `sa_family` in one byte each.
pub mod Trips
use lazybsd.Prelude.{
  ℕ, ◌+◌, ◌-◌, ◌*◌, ◌/◌, ◌%◌, ◌^◌, Bool, ◌&&◌, Option, none, some, if◌then◌else◌, ◌==◌, ltb, leb,
  update,
}

abbrev pub Memory : Type 0
Memory = ℕ → ℕ

-- LINUX_AF_INET6, and AF_INET6 of the kernel (AF_INET6_FREEBSD in lazybsd_socket.h)
abbrev pub linux_inet6 : ℕ
linux_inet6 = 10

abbrev pub bsd_inet6 : ℕ
bsd_inet6 = 28

-- A number of two bytes
abbrev pub load16 : Memory → ℕ → ℕ
load16 m a = m a + 256 * m (a + 1)

abbrev pub store16 : Memory → ℕ → ℕ → Memory
store16 m a v = update (update m a (v % 256)) (a + 1) (v / 256 % 256)

-- `bcopy(src, dst, n)`
abbrev pub bcopy : Memory → (src dst n : ℕ) → Memory
bcopy m src dst n x = if leb dst x && ltb x (dst + n) then m (src + (x - dst)) else m x

-- `len - sizeof(sa_family)`, an unsigned word of 64 bits
abbrev pub data_size : ℕ → ℕ
data_size len = (len + 2 ^ 64 - 2) % 2 ^ 64

-- The family in the other system's numbers.
abbrev pub bsd_family : ℕ → ℕ
bsd_family f = if f == linux_inet6 then bsd_inet6 else f

abbrev pub linux_family : ℕ → ℕ
linux_family f = if f == bsd_inet6 then linux_inet6 else f

-- The header of a `struct sockaddr`: `sa_family`, then `sa_len`.
abbrev pub store_header : Memory → (bsd family len : ℕ) → Memory
store_header m bsd family len = update (update m (bsd + 1) (family % 256)) bsd (len % 256)

-- `linux2freebsd_sockaddr`; the two addresses may be the same.
unfoldable pub linux2freebsd_sockaddr :
    Memory → (linux : Option ℕ) → (addrlen : ℕ) → (bsd : Option ℕ) → Memory
linux2freebsd_sockaddr m none addrlen bsd = m
linux2freebsd_sockaddr m (some l) addrlen none = m
linux2freebsd_sockaddr m (some l) addrlen (some b) =
    let t = store_header m b (bsd_family (load16 m l)) addrlen in
    if l + 2 == b + 2 then t else bcopy t (l + 2) (b + 2) (data_size addrlen)

-- `freebsd2linux_sockaddr`
unfoldable pub freebsd2linux_sockaddr : Memory → (linux bsd : Option ℕ) → Memory
freebsd2linux_sockaddr m none bsd = m
freebsd2linux_sockaddr m (some l) none = m
freebsd2linux_sockaddr m (some l) (some b) =
    let t = if l + 2 == b + 2 then m else bcopy m (b + 2) (l + 2) (data_size (m b)) in
    store16 t l (linux_family (t (b + 1)))
