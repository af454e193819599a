-- ===== src/Sock/Calls.antt =====
-- bsd/lib/lazybsd_socket.c: the calls of the socket interface. `bsdaddr` is the address of the
-- `struct sockaddr_storage` on the stack.
use lazybsd.Prelude.{
  ℕ, ◌+◌, ◌*◌, ◌/◌, ◌%◌, ◌^◌, Option, none, some, List, [], ◌∷◌, if◌then◌else◌, ltb, ◌==◌, ℤ,
  is_some, update,
}
use lazybsd.Subr.Uio.{Iovec}
use lazybsd.Sock.Address.{
  Memory, bsd_inet6, linux_inet6, linux2freebsd_sockaddr, freebsd2linux_sockaddr,
}
use lazybsd.Sock.Process.{
  sys_socket, kern_getsockopt, kern_setsockopt, kern_ioctl, kern_close, kern_readv, kern_writev,
  sendit, kern_recvit, kern_fcntl, sys_listen, kern_bindat, kern_connectat, sys_shutdown,
  kern_select, kern_poll, sys_dup, sys_dup2, Process, Kernel, kern_fail, ask, retval, success,
}

abbrev pub einval : ℕ
einval = 22

abbrev pub int_mod : ℕ
int_mod = 2 ^ 32

-- INT_MAX
abbrev pub int_max : ℕ
int_max = 2147483647

-- The loop that adds the lengths of segments in an `int`.
abbrev pub add_lengths : (len : ℕ) → List Iovec → ℕ
add_lengths len [] = len
add_lengths len (v ∷ iov) = add_lengths ((len + v.iov_len) % int_mod) iov

-- A number of 32 bits in memory, the low byte first.
unfoldable pub store32 : Memory → ℕ → ℕ → Memory
store32 m a v =
    update
      (update (update (update m a (v % 256)) (a + 1) (v / 256 % 256)) (a + 2) (v / 65536 % 256))
      (a + 3) (v / 16777216 % 256)

unfoldable pub load32 : Memory → ℕ → ℕ
load32 m a = m a + 256 * m (a + 1) + 65536 * m (a + 2) + 16777216 * m (a + 3)

-- A socket address that the kernel allocated is given back.
abbrev pub free_sockaddr : Option ℕ → Process → Process
free_sockaddr none s = s
free_sockaddr (some a) s = record s { freed = a ∷ s.freed }

-- The address goes to the caller, if there is one and the caller wants it.
abbrev pub give_sockaddr : (name sockaddr : Option ℕ) → Process → Process
give_sockaddr name sockaddr s = record s { memory = freebsd2linux_sockaddr s.memory name sockaddr }

module _ (k : Kernel) where
  unfoldable pub lazybsd_socket : (domain kind protocol : ℕ) → Process → Process × ℤ
  unfolding ask
  lazybsd_socket domain kind protocol =
      let family = if domain == linux_inet6 then bsd_inet6 else domain in
      ask k (sys_socket family kind protocol) retval

  unfoldable pub lazybsd_getsockopt_freebsd :
      (s level name optval optlen : ℕ) → Process → Process × ℤ
  unfolding ask
  lazybsd_getsockopt_freebsd s level name optval optlen =
      ask k (kern_getsockopt s level name optval optlen) success

  unfoldable pub lazybsd_setsockopt_freebsd :
      (s level name optval optlen : ℕ) → Process → Process × ℤ
  unfolding ask
  lazybsd_setsockopt_freebsd s level name optval optlen =
      ask k (kern_setsockopt s level name optval optlen) success

  unfoldable pub lazybsd_ioctl_freebsd : (fd request argp : ℕ) → Process → Process × ℤ
  unfolding ask
  lazybsd_ioctl_freebsd fd request argp = ask k (kern_ioctl fd request argp) success

  unfoldable pub lazybsd_close : (fd : ℕ) → Process → Process × ℤ
  unfolding ask
  lazybsd_close fd = ask k (kern_close fd) success

  unfoldable pub lazybsd_read : (fd buf nbytes : ℕ) → Process → Process × ℤ
  unfolding ask
  lazybsd_read fd buf nbytes s =
      let v : Iovec = record { iov_base = buf; iov_len = nbytes } in
      if ltb int_max nbytes
      then kern_fail k einval s
      else ask k (kern_readv fd (v ∷ []) nbytes) retval s

  unfoldable pub lazybsd_readv : (fd : ℕ) → (iov : List Iovec) → Process → Process × ℤ
  unfolding ask
  lazybsd_readv fd iov = ask k (kern_readv fd iov (add_lengths 0 iov)) retval

  unfoldable pub lazybsd_write : (fd buf nbytes : ℕ) → Process → Process × ℤ
  unfolding ask
  lazybsd_write fd buf nbytes s =
      let v : Iovec = record { iov_base = buf; iov_len = nbytes } in
      if ltb int_max nbytes
      then kern_fail k einval s
      else ask k (kern_writev fd (v ∷ []) nbytes) retval s

  unfoldable pub lazybsd_writev : (fd : ℕ) → (iov : List Iovec) → Process → Process × ℤ
  unfolding ask
  lazybsd_writev fd iov = ask k (kern_writev fd iov (add_lengths 0 iov)) retval

  -- The memory in which `lazybsd_sendto`, `lazybsd_bind` and `lazybsd_connect` have converted an address. The
  -- `struct sockaddr_storage` at `bsdaddr` has 128 bytes; a longer address is written over what stands behind it.
  abbrev pub with_name : (bsdaddr : ℕ) → (name : Option ℕ) → (namelen : ℕ) → Process → Process
  with_name bsdaddr name namelen s = record s {
    memory = linux2freebsd_sockaddr s.memory name namelen (some bsdaddr);
  }

  unfoldable pub lazybsd_sendto :
      (bsdaddr s buf len flags : ℕ) → (to : Option ℕ) → (tolen : ℕ) → Process → Process × ℤ
  unfolding ask linux2freebsd_sockaddr
  lazybsd_sendto bsdaddr s buf len flags to tolen p =
      let v : Iovec = record { iov_base = buf; iov_len = len } in
      let pf = if is_some to then some bsdaddr else none in
      ask k (sendit s pf tolen (v ∷ []) flags) retval (with_name bsdaddr to tolen p)

  unfoldable pub lazybsd_send : (bsdaddr s buf len flags : ℕ) → Process → Process × ℤ
  unfolding lazybsd_sendto
  lazybsd_send bsdaddr s buf len flags = lazybsd_sendto bsdaddr s buf len flags none 0

  -- The name's length goes back to the caller.
  abbrev pub give_length : Option ℕ → (namelen : ℕ) → Process → Process
  give_length none namelen s = s
  give_length (some a) namelen s = record s { memory = store32 s.memory a namelen }

  abbrev pub length_or_zero : Memory → Option ℕ → ℕ
  length_or_zero m none = 0
  length_or_zero m (some a) = load32 m a

  unfoldable pub lazybsd_recvfrom :
      (bsdaddr s buf len flags : ℕ) → (from fromlen : Option ℕ) → Process → Process × ℤ
  unfolding ask freebsd2linux_sockaddr
  lazybsd_recvfrom bsdaddr s buf len flags from fromlen p =
      let v : Iovec = record { iov_base = buf; iov_len = len } in
      let namelen = length_or_zero p.memory fromlen in
      ask k (kern_recvit s (some bsdaddr) namelen (v ∷ []) flags)
        (λ t r.
          let u = give_length fromlen r.namelen t in
          let given = if r.namelen == 0 then u else give_sockaddr from (some bsdaddr) u in
          retval given r)
        p

  unfoldable pub lazybsd_recv : (bsdaddr s buf len flags : ℕ) → Process → Process × ℤ
  unfolding lazybsd_recvfrom
  lazybsd_recv bsdaddr s buf len flags = lazybsd_recvfrom bsdaddr s buf len flags none none

  unfoldable pub lazybsd_fcntl : (fd cmd argp : ℕ) → Process → Process × ℤ
  unfolding ask
  lazybsd_fcntl fd cmd argp = ask k (kern_fcntl fd cmd argp) retval

  unfoldable pub lazybsd_listen : (s backlog : ℕ) → Process → Process × ℤ
  unfolding ask
  lazybsd_listen s backlog = ask k (sys_listen s backlog) success

  unfoldable pub lazybsd_bind :
      (bsdaddr s : ℕ) → (addr : Option ℕ) → (addrlen : ℕ) → Process → Process × ℤ
  unfolding ask linux2freebsd_sockaddr
  lazybsd_bind bsdaddr s addr addrlen p =
      ask k (kern_bindat s bsdaddr) success (with_name bsdaddr addr addrlen p)

  unfoldable pub lazybsd_connect :
      (bsdaddr s : ℕ) → (name : Option ℕ) → (namelen : ℕ) → Process → Process × ℤ
  unfolding ask linux2freebsd_sockaddr
  lazybsd_connect bsdaddr s name namelen p =
      ask k (kern_connectat s bsdaddr) success (with_name bsdaddr name namelen p)

  unfoldable pub lazybsd_shutdown : (s how : ℕ) → Process → Process × ℤ
  unfolding ask
  lazybsd_shutdown s how = ask k (sys_shutdown s how) success

  unfoldable pub lazybsd_select :
      (nfds readfds writefds exceptfds timeout : ℕ) → Process → Process × ℤ
  unfolding ask
  lazybsd_select nfds readfds writefds exceptfds timeout =
      ask k (kern_select nfds readfds writefds exceptfds timeout) retval

  -- The timeout is not used.
  unfoldable pub lazybsd_poll : (fds nfds timeout : ℕ) → Process → Process × ℤ
  unfolding ask
  lazybsd_poll fds nfds timeout = ask k (kern_poll fds nfds 0 0) retval

  unfoldable pub lazybsd_dup : (fd : ℕ) → Process → Process × ℤ
  unfolding ask
  lazybsd_dup fd = ask k (sys_dup fd) retval

  unfoldable pub lazybsd_dup2 : (old new : ℕ) → Process → Process × ℤ
  unfolding ask
  lazybsd_dup2 old new = ask k (sys_dup2 old new) retval
