-- ===== src/Sock/Process.antt =====
-- bsd/lib/lazybsd_socket.c: what the calls of the socket interface share. A call asks the kernel, and
-- reports an error of the kernel as -1 with the host's `errno`.
use lazybsd.Prelude.{ℕ, Option, some, List, ◌∷◌, if◌then◌else◌, ◌==◌, ℤ, pos, negsuc}
use lazybsd.Subr.Uio.{Iovec}
use lazybsd.Errno.{ErrorName, lazybsd_os_errno}
use lazybsd.Sock.Address.{Memory}

-- `struct msghdr`, of Linux and of the kernel; pointers may be NULL.
pub record Msghdr : Type 0 where
  pub msg_name : Option ℕ
  pub msg_namelen : ℕ
  pub msg_iov : ℕ
  pub msg_iovlen : ℕ
  pub msg_control : Option ℕ
  pub msg_controllen : ℕ
  pub msg_flags : ℕ

-- The functions of the kernel, with the arguments that the calls pass on. Integers are bit patterns;
-- a `struct sockaddr` is an address in memory.
pub data KernelCall : Type 0 where
  sys_socket : (domain kind protocol : ℕ) → KernelCall
  kern_getsockopt : (s level name optval optlen : ℕ) → KernelCall
  kern_setsockopt : (s level name optval optlen : ℕ) → KernelCall
  kern_ioctl : (fd request argp : ℕ) → KernelCall
  kern_close : (fd : ℕ) → KernelCall
  kern_readv : (fd : ℕ) → (iov : List Iovec) → (resid : ℕ) → KernelCall
  kern_writev : (fd : ℕ) → (iov : List Iovec) → (resid : ℕ) → KernelCall
  sendit :
      (s : ℕ) → (name : Option ℕ) → (namelen : ℕ) → (iov : List Iovec) → (flags : ℕ) → KernelCall
  kern_recvit :
      (s : ℕ) → (name : Option ℕ) → (namelen : ℕ) → (iov : List Iovec) → (flags : ℕ) → KernelCall
  sendit_message : (s : ℕ) → Msghdr → (flags : ℕ) → KernelCall
  kern_recvit_message : (s : ℕ) → Msghdr → KernelCall
  kern_fcntl : (fd cmd argp : ℕ) → KernelCall
  kern_accept : (s : ℕ) → KernelCall
  sys_listen : (s backlog : ℕ) → KernelCall
  kern_bindat : (s name : ℕ) → KernelCall
  kern_connectat : (s name : ℕ) → KernelCall
  kern_getpeername : (s namelen : ℕ) → KernelCall
  kern_getsockname : (s namelen : ℕ) → KernelCall
  sys_shutdown : (s how : ℕ) → KernelCall
  userland_sysctl :
      (name namelen : ℕ) → (oldp oldlenp : Option ℕ) → (newp : Option ℕ) → (newlen : ℕ) → KernelCall
  kern_select : (nfds readfds writefds exceptfds timeout : ℕ) → KernelCall
  kern_poll : (fds nfds sec nsec : ℕ) → KernelCall
  sys_dup : (fd : ℕ) → KernelCall
  sys_dup2 : (from to : ℕ) → KernelCall
  rib_action : (req flags : ℕ) → (gateway dst netmask : Option ℕ) → KernelCall

-- What comes back: 0 or an error, `td_retval[0]`, the length that a name has now, the message's header,
-- a `struct sockaddr` that was allocated, and the memory.
pub record Reply : Type 0 where
  pub error : ℕ
  pub retval : ℕ
  pub namelen : ℕ
  pub message : Msghdr
  pub sockaddr : Option ℕ
  pub written : Memory

-- The process: its memory, `errno`, the calls of the kernel and what was given back to its
-- allocator, the last ones first.
pub record Process : Type 0 where
  pub memory : Memory
  pub errno : Option ℕ
  pub asked : List KernelCall
  pub freed : List ℕ

-- The kernel, and the error numbers of the host.
pub record Kernel : Type 0 where
  pub answer : KernelCall → Memory → Reply
  pub host : ErrorName → ℕ

-- The result of the kernel call.
abbrev pub retval : Process → Reply → Process × ℤ
retval s r = (s, pos r.retval)

-- `return (rc)`, when `rc` is 0
abbrev pub success : Process → Reply → Process × ℤ
success s r = (s, pos 0)

module _ (k : Kernel) where
  -- The label `kern_fail`
  unfoldable pub kern_fail : ℕ → Process → Process × ℤ
  unfolding lazybsd_os_errno
  kern_fail rc s = (record s { errno = some (lazybsd_os_errno k.host rc) }, negsuc 0)

  abbrev pub after : KernelCall → Reply → Process → Process
  after c r s = record s { memory = r.written; asked = c ∷ s.asked }

  -- A kernel call whose error ends the function.
  unfoldable pub ask : KernelCall → (Process → Reply → Process × ℤ) → Process → Process × ℤ
  unfolding kern_fail
  ask c next s =
      let r = k.answer c s.memory in
      let t = after c r s in if r.error == 0 then next t r else kern_fail r.error t
