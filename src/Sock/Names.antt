-- ===== src/Sock/Names.antt =====
-- bsd/lib/lazybsd_socket.c: the calls for which the kernel allocates a socket address, `lazybsd_sysctl`,
-- `lazybsd_route_ctl` and `lazybsd_gettimeofday`.
use lazybsd.Prelude.{ℕ, ◌+◌, ◌/◌, ◌^◌, Option, none, some, if◌then◌else◌, ◌==◌, ℤ, pos}
use lazybsd.Sock.Address.{Memory, linux2freebsd_sockaddr, freebsd2linux_sockaddr}
use lazybsd.Sock.Process.{
  KernelCall, kern_accept, kern_getpeername, kern_getsockname, userland_sysctl, rib_action, Reply,
  Process, Kernel, after, kern_fail, ask, success,
}
use lazybsd.Sock.Calls.{einval, free_sockaddr, give_sockaddr, store32}

-- A `size_t` in memory, the low half first.
abbrev pub store64 : Memory → ℕ → ℕ → Memory
store64 m a v = store32 (store32 m a v) (a + 4) (v / 2 ^ 32)

module _ (k : Kernel) where
  -- The address that the kernel allocated is given back whether the call failed or not.
  abbrev pub failed_with_name : Process → Reply → Process × ℤ
  failed_with_name t r = kern_fail k r.error (free_sockaddr r.sockaddr t)

  -- `*addrlen = pf->sa_len`; `none` is the use of a NULL pointer.
  abbrev pub accepted : (addrlen sockaddr : Option ℕ) → Process → Option Process
  accepted none sockaddr s = some s
  accepted (some l) none s = none
  accepted (some l) (some pf) s = some record s { memory = store32 s.memory l (s.memory pf) }

  abbrev pub accept_result : Reply → Option Process → Option (Process × ℤ)
  accept_result r none = none
  accept_result r (some s) = some (free_sockaddr r.sockaddr s, pos r.retval)

  unfoldable pub lazybsd_accept :
      (s : ℕ) → (addr addrlen : Option ℕ) → Process → Option (Process × ℤ)
  unfolding kern_fail freebsd2linux_sockaddr
  lazybsd_accept s addr addrlen p =
      let c = kern_accept s in
      let r = k.answer c p.memory in
      let t = after k c r p in
      if r.error == 0
      then accept_result r (accepted addrlen r.sockaddr (give_sockaddr addr r.sockaddr t))
      else some (failed_with_name t r)

  -- `lazybsd_getpeername` and `lazybsd_getsockname`
  unfoldable pub get_name : KernelCall → (name : Option ℕ) → Process → Process × ℤ
  unfolding kern_fail freebsd2linux_sockaddr
  get_name c name p =
      let r = k.answer c p.memory in
      let t = after k c r p in
      if r.error == 0
      then (free_sockaddr r.sockaddr (give_sockaddr name r.sockaddr t), pos 0)
      else failed_with_name t r

  unfoldable pub lazybsd_getpeername :
      (s : ℕ) → (name : Option ℕ) → (namelen : ℕ) → Process → Process × ℤ
  unfolding get_name
  lazybsd_getpeername s name namelen = get_name (kern_getpeername s namelen) name

  unfoldable pub lazybsd_getsockname :
      (s : ℕ) → (name : Option ℕ) → (namelen : ℕ) → Process → Process × ℤ
  unfolding get_name
  lazybsd_getsockname s name namelen = get_name (kern_getsockname s namelen) name

  abbrev pub give_size : Option ℕ → (size : ℕ) → Process → Process
  give_size none size s = s
  give_size (some a) size s = record s { memory = store64 s.memory a size }

  unfoldable pub lazybsd_sysctl :
      (name namelen : ℕ) → (oldp oldlenp newp : Option ℕ) → (newlen : ℕ) → Process → Process × ℤ
  unfolding ask
  lazybsd_sysctl name namelen oldp oldlenp newp newlen =
      ask k (userland_sysctl name namelen oldp oldlenp newp newlen)
        λ t r. (give_size oldlenp r.retval t, pos 0)

  -- The two `switch` of `lazybsd_route_ctl`: the kernel's numbers of a request and of a flag.
  abbrev pub route_request : (add del change : ℕ) → (req : ℕ) → Option ℕ
  route_request add del change req =
      if req == 0
      then some add
      else if req == 1
      then some del
      else if req == 2
      then some change
      else none

  abbrev pub route_flag : (host gateway : ℕ) → (flag : ℕ) → Option ℕ
  route_flag host gateway flag =
      if flag == 0 then some host else if flag == 1 then some gateway else none

  -- An address that is given is converted, as a `struct linux_sockaddr` of 16 bytes.
  abbrev pub convert_given : (storage : ℕ) → Option ℕ → Process → Process
  convert_given storage linux s = record s {
    memory = linux2freebsd_sockaddr s.memory linux 16 (some storage);
  }

  abbrev pub storage_of : (storage : ℕ) → Option ℕ → Option ℕ
  storage_of storage none = none
  storage_of storage (some a) = some storage

  -- `lazybsd_route_ctl` from the second `switch` on
  abbrev pub route_action :
      (sa_gw sa_dst sa_nm : ℕ)
      → (dst gw netmask : Option ℕ) → Option ℕ
      → Option ℕ
      → Process
      → Process × ℤ
  route_action sa_gw sa_dst sa_nm dst gw netmask none flag s = kern_fail k einval s
  route_action sa_gw sa_dst sa_nm dst gw netmask (some rtreq) none s = kern_fail k einval s
  route_action sa_gw sa_dst sa_nm dst gw netmask (some rtreq) (some rtflag) s =
      ask k
        (rib_action rtreq rtflag (storage_of sa_gw gw) (storage_of sa_dst dst)
          (storage_of sa_nm netmask))
        success (convert_given sa_nm netmask (convert_given sa_dst dst (convert_given sa_gw gw s)))

-- The numbers of the kernel's routing requests and flags.
pub record RouteConsts : Type 0 where
  pub rtm_add : ℕ
  pub rtm_delete : ℕ
  pub rtm_change : ℕ
  pub rtf_host : ℕ
  pub rtf_gateway : ℕ

unfoldable pub lazybsd_route_ctl :
    RouteConsts
    → Kernel
    → (sa_gw sa_dst sa_nm : ℕ) → (req flag : ℕ) → (dst gw netmask : Option ℕ) → Process
    → Process × ℤ
unfolding ask linux2freebsd_sockaddr
lazybsd_route_ctl n k sa_gw sa_dst sa_nm req flag dst gw netmask =
    route_action k sa_gw sa_dst sa_nm dst gw netmask
      (route_request k n.rtm_add n.rtm_delete n.rtm_change req)
      (route_flag k n.rtf_host n.rtf_gateway flag)

-- `lazybsd_gettimeofday`: the host's clock in seconds and nanoseconds, as seconds and microseconds
unfoldable pub lazybsd_gettimeofday : (sec nsec : ℕ) → ℕ × ℕ
lazybsd_gettimeofday sec nsec = (sec, nsec / 1000)
