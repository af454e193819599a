-- ===== src/Sock/Options.antt =====
-- bsd/lib/lazybsd_socket.c: the conversion of socket options, and the two calls that use it. The
-- numbers on the left are the macros LINUX_SO_*, LINUX_IP_*, LINUX_IPV6_* and LINUX_TCP_* of the
-- file; the kernel's own numbers are a parameter.
use lazybsd.Prelude.{
  ℕ, ℤ, pos, negsuc, ◌≡◌, refl, Option, none, some, List, [], ◌∷◌, if◌then◌else◌, ◌==◌, is_neg,
  ==_refl, ==-eq_false, ◌≢◌,
}

-- The kernel's names of options.
pub data OptName : Type 0 where
  so_debug so_reuseaddr so_error so_dontroute so_broadcast so_sndbuf so_rcvbuf : OptName
  so_keepalive so_oobinline so_linger so_reuseport so_rcvlowat so_sndlowat : OptName
  so_rcvtimeo so_sndtimeo so_acceptconn so_protocol ip_tos ip_ttl ip_hdrincl : OptName
  ip_options ip_multicast_if ip_multicast_ttl ip_multicast_loop ip_add_membership : OptName
  ip_drop_membership ip_recvttl ip_recvtos ip_bindany ip_minttl ipv6_v6only : OptName
  ipv6_recvpktinfo ipv6_bindany tcp_nodelay tcp_maxseg tcp_keepidle tcp_keepintvl : OptName
  tcp_keepcnt tcp_info tcp_md5sig : OptName

-- The kernel's numbers of levels, options and EINVAL.
pub record Kernel : Type 0 where
  pub sol_socket : ℕ
  pub ipproto_ip : ℕ
  pub ipproto_ipv6 : ℕ
  pub ipproto_tcp : ℕ
  pub number : OptName → ℕ
  pub einval : ℕ

-- The switches, one row for each case.
abbrev pub so_table : List (ℕ × OptName)
so_table =
    (1, so_debug)
    ∷ (2, so_reuseaddr)
    ∷ (4, so_error)
    ∷ (5, so_dontroute)
    ∷ (6, so_broadcast)
    ∷ (7, so_sndbuf)
    ∷ (8, so_rcvbuf)
    ∷ (9, so_keepalive)
    ∷ (10, so_oobinline)
    ∷ (13, so_linger)
    ∷ (15, so_reuseport)
    ∷ (18, so_rcvlowat)
    ∷ (19, so_sndlowat)
    ∷ (20, so_rcvtimeo)
    ∷ (21, so_sndtimeo)
    ∷ (30, so_acceptconn)
    ∷ (38, so_protocol)
    ∷ []

abbrev pub ip_table : List (ℕ × OptName)
ip_table =
    (1, ip_tos)
    ∷ (2, ip_ttl)
    ∷ (3, ip_hdrincl)
    ∷ (4, ip_options)
    ∷ (32, ip_multicast_if)
    ∷ (33, ip_multicast_ttl)
    ∷ (34, ip_multicast_loop)
    ∷ (35, ip_add_membership)
    ∷ (36, ip_drop_membership)
    ∷ (12, ip_recvttl)
    ∷ (13, ip_recvtos)
    ∷ (19, ip_bindany)
    ∷ (21, ip_minttl)
    ∷ []

abbrev pub ip6_table : List (ℕ × OptName)
ip6_table = (26, ipv6_v6only) ∷ (49, ipv6_recvpktinfo) ∷ (75, ipv6_bindany) ∷ []

abbrev pub tcp_table : List (ℕ × OptName)
tcp_table =
    (1, tcp_nodelay)
    ∷ (2, tcp_maxseg)
    ∷ (4, tcp_keepidle)
    ∷ (5, tcp_keepintvl)
    ∷ (6, tcp_keepcnt)
    ∷ (11, tcp_info)
    ∷ (14, tcp_md5sig)
    ∷ []

abbrev pub find_case {ℓ} : {A : Type ℓ} → List (ℕ × A) → ℕ → Option A
find_case [] n = none
find_case ((k, a) ∷ l) n = if n == k then some a else find_case l n

-- A switch on an option, with its default.
abbrev pub case_or : Kernel → (default_value : ℤ) → Option OptName → ℤ
case_or k d none = d
case_or k d (some o) = pos (k.number o)

abbrev pub switch : Kernel → List (ℕ × OptName) → (default_value optname : ℤ) → ℤ
switch k t d (pos n) = case_or k d (find_case t n)
switch k t d (negsuc n) = d

unfoldable pub so_opt_convert : Kernel → (optname : ℤ) → ℤ
so_opt_convert k optname = switch k so_table (negsuc 0) optname

unfoldable pub ip_opt_convert : Kernel → (optname : ℤ) → ℤ
ip_opt_convert k optname = switch k ip_table optname optname

unfoldable pub ip6_opt_convert : Kernel → (optname : ℤ) → ℤ
ip6_opt_convert k optname = switch k ip6_table optname optname

unfoldable pub tcp_opt_convert : Kernel → (optname : ℤ) → ℤ
tcp_opt_convert k optname = switch k tcp_table (negsuc 0) optname

unfoldable pub linux2freebsd_opt : Kernel → (level : ℕ) → (optname : ℤ) → ℤ
unfolding so_opt_convert ip_opt_convert ip6_opt_convert tcp_opt_convert
linux2freebsd_opt k level optname =
    if level == k.sol_socket
    then so_opt_convert k optname
    else if level == k.ipproto_ip
    then ip_opt_convert k optname
    else if level == k.ipproto_ipv6
    then ip6_opt_convert k optname
    else if level == k.ipproto_tcp
    then tcp_opt_convert k optname
    else negsuc 0

-- LINUX_SOL_SOCKET
abbrev pub linux_sol_socket : ℕ
linux_sol_socket = 1

-- What a call comes to: the kernel was called with a level and an option and answered an error, 0 if
-- none, or the option was refused. A call that failed returns -1, after `lazybsd_os_errno`.
pub data OptCall : Type 0 where
  kernel_called : (level : ℕ) → (optname : ℤ) → (error : ℕ) → OptCall
  refused : (error : ℕ) → OptCall

module _ (k : Kernel) (kern_sockopt : (level : ℕ) → (optname : ℤ) → ℕ) where
  -- What `lazybsd_getsockopt` and `lazybsd_setsockopt` both do around their call of the kernel.
  unfoldable pub sockopt : (level : ℕ) → (optname : ℤ) → OptCall
  unfolding linux2freebsd_opt
  sockopt level optname =
      let level' = if level == linux_sol_socket then k.sol_socket else level in
      let optname' = linux2freebsd_opt k level' optname in
      if is_neg optname'
      then refused k.einval
      else kernel_called level' optname' (kern_sockopt level' optname')

  -- `kern_sockopt` is `kern_getsockopt` here,
  unfoldable pub lazybsd_getsockopt : (level : ℕ) → (optname : ℤ) → OptCall
  unfolding sockopt
  lazybsd_getsockopt level optname = sockopt level optname

  -- and `kern_setsockopt` here.
  unfoldable pub lazybsd_setsockopt : (level : ℕ) → (optname : ℤ) → OptCall
  unfolding sockopt
  lazybsd_setsockopt level optname = sockopt level optname

  -- The call for the option of a table, or its refusal.
  abbrev pub option_call : (level : ℕ) → Option OptName → OptCall
  option_call level none = refused k.einval
  option_call level (some o) =
      kernel_called level (pos (k.number o)) (kern_sockopt level (pos (k.number o)))

  sockopt-switch :
      (level : ℕ) (o : Option OptName)
      → (let v = case_or k (negsuc 0) o in
          if is_neg v then refused k.einval else kernel_called level v (kern_sockopt level v))
        ≡ option_call level o
  sockopt-switch level none = refl
  sockopt-switch level (some o) = refl

  never_negative :
      (level n : ℕ) (o : Option OptName)
      → (let v = case_or k (pos n) o in
          if is_neg v then refused k.einval else kernel_called level v (kern_sockopt level v))
        ≡ kernel_called level (case_or k (pos n) o) (kern_sockopt level (case_or k (pos n) o))
  never_negative level n none = refl
  never_negative level n (some o) = refl

  -- A socket option of Linux reaches the kernel with the kernel's level and the kernel's number of
  -- the option in the table, and an option that is not in the table is refused with EINVAL without
  -- a call of the kernel.
  pub sockopt-option_call :
      (n : ℕ) → sockopt linux_sol_socket (pos n) ≡ option_call k.sol_socket (find_case so_table n)
  unfolding sockopt linux2freebsd_opt so_opt_convert
  sockopt-option_call n =
      rw (==_refl k.sol_socket) (sockopt-switch k.sol_socket (find_case so_table n))

  -- When IPPROTO_IP is neither the kernel's SOL_SOCKET nor LINUX_SOL_SOCKET, every IP option reaches
  -- the kernel: as the kernel's number when it is in the table, and under the number of Linux when
  -- it is not.
  pub sockopt_ip :
      (n : ℕ)
      → k.ipproto_ip ≢ k.sol_socket
      → k.ipproto_ip ≢ linux_sol_socket
      → (let v = case_or k (pos n) (find_case ip_table n) in
          sockopt k.ipproto_ip (pos n) ≡ kernel_called k.ipproto_ip v (kern_sockopt k.ipproto_ip v))
  unfolding sockopt linux2freebsd_opt ip_opt_convert
  sockopt_ip n h i =
      rw
        (
          ==-eq_false k.ipproto_ip linux_sol_socket i,
          ==-eq_false k.ipproto_ip k.sol_socket h,
          ==_refl k.ipproto_ip,
        )
        (never_negative k.ipproto_ip n (find_case ip_table n))
