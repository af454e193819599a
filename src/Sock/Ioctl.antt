-- ===== src/Sock/Ioctl.antt =====
-- bsd/lib/lazybsd_socket.c: `linux2freebsd_ioctl`. The numbers on the left are the macros LINUX_TIOC*,
-- LINUX_FIO* and LINUX_SIOC* of the file; the kernel's own numbers are a parameter.
use lazybsd.Prelude.{
  ℕ, ℤ, pos, negsuc, Option, none, some, List, [], ◌∷◌, ◌≡◌, refl, is_neg, if◌then◌else◌,
}
use lazybsd.Sock.Options.{find_case}

-- The kernel's names of requests.
pub data IoctlName : Type 0 where
  tiocexcl tiocnxcl tiocsctty tiocgpgrp tiocspgrp tiocoutq tiocsti tiocgwinsz : IoctlName
  tiocswinsz tiocmget tiocmbis tiocmbic tiocmset fionread tioccons tiocpkt fionbio : IoctlName
  tiocnotty tiocsetd tiocgetd tiocsbrk tioccbrk tiocgsid fionclex fioclex fioasync : IoctlName
  tiocpkt_data tiocpkt_flushread tiocpkt_flushwrite tiocpkt_stop tiocpkt_start : IoctlName
  tiocpkt_nostop tiocpkt_dostop tiocpkt_ioctl siocgifconf siocgifflags siocsifflags : IoctlName
  siocgifaddr siocsifaddr siocgifdstaddr siocsifdstaddr siocgifbrdaddr : IoctlName
  siocsifbrdaddr siocgifnetmask siocsifnetmask siocgifmetric siocsifmetric : IoctlName
  siocgifmtu siocsifmtu siocsifname siocaddmulti siocdelmulti siocgifindex : IoctlName
  siocdifaddr : IoctlName

-- The switch, one row for each case.
abbrev pub ioctl_table : List (ℕ × IoctlName)
ioctl_table =
    (21516, tiocexcl)
    ∷ (21517, tiocnxcl)
    ∷ (21518, tiocsctty)
    ∷ (21519, tiocgpgrp)
    ∷ (21520, tiocspgrp)
    ∷ (21521, tiocoutq)
    ∷ (21522, tiocsti)
    ∷ (21523, tiocgwinsz)
    ∷ (21524, tiocswinsz)
    ∷ (21525, tiocmget)
    ∷ (21526, tiocmbis)
    ∷ (21527, tiocmbic)
    ∷ (21528, tiocmset)
    ∷ (21531, fionread)
    ∷ (21533, tioccons)
    ∷ (21536, tiocpkt)
    ∷ (21537, fionbio)
    ∷ (21538, tiocnotty)
    ∷ (21539, tiocsetd)
    ∷ (21540, tiocgetd)
    ∷ (21543, tiocsbrk)
    ∷ (21544, tioccbrk)
    ∷ (21545, tiocgsid)
    ∷ (21584, fionclex)
    ∷ (21585, fioclex)
    ∷ (21586, fioasync)
    ∷ (0, tiocpkt_data)
    ∷ (1, tiocpkt_flushread)
    ∷ (2, tiocpkt_flushwrite)
    ∷ (4, tiocpkt_stop)
    ∷ (8, tiocpkt_start)
    ∷ (16, tiocpkt_nostop)
    ∷ (32, tiocpkt_dostop)
    ∷ (64, tiocpkt_ioctl)
    ∷ (35090, siocgifconf)
    ∷ (35091, siocgifflags)
    ∷ (35092, siocsifflags)
    ∷ (35093, siocgifaddr)
    ∷ (35094, siocsifaddr)
    ∷ (35095, siocgifdstaddr)
    ∷ (35096, siocsifdstaddr)
    ∷ (35097, siocgifbrdaddr)
    ∷ (35098, siocsifbrdaddr)
    ∷ (35099, siocgifnetmask)
    ∷ (35100, siocsifnetmask)
    ∷ (35101, siocgifmetric)
    ∷ (35102, siocsifmetric)
    ∷ (35105, siocgifmtu)
    ∷ (35106, siocsifmtu)
    ∷ (35107, siocsifname)
    ∷ (35121, siocaddmulti)
    ∷ (35122, siocdelmulti)
    ∷ (35123, siocgifindex)
    ∷ (35126, siocdifaddr)
    ∷ []

abbrev pub request_or : (number : IoctlName → ℕ) → Option IoctlName → ℤ
request_or number none = negsuc 0
request_or number (some r) = pos (number r)

unfoldable pub linux2freebsd_ioctl : (number : IoctlName → ℕ) → (request : ℕ) → ℤ
linux2freebsd_ioctl number request = request_or number (find_case ioctl_table request)

-- `lazybsd_ioctl`: the kernel is called with a request, or the request is refused. A call that failed
-- returns -1, after `lazybsd_os_errno`.
pub data IoctlCall : Type 0 where
  ioctl_called : (request : ℤ) → (error : ℕ) → IoctlCall
  ioctl_refused : (error : ℕ) → IoctlCall

unfoldable pub lazybsd_ioctl :
    (number : IoctlName → ℕ) → (einval : ℕ) → (kern_ioctl : ℤ → ℕ) → (request : ℕ) → IoctlCall
unfolding linux2freebsd_ioctl
lazybsd_ioctl number einval kern_ioctl request =
    let req = linux2freebsd_ioctl number request in
    if is_neg req then ioctl_refused einval else ioctl_called req (kern_ioctl req)

-- The call for a request of the table, or its refusal.
abbrev pub ioctl_call :
    (number : IoctlName → ℕ) → (einval : ℕ) → (kern_ioctl : ℤ → ℕ) → Option IoctlName → IoctlCall
ioctl_call number einval kern_ioctl none = ioctl_refused einval
ioctl_call number einval kern_ioctl (some r) =
    ioctl_called (pos (number r)) (kern_ioctl (pos (number r)))

request_or-ioctl_call :
    (number : IoctlName → ℕ) (einval : ℕ) (kern_ioctl : ℤ → ℕ) (o : Option IoctlName)
    → (let req = request_or number o in
        if is_neg req then ioctl_refused einval else ioctl_called req (kern_ioctl req))
      ≡ ioctl_call number einval kern_ioctl o
request_or-ioctl_call number einval kern_ioctl none = refl
request_or-ioctl_call number einval kern_ioctl (some r) = refl

-- `lazybsd_ioctl` calls the kernel with its own number of a request in the table, and refuses any
-- other request with EINVAL without a call of the kernel.
pub lazybsd_ioctl-ioctl_call :
    (number : IoctlName → ℕ) (einval : ℕ) (kern_ioctl : ℤ → ℕ) (request : ℕ)
    → lazybsd_ioctl number einval kern_ioctl request
      ≡ ioctl_call number einval kern_ioctl (find_case ioctl_table request)
unfolding lazybsd_ioctl linux2freebsd_ioctl
lazybsd_ioctl-ioctl_call number einval kern_ioctl request =
    request_or-ioctl_call number einval kern_ioctl (find_case ioctl_table request)
