-- ===== src/Errno.antt =====
-- src/lazybsd_errno.c and src/lazybsd_errno.h: the error numbers of the kernel, and those that a
-- caller on the host sees. The host's numbers are a parameter.
mod Examples
use lazybsd.Prelude.{
  ℕ, ◌≡◌, ◌≢◌, refl, sym, ap, ◌∙◌, Bool, true, false, ◌&&◌, Option, none, some, List, [], ◌∷◌,
  if◌then◌else◌, ◌==◌, if_cases, arith,
}

-- The names of the errors in the switch of `lazybsd_os_errno`.
pub data ErrorName : Type 0 where
  eperm enoent esrch eintr eio enxio e2big enoexec ebadf echild edeadlk enomem : ErrorName
  eacces efault enotblk ebusy eexist exdev enodev enotdir eisdir einval enfile : ErrorName
  emfile enotty etxtbsy efbig enospc espipe erofs emlink epipe edom erange : ErrorName
  ewouldblock einprogress ealready enotsock edestaddrreq emsgsize eprototype : ErrorName
  enoprotoopt eprotonosupport esocktnosupport enotsup epfnosupport eafnosupport : ErrorName
  eaddrinuse eaddrnotavail enetdown enetunreach enetreset econnaborted econnreset : ErrorName
  enobufs eisconn enotconn eshutdown etoomanyrefs etimedout econnrefused eloop : ErrorName
  enametoolong ehostdown ehostunreach enotempty eusers edquot estale eremote enolck : ErrorName
  enosys eidrm enomsg eoverflow ecanceled eilseq ebadmsg emultihop enolink eproto : ErrorName

-- The macros LAZYBSD_E*
abbrev pub bsd_number : ErrorName → ℕ
bsd_number eperm = 1
bsd_number enoent = 2
bsd_number esrch = 3
bsd_number eintr = 4
bsd_number eio = 5
bsd_number enxio = 6
bsd_number e2big = 7
bsd_number enoexec = 8
bsd_number ebadf = 9
bsd_number echild = 10
bsd_number edeadlk = 11
bsd_number enomem = 12
bsd_number eacces = 13
bsd_number efault = 14
bsd_number enotblk = 15
bsd_number ebusy = 16
bsd_number eexist = 17
bsd_number exdev = 18
bsd_number enodev = 19
bsd_number enotdir = 20
bsd_number eisdir = 21
bsd_number einval = 22
bsd_number enfile = 23
bsd_number emfile = 24
bsd_number enotty = 25
bsd_number etxtbsy = 26
bsd_number efbig = 27
bsd_number enospc = 28
bsd_number espipe = 29
bsd_number erofs = 30
bsd_number emlink = 31
bsd_number epipe = 32
bsd_number edom = 33
bsd_number erange = 34
bsd_number ewouldblock = 35
bsd_number einprogress = 36
bsd_number ealready = 37
bsd_number enotsock = 38
bsd_number edestaddrreq = 39
bsd_number emsgsize = 40
bsd_number eprototype = 41
bsd_number enoprotoopt = 42
bsd_number eprotonosupport = 43
bsd_number esocktnosupport = 44
bsd_number enotsup = 45
bsd_number epfnosupport = 46
bsd_number eafnosupport = 47
bsd_number eaddrinuse = 48
bsd_number eaddrnotavail = 49
bsd_number enetdown = 50
bsd_number enetunreach = 51
bsd_number enetreset = 52
bsd_number econnaborted = 53
bsd_number econnreset = 54
bsd_number enobufs = 55
bsd_number eisconn = 56
bsd_number enotconn = 57
bsd_number eshutdown = 58
bsd_number etoomanyrefs = 59
bsd_number etimedout = 60
bsd_number econnrefused = 61
bsd_number eloop = 62
bsd_number enametoolong = 63
bsd_number ehostdown = 64
bsd_number ehostunreach = 65
bsd_number enotempty = 66
bsd_number eusers = 68
bsd_number edquot = 69
bsd_number estale = 70
bsd_number eremote = 71
bsd_number enolck = 77
bsd_number enosys = 78
bsd_number eidrm = 82
bsd_number enomsg = 83
bsd_number eoverflow = 84
bsd_number ecanceled = 85
bsd_number eilseq = 86
bsd_number ebadmsg = 89
bsd_number emultihop = 90
bsd_number enolink = 91
bsd_number eproto = 92

-- The cases of the switch, in order.
abbrev pub cases : List ErrorName
cases =
    eperm ∷ enoent ∷ esrch ∷ eintr ∷ eio ∷ enxio ∷ e2big ∷ enoexec ∷ ebadf ∷ echild ∷ edeadlk
    ∷ enomem ∷ eacces ∷ efault ∷ enotblk ∷ ebusy ∷ eexist ∷ exdev ∷ enodev ∷ enotdir ∷ eisdir
    ∷ einval ∷ enfile ∷ emfile ∷ enotty ∷ etxtbsy ∷ efbig ∷ enospc ∷ espipe ∷ erofs ∷ emlink ∷ epipe
    ∷ edom ∷ erange ∷ ewouldblock ∷ einprogress ∷ ealready ∷ enotsock ∷ edestaddrreq ∷ emsgsize
    ∷ eprototype ∷ enoprotoopt ∷ eprotonosupport ∷ esocktnosupport ∷ enotsup ∷ epfnosupport
    ∷ eafnosupport ∷ eaddrinuse ∷ eaddrnotavail ∷ enetdown ∷ enetunreach ∷ enetreset ∷ econnaborted
    ∷ econnreset ∷ enobufs ∷ eisconn ∷ enotconn ∷ eshutdown ∷ etoomanyrefs ∷ etimedout
    ∷ econnrefused ∷ eloop ∷ enametoolong ∷ ehostdown ∷ ehostunreach ∷ enotempty ∷ eusers ∷ edquot
    ∷ estale ∷ eremote ∷ enolck ∷ enosys ∷ eidrm ∷ enomsg ∷ eoverflow ∷ ecanceled ∷ eilseq ∷ ebadmsg
    ∷ emultihop ∷ enolink ∷ eproto ∷ []

unfoldable pub find_error : List ErrorName → (error : ℕ) → Option ErrorName
find_error [] error = none
find_error (x ∷ l) error = if error == bsd_number x then some x else find_error l error

abbrev pub host_or : (host : ErrorName → ℕ) → (error : ℕ) → Option ErrorName → ℕ
host_or host error none = error
host_or host error (some x) = host x

-- `lazybsd_os_errno`: what `lazybsd_errno` is set to.
unfoldable pub lazybsd_os_errno : (host : ErrorName → ℕ) → (error : ℕ) → ℕ
unfolding find_error
lazybsd_os_errno host error = host_or host error (find_error cases error)

find_error-bsd_number :
    (l : List ErrorName) (error : ℕ) (x : ErrorName)
    → find_error l error ≡ some x
    → error ≡ bsd_number x
unfolding find_error
find_error-bsd_number [] error x h = cc
find_error-bsd_number (y ∷ l) error x h =
    if_cases (λ o. o ≡ some x → error ≡ bsd_number x) (error == bsd_number y)
      (λ e i.
        let here : error ≡ bsd_number y = ground arith in
        let same : y ≡ x = cc in here ∙ ap bsd_number same)
      (λ e i. find_error-bsd_number l error x i) h

-- Two different errors of the switch give the caller different numbers, when the host has different
-- numbers for their names, in case these differ.
pub lazybsd_os_errno_ne :
    (host : ErrorName → ℕ) (a b : ℕ) (x y : ErrorName)
    → (x ≢ y → host x ≢ host y)
    → find_error cases a ≡ some x
    → find_error cases b ≡ some y
    → a ≢ b
    → lazybsd_os_errno host a ≢ lazybsd_os_errno host b
unfolding lazybsd_os_errno
lazybsd_os_errno_ne host a b x y own h k d e =
    let same : host x ≡ host y = sym (ap (host_or host a) h) ∙ e ∙ ap (host_or host b) k in
    let back = λ (q : x ≡ y).
      find_error-bsd_number cases a x h
      ∙ ap bsd_number q
      ∙ sym (find_error-bsd_number cases b y k) in
    own (λ q. d (back q)) same
