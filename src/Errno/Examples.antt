-- ===== src/Errno/Examples.antt =====
-- The theorem on src/lazybsd_errno.c at work, and runs of `lazybsd_os_errno`.
use lazybsd.Prelude.{ℕ, ◌≡◌, refl}
use lazybsd.Errno.{ErrorName, ewouldblock, enolink, bsd_number, lazybsd_os_errno}

-- A host with three numbers of its own.
abbrev host : ErrorName → ℕ
host ewouldblock = 11
host enolink = 67
host x = bsd_number x

would_block : lazybsd_os_errno host 35 ≡ 11
unfolding lazybsd_os_errno
would_block = refl

-- EPROCLIM, which the switch does not list, keeps the kernel's number 67, the host's ENOLINK.
not_listed : (lazybsd_os_errno host 67 ≡ 67) × (lazybsd_os_errno host 91 ≡ 67)
unfolding lazybsd_os_errno
not_listed = (refl, refl)
