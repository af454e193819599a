-- ===== src/Sock/Msghdr.antt =====
-- bsd/lib/lazybsd_socket.c: the conversion of `struct msghdr`, `lazybsd_sendmsg` and
-- `lazybsd_recvmsg`. `none` stands for control messages that need more rounds than `fuel`.
use lazybsd.Prelude.{ℕ, Bool, true, false, Option, none, some}
use lazybsd.Sock.Address.{Memory, linux2freebsd_sockaddr, freebsd2linux_sockaddr}
use lazybsd.Sock.Process.{Msghdr}
use lazybsd.Sock.Message.{
  Cmsgs, linux_firsthdr, freebsd2linux_message, linux2freebsd_message, cmsg_loop,
}

abbrev pub enomem : ℕ
enomem = 12

-- What a conversion leaves: the memory and the header that it fills in.
abbrev pub Filled : Type 0
Filled = Memory × Msghdr

abbrev pub with_memory : Msghdr → Option Memory → Option Filled
with_memory h none = none
with_memory h (some m) = some (m, h)

module _ (c : Cmsgs) (fuel : ℕ) where
  -- The name, which is converted where the kernel has put it.
  abbrev pub name_to_linux :
      (linux bsd : Msghdr) → (linux_name bsd_name : Option ℕ) → Bool → Memory → Filled
  name_to_linux l f (some a) (some b) false m = (
    freebsd2linux_sockaddr m (some b) (some b),
    record l { msg_name = some b; msg_namelen = f.msg_namelen },
  )
  name_to_linux l f (some a) (some b) true m = (m, l)
  name_to_linux l f (some a) none send m = (m, l)
  name_to_linux l f none bsd_name send m = (m, l)

  -- The control messages, with the lengths that both headers have before.
  abbrev pub control_to_linux :
      (linux bsd : Msghdr) → (linux_control bsd_control : Option ℕ) → Bool → Memory → Option Filled
  control_to_linux l f (some a) (some b) false m =
      with_memory (record l { msg_controllen = f.msg_controllen })
        (cmsg_loop c (freebsd2linux_message c) fuel a b l.msg_controllen f.msg_controllen
          (linux_firsthdr a l.msg_controllen) (c.firsthdr b f.msg_controllen) m)
  control_to_linux l f (some a) (some b) true m = some (m, l)
  control_to_linux l f (some a) none send m = some (m, l)
  control_to_linux l f none bsd_control send m = some (m, l)

  abbrev pub with_flags : (flags : ℕ) → Option Filled → Option Filled
  with_flags flags none = none
  with_flags flags (some t) = some (t.0, record t.1 { msg_flags = flags })

  -- `freebsd2linux_msghdr`
  unfoldable pub freebsd2linux_msghdr :
      (linux bsd : Msghdr) → (send_flag : Bool) → Memory → Option Filled
  unfolding freebsd2linux_sockaddr cmsg_loop freebsd2linux_message
  freebsd2linux_msghdr l f send m =
      let named = name_to_linux l f l.msg_name f.msg_name send m in
      let segments = record named.1 { msg_iov = f.msg_iov; msg_iovlen = f.msg_iovlen } in
      with_flags f.msg_flags
        (control_to_linux segments f segments.msg_control f.msg_control send named.0)

  -- The name for the kernel: converted when it is sent, else the caller's.
  abbrev pub name_to_bsd :
      (linux bsd : Msghdr) → (linux_name bsd_name : Option ℕ) → Bool → Memory → Filled
  name_to_bsd l f (some a) (some b) true m =
      (linux2freebsd_sockaddr m (some a) l.msg_namelen (some b), f)
  name_to_bsd l f linux_name bsd_name send m = (m, record f { msg_name = linux_name })

  abbrev pub control_to_bsd :
      (linux bsd : Msghdr) → (linux_control bsd_control : Option ℕ) → Bool → Memory → Option Filled
  control_to_bsd l f (some a) (some b) true m = with_memory f (
      cmsg_loop c (linux2freebsd_message c) fuel a b l.msg_controllen f.msg_controllen
        (linux_firsthdr a l.msg_controllen) (c.firsthdr b f.msg_controllen) m)
  control_to_bsd l f (some a) none true m = some (m, f)
  control_to_bsd l f none bsd_control true m = some (m, record f { msg_control = none })
  control_to_bsd l f linux_control bsd_control false m =
      some (m, record f { msg_control = linux_control })

  -- `linux2freebsd_msghdr`
  unfoldable pub linux2freebsd_msghdr :
      (linux bsd : Msghdr) → (send_flag : Bool) → Memory → Option Filled
  unfolding linux2freebsd_sockaddr cmsg_loop linux2freebsd_message
  linux2freebsd_msghdr l f send m =
      let named = name_to_bsd l f l.msg_name f.msg_name send m in
      let filled = record named.1 {
        msg_namelen = l.msg_namelen;
        msg_iov = l.msg_iov;
        msg_iovlen = l.msg_iovlen;
        msg_controllen = l.msg_controllen;
      } in
      with_flags l.msg_flags (control_to_bsd l filled l.msg_control filled.msg_control send named.0)
