-- ===== src/Sock/Messages.antt =====
-- bsd/lib/lazybsd_socket.c: `lazybsd_sendmsg` and `lazybsd_recvmsg`. The result holds the process, the value returned
-- and the caller's header; `none` stands for control messages that need more rounds than `fuel`.
use lazybsd.Prelude.{
  ℕ, Bool, true, false, not, ◌&&◌, Option, none, some, if◌then◌else◌, ◌==◌, ℤ, pos, is_some,
}
use lazybsd.Sock.Process.{
  KernelCall, sendit_message, kern_recvit_message, Msghdr, Process, Kernel, after, kern_fail,
}
use lazybsd.Sock.Calls.{free_sockaddr}
use lazybsd.Sock.Message.{Cmsgs}
use lazybsd.Sock.Msghdr.{enomem, Filled, freebsd2linux_msghdr, linux2freebsd_msghdr}

abbrev pub Messaged : Type 0
Messaged = Option (Process × (ℤ × Msghdr))

-- A `struct msghdr` on the stack, with the name and the control messages that are set.
abbrev pub local_header : (name control : Option ℕ) → Msghdr
local_header name control = record {
  msg_name = name;
  msg_namelen = 0;
  msg_iov = 0;
  msg_iovlen = 0;
  msg_control = control;
  msg_controllen = 0;
  msg_flags = 0;
}

module _ (k : Kernel) (c : Cmsgs) (fuel : ℕ) where
  abbrev pub messaged : Process × ℤ → Msghdr → Messaged
  messaged r msg = some (r.0, (r.1, msg))

  -- `kern_fail` in both functions
  abbrev pub message_failed : (rc : ℕ) → Msghdr → Process → Messaged
  message_failed rc msg p = messaged (kern_fail k rc p) msg

  -- The end of both: the header goes back to the caller, and what was allocated is given back.
  abbrev pub message_done : (buffer : Option ℕ) → (retval : ℕ) → Process → Option Filled → Messaged
  message_done buffer retval t none = none
  message_done buffer retval t (some filled) =
      messaged (free_sockaddr buffer (record t { memory = filled.0 }), pos retval) filled.1

  -- Both from the call of the kernel on.
  unfoldable pub exchange :
      KernelCall → (send_flag : Bool) → (buffer : Option ℕ) → Msghdr → Process → Messaged
  unfolding freebsd2linux_msghdr kern_fail
  exchange call send buffer msg p =
      let r = k.answer call p.memory in
      let t = after k call r p in
      let done =
        message_done buffer r.retval t (freebsd2linux_msghdr c fuel msg r.message send t.memory) in
      if r.error == 0 then done else message_failed r.error msg t

  abbrev pub send_filled :
      (s flags : ℕ) → (buffer : Option ℕ) → Msghdr → Process → Option Filled → Messaged
  send_filled s flags buffer msg p none = none
  send_filled s flags buffer msg p (some filled) =
      exchange (sendit_message s filled.1 flags) true buffer msg (record p { memory = filled.0 })

  -- `lazybsd_sendmsg`; `buffer` is what `malloc` gives for the control messages, if there are any.
  unfoldable pub lazybsd_sendmsg :
      (freebsd_sa : ℕ) → (buffer : Option ℕ) → (s flags : ℕ) → Msghdr → Process → Messaged
  unfolding exchange linux2freebsd_msghdr
  lazybsd_sendmsg freebsd_sa buffer s flags msg p =
      let control = if is_some msg.msg_control then buffer else none in
      let header = local_header (some freebsd_sa) control in
      if is_some msg.msg_control && not (is_some buffer)
      then message_failed enomem msg p
      else send_filled s flags control msg p (linux2freebsd_msghdr c fuel msg header true p.memory)

  abbrev pub receive_filled : (s flags : ℕ) → Msghdr → Process → Option Filled → Messaged
  receive_filled s flags msg p none = none
  receive_filled s flags msg p (some filled) =
      exchange (kern_recvit_message s (record filled.1 { msg_flags = flags })) false none msg
        (record p { memory = filled.0 })

  -- `lazybsd_recvmsg`
  unfoldable pub lazybsd_recvmsg : (s flags : ℕ) → Msghdr → Process → Messaged
  unfolding exchange linux2freebsd_msghdr
  lazybsd_recvmsg s flags msg p =
      receive_filled s flags msg p
        (linux2freebsd_msghdr c fuel msg (local_header none none) false p.memory)
