-- ===== src/Driver/Messages.antt =====
-- src/lazybsd_dpdk.cc: messages of other programs to a process of the stack, `handle_msg` with its
-- handlers, and `process_msg_ring`. The members of the union of `struct lazybsd_msg` are kept apart.
pub mod Handled
pub mod Kept
pub mod Answered
use lazybsd.Prelude.{
  ℕ, zero, suc, ◌+◌, Bool, true, false, Option, none, some, if◌then◌else◌, ltb, ◌==◌, update, List,
  [], ◌∷◌, ◌++◌, ℤ, pos, negsuc, is_neg, take, drop,
}

-- `enum LAZYBSD_MSG_TYPE`, and the numbers from LAZYBSD_MSG_NUM on
pub data MsgType : Type 0 where
  msg_unknown msg_sysctl msg_ioctl msg_ioctl6 msg_route msg_top : MsgType
  msg_ngctl msg_ipfw_ctl msg_traffic msg_knictl : MsgType
  msg_other : ℕ → MsgType

abbrev pub ring_of : MsgType → ℕ
ring_of msg_unknown = 0
ring_of msg_sysctl = 1
ring_of msg_ioctl = 2
ring_of msg_ioctl6 = 3
ring_of msg_route = 4
ring_of msg_top = 5
ring_of msg_ngctl = 6
ring_of msg_ipfw_ctl = 7
ring_of msg_traffic = 8
ring_of msg_knictl = 9
ring_of (msg_other n) = 10 + n

-- `struct lazybsd_msg`; NULL is 0, and `name` is the address.
pub record Message : Type 0 where
  pub name : ℕ
  pub msg_type : MsgType
  pub result : ℤ
  pub buf_len : ℕ
  pub buf_addr : ℕ
  pub original_buf : ℕ
  pub original_buf_len : ℕ
  pub ngctl_ret : ℤ
  pub ipfw_cmd : ℕ
  pub kni_cmd : ℕ
  pub kni_action : ℕ
  pub top : List ℕ
  pub traffic : List ℕ

-- The result of a function of the stack, and `errno` behind it
pub record Answer : Type 0 where
  pub ret : ℤ
  pub errno : ℕ

-- The functions that are called, the options of the build and what the host's headers give
pub record Services : Type 0 where
  pub with_inet6 : Bool
  pub with_netgraph : Bool
  pub with_ipfw : Bool
  pub with_kni : Bool
  pub af_inet : ℕ
  pub af_inet6 : ℕ
  pub sock_dgram : ℕ
  pub sock_raw : ℕ
  pub ipproto_raw : ℕ
  pub enotsup : ℕ
  pub sysctl : Message → Answer
  pub rtioctl : Message → Answer
  pub ngctl : Message → Answer
  pub socket : (domain type protocol : ℕ) → Answer
  pub ioctl_freebsd : ℤ → Message → Answer
  pub getsockopt_freebsd : ℤ → Message → Answer
  pub setsockopt_freebsd : ℤ → Message → Answer
  pub close_errno : ℤ → (errno : ℕ) → ℕ
  pub top_status : List ℕ
  pub traffic : List ℕ
  pub has_room : (ring : ℕ) → List Message → Bool

-- The descriptors, `knictl_action`, the rings of the process, and what is given back
pub record Process : Type 0 where
  pub opened : List ℤ
  pub closed : List ℤ
  pub knictl_action : ℕ
  pub ring : ℕ → List Message
  pub message_pool : List Message
  pub freed : List ℕ

abbrev pub with_answer : Answer → Message → Message
with_answer a m = record m { result = if is_neg a.ret then pos a.errno else pos 0 }

-- A socket is opened, used and closed; without one, -1 is the result.
abbrev pub on_socket : Services → (opened used : Answer) → Message → Process → Message × Process
on_socket v opened used m s =
    if is_neg opened.ret
    then (with_answer (record { ret = negsuc 0; errno = opened.errno }) m, s)
    else (
      with_answer (record used { errno = v.close_errno opened.ret used.errno }) m,
      record s { opened = s.opened ++ opened.ret ∷ []; closed = s.closed ++ opened.ret ∷ [] },
    )

unfoldable pub handle_ioctl_msg :
    Services → (is_ioctl6 : Bool) → Message → Process → Message × Process
handle_ioctl_msg v six m s =
    let fd = v.socket (if six then v.af_inet6 else v.af_inet) v.sock_dgram 0 in
    on_socket v fd (v.ioctl_freebsd fd.ret m) m s

abbrev pub ipfw_answer : Services → (fd : ℤ) → (cmd : ℕ) → Message → Answer
ipfw_answer v fd zero m = v.getsockopt_freebsd fd m
ipfw_answer v fd (suc zero) m = v.setsockopt_freebsd fd m
ipfw_answer v fd (suc (suc cmd)) m = record { ret = negsuc 0; errno = v.enotsup }

unfoldable pub handle_ipfw_msg : Services → Message → Process → Message × Process
handle_ipfw_msg v m s =
    let fd = v.socket v.af_inet v.sock_raw v.ipproto_raw in
    on_socket v fd (ipfw_answer v fd.ret m.ipfw_cmd m) m s

abbrev pub handle_ngctl_msg : Services → Message → Message
handle_ngctl_msg v m =
    let a = v.ngctl m in
    if is_neg a.ret
    then record m { result = pos a.errno }
    else record m { result = pos 0; ngctl_ret = a.ret }

-- `handle_knictl_msg`: the command 0 is GET and 1 is SET; there are three actions.
unfoldable pub handle_knictl_msg : Message → Process → Message × Process
handle_knictl_msg m s =
    if m.kni_cmd == 1
    then if ltb m.kni_action 3
      then (record m { result = pos 0 }, record s { knictl_action = m.kni_action })
      else (record m { result = negsuc 0 }, s)
    else if m.kni_cmd == 0
    then (record m { kni_action = s.knictl_action }, s)
    else (record m { result = negsuc 1 }, s)

abbrev pub handle_default_msg : Services → Message → Message
handle_default_msg v m = record m { result = pos v.enotsup }

-- The switch of `handle_msg`; a type that the build leaves out is
-- answered as an unknown one.
abbrev pub supported : Services → Bool → Message × Process → Message → Process → Message × Process
supported v is_built handled m s = if is_built then handled else (handle_default_msg v m, s)

abbrev pub by_type : Services → MsgType → Message → Process → Message × Process
by_type v msg_sysctl m s = (with_answer (v.sysctl m) m, s)
by_type v msg_ioctl m s = handle_ioctl_msg v false m s
by_type v msg_ioctl6 m s = supported v v.with_inet6 (handle_ioctl_msg v true m s) m s
by_type v msg_route m s = (with_answer (v.rtioctl m) m, s)
by_type v msg_top m s = (record m { top = v.top_status; result = pos 0 }, s)
by_type v msg_ngctl m s = supported v v.with_netgraph (handle_ngctl_msg v m, s) m s
by_type v msg_ipfw_ctl m s = supported v v.with_ipfw (handle_ipfw_msg v m s) m s
by_type v msg_traffic m s = (record m { traffic = v.traffic; result = pos 0 }, s)
by_type v msg_knictl m s = supported v v.with_kni (handle_knictl_msg m s) m s
by_type v msg_unknown m s = (handle_default_msg v m, s)
by_type v (msg_other n) m s = (handle_default_msg v m, s)

-- A message that the ring of answers does not take is given back, with the buffer that it had at first.
abbrev pub put_back : Message → Process → Process
put_back m s =
    if m.original_buf == 0 then record s { message_pool = s.message_pool ++ m ∷ [] } else record s {
      freed = s.freed ++ m.buf_addr ∷ [];
      message_pool =
          s.message_pool
          ++ record m { buf_addr = m.original_buf; buf_len = m.original_buf_len; original_buf = 0 }
            ∷ [];
    }

abbrev pub reply : Services → Message → Process → Process
reply v m s =
    let r = ring_of m.msg_type in
    if v.has_room r (s.ring r)
    then record s { ring = update s.ring r (s.ring r ++ m ∷ []) }
    else put_back m s

-- `handle_msg`; there are LAZYBSD_MSG_NUM rings, and `none` is an access behind them.
abbrev pub msg_num : ℕ
msg_num = 10

unfoldable pub handle_msg : Services → Message → Process → Option Process
unfolding handle_ioctl_msg handle_ipfw_msg handle_knictl_msg
handle_msg v m s =
    let r = by_type v m.msg_type m s in
    if ltb (ring_of m.msg_type) msg_num then some (reply v r.0 r.1) else none

unfoldable pub handle_all : Services → List Message → Process → Option Process
handle_all v [] s = some s
handle_all v (m ∷ ms) s = elim (handle_msg v m s) [ none ↦ none | some t ↦ handle_all v ms t ]

-- `process_msg_ring`, on the messages that `rte_ring_dequeue_burst` takes from the ring 0
unfoldable pub process_msg_ring : Services → (count : ℕ) → Process → Option Process
unfolding handle_all
process_msg_ring v count s =
    handle_all v (take count (s.ring 0))
      (record s { ring = update s.ring 0 (drop count (s.ring 0)) })
