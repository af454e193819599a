-- ===== src/Driver/Messages/Handled.antt =====
-- What the handlers of messages of src/lazybsd_dpdk.cc leave as it is.
use lazybsd.Prelude.{
  ◌≡◌, refl, ap, Bool, true, false, if◌then◌else◌, ltb, ◌==◌, [], ◌∷◌, ◌++◌, pos, is_neg,
}
use lazybsd.Driver.Messages.{
  MsgType, Message, Answer, Services, Process, on_socket, ipfw_answer, handle_ioctl_msg,
  handle_ipfw_msg, handle_knictl_msg, by_type, msg_unknown, msg_sysctl, msg_ioctl, msg_ioctl6,
  msg_route, msg_top, msg_ngctl, msg_ipfw_ctl, msg_traffic, msg_knictl, msg_other,
}

-- What every handler keeps: the message stays the one that it is, the rings and the pool are not touched, and what
-- it opens it closes.
pub record Handled (m : Message) (s : Process) (r : Message × Process) : Type 0 where
  pub name : r.0.name ≡ m.name
  pub msg_type : r.0.msg_type ≡ m.msg_type
  pub ring : r.1.ring ≡ s.ring
  pub pool : r.1.message_pool ≡ s.message_pool
  pub closed : s.opened ≡ s.closed → r.1.opened ≡ r.1.closed

module _ (v : Services) (m : Message) (s : Process) where
  if-Handled :
      (b : Bool) {x y : Message × Process}
      → Handled m s x
      → Handled m s y
      → Handled m s (if b then x else y)
  if-Handled true h k = h
  if-Handled false h k = k

  -- A handler that changes the message alone
  answered-Handled :
      (m' : Message) → m'.name ≡ m.name → m'.msg_type ≡ m.msg_type → Handled m s (m', s)
  answered-Handled m' n t = record {
    name = n;
    msg_type = t;
    ring = refl;
    pool = refl;
    closed = λ h. h;
  }

  on_socket-Handled : (opened used : Answer) → Handled m s (on_socket v opened used m s)
  on_socket-Handled opened used =
      if-Handled (is_neg opened.ret) (answered-Handled _ refl refl) record {
        name = refl;
        msg_type = refl;
        ring = refl;
        pool = refl;
        closed = λ h. ap (λ l. l ++ opened.ret ∷ []) h;
      }

  knictl-Handled : Handled m s (handle_knictl_msg m s)
  unfolding handle_knictl_msg
  knictl-Handled =
      if-Handled (m.kni_cmd == 1)
        (if-Handled (ltb m.kni_action 3)
          record { name = refl; msg_type = refl; ring = refl; pool = refl; closed = λ h. h }
          (answered-Handled _ refl refl))
        (if-Handled (m.kni_cmd == 0) (answered-Handled _ refl refl) (answered-Handled _ refl refl))

  ioctl-Handled : (six : Bool) → Handled m s (handle_ioctl_msg v six m s)
  unfolding handle_ioctl_msg
  ioctl-Handled six =
      let fd = v.socket (if six then v.af_inet6 else v.af_inet) v.sock_dgram 0 in
      on_socket-Handled fd (v.ioctl_freebsd fd.ret m)

  ipfw-Handled : Handled m s (handle_ipfw_msg v m s)
  unfolding handle_ipfw_msg
  ipfw-Handled =
      let fd = v.socket v.af_inet v.sock_raw v.ipproto_raw in
      on_socket-Handled fd (ipfw_answer v fd.ret m.ipfw_cmd m)

  pub by_type-Handled : (t : MsgType) → Handled m s (by_type v t m s)
  by_type-Handled msg_unknown = answered-Handled _ refl refl
  by_type-Handled msg_sysctl = answered-Handled _ refl refl
  by_type-Handled msg_ioctl = ioctl-Handled false
  by_type-Handled msg_ioctl6 =
      if-Handled v.with_inet6 (ioctl-Handled true) (answered-Handled _ refl refl)
  by_type-Handled msg_route = answered-Handled _ refl refl
  by_type-Handled msg_top = answered-Handled _ refl refl
  by_type-Handled msg_ngctl =
      if-Handled v.with_netgraph
        (answered-Handled _ (by_ret (is_neg (v.ngctl m).ret))
          (by_ret_type (is_neg (v.ngctl m).ret)))
        (answered-Handled _ refl refl)
    where
      by_ret :
          (b : Bool)
          → (if b
              then record m { result = pos (v.ngctl m).errno }
              else record m { result = pos 0; ngctl_ret = (v.ngctl m).ret }).name
            ≡ m.name
      by_ret true = refl
      by_ret false = refl

      by_ret_type :
          (b : Bool)
          → (if b
              then record m { result = pos (v.ngctl m).errno }
              else record m { result = pos 0; ngctl_ret = (v.ngctl m).ret }).msg_type
            ≡ m.msg_type
      by_ret_type true = refl
      by_ret_type false = refl
  by_type-Handled msg_ipfw_ctl = if-Handled v.with_ipfw ipfw-Handled (answered-Handled _ refl refl)
  by_type-Handled msg_traffic = answered-Handled _ refl refl
  by_type-Handled msg_knictl = if-Handled v.with_kni knictl-Handled (answered-Handled _ refl refl)
  by_type-Handled (msg_other n) = answered-Handled _ refl refl
