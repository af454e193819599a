-- ===== src/Driver/ProcessExamples.antt =====
-- The theorems on the queues of a process and on its messages (src/lazybsd_dpdk.cc) at work.
use lazybsd.Prelude.{
  ℕ, ◌+◌, ◌*◌, ◌≡◌, refl, true, false, Option, none, some, if◌then◌else◌, ◌==◌, List, [], ◌∷◌,
  get_elem?, pos, negsuc, arith, length,
}
use lazybsd.Driver.Lcores.{Setup, LcoreConf, init_lcore_conf}
use lazybsd.Driver.Lcores.Polls.{is_listed, unconfigured, init_lcore_conf-exclusive}
use lazybsd.Driver.Messages.{
  Message, MsgType, Answer, Services, Process, msg_sysctl, msg_ioctl, handle_msg, process_msg_ring,
}
use lazybsd.Driver.Messages.Kept.{named, held, process_msg_ring-held}
use lazybsd.Driver.Messages.Answered.{calls, HaveRoom, process_msg_ring-answers}

-- Two ports: the first has a queue for each of the lcores 4 and 6, the second one for the lcore 6.
abbrev setup : Setup
setup = record {
  nb_dev_ports = 2;
  max_portid = 1;
  portid_list = 0 ∷ 1 ∷ [];
  lcore_list = λ p. if p == 0 then 4 ∷ 6 ∷ [] else 6 ∷ [];
  proc_lcore = λ i. 4 + i * 2;
  is_enabled = λ l. true;
}

abbrev conf_of_6 : LcoreConf
conf_of_6 = record {
  rx_queue_list = (0, 1) ∷ (1, 0) ∷ [];
  tx_queue_id = λ p. if p == 1 then 0 else if p == 0 then 1 else 0;
  tx_port_id = 0 ∷ 1 ∷ [];
  nb_queue_list = λ p. if p == 1 then 1 else if p == 0 then 2 else 0;
}

conf_of_6_lem : init_lcore_conf setup 1 unconfigured ≡ some conf_of_6
unfolding init_lcore_conf
conf_of_6_lem = refl

nothing_to_do : init_lcore_conf setup 2 unconfigured ≡ none
unfolding init_lcore_conf
nothing_to_do = refl

abbrev proc : ℕ
proc = 1

init_lcore_conf-exclusive_example :
    (proc ≡ proc)
    × (is_listed 0 (0 ∷ 1 ∷ []) ≡ true)
    × (get_elem? (setup.lcore_list 0) 1 ≡ some (setup.proc_lcore proc))
init_lcore_conf-exclusive_example =
    init_lcore_conf-exclusive setup proc proc 0 1 conf_of_6 conf_of_6 (λ e. refl) conf_of_6_lem
      conf_of_6_lem refl refl

-- Every call succeeds; a socket is the descriptor 7, and a ring takes one message.
abbrev good : Answer
good = record { ret = pos 0; errno = 0 }

abbrev services : Services
services = record {
  with_inet6 = true;
  with_netgraph = false;
  with_ipfw = false;
  with_kni = true;
  af_inet = 2;
  af_inet6 = 10;
  sock_dgram = 2;
  sock_raw = 3;
  ipproto_raw = 255;
  enotsup = 95;
  sysctl = λ m. record { ret = negsuc 0; errno = 2 };
  rtioctl = λ m. good;
  ngctl = λ m. good;
  socket = λ d t p. record { ret = pos 7; errno = 0 };
  ioctl_freebsd = λ fd m. good;
  getsockopt_freebsd = λ fd m. good;
  setsockopt_freebsd = λ fd m. good;
  close_errno = λ fd e. e;
  top_status = [];
  traffic = [];
  has_room = λ r l. length l == 0;
}

abbrev message : (name : ℕ) → MsgType → Message
message n t = record {
  name = n;
  msg_type = t;
  result = pos 0;
  buf_len = 100;
  buf_addr = 5000 + n;
  original_buf = 6000 + n;
  original_buf_len = 50;
  ngctl_ret = pos 0;
  ipfw_cmd = 0;
  kni_cmd = 0;
  kni_action = 0;
  top = [];
  traffic = [];
}

abbrev requests : List Message
requests = message 1 msg_sysctl ∷ message 2 msg_ioctl ∷ message 3 msg_sysctl ∷ []

abbrev process : Process
process = record {
  opened = [];
  closed = [];
  knictl_action = 0;
  ring = λ r. if r == 0 then requests else [];
  message_pool = [];
  freed = [];
}

-- The ring of answers to sysctl is full for the third message, which goes to the pool with its first buffer.
abbrev freed_by : Option Process → List ℕ
freed_by none = []
freed_by (some s) = s.freed

third_goes_back : freed_by (process_msg_ring services 32 process) ≡ 5003 ∷ []
unfolding process_msg_ring handle_msg
third_goes_back = refl

process_msg_ring-held_example :
    (t : Process) × (process_msg_ring services 32 process ≡ some t)
    × ((a : ℕ) → held a t ≡ held a process)
    × (t.opened ≡ t.closed)
process_msg_ring-held_example =
    process_msg_ring-held services 32 process (omega arith, (omega arith, (omega arith, tt))) refl

-- Two at a time, while a fourth one comes with the second call
abbrev batches : List (List Message)
batches = [] ∷ (message 4 msg_sysctl ∷ []) ∷ []

process_msg_ring-answers_example :
    (t : Process) × (calls services 2 batches process ≡ some t)
    × (named 3 (t.ring 0) ≡ 0)
    × (held 3 t ≡ held 3 process)
    × (HaveRoom services → t.message_pool ≡ process.message_pool)
process_msg_ring-answers_example =
    process_msg_ring-answers services 2 3 batches process
      (omega arith, omega arith, (omega arith, omega arith, (omega arith, omega arith, tt))) refl
      (tt, refl, ((omega arith, omega arith, tt), refl, tt)) (omega arith)
