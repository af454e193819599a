-- ===== src/Driver/Lcores.antt =====
-- src/lazybsd_dpdk.cc: which queues of which ports a process polls, `init_lcore_conf`.
pub mod Polls
use lazybsd.Prelude.{
  ℕ, zero, suc, ◌+◌, Bool, true, false, ◌||◌, not, Option, none, some, if◌then◌else◌, leb, ◌==◌,
  update, List, [], ◌∷◌, ◌++◌, length,
}

-- What the configuration and DPDK say: the ports, `lcore_list` of each, the lcore
-- of each process, and which lcores are enabled
pub record Setup : Type 0 where
  pub nb_dev_ports : ℕ
  pub max_portid : ℕ
  pub portid_list : List ℕ
  pub lcore_list : ℕ → List ℕ
  pub proc_lcore : ℕ → ℕ
  pub is_enabled : ℕ → Bool

-- `struct lcore_conf`: the ports and queues to receive from, and for each port the queue to send on
pub record LcoreConf : Type 0 where
  pub rx_queue_list : List (ℕ × ℕ)
  pub tx_queue_id : ℕ → ℕ
  pub tx_port_id : List ℕ
  pub nb_queue_list : ℕ → ℕ

-- The inner loop, from `i` on: the place of the lcore in the list, the last one if there are several
unfoldable pub queue_of : (lcore_id i : ℕ) → (lcore_list : List ℕ) → (queueid : Option ℕ) → Option ℕ
queue_of lcore i [] queueid = queueid
queue_of lcore i (x ∷ l) queueid = queue_of lcore (i + 1) l (if x == lcore then some i else queueid)

abbrev pub with_queue : (port_id nb_lcores : ℕ) → Option ℕ → LcoreConf → LcoreConf
with_queue port n none c = c
with_queue port n (some queueid) c = record {
  rx_queue_list = c.rx_queue_list ++ (port, queueid) ∷ [];
  tx_queue_id = update c.tx_queue_id port queueid;
  tx_port_id = c.tx_port_id ++ port ∷ [];
  nb_queue_list = update c.nb_queue_list port n;
}

-- The loop over the ports
unfoldable pub port_loop :
    (lcore_id : ℕ) → (lcore_list : ℕ → List ℕ) → (ports : List ℕ) → LcoreConf → LcoreConf
unfolding queue_of
port_loop lcore lists [] c = c
port_loop lcore lists (port ∷ ports) c =
    port_loop lcore lists ports
      (with_queue port (length (lists port)) (queue_of lcore 0 (lists port) none) c)

abbrev pub is_empty : List (ℕ × ℕ) → Bool
is_empty [] = true
is_empty (x ∷ l) = false

-- `init_lcore_conf`, with `lcore_conf` as it was; `none` is one of the calls of `rte_exit`.
unfoldable pub init_lcore_conf : Setup → (proc_id : ℕ) → LcoreConf → Option LcoreConf
unfolding port_loop
init_lcore_conf s proc_id c =
    let lcore = s.proc_lcore proc_id in
    let d = port_loop lcore s.lcore_list s.portid_list c in
    if s.nb_dev_ports == 0 || (leb s.nb_dev_ports s.max_portid || not (s.is_enabled lcore))
    then none
    else if is_empty d.rx_queue_list
    then none
    else some d
