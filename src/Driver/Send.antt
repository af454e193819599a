-- ===== src/Driver/Send.antt =====
-- src/lazybsd_dpdk.cc and src/lazybsd_memory.cc, with LAZYBSD_USE_PAGE_ARRAY as the build sets it: the
-- packets that wait for the NIC, `send_burst`, `send_single_packet`, `lazybsd_if_send_onepkt`,
-- `lazybsd_dpdk_if_send`, and the drain of the queues in `main_loop`.
pub mod Order
use lazybsd.Prelude.{
  ℕ, zero, suc, ◌+◌, ◌-◌, ◌^◌, ◌%◌, Bool, true, false, Option, none, some, if◌then◌else◌, ltb, ◌==◌,
  update, List, [], ◌∷◌, ◌++◌, length,
}
use lazybsd.Driver.Pages.{Pages, chk_vma, mem_virt2phy}
use lazybsd.Driver.TxRing.{TxRing, free_slot, txring_enqueue}

abbrev pub max_pkt_burst : ℕ
max_pkt_burst = 32

-- A segment of an rte_mbuf: `buf_addr`, `buf_iova` and `data_len`.
pub record Segment : Type 0 where
  pub buf_addr : ℕ
  pub buf_iova : ℕ
  pub data_len : ℕ

-- An rte_mbuf with its chain; `nb_segs` is the length of the chain.
pub record Packet : Type 0 where
  pub pkt_len : ℕ
  pub segments : List Segment

-- `struct mbuf_table`
pub record MbufTable : Type 0 where
  pub len : ℕ
  pub m_table : ℕ → Packet
  pub bsd_m_table : ℕ → Option ℕ

-- A port: its table, its ring, which has the list of all mbufs of the stack that were freed, and the
-- packets that are done with, in order: those that the NIC took, and those that were freed.
pub record Port : Type 0 where
  pub table : MbufTable
  pub ring : TxRing
  pub handled : List (Packet × Bool)

-- `lazybsd_traffic`, the part on sending
pub record Traffic : Type 0 where
  pub tx_packets : ℕ
  pub tx_bytes : ℕ

pub record Tx : Type 0 where
  pub port : Port
  pub traffic : Traffic

abbrev pub enqueue_bsd : Option ℕ → (nb_segs : ℕ) → TxRing → TxRing
enqueue_bsd none nb_segs q = q
enqueue_bsd (some m) nb_segs q = txring_enqueue q (some m) nb_segs

-- The packet at `i` was taken by the NIC.
unfoldable pub taken_at : ℕ → Tx → Tx
unfolding txring_enqueue
taken_at i tx =
    let p = tx.port in
    let m = p.table.m_table i in
    record {
      port = record p {
        ring = enqueue_bsd (p.table.bsd_m_table i) (length m.segments) p.ring;
        handled = p.handled ++ (m, true) ∷ [];
      };
      traffic = record tx.traffic { tx_bytes = (tx.traffic.tx_bytes + m.pkt_len) % 2 ^ 64 };
    }

-- The packet at `i` is freed.
unfoldable pub freed_at : ℕ → Tx → Tx
freed_at i tx =
    let p = tx.port in
    record tx {
      port = record p {
        ring = record p.ring { freed = free_slot (p.table.bsd_m_table i) p.ring.freed };
        handled = p.handled ++ (p.table.m_table i, false) ∷ [];
      };
    }

-- The two loops of `send_burst`, for the rounds left, from `i` on
unfoldable pub taken_loop : (rounds i : ℕ) → Tx → Tx
unfolding taken_at
taken_loop zero i tx = tx
taken_loop (suc rounds) i tx = taken_loop rounds (i + 1) (taken_at i tx)

unfoldable pub freed_loop : (rounds i : ℕ) → Tx → Tx
unfolding freed_at
freed_loop zero i tx = tx
freed_loop (suc rounds) i tx = freed_loop rounds (i + 1) (freed_at i tx)

-- `send_burst`; `rte_eth_tx_burst` takes as many of `n` packets as it answers.
unfoldable pub send_burst : (tx_burst : ℕ → ℕ) → (n : ℕ) → Tx → Tx
unfolding taken_loop freed_loop
send_burst tx_burst n tx =
    let ret = tx_burst n in
    let counted = record tx {
      traffic = record tx.traffic { tx_packets = (tx.traffic.tx_packets + ret) % 2 ^ 64 };
    } in
    freed_loop (n - ret) ret (taken_loop ret 0 counted)

abbrev pub set_len : ℕ → Tx → Tx
set_len len tx = record tx { port = record tx.port { table = record tx.port.table { len = len } } }

abbrev pub store_packet : (at : ℕ) → Packet → Tx → Tx
store_packet at m tx =
    let t = tx.port.table in
    record tx { port = record tx.port { table = record t { m_table = update t.m_table at m } } }

abbrev pub store_bsd : (at m : ℕ) → Tx → Tx
store_bsd at m tx =
    let t = tx.port.table in
    record tx {
      port = record tx.port { table = record t { bsd_m_table = update t.bsd_m_table at (some m) } };
    }

-- The end of `send_single_packet` and of `lazybsd_dpdk_if_send`: a full table is sent.
abbrev pub send_if_full : (tx_burst : ℕ → ℕ) → (len : ℕ) → Tx → Tx
send_if_full tx_burst len tx =
    if len == max_pkt_burst
    then set_len 0 (send_burst tx_burst max_pkt_burst tx)
    else set_len len tx

-- `send_single_packet`
unfoldable pub send_single_packet : (tx_burst : ℕ → ℕ) → Packet → Tx → Tx
unfolding send_burst
send_single_packet tx_burst m tx =
    let len = tx.port.table.len in send_if_full tx_burst (len + 1) (store_packet len m tx)

-- `lazybsd_bsd_to_rte`: a segment for each mbuf of the chain, which gives an address and a length; the
-- allocations are counted. An address outside the pages is a panic.
pub data Head : Type 0 where
  panic : Head
  no_memory : Head
  head : List Segment → Head

abbrev pub on_segment : Segment → Head → Head
on_segment s panic = panic
on_segment s no_memory = no_memory
on_segment s (head l) = head (s ∷ l)

unfoldable pub bsd_to_rte : Pages → (alloc : ℕ → Bool) → (i : ℕ) → List (ℕ × ℕ) → Head
unfolding mem_virt2phy
bsd_to_rte g alloc i [] = head []
bsd_to_rte g alloc i ((addr, len) ∷ chain) =
    let rest = bsd_to_rte g alloc (i + 1) chain in
    if alloc i
    then elim (mem_virt2phy g addr) [
      | none ↦ panic
      | some iova ↦ on_segment (record { buf_addr = addr; buf_iova = iova; data_len = len }) rest
    ]
    else no_memory

-- A chain of mbufs of the stack: its name, and the address and length of each mbuf.
pub record Chain : Type 0 where
  pub name : ℕ
  pub mbufs : List (ℕ × ℕ)

abbrev pub mtod : Chain → ℕ
mtod m = elim m.mbufs [ [] ↦ 0 | x ∷ r ↦ x.0 ]

-- The rte_mbuf for a chain: in the pages by `lazybsd_bsd_to_rte`, which needs one mbuf at least, otherwise a
-- clone of the one that the chain came from (`lazybsd_extcl_to_rte`), without which there is a panic.
abbrev pub to_rte :
    Pages → (alloc : ℕ → Bool) → (extcl : Chain → Option (List Segment)) → Chain → Head
to_rte g alloc extcl m =
    if chk_vma g (mtod m)
    then bsd_to_rte g alloc 0 m.mbufs
    else elim (extcl m) [ none ↦ panic | some l ↦ head l ]

-- `lazybsd_if_send_onepkt`: the new state and the length that it returns; `none` is a panic. The flags of
-- the packet are in `Driver.Offload`.
abbrev pub onepkt : Head → (m total : ℕ) → Tx → Option (Tx × ℕ)
onepkt panic m total tx = none
onepkt no_memory m total tx =
    let p = tx.port in
    let ring = record p.ring { freed = p.ring.freed ++ m ∷ [] } in
    some (record tx { port = record p { ring = ring } }, 0)
onepkt (head l) m total tx =
    let len = tx.port.table.len in
    let packet : Packet = record { pkt_len = total; segments = l } in
    some (store_bsd len m (store_packet len packet tx), len + 1)

unfoldable pub if_send_onepkt :
    Pages
    → (alloc : ℕ → Bool) → (extcl : Chain → Option (List Segment)) → Option Chain
    → (total : ℕ) → Tx
    → Option (Tx × ℕ)
unfolding bsd_to_rte chk_vma
if_send_onepkt g alloc extcl none total tx = some (tx, 0)
if_send_onepkt g alloc extcl (some m) total tx = onepkt (to_rte g alloc extcl m) m.name total tx

-- `lazybsd_dpdk_if_send`, behind the call of `lazybsd_if_send_onepkt`
abbrev pub after_onepkt : (tx_burst : ℕ → ℕ) → Option (Tx × ℕ) → Option Tx
after_onepkt tx_burst none = none
after_onepkt tx_burst (some (t, len)) = some (send_if_full tx_burst len t)

-- `lazybsd_dpdk_if_send`; it returns 0.
unfoldable pub dpdk_if_send :
    (tx_burst : ℕ → ℕ)
    → Pages
    → (alloc : ℕ → Bool) → (extcl : Chain → Option (List Segment)) → Option Chain
    → (total : ℕ) → Tx
    → Option Tx
unfolding if_send_onepkt send_burst
dpdk_if_send tx_burst g alloc extcl m total tx =
    after_onepkt tx_burst (if_send_onepkt g alloc extcl m total tx)

-- The drain of the queues in `main_loop`, over `tx_port_id`; each port has its own answer of the NIC. The
-- result has whether a packet was sent, so that the loop is not idle.
abbrev pub drain_port : (tx_burst : ℕ → ℕ) → Tx → Tx × Bool
drain_port tx_burst tx =
    let len = tx.port.table.len in
    if len == 0 then (tx, false) else (set_len 0 (send_burst tx_burst len tx), true)

pub record Queues : Type 0 where
  pub ports : ℕ → Port
  pub traffic : Traffic
  pub idle : Bool

unfoldable pub drain : (tx_burst : ℕ → ℕ → ℕ) → (tx_port_id : List ℕ) → Queues → Queues
unfolding send_burst
drain tx_burst [] q = q
drain tx_burst (port ∷ ports) q =
    let r = drain_port (tx_burst port) (record { port = q.ports port; traffic = q.traffic }) in
    drain tx_burst ports record {
      ports = update q.ports port r.0.port;
      traffic = r.0.traffic;
      idle = if r.1 then false else q.idle;
    }
