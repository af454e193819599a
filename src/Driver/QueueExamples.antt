-- ===== src/Driver/QueueExamples.antt =====
-- The theorems on the queues, the pages and the hash of src/lazybsd_dpdk.cc and src/lazybsd_memory.cc at work.
use lazybsd.Prelude.{
  ℕ, ◌+◌, ◌^◌, ◌<◌, ◌≡◌, refl, false, none, some, if◌then◌else◌, ◌==◌, [], ◌∷◌, ◌++◌, arith,
}
use lazybsd.Driver.Pages.{Pages, mmap_init, chk_vma}
use lazybsd.Driver.Pages.Stack.{get, view, run, spec_run, run-spec_run, mem_virt2phy-mmap_init}
use lazybsd.Driver.Pages.Stack as Stack
use lazybsd.Driver.TxRing.{txring_init, txring_enqueue, tx_queue_size}
use lazybsd.Driver.TxRing.Kept.{total, txring_enqueue-total}
use lazybsd.Driver.Send.{
  Packet, Tx, Chain, no_memory, to_rte, bsd_to_rte, send_single_packet, max_pkt_burst, send_burst,
}
use lazybsd.Driver.Send.Order.{history, send_single_packet-history}

-- One MiB of pages from 2 ^ 20 on, whose physical addresses are their own.
abbrev pages : Pages
pages = mmap_init 1 (2 ^ 20) (λ x. x) (λ i. 0)

run-spec_run_example :
    run (get ∷ Stack.free 4096 ∷ get ∷ []) pages
    ≡ spec_run pages.mpage_ctl.size (get ∷ Stack.free 4096 ∷ get ∷ []) (view pages.mpage_ctl)
run-spec_run_example = run-spec_run (get ∷ Stack.free 4096 ∷ get ∷ []) pages

txring_enqueue-total_example :
    (total (txring_enqueue txring_init (some 7) 3) 7
      ≡ total txring_init 7 + (if 7 == 7 then 1 else 0))
    × ((txring_enqueue txring_init (some 7) 3).head < tx_queue_size)
txring_enqueue-total_example = txring_enqueue-total txring_init 7 3 7 (omega arith)

-- A queue with nothing in it, and packets of no segment.
abbrev packet : ℕ → Packet
packet n = record { pkt_len = n; segments = [] }

abbrev empty_queue : Tx
empty_queue = record {
  port = record {
    table = record { len = 0; m_table = λ i. packet 0; bsd_m_table = λ i. none };
    ring = txring_init;
    handled = [];
  };
  traffic = record { tx_packets = 0; tx_bytes = 0 };
}

send_single_packet-history_example :
    let r = send_single_packet (λ n. 0) (packet 60) empty_queue in
    (history r ≡ history empty_queue ++ packet 60 ∷ []) × (r.port.table.len < max_pkt_burst)
send_single_packet-history_example =
    send_single_packet-history (λ n. 0) (packet 60) empty_queue (λ n. omega arith) (omega arith)

-- One packet waits when the allocation for another fails.
abbrev one_waits : Tx
one_waits = send_single_packet (λ n. n) (packet 60) empty_queue

abbrev chain : Chain
chain = record { name = 5; mbufs = (2 ^ 20 + 64, 100) ∷ [] }

no_segments : to_rte pages (λ i. false) (λ m. none) chain ≡ no_memory
unfolding chk_vma mmap_init bsd_to_rte
no_segments = refl

-- The mbuf 5 was sent from the first place of the table. A packet without an mbuf of the stack comes to
-- the same place, the NIC takes nothing, and the mbuf is freed, although it is in the ring as well.
abbrev stale : Tx
stale = record empty_queue {
  port = record empty_queue.port {
    table = record {
      len = 0;
      m_table = λ i. packet 0;
      bsd_m_table = λ i. if i == 0 then some 5 else none;
    };
    ring = txring_enqueue txring_init (some 5) 1;
  };
}

freed_in_ring :
    let r = send_burst (λ n. 0) 1 (send_single_packet (λ n. n) (packet 60) stale) in
    (r.port.ring.freed ≡ 5 ∷ []) × (r.port.ring.m_table 0 ≡ some 5)
unfolding send_burst send_single_packet txring_enqueue
freed_in_ring = (refl, refl)
