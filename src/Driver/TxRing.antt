-- ===== src/Driver/TxRing.antt =====
-- src/lazybsd_memory.cc: the ring of packets that the NIC has taken, `lazybsd_txring_enqueue`,
-- `lazybsd_txring_init`, `lazybsd_txring_pop` and `lazybsd_enq_tx_bsdmbuf`.
pub mod Kept
use lazybsd.Prelude.{
  ℕ, zero, suc, ◌+◌, ◌-◌, ◌^◌, ◌%◌, Bool, ◌||◌, ◌&&◌, not, Option, none, some, if◌then◌else◌, ltb,
  leb, ◌==◌, update, List, [], ◌∷◌, ◌++◌, is_some,
}

abbrev pub tx_queue_size : ℕ
tx_queue_size = 512

-- `struct mbuf_txring`, and the calls of `lazybsd_mbuf_free` so far, in order.
pub record TxRing : Type 0 where
  pub m_table : ℕ → Option ℕ
  pub head : ℕ
  pub freed : List ℕ

-- `Head_INC`
abbrev pub head_inc : ℕ → ℕ
head_inc h = if leb tx_queue_size (h + 1) then 0 else h + 1

abbrev pub free_slot : Option ℕ → List ℕ → List ℕ
free_slot none freed = freed
free_slot (some m) freed = freed ++ m ∷ []

-- What the slot at `head` holds is freed, and replaced.
unfoldable pub put : TxRing → Option ℕ → TxRing
put q p = record {
  m_table = update q.m_table q.head p;
  head = head_inc q.head;
  freed = free_slot (q.m_table q.head) q.freed;
}

-- The loop over the segments before the last one
unfoldable pub clear_slots : (rounds : ℕ) → TxRing → TxRing
unfolding put
clear_slots zero q = q
clear_slots (suc rounds) q = clear_slots rounds (put q none)

-- `lazybsd_txring_enqueue`
unfoldable pub txring_enqueue : TxRing → (p : Option ℕ) → (seg_num : ℕ) → TxRing
unfolding clear_slots put
txring_enqueue q p seg_num = put (clear_slots (seg_num - 1) q) p

-- `lazybsd_txring_init`
abbrev pub txring_init : TxRing
txring_init = record { m_table = λ i. none; head = 0; freed = [] }

-- The rounds of `lazybsd_txring_pop` from `i` on; `none` is the panic. `Head_DEC` on 16 bits: below zero it is
-- 65535, which the test for a negative number does not see.
unfoldable pub pop_rounds : (rounds i : ℕ) → TxRing → Option TxRing
pop_rounds zero i q = some q
pop_rounds (suc rounds) i q =
    let h = (q.head + 2 ^ 16 - 1) % 2 ^ 16 in
    let bad = (i == 0 && not (is_some (q.m_table h))) || (ltb 0 i && is_some (q.m_table h)) in
    let rest = pop_rounds rounds (i + 1) (record {
      m_table = update q.m_table h none;
      head = h;
      freed = free_slot (q.m_table h) q.freed;
    }) in
    if bad then none else rest

unfoldable pub txring_pop : TxRing → (num : ℕ) → Option TxRing
unfolding pop_rounds
txring_pop q num = pop_rounds num 0 q

-- `lazybsd_enq_tx_bsdmbuf`, on the rings of all ports
unfoldable pub enq_tx_bsdmbuf : (ℕ → TxRing) → (portid p_mbuf nb_segs : ℕ) → ℕ → TxRing
unfolding txring_enqueue
enq_tx_bsdmbuf rings portid p_mbuf nb_segs =
    update rings portid (txring_enqueue (rings portid) (some p_mbuf) nb_segs)
