-- ===== src/Driver/Send/Order.antt =====
-- Packets leave the queue of src/lazybsd_dpdk.cc in the order in which they came.
use lazybsd.Prelude.{
  ℕ, zero, suc, ◌+◌, ◌-◌, ◌^◌, ◌%◌, ◌≤◌, ◌<◌, ◌≡◌, refl, ap, sym, ◌∙◌, Bool, true, false, Option,
  some, ◌==◌, update, List, [], ◌∷◌, ◌++◌, arith, Bool-cases, inl, inr,
}
use mathlib.Core.List.{append_assoc, append-nil}
use lazybsd.Driver.Pages.{Pages}
use lazybsd.Driver.Send.{
  MbufTable, max_pkt_burst, Segment, Packet, Tx, taken_at, freed_at, taken_loop, freed_loop,
  send_burst, set_len, store_packet, store_bsd, send_if_full, send_single_packet, Head, head,
  no_memory, onepkt, Chain, to_rte, if_send_onepkt, dpdk_if_send, after_onepkt,
}

-- The packets that are done with, and those that wait.
abbrev pub packets : List (Packet × Bool) → List Packet
packets [] = []
packets ((m, taken) ∷ l) = m ∷ packets l

abbrev pub slots : (ℕ → Packet) → (i n : ℕ) → List Packet
slots t i zero = []
slots t i (suc n) = t i ∷ slots t (i + 1) n

abbrev pub waiting : Tx → List Packet
waiting tx = slots tx.port.table.m_table 0 tx.port.table.len

abbrev pub history : Tx → List Packet
history tx = packets tx.port.handled ++ waiting tx

packets-append : (xs ys : List (Packet × Bool)) → packets (xs ++ ys) ≡ packets xs ++ packets ys
packets-append [] ys = refl
packets-append ((m, t) ∷ xs) ys = ap (λ l. m ∷ l) (packets-append xs ys)

slots-update :
    (t : ℕ → Packet) (k : ℕ) (m : Packet) (i n : ℕ)
    → i + n ≤ k
    → slots (update t k m) i n ≡ slots t i n
slots-update t k m i zero h = refl
slots-update t k m i (suc n) h =
    let other : (i == k) ≡ false = ground arith in
    rw other (ap (λ l. t i ∷ l) (slots-update t k m (i + 1) n (omega arith)))

slots-append : (t : ℕ → Packet) (i n k : ℕ) → slots t i (n + k) ≡ slots t i n ++ slots t (i + n) k
slots-append t i zero k =
    let a : 0 + k ≡ k = omega arith in let b : i + 0 ≡ i = omega arith in rw (a, b) refl
slots-append t i (suc n) k =
    let a : suc n + k ≡ suc (n + k) = omega arith in
    let b : i + 1 + n ≡ i + suc n = omega arith in
    rw a (ap (λ l. t i ∷ l) (slots-append t (i + 1) n k ∙ rw b refl))

-- A loop of `send_burst` is done with the packets of its slots, in order, and leaves the table.
taken_loop-packets :
    (rounds i : ℕ) (tx : Tx)
    → (packets (taken_loop rounds i tx).port.handled
        ≡ packets tx.port.handled ++ slots tx.port.table.m_table i rounds)
      × ((taken_loop rounds i tx).port.table ≡ tx.port.table)
unfolding taken_loop
taken_loop-packets zero i tx = (sym (append-nil (packets tx.port.handled)), refl)
taken_loop-packets (suc rounds) i tx =
    let m = tx.port.table.m_table i in
    let rest = taken_loop-packets rounds (i + 1) (taken_at i tx) in
    let one = packets-append tx.port.handled ((m, true) ∷ []) in
    unfold taken_at in
    (
      rest.0
          ∙ ap (λ l. l ++ slots tx.port.table.m_table (i + 1) rounds) one
          ∙ append_assoc (packets tx.port.handled) (m ∷ [])
              (slots tx.port.table.m_table (i + 1) rounds),
      rest.1,
    )

freed_loop-packets :
    (rounds i : ℕ) (tx : Tx)
    → (packets (freed_loop rounds i tx).port.handled
        ≡ packets tx.port.handled ++ slots tx.port.table.m_table i rounds)
      × ((freed_loop rounds i tx).port.table ≡ tx.port.table)
unfolding freed_loop
freed_loop-packets zero i tx = (sym (append-nil (packets tx.port.handled)), refl)
freed_loop-packets (suc rounds) i tx =
    let m = tx.port.table.m_table i in
    let rest = freed_loop-packets rounds (i + 1) (freed_at i tx) in
    let one = packets-append tx.port.handled ((m, false) ∷ []) in
    unfold freed_at in
    (
      rest.0
          ∙ ap (λ l. l ++ slots tx.port.table.m_table (i + 1) rounds) one
          ∙ append_assoc (packets tx.port.handled) (m ∷ [])
              (slots tx.port.table.m_table (i + 1) rounds),
      rest.1,
    )

-- `send_burst` is done with the first `n` packets of the table, in order, whatever the NIC takes.
pub send_burst-packets :
    (tx_burst : ℕ → ℕ) (n : ℕ) (tx : Tx)
    → tx_burst n ≤ n
    → (packets (send_burst tx_burst n tx).port.handled
        ≡ packets tx.port.handled ++ slots tx.port.table.m_table 0 n)
      × ((send_burst tx_burst n tx).port.table ≡ tx.port.table)
unfolding send_burst
send_burst-packets tx_burst n tx h =
    let ret = tx_burst n in
    let t = tx.port.table.m_table in
    let counted : Tx = record tx {
      traffic = record tx.traffic { tx_packets = (tx.traffic.tx_packets + ret) % 2 ^ 64 };
    } in
    let first = taken_loop-packets ret 0 counted in
    let then_free = freed_loop-packets (n - ret) ret (taken_loop ret 0 counted) in
    let all : ret + (n - ret) ≡ n = omega arith in
    let z : 0 + ret ≡ ret = omega arith in
    let split : slots t 0 n ≡ slots t 0 ret ++ slots t ret (n - ret) =
      ap (slots t 0) (sym all)
      ∙ slots-append t 0 ret (n - ret)
      ∙ ap (λ i. slots t 0 ret ++ slots t i (n - ret)) z in
    (
      then_free.0
          ∙ ap
              (λ (tab : MbufTable).
                packets (taken_loop ret 0 counted).port.handled ++ slots tab.m_table ret (n - ret))
              first.1
          ∙ ap (λ l. l ++ slots t ret (n - ret)) first.0
          ∙ append_assoc (packets tx.port.handled) (slots t 0 ret) (slots t ret (n - ret))
          ∙ ap (λ l. packets tx.port.handled ++ l) (sym split),
      then_free.1 ∙ first.1,
    )

-- One packet more in the table, which is sent when it is full.
send_if_full-history :
    (tx_burst : ℕ → ℕ) (m : Packet) (tx t : Tx)
    → ((n : ℕ) → tx_burst n ≤ n)
    → tx.port.table.len < max_pkt_burst
    → t.port.handled ≡ tx.port.handled
    → t.port.table.m_table ≡ update tx.port.table.m_table tx.port.table.len m
    → let r = send_if_full tx_burst (tx.port.table.len + 1) t in
      (history r ≡ history tx ++ m ∷ []) × (r.port.table.len < max_pkt_burst)
send_if_full-history tx_burst m tx t takes small same table =
    let len = tx.port.table.len in
    let old = tx.port.table.m_table in
    let before = packets tx.port.handled in
    let self : (len == len) ≡ true = ground arith in
    let z : 0 + len ≡ len = omega arith in
    let last : slots (update old len m) len 1 ≡ m ∷ [] = rw self refl in
    let queue : slots t.port.table.m_table 0 (len + 1) ≡ slots old 0 len ++ m ∷ [] =
      ap (λ f. slots f 0 (len + 1)) table
      ∙ slots-append (update old len m) 0 len 1
      ∙ rw (z, last, slots-update old len m 0 len (omega arith)) refl in
    let all : before ++ slots t.port.table.m_table 0 (len + 1) ≡ history tx ++ m ∷ [] =
      ap (λ l. before ++ l) queue ∙ sym (append_assoc before (slots old 0 len) (m ∷ [])) in
    let ready : packets t.port.handled ≡ before = ap packets same in
    elim (Bool-cases (len + 1 == max_pkt_burst)) [
      | inl full ↦
          let e : len + 1 ≡ max_pkt_burst = ground arith in
          let sent = send_burst-packets tx_burst max_pkt_burst t (takes max_pkt_burst) in
          rw full (
            append-nil (packets (send_burst tx_burst max_pkt_burst t).port.handled)
                ∙ sent.0
                ∙ ap (λ l. l ++ slots t.port.table.m_table 0 max_pkt_burst) ready
                ∙ ap (λ n. before ++ slots t.port.table.m_table 0 n) (sym e)
                ∙ all,
            omega arith,
          )
      | inr room ↦
          let e : len + 1 < max_pkt_burst = ground arith in
          rw room (ap (λ l. l ++ slots t.port.table.m_table 0 (len + 1)) ready ∙ all, e)
    ]

-- `send_single_packet` puts the packet behind all that came before it, done with or waiting, whether the
-- table is sent by that or not and however many packets the NIC takes; there is room for the next.
pub send_single_packet-history :
    (tx_burst : ℕ → ℕ) (m : Packet) (tx : Tx)
    → ((n : ℕ) → tx_burst n ≤ n)
    → tx.port.table.len < max_pkt_burst
    → let r = send_single_packet tx_burst m tx in
      (history r ≡ history tx ++ m ∷ []) × (r.port.table.len < max_pkt_burst)
unfolding send_single_packet
send_single_packet-history tx_burst m tx takes small =
    send_if_full-history tx_burst m tx (store_packet tx.port.table.len m tx) takes small refl refl

module _ (tx_burst : ℕ → ℕ) (g : Pages) (alloc : ℕ → Bool) (extcl : Chain → Option (List Segment))
    (m : Chain) (total : ℕ) (tx : Tx) where
  -- `lazybsd_dpdk_if_send` does the same with the packet that it makes from the chain.
  pub dpdk_if_send-history :
      (l : List Segment)
      → to_rte g alloc extcl m ≡ head l
      → ((n : ℕ) → tx_burst n ≤ n)
      → tx.port.table.len < max_pkt_burst
      → (r : Tx) × (dpdk_if_send tx_burst g alloc extcl (some m) total tx ≡ some r)
        × (history r ≡ history tx ++ record { pkt_len = total; segments = l } ∷ [])
        × (r.port.table.len < max_pkt_burst)
  unfolding dpdk_if_send if_send_onepkt
  dpdk_if_send-history l made takes small =
      let p : Packet = record { pkt_len = total; segments = l } in
      let len = tx.port.table.len in
      let t = store_bsd len m.name (store_packet len p tx) in
      let h = send_if_full-history tx_burst p tx t takes small refl refl in
      let run = ap (λ (x : Head). after_onepkt tx_burst (onepkt x m.name total tx)) made in
      (send_if_full tx_burst (len + 1) t, run, h.0, h.1)

  -- When there is no memory for the packet, the packets that wait are forgotten: none of them is sent
  -- or freed, and the table is empty.
  pub dpdk_if_send-forgets :
      to_rte g alloc extcl m ≡ no_memory
      → (r : Tx) × (dpdk_if_send tx_burst g alloc extcl (some m) total tx ≡ some r)
        × (r.port.handled ≡ tx.port.handled)
        × (waiting r ≡ [])
  unfolding dpdk_if_send if_send_onepkt
  dpdk_if_send-forgets failed = (
    set_len 0 (record tx {
      port = record tx.port {
        ring = record tx.port.ring { freed = tx.port.ring.freed ++ m.name ∷ [] };
      };
    }),
    ap (λ (x : Head). after_onepkt tx_burst (onepkt x m.name total tx)) failed,
    refl,
    refl,
  )
