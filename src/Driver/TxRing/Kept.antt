-- ===== src/Driver/TxRing/Kept.antt =====
-- What the ring of src/lazybsd_memory.cc keeps, and when it frees.
use lazybsd.Prelude.{
  ℕ, zero, suc, ◌+◌, ◌-◌, ◌%◌, ◌≤◌, ◌<◌, ◌≡◌, refl, ap, ◌∙◌, Bool, Option, none, some,
  if◌then◌else◌, ltb, ◌==◌, update, List, [], ◌∷◌, count, points, arith, Bool-cases, inl, inr,
  ==_iff,
}
use Prim.Native.Nat.{max}
use lazybsd.Driver.TxRing.{tx_queue_size, TxRing, free_slot, put, clear_slots, txring_enqueue}

abbrev one_if : Bool → ℕ
one_if b = if b then 1 else 0

-- How many of the first slots hold a packet.
pub held_in : (slots : ℕ) → (ℕ → Option ℕ) → ℕ → ℕ
held_in zero t a = 0
held_in (suc n) t a = one_if (points (t n) a) + held_in n t a

abbrev pub held : TxRing → ℕ → ℕ
held q a = held_in tx_queue_size q.m_table a

held_in-update_above :
    (n : ℕ) (t : ℕ → Option ℕ) (h a : ℕ) (p : Option ℕ)
    → n ≤ h
    → held_in n (update t h p) a ≡ held_in n t a
unfolding held_in
held_in-update_above zero t h a p le = refl
held_in-update_above (suc n) t h a p le =
    let other : (n == h) ≡ ltb 1 0 = ground arith in
    rw other (omega (arith, held_in-update_above n t h a p (omega arith)))

held_in-update :
    (n : ℕ) (t : ℕ → Option ℕ) (h a : ℕ) (p : Option ℕ)
    → h < n
    → held_in n (update t h p) a + one_if (points (t h) a) ≡ held_in n t a + one_if (points p a)
unfolding held_in
held_in-update zero t h a p lt = absurd (omega arith)
held_in-update (suc n) t h a p lt = elim (Bool-cases (n == h)) [
  | inl same ↦
      let e : n ≡ h = (==_iff n h).0 same in
      let above = held_in-update_above n t h a p (omega arith) in
      let th = ap (λ k. one_if (points (t k) a)) e in rw same (omega (arith, above, th))
  | inr other ↦
      let less : h < n = ground arith in rw other (omega (arith, held_in-update n t h a p less))
]

count-free_slot :
    (o : Option ℕ) (l : List ℕ) (a : ℕ) → count a (free_slot o l) ≡ count a l + one_if (points o a)
count-free_slot none l a = omega arith
count-free_slot (some m) [] a = ground arith
count-free_slot (some m) (x ∷ xs) a = omega (arith, count-free_slot (some m) xs a)

abbrev pub total : TxRing → ℕ → ℕ
total q a = count a q.freed + held q a

put-total :
    (q : TxRing) (p : Option ℕ) (a : ℕ)
    → q.head < tx_queue_size
    → total (put q p) a ≡ total q a + one_if (points p a)
unfolding put
put-total q p a h = omega (
  arith,
  held_in-update tx_queue_size q.m_table q.head a p h,
  count-free_slot (q.m_table q.head) q.freed a,
)

put-head :
    (q : TxRing) (p : Option ℕ)
    → q.head < tx_queue_size
    → (put q p).head ≡ (q.head + 1) % tx_queue_size
unfolding put
put-head q p h = ground arith

clear_slots-total :
    (rounds : ℕ) (q : TxRing) (a : ℕ)
    → q.head < tx_queue_size
    → (total (clear_slots rounds q) a ≡ total q a) × ((clear_slots rounds q).head < tx_queue_size)
unfolding clear_slots
clear_slots-total zero q a h = (refl, h)
clear_slots-total (suc rounds) q a h =
    let now = put-head q none h in
    let one = put-total q none a h in
    let rest = clear_slots-total rounds (put q none) a (omega (arith, now)) in
    (rest.0 ∙ omega (arith, one), rest.1)

-- No packet is lost by the ring and none is freed twice: what has been freed and what the slots hold
-- grows by the packet that is put in and by nothing else, and `head` stays in the table.
pub txring_enqueue-total :
    (q : TxRing) (p seg_num a : ℕ)
    → q.head < tx_queue_size
    → (total (txring_enqueue q (some p) seg_num) a ≡ total q a + (if p == a then 1 else 0))
      × ((txring_enqueue q (some p) seg_num).head < tx_queue_size)
unfolding txring_enqueue
txring_enqueue-total q p seg_num a h =
    let c = clear_slots-total (seg_num - 1) q a h in
    let r = clear_slots (seg_num - 1) q in
    let t = put-total r (some p) a c.1 in
    let n = put-head r (some p) c.1 in (t ∙ ap (λ k. k + one_if (p == a)) c.0, omega (arith, n))

-- A slot that is `d` places ahead of `head`.
abbrev ahead : TxRing → (d : ℕ) → Option ℕ
ahead q d = q.m_table ((q.head + d) % tx_queue_size)

abbrev pub segs : ℕ → ℕ
segs n = max n 1

-- Packets that are put in one after the other, each with its number of segments.
abbrev pub enqueue_all : List (ℕ × ℕ) → TxRing → TxRing
enqueue_all [] q = q
enqueue_all ((p, n) ∷ l) q = enqueue_all l (txring_enqueue q (some p) n)

abbrev pub all_segs : List (ℕ × ℕ) → ℕ
all_segs [] = 0
all_segs ((p, n) ∷ l) = segs n + all_segs l
