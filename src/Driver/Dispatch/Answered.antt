-- ===== src/Driver/Dispatch/Answered.antt =====
-- When `process_packets` of src/lazybsd_dpdk.cc has a result.
use lazybsd.Prelude.{
  ℕ, zero, suc, ◌≡◌, ◌≢◌, refl, Bool, true, false, Option, none, some, leb, ◌==◌, List, [], ◌∷◌, ℤ,
  pos, negsuc, Bool-cases, inl, inr, arith,
}
use lazybsd.Driver.Filter.{FilterReturn, protocol_filter}
use lazybsd.Driver.Dispatch.{
  Received, Action, Outside, after_filter, dispatched, by_dispatcher, process_packet, RxTraffic,
  count_rx, then_do, process_packets,
}

-- A dispatcher answers with a queue, or with LAZYBSD_DISPATCH_ERROR (-1) or LAZYBSD_DISPATCH_RESPONSE (-2).
abbrev pub is_answer : ℤ → Bool
is_answer (pos k) = true
is_answer (negsuc k) = leb k 1

abbrev pub gives_answer :
    (nb_queues queue_id : ℕ)
    → Option (Received → (queue_id nb_queues : ℕ) → ℤ × ℕ)
    → Received
    → Bool
gives_answer n q none p = true
gives_answer n q (some f) p = is_answer (f p q n).0

-- The length that the filter is asked with
abbrev pub filter_len :
    (nb_queues queue_id : ℕ)
    → (pkts_from_ring : Bool) → Option (Received → (queue_id nb_queues : ℕ) → ℤ × ℕ)
    → Received
    → ℕ
filter_len n q true f p = p.data_len
filter_len n q false none p = p.data_len
filter_len n q false (some f) p = (f p q n).1

-- The dispatcher, if there is one, gives one of its answers for a packet, and the filter returns in the calls that it is given.
pub record IsAnswered (o : Outside) (n q : ℕ) (from_ring : Bool) (p : Received) : Type 0 where
  pub answer : gives_answer n q o.packet_dispatcher p ≡ true
  pub returns :
      protocol_filter o.fuel o.settings p.bytes p.data_at
        (filter_len n q from_ring o.packet_dispatcher p)
      ≢ none

abbrev pub AreAnswered : Outside → (n q : ℕ) → (from_ring : Bool) → List Received → Type 0
AreAnswered o n q from_ring [] = Unit {0}
AreAnswered o n q from_ring (p ∷ ps) = IsAnswered o n q from_ring p × AreAnswered o n q from_ring ps

abbrev pub HasResult : {A : Type 0} → Option A → Type 0
HasResult {A = A} x = (y : A) × (x ≡ some y)

module _ (o : Outside) (n q : ℕ) (p : Received) where
  after_filter-HasResult :
      (from_ring : Bool) (r : Option FilterReturn)
      → r ≢ none
      → HasResult (after_filter o n q p.name from_ring r)
  after_filter-HasResult from_ring none h = absurd (h refl)
  after_filter-HasResult from_ring (some r) h = (_, refl)

  dispatched-HasResult :
      (ret : ℤ) (len : ℕ)
      → is_answer ret ≡ true
      → protocol_filter o.fuel o.settings p.bytes p.data_at len ≢ none
      → HasResult (dispatched o n q p (ret, len))
  dispatched-HasResult (negsuc zero) len h k = (_, refl)
  dispatched-HasResult (negsuc (suc zero)) len h k = (_, refl)
  dispatched-HasResult (negsuc (suc (suc i))) len h k = absurd (ground arith)
  dispatched-HasResult (pos ret) len h k = elim (Bool-cases (leb n ret)) [
    | inl out ↦ rw out (_, refl)
    | inr inside ↦ elim (Bool-cases (ret == q)) [
      | inl own ↦ rw (inside, own) (after_filter-HasResult false _ k)
      | inr other ↦ rw (inside, other) (_, refl)
    ]
  ]

  by_dispatcher-HasResult :
      (f : Option (Received → ℕ → ℕ → ℤ × ℕ))
      → gives_answer n q f p ≡ true
      → protocol_filter o.fuel o.settings p.bytes p.data_at (filter_len n q false f p) ≢ none
      → HasResult (by_dispatcher o n q f p)
  by_dispatcher-HasResult none h k = after_filter-HasResult false _ k
  by_dispatcher-HasResult (some f) h k = dispatched-HasResult (f p q n).0 (f p q n).1 h k

  process_packet-HasResult :
      (from_ring : Bool)
      → IsAnswered o n q from_ring p
      → HasResult (process_packet o n q from_ring p)
  unfolding process_packet
  process_packet-HasResult true h = after_filter-HasResult true _ h.returns
  process_packet-HasResult false h = by_dispatcher-HasResult o.packet_dispatcher h.answer h.returns

then_do-HasResult :
    (x : Option (List Action)) (y : Option (RxTraffic × List Action))
    → HasResult x
    → HasResult y
    → HasResult (then_do x y)
then_do-HasResult none y h k = absurd (ground arith)
then_do-HasResult (some a) none h k = absurd (ground arith)
then_do-HasResult (some a) (some (t, b)) h k = (_, refl)

pub process_packets-HasResult :
    (o : Outside) (n q : ℕ) (from_ring : Bool) (bufs : List Received) (t : RxTraffic)
    → AreAnswered o n q from_ring bufs
    → HasResult (process_packets o n q from_ring bufs t)
unfolding process_packets
process_packets-HasResult o n q from_ring [] t h = (_, refl)
process_packets-HasResult o n q from_ring (p ∷ ps) t h =
    then_do-HasResult _ _ (process_packet-HasResult o n q p from_ring h.0)
      (process_packets-HasResult o n q from_ring ps (count_rx from_ring p t) h.1)
