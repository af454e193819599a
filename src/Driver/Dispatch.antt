-- ===== src/Driver/Dispatch.antt =====
-- src/lazybsd_dpdk.cc: what becomes of a packet that was received, `process_packets` and
-- `process_dispatch_ring`. The rings, the allocator and the application's dispatcher are parameters, and
-- what is done with packets is a list of actions. The dump of packets to a file is left out.
pub mod Answered
mod Counts
mod Clones
pub mod Disposed
pub mod Queues
use lazybsd.Prelude.{
  ℕ, zero, suc, ◌+◌, ◌^◌, ◌%◌, Bool, true, false, not, ◌&&◌, ◌||◌, Option, none, some,
  if◌then◌else◌, ltb, leb, ◌==◌, List, [], ◌∷◌, ◌++◌, ℤ, pos, negsuc,
}
use lazybsd.Driver.Filter.{Settings, Memory, FilterReturn, unknown, arp, kni, ndp, protocol_filter}

-- A packet that was received: the bytes of its first segment, the length of the whole, and the number
-- of its segments.
pub record Received : Type 0 where
  pub name : ℕ
  pub bytes : Memory
  pub data_at : ℕ
  pub data_len : ℕ
  pub pkt_len : ℕ
  pub nb_segs : ℕ

pub data Action : Type 0 where
  transmit : (name len : ℕ) → Action
  free : (name : ℕ) → Action
  enqueue : (queue name : ℕ) → Action
  enqueue_kni : (name : ℕ) → Action
  clone : (source name : ℕ) → Action
  input : (name : ℕ) → Action

-- `knictl_action`
pub data KniAction : Type 0 where
  all_to_kni : KniAction
  all_to_ff : KniAction
  default : KniAction
  other_action : KniAction

-- The settings of the driver, the application's dispatcher, which gives a result and a length, and
-- for a packet and a queue whether the ring has room and which clone is made, if there is memory.
pub record Outside : Type 0 where
  pub settings : Settings
  pub fuel : ℕ
  pub primary : Bool
  pub kni_accept : Bool
  pub knictl_action : KniAction
  pub packet_dispatcher : Option (Received → (queue_id nb_queues : ℕ) → ℤ × ℕ)
  pub has_room : (name queue : ℕ) → Bool
  pub kni_has_room : (name : ℕ) → Bool
  pub clone_for : (name queue : ℕ) → Option ℕ
  pub clone_for_kni : (name : ℕ) → Option ℕ

-- `rte_ring_enqueue`, and the packet is freed if that fails; `lazybsd_kni_enqueue` is the same on its ring.
abbrev pub enqueue_or_free : Outside → (queue name : ℕ) → List Action
enqueue_or_free o queue name =
    (if o.has_room name queue then enqueue queue name else free name) ∷ []

abbrev pub kni_enqueue : Outside → (name : ℕ) → List Action
kni_enqueue o name = (if o.kni_has_room name then enqueue_kni name else free name) ∷ []

-- The clones for the other queues, for the queues that are left, from `j` on
abbrev pub cloned : Outside → (j name : ℕ) → Option ℕ → List Action
cloned o j name none = []
cloned o j name (some c) = clone name c ∷ enqueue_or_free o j c

unfoldable pub clones : (rounds j : ℕ) → Outside → (queue_id name : ℕ) → List Action
clones zero j o queue_id name = []
clones (suc rounds) j o queue_id name =
    (if j == queue_id then [] else cloned o j name (o.clone_for name j))
    ++ clones rounds (j + 1) o queue_id name

abbrev pub kni_cloned : Outside → (name : ℕ) → Option ℕ → List Action
kni_cloned o name none = []
kni_cloned o name (some c) = clone name c ∷ kni_enqueue o c

-- A packet that all queues are to see
abbrev pub neighbour_actions :
    Outside → (nb_queues queue_id name : ℕ) → (pkts_from_ring : Bool) → List Action
neighbour_actions o nb_queues queue_id name from_ring =
    (if from_ring then [] else clones nb_queues 0 o queue_id name)
    ++ (if o.settings.with_kni && (o.settings.enable_kni && o.primary)
        then kni_cloned o name (o.clone_for_kni name)
        else [])
    ++ input name ∷ []

abbrev pub is_kni : FilterReturn → Bool
is_kni kni = true
is_kni r = false

abbrev pub is_unknown : FilterReturn → Bool
is_unknown unknown = true
is_unknown r = false

abbrev pub by_action : KniAction → Outside → FilterReturn → (name : ℕ) → List Action
by_action all_to_kni o filter name = kni_enqueue o name
by_action all_to_ff o filter name = input name ∷ []
by_action default o filter name =
    if o.settings.enable_kni
      && ((is_kni filter && o.kni_accept) || (is_unknown filter && not o.kni_accept))
    then kni_enqueue o name
    else input name ∷ []
by_action other_action o filter name = input name ∷ []

abbrev pub other_actions : Outside → FilterReturn → (name : ℕ) → List Action
other_actions o filter name =
    if o.settings.with_kni && o.settings.enable_kni
    then by_action o.knictl_action o filter name
    else input name ∷ []

-- Without INET6 there is no FILTER_NDP.
abbrev pub by_filter :
    Outside → FilterReturn → (nb_queues queue_id name : ℕ) → (pkts_from_ring : Bool) → List Action
by_filter o arp n q name from_ring = neighbour_actions o n q name from_ring
by_filter o ndp n q name from_ring =
    if o.settings.inet6 then neighbour_actions o n q name from_ring else other_actions o ndp name
by_filter o kni n q name from_ring = other_actions o kni name
by_filter o unknown n q name from_ring = other_actions o unknown name

-- `none` if `protocol_filter` does not return
abbrev pub after_filter :
    Outside
    → (nb_queues queue_id name : ℕ) → (pkts_from_ring : Bool) → Option FilterReturn
    → Option (List Action)
after_filter o n q name from_ring none = none
after_filter o n q name from_ring (some filter) = some (by_filter o filter n q name from_ring)

abbrev pub filtered :
    Outside
    → (nb_queues queue_id : ℕ) → (pkts_from_ring : Bool) → Received
    → (len : ℕ) → Option (List Action)
filtered o n q from_ring p len =
    after_filter o n q p.name from_ring (protocol_filter o.fuel o.settings p.bytes p.data_at len)

-- The result of the dispatcher: LAZYBSD_DISPATCH_ERROR is -1 and LAZYBSD_DISPATCH_RESPONSE is -2; any
-- other negative number is used as an index, for which there is no result.
abbrev pub dispatched : Outside → (nb_queues queue_id : ℕ) → Received → ℤ × ℕ → Option (List Action)
dispatched o n q p (negsuc zero, len) = some (free p.name ∷ [])
dispatched o n q p (negsuc (suc zero), len) = some (transmit p.name len ∷ [])
dispatched o n q p (negsuc (suc (suc k)), len) = none
dispatched o n q p (pos ret, len) =
    if leb n ret
    then some (free p.name ∷ [])
    else if ret == q
    then filtered o n q false p len
    else some (enqueue_or_free o ret p.name)

-- One round of `process_packets`
abbrev pub by_dispatcher :
    Outside
    → (nb_queues queue_id : ℕ) → Option (Received → (queue_id nb_queues : ℕ) → ℤ × ℕ)
    → Received
    → Option (List Action)
by_dispatcher o n q none p = filtered o n q false p p.data_len
by_dispatcher o n q (some f) p = dispatched o n q p (f p q n)

unfoldable pub process_packet :
    Outside → (nb_queues queue_id : ℕ) → (pkts_from_ring : Bool) → Received → Option (List Action)
unfolding clones protocol_filter
process_packet o n q true p = filtered o n q true p p.data_len
process_packet o n q false p = by_dispatcher o n q o.packet_dispatcher p

-- `lazybsd_traffic`, the part on receiving
pub record RxTraffic : Type 0 where
  pub rx_packets : ℕ
  pub rx_bytes : ℕ

abbrev pub count_rx : (pkts_from_ring : Bool) → Received → RxTraffic → RxTraffic
count_rx true p t = t
count_rx false p t = record {
  rx_packets = (t.rx_packets + p.nb_segs) % 2 ^ 64;
  rx_bytes = (t.rx_bytes + p.pkt_len) % 2 ^ 64;
}

abbrev pub then_do :
    Option (List Action) → Option (RxTraffic × List Action) → Option (RxTraffic × List Action)
then_do none r = none
then_do (some a) none = none
then_do (some a) (some (t, b)) = some (t, a ++ b)

-- `process_packets`
unfoldable pub process_packets :
    Outside
    → (nb_queues queue_id : ℕ) → (pkts_from_ring : Bool) → List Received
    → RxTraffic
    → Option (RxTraffic × List Action)
unfolding process_packet
process_packets o n q from_ring [] t = some (t, [])
process_packets o n q from_ring (p ∷ ps) t =
    then_do (process_packet o n q from_ring p)
      (process_packets o n q from_ring ps (count_rx from_ring p t))

-- `process_dispatch_ring`, on the packets that `rte_ring_dequeue_burst` gives
unfoldable pub process_dispatch_ring :
    Outside
    → (nb_queues queue_id : ℕ) → List Received
    → RxTraffic
    → Option (RxTraffic × List Action)
unfolding process_packets
process_dispatch_ring o n q bufs t = process_packets o n q true bufs t
