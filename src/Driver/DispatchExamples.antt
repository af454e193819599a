-- ===== src/Driver/DispatchExamples.antt =====
-- The theorems on received packets and on the hash of src/lazybsd_dpdk.cc at work.
use lazybsd.Prelude.{
  ℕ, ◌+◌, ◌*◌, ◌%◌, ◌^◌, ◌<◌, ◌≡◌, refl, Bool, true, false, Option, none, some, if◌then◌else◌, ◌==◌,
  ltb, List, [], ◌∷◌, ◌++◌, arith, ℤ, pos, negsuc,
}
use lazybsd.Driver.Filter.{Settings, arp, protocol_filter}
use lazybsd.Driver.Dispatch.{
  Received, Action, transmit, input, enqueue, clone, Outside, default, RxTraffic, process_packet,
  process_packets,
}
use lazybsd.Driver.Dispatch.Answered.{AreAnswered}
use lazybsd.Driver.Dispatch.Disposed.{AreHandedOn, process_packets-Balanced}
use lazybsd.Driver.Dispatch.Queues.{put_in, HasRoom, process_packet-put_in}
use lazybsd.Driver.Rss.{toeplitz_hash, set_rss_table, rss_check, le_bytes}
use lazybsd.Driver.Rss.Window.{windows, toeplitz_hash-windows}
use lazybsd.Driver.Rss.Table.{entry, rss_check-entry}

abbrev settings : Settings
settings = record {
  inet6 = false;
  with_kni = false;
  on_freebsd = false;
  enable_kni = false;
  tcp_port_bitmap = λ i. 0;
  udp_port_bitmap = λ i. 0;
}

-- Rings with room, and clones of a packet x for the queue j that are named 100 * x + j.
abbrev outside : Option (Received → ℕ → ℕ → ℤ × ℕ) → Outside
outside dispatcher = record {
  settings = settings;
  fuel = 10;
  primary = true;
  kni_accept = false;
  knictl_action = default;
  packet_dispatcher = dispatcher;
  has_room = λ x j. true;
  kni_has_room = λ x. true;
  clone_for = λ x j. some (100 * x + j);
  clone_for_kni = λ x. none;
}

-- An ARP packet, and one of another type.
abbrev arp_packet : Received
arp_packet = record {
  name = 1;
  bytes = λ x. if x == 12 then 8 else if x == 13 then 6 else 0;
  data_at = 0;
  data_len = 60;
  pkt_len = 60;
  nb_segs = 1;
}

abbrev other_packet : Received
other_packet = record arp_packet { name = 2; bytes = λ x. 0 }

abbrev nothing : RxTraffic
nothing = record { rx_packets = 0; rx_bytes = 0 }

abbrev actions : List Action
actions = clone 1 100 ∷ enqueue 0 100 ∷ clone 1 102 ∷ enqueue 2 102 ∷ input 1 ∷ input 2 ∷ []

both_packets :
    process_packets (outside none) 3 1 false (arp_packet ∷ other_packet ∷ []) nothing
    ≡ some (record { rx_packets = 2; rx_bytes = 120 }, actions)
unfolding process_packets
both_packets = refl

-- A dispatcher that gives the first packet to the own queue and drops the second.
abbrev by_name : Received → (queue_id nb_queues : ℕ) → ℤ × ℕ
by_name p q n = if p.name == 1 then (pos q, 60) else (negsuc 0, 0)

are_answered : AreAnswered (outside (some by_name)) 3 1 false (arp_packet ∷ other_packet ∷ [])
unfolding protocol_filter
are_answered = (
  record { answer = refl; returns = λ e. absurd (ground arith) },
  (record { answer = refl; returns = λ e. absurd (ground arith) }, tt),
)

process_packets-Balanced_example :
    AreHandedOn
      (arp_packet ∷ other_packet ∷ [])
      (process_packets (outside (some by_name)) 3 1 false (arp_packet ∷ other_packet ∷ []) nothing)
process_packets-Balanced_example =
    process_packets-Balanced (outside (some by_name)) 3 1 false (arp_packet ∷ other_packet ∷ [])
      nothing are_answered

-- A dispatcher that answers: the packet is sent with the length that it gives.
answered :
    process_packet (outside (some (λ p q n. (negsuc 1, 64)))) 3 1 false arp_packet
    ≡ some (transmit 1 64 ∷ [])
unfolding process_packet
answered = refl

is_arp : protocol_filter 10 settings arp_packet.bytes 0 60 ≡ some arp
unfolding protocol_filter
is_arp = refl

enough_room : HasRoom (outside none) 1
enough_room = record { clone_of = λ j. 100 * 1 + j; memory = λ j. refl; room = λ j. refl }

from_ring : process_packet (outside none) 3 1 true arp_packet ≡ some (input 1 ∷ [])
unfolding process_packet
from_ring = refl

process_packet-put_in_example : put_in 2 (input 1 ∷ []) ≡ 0
process_packet-put_in_example =
    process_packet-put_in 2 (outside none) 3 1 arp_packet (input 1 ∷ []) from_ring

-- The third of four segments behind the first gets no mbuf.
abbrev two_only : ℕ → Bool
two_only k = ltb k 2

-- A key of 40 bytes that is 109 and 90 by turns, as the symmetric key of the driver.
abbrev key : ℕ → ℕ
key i = if i % 2 == 0 then 109 else 90

key_bytes : (i : ℕ) → key i < 256
key_bytes i = ground arith

toeplitz_hash-windows_example :
    toeplitz_hash 40 key (10 ∷ 0 ∷ 0 ∷ 1 ∷ []) ≡ windows 40 key 0 (10 ∷ 0 ∷ 0 ∷ 1 ∷ []) 0
toeplitz_hash-windows_example =
    toeplitz_hash-windows 40 key key_bytes (10 ∷ 0 ∷ 0 ∷ 1 ∷ []) (omega arith)

rss_check-entry_example :
    let bytes = le_bytes 4 16777226 ++ le_bytes 4 33554442 ++ le_bytes 2 20480 ++ le_bytes 2 4660 in
    (queue : ℕ) × (entry (set_rss_table (2 ^ (1 + 6)) 4) (toeplitz_hash 40 key bytes % 2 ^ (1 + 6))
      ≡ some queue)
    × (rss_check 40 key 4 (2 ^ (1 + 6)) 1 16777226 33554442 20480 4660 ≡ (queue == 1))
rss_check-entry_example = rss_check-entry 40 key 4 1 1 16777226 33554442 20480 4660 (omega arith)
