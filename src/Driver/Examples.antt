-- ===== src/Driver/Examples.antt =====
-- The theorems on src/lazybsd_dpdk.cc at work, and runs of its functions.
use lazybsd.Prelude.{ℕ, ◌≡◌, refl, ◌⊎◌, true, false, none, some, arith, if◌then◌else◌, ◌==◌, ltb}
use lazybsd.Driver.Filter.{
  Settings, Memory, FilterReturn, set_bitmap, protocol_filter_ip, protocol_filter, ipv4,
}
use lazybsd.Driver.Filter.Returns.{
  MeetsEmptyHeader, protocol_filter_ip-Returns, protocol_filter_ip-hangs,
}
use lazybsd.Driver.Filter.Within.{Agree, protocol_filter_ip-Agree}

abbrev settings : Settings
settings = record {
  inet6 = true;
  with_kni = true;
  on_freebsd = false;
  enable_kni = true;
  tcp_port_bitmap = set_bitmap 80 (λ i. 0);
  udp_port_bitmap = λ i. 0;
}

-- A segment of TCP for the port 80, in IPv4.
abbrev segment : Memory
segment x = if x == 0 then 69 else if x == 9 then 6 else if x == 23 then 80 else 0

segment_to_kni : protocol_filter_ip 1 settings segment 0 40 ipv4 ≡ some FilterReturn.kni
unfolding protocol_filter_ip set_bitmap
segment_to_kni = refl

-- A frame of 8 bytes passes the test for the length of an address; the length is then 65530, and
-- the type is read behind the frame.
short_frame :
    protocol_filter 1 settings (λ x. if x == 12 then 8 else if x == 13 then 6 else 0) 0 8
    ≡ some FilterReturn.arp
unfolding protocol_filter
short_frame = refl

protocol_filter_ip-Returns_example :
    ((r : FilterReturn) × (protocol_filter_ip 82 settings segment 0 40 ipv4 ≡ some r))
    ⊎ (MeetsEmptyHeader settings segment 0 40 ipv4
        × ((fuel : ℕ) → protocol_filter_ip fuel settings segment 0 40 ipv4 ≡ none))
protocol_filter_ip-Returns_example = protocol_filter_ip-Returns settings segment 0 40 ipv4

-- Twenty bytes of IPv4, with the length 0 and the protocol IPIP.
abbrev empty_ipip : Memory
empty_ipip x = if x == 0 then 64 else if x == 9 then 4 else 0

protocol_filter_ip-hangs_example : protocol_filter_ip 1000 settings empty_ipip 0 20 ipv4 ≡ none
protocol_filter_ip-hangs_example =
    protocol_filter_ip-hangs 1000 settings empty_ipip 0 20 (omega arith) refl refl

-- The same packet with other bytes behind it.
abbrev more_behind : Memory
more_behind x = if ltb x 40 then segment x else 7

same_packet : Agree segment more_behind 0 40
same_packet x h = ground arith

protocol_filter_ip-Agree_example :
    protocol_filter_ip 5 settings segment 0 40 ipv4
    ≡ protocol_filter_ip 5 settings more_behind 0 40 ipv4
protocol_filter_ip-Agree_example =
    protocol_filter_ip-Agree 5 settings segment more_behind 0 40 ipv4 same_packet
