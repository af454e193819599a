-- ===== src/Driver/OffloadExamples.antt =====
-- The theorem on `lazybsd_offload_set` of src/lazybsd_memory.cc at work, and what it asks for.
use lazybsd.Prelude.{◌≡◌, refl, if◌then◌else◌, ◌==◌, true, arith}
use lazybsd.Sock.Address.{Memory}
use lazybsd.Veth.Packet.{CsumFlags}
use lazybsd.Driver.Offload.{TxFlags, RteMbuf, offload_set, if_send_offload}
use lazybsd.Driver.Offload.Segments.{IsPrepared, offload_set-IsPrepared}

abbrev tx_flags : TxFlags
tx_flags = record {
  ip_cksum = 1;
  tcp_cksum = 2;
  udp_cksum = 4;
  ipv4 = 8;
  tcp_seg = 16;
  phdr_cksum = λ m iph. 4660;
}

abbrev csum_flags : CsumFlags
csum_flags = record { csum_ip = 1; csum_tcp = 4; csum_udp = 2; csum_sctp = 8; csum_tso = 16 }

-- An IPv4 header of 20 bytes at 114, and a TCP header of 32 bytes behind it
abbrev frame : Memory
frame x = if x == 114 then 69 else if x == 146 then 128 else 0

abbrev mbuf : RteMbuf
mbuf = record { start = 100; ol_flags = 0; l2_len = 0; l3_len = 0; l4_len = 0; tso_segsz = 0 }

-- A checksum of UDP is asked for as one of TCP in the one build.
udp_as_tcp : (offload_set tx_flags csum_flags true 2 0 frame mbuf).1.ol_flags ≡ 2
unfolding offload_set
udp_as_tcp = refl

udp_as_udp : (if_send_offload tx_flags csum_flags true 2 0 frame mbuf).1.ol_flags ≡ 4
unfolding if_send_offload
udp_as_udp = refl

header_length : (offload_set tx_flags csum_flags true 20 1448 frame mbuf).1.l4_len ≡ 32
unfolding offload_set
header_length = refl

offload_set-IsPrepared_example :
    IsPrepared tx_flags 2 true 1448 frame mbuf
      (offload_set tx_flags csum_flags true 21 1448 frame mbuf)
    × IsPrepared tx_flags 1 true 1448 frame mbuf
        (if_send_offload tx_flags csum_flags true 21 1448 frame mbuf)
offload_set-IsPrepared_example =
    offload_set-IsPrepared tx_flags csum_flags 21 1448 frame mbuf (λ n iph. omega arith) refl refl
      (λ e. ground arith)
