-- ===== src/Driver/Offload.antt =====
-- src/lazybsd_memory.cc, `lazybsd_offload_set`, and its copy in `lazybsd_dpdk_if_send` of src/lazybsd_dpdk.cc for
-- the build without LAZYBSD_USE_PAGE_ARRAY: the NIC is asked for checksums and for TCP segmentation.
pub mod Segments
use lazybsd.Prelude.{ℕ, ◌+◌, ◌*◌, ◌/◌, Bool, false, if◌then◌else◌, ◌==◌, bit_and, bit_or}
use lazybsd.Sock.Address.{Memory, store16}
use lazybsd.Veth.Packet.{CsumFlags, TxOffload, mbuf_tx_offload}

-- The flags RTE_MBUF_F_TX_ of DPDK, and `rte_ipv4_phdr_cksum` for TCP segmentation
pub record TxFlags : Type 0 where
  pub ip_cksum : ℕ
  pub tcp_cksum : ℕ
  pub udp_cksum : ℕ
  pub ipv4 : ℕ
  pub tcp_seg : ℕ
  pub phdr_cksum : Memory → (iph : ℕ) → ℕ

-- The flags that a build sets for a checksum of IP, and for one of UDP
pub record Asked : Type 0 where
  pub for_ip : ℕ
  pub for_udp : ℕ

-- The fields of an rte_mbuf; `start` is the address of its data. The lengths are at most 60, which fit in their
-- bit fields.
pub record RteMbuf : Type 0 where
  pub start : ℕ
  pub ol_flags : ℕ
  pub l2_len : ℕ
  pub l3_len : ℕ
  pub l4_len : ℕ
  pub tso_segsz : ℕ

-- RTE_ETHER_HDR_LEN, and the length of the IP header
abbrev pub ether_hdr_len : ℕ
ether_hdr_len = 14

abbrev pub iph_len : Memory → RteMbuf → ℕ
iph_len m head = bit_and (m (head.start + ether_hdr_len)) 15 * 4

-- A checksum is asked for, with the place of its header.
abbrev pub with_checksum : (is_asked : Bool) → (flags len : ℕ) → RteMbuf → RteMbuf
with_checksum is_asked flags len head =
    if is_asked
    then record head { ol_flags = bit_or head.ol_flags flags; l2_len = ether_hdr_len; l3_len = len }
    else head

-- TCP segmentation: the checksum of the pseudo header is stored.
abbrev pub segmented : TxFlags → (tso_seg_size len : ℕ) → Memory × RteMbuf → Memory × RteMbuf
segmented k tso_seg_size len (m, head) =
    let iph = head.start + ether_hdr_len in
    let tcph = iph + len in
    if tso_seg_size == 0 then (m, head) else (
      store16 m (tcph + 16) (k.phdr_cksum m iph),
      record head {
        ol_flags = bit_or head.ol_flags k.tcp_seg;
        l4_len = bit_and (m (tcph + 12)) 240 / 4;
        tso_segsz = tso_seg_size;
      },
    )

abbrev pub asked_l4 : TxFlags → Asked → TxOffload → (len : ℕ) → Memory × RteMbuf → Memory × RteMbuf
asked_l4 k a o len (m, head) =
    let t = segmented k o.tso_seg_size len (m, with_checksum o.tcp_csum k.tcp_cksum len head) in
    (t.0, with_checksum o.udp_csum a.for_udp len t.1)

unfoldable pub set_offloads :
    TxFlags → Asked → (tx_csum_l4 : Bool) → TxOffload → Memory → RteMbuf → Memory × RteMbuf
set_offloads k a tx_csum_l4 o m head =
    let len = iph_len m head in
    let h = with_checksum o.ip_csum (bit_or a.for_ip k.ipv4) len head in
    if tx_csum_l4 then asked_l4 k a o len (m, h) else (m, h)

-- What `struct lazybsd_tx_offload` starts as
abbrev pub no_offload : TxOffload
no_offload = record {
  ip_csum = false;
  tcp_csum = false;
  udp_csum = false;
  sctp_csum = false;
  tso_seg_size = 0;
}

-- `lazybsd_offload_set`, for an mbuf with the flags `csum_flags`
abbrev pub page_array : TxFlags → Asked
page_array k = record { for_ip = k.tcp_cksum; for_udp = k.tcp_cksum }

unfoldable pub offload_set :
    TxFlags
    → CsumFlags
    → (tx_csum_l4 : Bool) → (csum_flags tso_segsz : ℕ) → Memory
    → RteMbuf
    → Memory × RteMbuf
unfolding set_offloads mbuf_tx_offload
offload_set k c tx_csum_l4 csum_flags tso_segsz m head =
    set_offloads k (page_array k) tx_csum_l4 (mbuf_tx_offload c csum_flags tso_segsz no_offload) m
      head

-- The part of `lazybsd_dpdk_if_send` of the other build
abbrev pub copying : TxFlags → Asked
copying k = record { for_ip = k.ip_cksum; for_udp = k.udp_cksum }

unfoldable pub if_send_offload :
    TxFlags
    → CsumFlags
    → (tx_csum_l4 : Bool) → (csum_flags tso_segsz : ℕ) → Memory
    → RteMbuf
    → Memory × RteMbuf
unfolding set_offloads mbuf_tx_offload
if_send_offload k c tx_csum_l4 csum_flags tso_segsz m head =
    set_offloads k (copying k) tx_csum_l4 (mbuf_tx_offload c csum_flags tso_segsz no_offload) m head
