-- ===== src/Veth/Packet.antt =====
-- bsd/lib/lazybsd_veth.c: the functions on mbufs that the DPDK driver calls. An mbuf is an address in
-- a store.
use lazybsd.Prelude.{
  ℕ, ◌+◌, Bool, true, ◌&&◌, Option, none, some, List, if◌then◌else◌, ltb, ◌==◌, update, bit_and,
}

-- The fields of `struct mbuf` that are used here. `ext_arg1` is the DPDK buffer that is freed with the mbuf.
pub record Packet : Type 0 where
  pub m_data : ℕ
  pub m_len : ℕ
  pub m_next : Option ℕ
  pub m_ext : Bool
  pub disposable : Bool
  pub frees_dpdk : Bool
  pub ext_arg1 : Option ℕ
  pub pkt_len : ℕ
  pub rcvif : Option ℕ
  pub csum_flags : ℕ
  pub csum_data : ℕ
  pub ether_vtag : ℕ
  pub vlantag : Bool

abbrev pub PacketStore : Type 0
PacketStore = ℕ → Packet

-- `m_extadd` with `lazybsd_mbuf_ext_free` and `EXT_DISPOSABLE`
abbrev pub extadd : (bytes : ℕ) → (arg : ℕ) → Packet → Packet
extadd bytes arg m = record m {
  m_data = bytes;
  m_ext = true;
  disposable = true;
  frees_dpdk = true;
  ext_arg1 = some arg;
}

module _ (rx_valid : ℕ) where
  -- The header mbuf that `m_gethdr` gave at `a`, filled in by `lazybsd_mbuf_gethdr`; `rx_valid` are the four flags
  -- of a checksum that the device has verified.
  abbrev pub header : (pkt total bytes len : ℕ) → (rx_csum : Bool) → Packet → Packet
  header pkt total bytes len rx_csum m =
      let ext = record (extadd bytes pkt m) { pkt_len = total; m_len = len; m_next = none } in
      if rx_csum then record ext { csum_flags = rx_valid; csum_data = 65535 } else ext

  -- `lazybsd_mbuf_gethdr`: `m_gethdr` gives an address or NULL, `pkthdr_init` is the result of `m_pkthdr_init`.
  unfoldable pub mbuf_gethdr :
      (m_gethdr : Option ℕ)
      → (pkthdr_init : ℕ) → (pkt total bytes len : ℕ) → (rx_csum : Bool) → PacketStore
      → PacketStore × Option ℕ
  mbuf_gethdr none pkthdr_init pkt total bytes len rx_csum s = (s, none)
  mbuf_gethdr (some a) pkthdr_init pkt total bytes len rx_csum s =
      if pkthdr_init == 0
      then (update s a (header pkt total bytes len rx_csum (s a)), some a)
      else (s, none)

abbrev pub with_next : ℕ → Packet → Packet
with_next a m = record m { m_next = some a }

-- The mbuf that `lazybsd_mbuf_get` fills in.
abbrev pub cluster : (pkt bytes len : ℕ) → Packet → Packet
cluster pkt bytes len m = record (extadd bytes pkt m) { m_next = none; m_len = len }

-- The new mbuf behind the previous one, if there is one.
abbrev pub link : Option ℕ → ℕ → PacketStore → PacketStore
link none a s = s
link (some p) a s = update s p (with_next a (s p))

-- `lazybsd_mbuf_get`
unfoldable pub mbuf_get :
    (m_get : Option ℕ)
    → (prev : Option ℕ) → (pkt bytes len : ℕ) → PacketStore
    → PacketStore × Option ℕ
mbuf_get none prev pkt bytes len s = (s, none)
mbuf_get (some a) prev pkt bytes len s =
    (link prev a (update s a (cluster pkt bytes len (s a))), some a)

-- `lazybsd_next_mbuf`: the data and its length, and the mbuf that follows
unfoldable pub next_mbuf : PacketStore → ℕ → Option ℕ × (ℕ × ℕ)
next_mbuf s a = ((s a).m_next, ((s a).m_data, (s a).m_len))

-- `lazybsd_mbuf_mtod`
unfoldable pub mbuf_mtod : PacketStore → Option ℕ → Option ℕ
mbuf_mtod s none = none
mbuf_mtod s (some a) = some (s a).m_data

-- `lazybsd_rte_frm_extcl`
unfoldable pub rte_frm_extcl : PacketStore → ℕ → Option ℕ
rte_frm_extcl s a =
    let m = s a in if m.m_ext && (m.disposable && m.frees_dpdk) then m.ext_arg1 else none

-- `lazybsd_mbuf_ext_free`: the buffer that goes back to DPDK
unfoldable pub mbuf_ext_free : PacketStore → ℕ → Option ℕ
unfolding rte_frm_extcl
mbuf_ext_free s a = rte_frm_extcl s a

-- `lazybsd_mbuf_set_vlan_info`
unfoldable pub mbuf_set_vlan_info : PacketStore → ℕ → (vlan_tci : ℕ) → PacketStore
mbuf_set_vlan_info s a vlan_tci =
    update s a (record (s a) { ether_vtag = vlan_tci; vlantag = true })

-- `lazybsd_veth_process_packet`: the packet that `if_input` gets
unfoldable pub process_packet : PacketStore → (ifp a : ℕ) → PacketStore
process_packet s ifp a = update s a (record (s a) { rcvif = some ifp })

-- `lazybsd_mbuf_copydata`, with `m_copydata` of the kernel; `none` is the result -1.
unfoldable pub mbuf_copydata :
    (m_copydata : ℕ → (off len : ℕ) → List ℕ) → PacketStore → ℕ → (off len : ℕ) → Option (List ℕ)
mbuf_copydata m_copydata s a off len =
    if ltb (s a).pkt_len (off + len) then none else some (m_copydata a off len)

-- The kernel's `CSUM_` flags.
pub record CsumFlags : Type 0 where
  pub csum_ip : ℕ
  pub csum_tcp : ℕ
  pub csum_udp : ℕ
  pub csum_sctp : ℕ
  pub csum_tso : ℕ

-- `struct lazybsd_tx_offload`
pub record TxOffload : Type 0 where
  pub ip_csum : Bool
  pub tcp_csum : Bool
  pub udp_csum : Bool
  pub sctp_csum : Bool
  pub tso_seg_size : ℕ

-- A field that is set when the flag is, and otherwise left as it was.
abbrev pub set_by {ℓ} : {A : Type ℓ} → (flags mask : ℕ) → (new old : A) → A
set_by flags mask new old = if bit_and flags mask == 0 then old else new

-- `lazybsd_mbuf_tx_offload`
unfoldable pub mbuf_tx_offload : CsumFlags → (csum_flags tso_segsz : ℕ) → TxOffload → TxOffload
mbuf_tx_offload k csum_flags tso_segsz o = record {
  ip_csum = set_by csum_flags k.csum_ip true o.ip_csum;
  tcp_csum = set_by csum_flags k.csum_tcp true o.tcp_csum;
  udp_csum = set_by csum_flags k.csum_udp true o.udp_csum;
  sctp_csum = set_by csum_flags k.csum_sctp true o.sctp_csum;
  tso_seg_size = set_by csum_flags k.csum_tso tso_segsz o.tso_seg_size;
}
