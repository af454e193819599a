-- ===== src/Driver/Filter.antt =====
-- src/lazybsd_dpdk.cc: which packets the host kernel is interested in, `lazybsd_kni_proto_filter` and
-- the functions below it, and `protocol_filter`. A packet is a memory of bytes with an offset and a
-- length; the host is little-endian. The numbers of protocols are those of IANA and IEEE 802.
pub mod Ports
pub mod Returns
pub mod Within
use lazybsd.Prelude.{
  ℕ, zero, suc, ◌+◌, ◌-◌, ◌*◌, ◌/◌, ◌%◌, ◌^◌, Bool, true, false, not, ◌&&◌, ◌||◌, Option, none,
  some, if◌then◌else◌, ltb, leb, ◌==◌, bit_and, bit_or, update,
}

-- What the build and the configuration choose: `INET6`, `LAZYBSD_KNI`, `__FreeBSD__`, `enable_kni`,
-- and the two bitmaps of ports.
pub record Settings : Type 0 where
  pub inet6 : Bool
  pub with_kni : Bool
  pub on_freebsd : Bool
  pub enable_kni : Bool
  pub tcp_port_bitmap : ℕ → ℕ
  pub udp_port_bitmap : ℕ → ℕ

-- `enum FilterReturn`
pub data FilterReturn : Type 0 where
  unknown : FilterReturn
  arp : FilterReturn
  kni : FilterReturn
  ndp : FilterReturn

abbrev pub Memory : Type 0
Memory = ℕ → ℕ

-- A field of two bytes, in network order and as the host reads it.
abbrev pub be16 : Memory → ℕ → ℕ
be16 m d = m d * 256 + m (d + 1)

abbrev pub le16 : Memory → ℕ → ℕ
le16 m d = m d + m (d + 1) * 256

-- `magic_bits`
abbrev pub magic_bits : ℕ → ℕ
magic_bits i = 2 ^ (7 - i)

abbrev pub htons : ℕ → ℕ
htons port = port % 256 * 256 + port / 256

-- `set_bitmap`; the port is cut to 16 bits.
unfoldable pub set_bitmap : (port : ℕ) → (bitmap : ℕ → ℕ) → ℕ → ℕ
set_bitmap port bitmap =
    let p = htons (port % 2 ^ 16) in
    update bitmap (p / 8) (bit_or (bitmap (p / 8)) (magic_bits (p % 8)))

-- `get_bitmap`
unfoldable pub get_bitmap : (port : ℕ) → (bitmap : ℕ → ℕ) → Bool
get_bitmap port bitmap = ltb 0 (bit_and (bitmap (port / 8)) (magic_bits (port % 8)))

unfoldable pub protocol_filter_l4 : (port : ℕ) → (bitmap : ℕ → ℕ) → FilterReturn
unfolding get_bitmap
protocol_filter_l4 port bitmap = if get_bitmap port bitmap then kni else unknown

unfoldable pub protocol_filter_tcp : Settings → Memory → (data_at len : ℕ) → FilterReturn
unfolding protocol_filter_l4
protocol_filter_tcp s m d len =
    if ltb len 20 then unknown else protocol_filter_l4 (le16 m (d + 2)) s.tcp_port_bitmap

unfoldable pub protocol_filter_udp : Settings → Memory → (data_at len : ℕ) → FilterReturn
unfolding protocol_filter_l4
protocol_filter_udp s m d len =
    if ltb len 8 then unknown else protocol_filter_l4 (le16 m (d + 2)) s.udp_port_bitmap

-- `protocol_filter_icmp6`: from ND_ROUTER_SOLICIT to ND_REDIRECT
unfoldable pub protocol_filter_icmp6 : Memory → (data_at len : ℕ) → FilterReturn
protocol_filter_icmp6 m d len =
    if ltb len 8 then unknown else if leb 133 (m d) && leb (m d) 137 then ndp else unknown

-- The switch of `get_ipv6_hdr_len`: the length of an extension header; `none` is the default.
abbrev pub has_length : (proto : ℕ) → Bool
has_length p = p == 0 || p == 43 || p == 60 || p == 135 || p == 139 || p == 140

abbrev pub ext_hdr_len : Memory → (proto data_at : ℕ) → Option ℕ
ext_hdr_len m p d =
    if has_length p
    then some (m (d + 1) + 1)
    else if p == 44
    then some 8
    else if p == 51
    then some ((m (d + 1) + 2) * 4)
    else none

-- `get_ipv6_hdr_len`: the protocol that is found behind the extension headers, and their length;
-- the fuel bounds the calls, and `none` is its end.
unfoldable pub get_ipv6_hdr_len : ℕ → Memory → (proto data_at len : ℕ) → Option (ℕ × ℕ)
get_ipv6_hdr_len zero m p d len = none
get_ipv6_hdr_len (suc fuel) m p d len = elim (ext_hdr_len m p d) [
  | none ↦ some (p, 0)
  | some ext ↦ elim (leb len ext) [
    | true ↦ some (p, len)
    | false ↦ elim (get_ipv6_hdr_len fuel m (m d) (d + ext) (len - ext)) [
      | none ↦ none
      | some (q, more) ↦ some (q, ext + more)
    ]
  ]
]

abbrev pub ipv4 : ℕ
ipv4 = 0x0800

abbrev pub ipv6 : ℕ
ipv6 = 0x86dd

-- One call of `protocol_filter_ip`: its result, or the tail call for a packet in the packet.
pub data Round : Type 0 where
  done : FilterReturn → Round
  inner : (data_at len eth_frame_type : ℕ) → Round

-- The switch on the protocol
abbrev pub by_proto : Settings → Memory → (proto next next_len : ℕ) → Round
by_proto s m proto next len =
    if proto == 6
    then done (if s.with_kni && s.enable_kni then protocol_filter_tcp s m next len else unknown)
    else if proto == 17
    then done (if s.with_kni && s.enable_kni then protocol_filter_udp s m next len else unknown)
    else if proto == 4
    then inner next len ipv4
    else if s.inet6 && proto == 41
    then inner next len ipv6
    else if s.inet6 && proto == 58
    then done (protocol_filter_icmp6 m next len)
    else done unknown

-- What follows the header, if the packet is as long as the header says.
abbrev pub behind_header : Settings → Memory → (data_at len proto hdr_len : ℕ) → Round
behind_header s m d len proto hdr_len =
    if ltb len hdr_len then done unknown else by_proto s m proto (d + hdr_len) (len - hdr_len)

abbrev pub ipv4_round : Settings → Memory → (data_at len : ℕ) → Round
ipv4_round s m d len =
    if ltb len 20 then done unknown else behind_header s m d len (m (d + 9)) (m d % 16 * 4)

abbrev pub ipv6_round : Settings → Memory → (data_at len : ℕ) → Option Round
ipv6_round s m d len =
    if ltb len 40
    then some (done unknown)
    else elim (get_ipv6_hdr_len (suc len) m (m (d + 6)) (d + 40) (len - 40)) [
      | none ↦ none
      | some (proto, ext) ↦ some (behind_header s m d len proto (40 + ext))
    ]

abbrev pub round : Settings → Memory → (data_at len eth_frame_type : ℕ) → Option Round
round s m d len type =
    if type == ipv4
    then some (ipv4_round s m d len)
    else if s.inet6 && type == ipv6
    then ipv6_round s m d len
    else some (done unknown)

-- `protocol_filter_ip`, and `lazybsd_kni_proto_filter`, which is the same; the fuel bounds the calls.
unfoldable pub protocol_filter_ip :
    ℕ → Settings → Memory → (data_at len eth_frame_type : ℕ) → Option FilterReturn
unfolding protocol_filter_tcp protocol_filter_udp protocol_filter_icmp6 get_ipv6_hdr_len
protocol_filter_ip zero s m d len type = none
protocol_filter_ip (suc fuel) s m d len type = elim (round s m d len type) [
  | none ↦ none
  | some (done r) ↦ some r
  | some (inner d' len' type') ↦ protocol_filter_ip fuel s m d' len' type'
]

-- `protocol_filter`, with `lazybsd_kni_proto_filter` on `fuel`; `len` is cut to 16 bits after each
-- subtraction.
abbrev pub by_ether_type :
    ℕ → Settings → Memory → (data_at len ether_type : ℕ) → Option FilterReturn
by_ether_type fuel s m d len type =
    if type == 0x0806
    then some arp
    else if s.inet6 && (not s.on_freebsd || s.with_kni) && type == ipv6
    then protocol_filter_ip fuel s m d len type
    else if s.with_kni && s.enable_kni && type == ipv4
    then protocol_filter_ip fuel s m d len type
    else some unknown

unfoldable pub protocol_filter : ℕ → Settings → Memory → (data_at len : ℕ) → Option FilterReturn
protocol_filter fuel s m d len =
    let len1 = (len + 2 ^ 16 - 14) % 2 ^ 16 in
    let len2 = (len1 + 2 ^ 16 - 4) % 2 ^ 16 in
    if ltb len 6
    then some unknown
    else if be16 m (d + 12) == 0x8100
    then by_ether_type fuel s m (d + 18) len2 (be16 m (d + 16))
    else by_ether_type fuel s m (d + 14) len1 (be16 m (d + 12))
