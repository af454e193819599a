-- ===== src/Veth/Interface.antt =====
-- bsd/lib/lazybsd_veth.c: configuration of the interface, its flags, and the requests to the kernel
-- for its addresses. An address is a number; a request is listed with what it carries.
use lazybsd.Prelude.{
  ℕ, Bool, true, false, Option, none, some, List, [], ◌∷◌, if◌then◌else◌, ◌==◌, ℤ, pos, negsuc,
  bit_or,
}
use lazybsd.Veth.Prefix.{prefix_mask}

-- The part of `struct lazybsd_port_cfg` that is read here; strings are given by identifiers, and NULL is `none`.
pub record PortCfg : Type 0 where
  pub mac : ℕ
  pub addr : ℕ
  pub netmask : ℕ
  pub broadcast : ℕ
  pub gateway : ℕ
  pub vip_addr_array : List ℕ
  pub vip_ifname : Option ℕ
  pub addr6_str : Option ℕ
  pub gateway6_str : Option ℕ
  pub prefix_len : ℕ
  pub vip_addr6_array : List ℕ
  pub vip_prefix_len : ℕ
  pub rx_csum : Bool
  pub tx_csum_ip : Bool
  pub tx_csum_l4 : Bool
  pub tx_tso : Bool

-- `struct lazybsd_veth_softc`, with no more virtual addresses than `VIP_MAX_NUM`; `vip` and `vip6` are the entries up to `nb_vip` and `nb_vip6`.
pub record Softc : Type 0 where
  pub mac : ℕ
  pub ip : ℕ
  pub netmask : ℕ
  pub broadcast : ℕ
  pub gateway : ℕ
  pub vip : List ℕ
  pub ip6 : ℕ
  pub gateway6 : ℕ
  pub prefix_length : ℕ
  pub vip_prefix_length : ℕ
  pub vip6 : List ℕ
  pub host_ctx : Option ℕ

-- `memset(sc, 0, ...)`
abbrev pub zero_softc : Softc
zero_softc = record {
  mac = 0;
  ip = 0;
  netmask = 0;
  broadcast = 0;
  gateway = 0;
  vip = [];
  ip6 = 0;
  gateway6 = 0;
  prefix_length = 0;
  vip_prefix_length = 0;
  vip6 = [];
  host_ctx = none;
}

-- `inet_pton` of the kernel library for one family: the address that a string stands for.
abbrev pub Pton : Type 0
Pton = ℕ → Option ℕ

-- The field that `inet_pton` fills in, which stays as it was for a string that is no address.
abbrev pub pton_or : Pton → (old s : ℕ) → ℕ
pton_or pton old s = elim (pton s) [ none ↦ old | some a ↦ a ]

-- The loop over the virtual addresses: strings that are no address are left out.
abbrev pub add_address : Option ℕ → List ℕ → List ℕ
add_address none l = l
add_address (some a) l = a ∷ l

unfoldable pub vip_loop : Pton → List ℕ → List ℕ
vip_loop pton [] = []
vip_loop pton (s ∷ ss) = add_address (pton s) (vip_loop pton ss)

abbrev pub or_64 : ℕ → ℕ
or_64 n = if n == 0 then 64 else n

-- The IPv6 part of `lazybsd_veth_config`.
abbrev pub config_addr6 : Pton → PortCfg → Option ℕ → Softc → Softc
config_addr6 pton6 cfg none sc = sc
config_addr6 pton6 cfg (some s) sc = record sc {
  ip6 = pton_or pton6 sc.ip6 s;
  gateway6 = elim cfg.gateway6_str [ none ↦ sc.gateway6 | some t ↦ pton_or pton6 sc.gateway6 t ];
  prefix_length = or_64 cfg.prefix_len;
}

abbrev pub config_vip6 : Pton → PortCfg → List ℕ → Softc → Softc
config_vip6 pton6 cfg [] sc = sc
config_vip6 pton6 cfg (s ∷ ss) sc = record sc {
  vip6 = vip_loop pton6 (s ∷ ss);
  vip_prefix_length = or_64 cfg.vip_prefix_len;
}

-- `lazybsd_veth_config`
unfoldable pub config : (pton pton6 : Pton) → PortCfg → Softc → Softc
unfolding vip_loop
config pton pton6 cfg sc = config_vip6 pton6 cfg cfg.vip_addr6_array (
    config_addr6 pton6 cfg cfg.addr6_str (record sc {
      mac = cfg.mac;
      ip = pton_or pton sc.ip cfg.addr;
      netmask = pton_or pton sc.netmask cfg.netmask;
      broadcast = pton_or pton sc.broadcast cfg.broadcast;
      gateway = pton_or pton sc.gateway cfg.gateway;
      vip = vip_loop pton cfg.vip_addr_array;
    }))

-- The calls of the kernel and of the host, with what they carry.
pub data Call : Type 0 where
  if_alloc : Call
  ether_ifattach : (mac : ℕ) → Call
  register_if : Call
  deregister_if : (ctx : Option ℕ) → Call
  add_address4 : (ifname : Option ℕ) → (addr mask broadaddr : ℕ) → Call
  add_gateway4 : (gateway : ℕ) → Call
  add_address6 : (ifname : Option ℕ) → (addr : ℕ) → (mask : List ℕ) → Call
  add_gateway6 : (gateway : ℕ) → Call
  free_softc : Call

-- `lazybsd_veth_setaddr`; the interface's own name is `none`.
unfoldable pub setaddr : Softc → Call
setaddr sc = add_address4 none sc.ip sc.netmask sc.broadcast

-- `lazybsd_veth_set_gateway`
unfoldable pub set_gateway : Softc → Call
set_gateway sc = add_gateway4 sc.gateway

-- `lazybsd_veth_setaddr6`
unfoldable pub setaddr6 : Softc → Call
unfolding prefix_mask
setaddr6 sc = add_address6 none sc.ip6 (prefix_mask sc.prefix_length)

-- `lazybsd_veth_set_gateway6`
unfoldable pub set_gateway6 : Softc → Call
set_gateway6 sc = add_gateway6 sc.gateway6

-- The loop of both functions for virtual addresses: it ends at the first negative result of `ifioctl`.
abbrev pub is_negative_int : ℤ → Bool
is_negative_int (pos n) = false
is_negative_int (negsuc n) = true

unfoldable pub vaddr_loop : (ifioctl : Call → ℤ) → (request : ℕ → Call) → List ℕ → List Call
vaddr_loop ifioctl request [] = []
vaddr_loop ifioctl request (a ∷ rest) =
    let on = vaddr_loop ifioctl request rest in
    request a ∷ (if is_negative_int (ifioctl (request a)) then [] else on)

-- `lazybsd_veth_setvaddr`: the mask of one host, and the broadcast address x.x.x.255 in the order of the network.
unfoldable pub setvaddr : (ifioctl : Call → ℤ) → Softc → PortCfg → List Call
unfolding vaddr_loop
setvaddr ifioctl sc cfg =
    vaddr_loop ifioctl (λ a. add_address4 cfg.vip_ifname a 4294967295 (bit_or a 4278190080)) sc.vip

-- `lazybsd_veth_setvaddr6`, which takes the prefix of the interface's own address
unfoldable pub setvaddr6 : (ifioctl : Call → ℤ) → Softc → PortCfg → List Call
unfolding vaddr_loop prefix_mask
setvaddr6 ifioctl sc cfg =
    vaddr_loop ifioctl (λ a. add_address6 cfg.vip_ifname a (prefix_mask sc.prefix_length)) sc.vip6
