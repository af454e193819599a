-- ===== src/Veth/Attach.antt =====
-- bsd/lib/lazybsd_veth.c: the interface's flags, and how it is attached and detached.
use lazybsd.Prelude.{
  ℕ, Bool, true, false, not, ◌||◌, Option, none, some, List, [], ◌∷◌, ◌++◌, if◌then◌else◌, ◌==◌, ℤ,
  is_some,
}
use lazybsd.Veth.Interface.{
  PortCfg, Softc, zero_softc, Pton, config, Call, if_alloc, ether_ifattach, register_if,
  deregister_if, free_softc, setaddr, set_gateway, setaddr6, set_gateway6, setvaddr, setvaddr6,
}

-- The fields of `struct ifnet` that are used here, flag by flag.
pub record Ifnet : Type 0 where
  pub up : Bool
  pub running : Bool
  pub oactive : Bool
  pub cap_rxcsum : Bool
  pub cap_txcsum : Bool
  pub cap_tso : Bool
  pub enabled : Bool × (Bool × Bool)
  pub assist_ip : Bool
  pub assist_delay_data : Bool
  pub assist_tso : Bool

-- `lazybsd_veth_init`
unfoldable pub veth_init : Ifnet → Ifnet
veth_init ifp = record ifp { running = true; oactive = false }

-- `lazybsd_veth_stop`
unfoldable pub veth_stop : Ifnet → Ifnet
veth_stop ifp = record ifp { running = false; oactive = false }

-- `lazybsd_veth_ioctl`: the request is `SIOCSIFFLAGS` or one that `ether_ioctl` of the kernel handles.
unfoldable pub veth_ioctl :
    (ether_ioctl : ℕ → Ifnet → Ifnet × ℕ) → (siocsifflags cmd : ℕ) → Ifnet → Ifnet × ℕ
unfolding veth_init veth_stop
veth_ioctl ether_ioctl siocsifflags cmd ifp =
    if cmd == siocsifflags
    then (if ifp.up then veth_init ifp else if ifp.running then veth_stop ifp else ifp, 0)
    else ether_ioctl cmd ifp

-- The capabilities that `lazybsd_veth_setup_interface` takes from the hardware; all are enabled.
unfoldable pub set_capabilities : PortCfg → Ifnet → Ifnet
set_capabilities cfg ifp =
    let rx = ifp.cap_rxcsum || cfg.rx_csum in
    let tx = ifp.cap_txcsum || cfg.tx_csum_ip in
    let tso = ifp.cap_tso || cfg.tx_tso in
    record ifp {
      cap_rxcsum = rx;
      cap_txcsum = tx;
      cap_tso = tso;
      enabled = (rx, (tx, tso));
      assist_ip = ifp.assist_ip || cfg.tx_csum_ip;
      assist_delay_data = ifp.assist_delay_data || cfg.tx_csum_l4;
      assist_tso = ifp.assist_tso || cfg.tx_tso;
    }

-- The kernel and the host: the result of each request, the interface that `if_alloc` and `ether_ifattach` make, and the
-- context that `lazybsd_dpdk_register_if` gives.
pub record Kernel : Type 0 where
  pub ifioctl : Call → ℤ
  pub new_ifnet : Ifnet
  pub register : Option ℕ

abbrev pub when : Bool → List Call → List Call
when true calls = calls
when false calls = []

abbrev pub no_entries : List ℕ → Bool
no_entries [] = true
no_entries (x ∷ xs) = false

-- The addresses that `lazybsd_veth_setup_interface` sets, whatever the results.
unfoldable pub address_calls : Kernel → Softc → PortCfg → List Call
unfolding setaddr set_gateway setaddr6 set_gateway6 setvaddr setvaddr6
address_calls k sc cfg =
    (setaddr sc ∷ set_gateway sc ∷ [])
    ++ when (not (no_entries sc.vip)) (setvaddr k.ifioctl sc cfg)
    ++ when (is_some cfg.addr6_str)
        (setaddr6 sc ∷ when (is_some cfg.gateway6_str) (set_gateway6 sc ∷ []))
    ++ when (not (no_entries sc.vip6)) (setvaddr6 k.ifioctl sc cfg)

-- The state behind `lazybsd_veth_setup_interface` or `lazybsd_veth_attach`: the calls so far, and what was made.
pub record Attached : Type 0 where
  pub calls : List Call
  pub softc : Softc
  pub ifnet : Ifnet
  pub result : Option ℕ

-- `lazybsd_veth_setup_interface` from the registration on.
abbrev pub made_calls : Softc → List Call
made_calls sc = if_alloc ∷ ether_ifattach sc.mac ∷ register_if ∷ []

unfoldable pub registered : Kernel → Softc → PortCfg → Option ℕ → Attached
unfolding set_capabilities address_calls
registered k sc cfg none = record {
  calls = made_calls sc;
  softc = record sc { host_ctx = none };
  ifnet = set_capabilities cfg k.new_ifnet;
  result = none;
}
registered k sc cfg (some ctx) =
    let sc' = record sc { host_ctx = some ctx } in
    record {
      calls = made_calls sc ++ address_calls k sc' cfg;
      softc = sc';
      ifnet = set_capabilities cfg k.new_ifnet;
      result = some ctx;
    }

-- `lazybsd_veth_setup_interface`; the result is the context, and `none` stands for -1.
unfoldable pub setup_interface : Kernel → Softc → PortCfg → Attached
unfolding registered
setup_interface k sc cfg = registered k sc cfg k.register

-- The label `fail` of `lazybsd_veth_attach`.
abbrev pub fail_calls : Softc → List Call
fail_calls sc = elim sc.host_ctx [
  | none ↦ free_softc ∷ []
  | some ctx ↦ deregister_if (some ctx) ∷ free_softc ∷ []
]

abbrev pub attach_result : Attached → Option ℕ → List Call × Option ℕ
attach_result a none = (a.calls ++ fail_calls a.softc, none)
attach_result a (some ctx) = (a.calls, some ctx)

-- `lazybsd_veth_attach`; `allocated` tells whether `malloc` gave memory.
unfoldable pub attach :
    (pton pton6 : Pton) → Kernel → (allocated : Bool) → PortCfg → List Call × Option ℕ
unfolding config setup_interface
attach pton pton6 k allocated cfg =
    let a = setup_interface k (config pton pton6 cfg zero_softc) cfg in
    if allocated then attach_result a a.result else ([], none)

-- `lazybsd_veth_detach`
unfoldable pub detach : Option Softc → List Call
detach none = []
detach (some sc) = deregister_if sc.host_ctx ∷ free_softc ∷ []

-- `lazybsd_veth_softc_to_hostc`
unfoldable pub softc_to_hostc : Softc → Option ℕ
softc_to_hostc sc = sc.host_ctx
