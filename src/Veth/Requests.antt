-- ===== src/Veth/Requests.antt =====
-- The requests that `lazybsd_veth_attach` of bsd/lib/lazybsd_veth.c makes for the addresses of the
-- configuration.
use lazybsd.Prelude.{
  ℕ, ◌≡◌, refl, sym, ap, ◌∙◌, true, false, not, Option, none, some, List, [], ◌∷◌, ℤ, bit_or,
}
use lazybsd.Veth.Interface.{
  PortCfg, Softc, zero_softc, Pton, add_address, vip_loop, config, config_addr6, config_vip6, Call,
  if_alloc, ether_ifattach, register_if, free_softc, add_address4, setaddr, set_gateway,
  is_negative_int, vaddr_loop, setvaddr,
}
use lazybsd.Veth.Attach.{
  Kernel, when, no_entries, address_calls, made_calls, registered, setup_interface, attach_result,
  attach,
}
use mathlib.Core.List.{Memᴰ}
use mathlib.Core.List.Memᴰ
use mathlib.Core.Path.{subst}

-- Every result of the kernel is an error number or 0.
abbrev pub NonNegative : (Call → ℤ) → Type 0
NonNegative ioctl = (c : Call) → is_negative_int (ioctl c) ≡ false

kept : {a : ℕ} {l : List ℕ} (o : Option ℕ) → Memᴰ a l → Memᴰ a (add_address o l)
kept none h = h
kept (some b) h = Memᴰ.tail h

-- A string that stands for an address gives an entry.
vip_loop-Mem :
    (pton : Pton) (s a : ℕ) (ss : List ℕ) → pton s ≡ some a → Memᴰ s ss → Memᴰ a (vip_loop pton ss)
unfolding vip_loop
vip_loop-Mem pton s a [] h k = absurd (Memᴰ.not-nil k)
vip_loop-Mem pton s a (t ∷ ss) h (Memᴰ.head e) = rw (ap pton (sym e) ∙ h) (Memᴰ.head refl)
vip_loop-Mem pton s a (t ∷ ss) h (Memᴰ.tail k) = kept (pton t) (vip_loop-Mem pton s a ss h k)

vaddr_loop-Mem :
    (ioctl : Call → ℤ) (request : ℕ → Call) (a : ℕ) (l : List ℕ)
    → NonNegative ioctl
    → Memᴰ a l
    → Memᴰ (request a) (vaddr_loop ioctl request l)
unfolding vaddr_loop
vaddr_loop-Mem ioctl request a [] n h = absurd (Memᴰ.not-nil h)
vaddr_loop-Mem ioctl request a (x ∷ l) n (Memᴰ.head e) = Memᴰ.head (ap request e)
vaddr_loop-Mem ioctl request a (x ∷ l) n (Memᴰ.tail h) =
    Memᴰ.tail (rw (n (request x)) (vaddr_loop-Mem ioctl request a l n h))

vip-config_addr6 :
    (pton6 : Pton) (cfg : PortCfg) (o : Option ℕ) (sc : Softc)
    → (config_addr6 pton6 cfg o sc).vip ≡ sc.vip
vip-config_addr6 pton6 cfg none sc = refl
vip-config_addr6 pton6 cfg (some s) sc = refl

vip-config_vip6 :
    (pton6 : Pton) (cfg : PortCfg) (l : List ℕ) (sc : Softc)
    → (config_vip6 pton6 cfg l sc).vip ≡ sc.vip
vip-config_vip6 pton6 cfg [] sc = refl
vip-config_vip6 pton6 cfg (s ∷ ss) sc = refl

-- The virtual addresses of the configuration are in the interface's state.
vip-config :
    (pton pton6 : Pton) (cfg : PortCfg)
    → (config pton pton6 cfg zero_softc).vip ≡ vip_loop pton cfg.vip_addr_array
unfolding config
vip-config pton pton6 cfg =
    vip-config_vip6 pton6 cfg cfg.vip_addr6_array _ ∙ vip-config_addr6 pton6 cfg cfg.addr6_str _

mac-config_addr6 :
    (pton6 : Pton) (cfg : PortCfg) (o : Option ℕ) (sc : Softc)
    → (config_addr6 pton6 cfg o sc).mac ≡ sc.mac
mac-config_addr6 pton6 cfg none sc = refl
mac-config_addr6 pton6 cfg (some s) sc = refl

mac-config_vip6 :
    (pton6 : Pton) (cfg : PortCfg) (l : List ℕ) (sc : Softc)
    → (config_vip6 pton6 cfg l sc).mac ≡ sc.mac
mac-config_vip6 pton6 cfg [] sc = refl
mac-config_vip6 pton6 cfg (s ∷ ss) sc = refl

mac-config : (pton pton6 : Pton) (cfg : PortCfg) → (config pton pton6 cfg zero_softc).mac ≡ cfg.mac
unfolding config
mac-config pton pton6 cfg =
    mac-config_vip6 pton6 cfg cfg.vip_addr6_array _ ∙ mac-config_addr6 pton6 cfg cfg.addr6_str _

-- The request for a virtual address.
abbrev pub vip_request : PortCfg → ℕ → Call
vip_request cfg a = add_address4 cfg.vip_ifname a 4294967295 (bit_or a 4278190080)

module _ (k : Kernel) (n : NonNegative k.ifioctl) (cfg : PortCfg) where
  vip_requests :
      (sc : Softc) (a : ℕ) (l : List ℕ)
      → sc.vip ≡ l
      → Memᴰ a l
      → Memᴰ (vip_request cfg a) (when (not (no_entries l)) (setvaddr k.ifioctl sc cfg))
  unfolding setvaddr
  vip_requests sc a (x ∷ l) e h = rw e (vaddr_loop-Mem k.ifioctl (vip_request cfg) a (x ∷ l) n h)
  vip_requests sc a [] e h = absurd (Memᴰ.not-nil h)

  address_calls-Mem :
      (sc : Softc) (a : ℕ) → Memᴰ a sc.vip → Memᴰ (vip_request cfg a) (address_calls k sc cfg)
  unfolding address_calls
  address_calls-Mem sc a h = Memᴰ.append_left _ (
      Memᴰ.append_left _
        (Memᴰ.append_right (setaddr sc ∷ set_gateway sc ∷ []) (vip_requests sc a sc.vip refl h)))

  -- If the DPDK port can be registered and the results of the kernel are error numbers, attaching the
  -- interface asks for every virtual address of the configuration that is written as an address, whatever
  -- becomes of the other requests, and gives the port's context.
  pub attach-vip_request :
      (pton pton6 : Pton) (ctx s a : ℕ)
      → k.register ≡ some ctx
      → Memᴰ s cfg.vip_addr_array
      → pton s ≡ some a
      → let r = attach pton pton6 k true cfg in (r.1 ≡ some ctx) × Memᴰ (vip_request cfg a) r.0
  unfolding attach setup_interface registered
  attach-vip_request pton pton6 ctx s a h m p =
      let sc = config pton pton6 cfg zero_softc in
      let sc' = record sc { host_ctx = some ctx } in
      let entry = vip_loop-Mem pton s a cfg.vip_addr_array p m in
      let wanted = λ (o : Option ℕ).
        let a' = registered k sc cfg o in
        let r = attach_result a' a'.result in (r.1 ≡ some ctx) × Memᴰ (vip_request cfg a) r.0 in
      subst wanted (sym h) (
        refl,
        Memᴰ.append_right (made_calls sc)
            (address_calls-Mem sc' a (subst (Memᴰ a) (sym (vip-config pton pton6 cfg)) entry)),
      )

-- If the DPDK port cannot be registered, attaching the interface gives NULL and frees the state once; the kernel's
-- interface that was made stays.
pub attach_fails :
    (pton pton6 : Pton) (k : Kernel) (cfg : PortCfg)
    → k.register ≡ none
    → attach pton pton6 k true cfg
      ≡ (if_alloc ∷ ether_ifattach cfg.mac ∷ register_if ∷ free_softc ∷ [], none)
unfolding attach setup_interface registered
attach_fails pton pton6 k cfg h =
    let sc = config pton pton6 cfg zero_softc in
    let after = λ (o : Option ℕ). let a = registered k sc cfg o in attach_result a a.result in
    let calls = λ (mac : ℕ). if_alloc ∷ ether_ifattach mac ∷ register_if ∷ free_softc ∷ [] in
    ap after h ∙ ap (λ mac. (calls mac, none)) (mac-config pton pton6 cfg)
