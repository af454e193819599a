-- ===== src/Veth/Examples.antt =====
-- Tests of the model of bsd/lib/lazybsd_veth.c, and instances of its theorems.
use lazybsd.Prelude.{
  ℕ, ◌+◌, ◌≤◌, ◌<◌, ◌≡◌, ◌≢◌, refl, true, false, Option, none, some, List, [], ◌∷◌, replicate,
  arith, pos, if◌then◌else◌, ◌==◌,
}
use mathlib.Core.Option.{some-injective}
use lazybsd.Veth.Zc.{Mbuf, ZcMbuf, spaces}
use lazybsd.Veth.Appends.{AllEmpty}
use lazybsd.Veth.Writes.{GetM2}
use lazybsd.Veth.Packet.{Packet}
use lazybsd.Veth.Received.{Segment, received, walk, all_seen, walk-received}
use lazybsd.Veth.Prefix.{prefix_mask}
use lazybsd.Veth.Interface.{PortCfg}
use lazybsd.Veth.Attach.{Ifnet, Kernel}

-- An allocator that gives one mbuf of the size asked for.
abbrev one_mbuf : ℕ → Mbuf
one_mbuf n = record { held = []; space = n }

one_mbuf_room :
    (n : ℕ) (chain : List Mbuf)
    → some (one_mbuf n ∷ []) ≡ some chain
    → AllEmpty chain × (n ≤ spaces chain)
one_mbuf_room n chain h = rw (← some-injective (one_mbuf n ∷ []) chain h) ((refl, tt), omega arith)

abbrev allocator : GetM2
allocator = record { m_getm2 = λ n. some (one_mbuf n ∷ []); m_getm2_room = one_mbuf_room }

abbrev five : ZcMbuf
five = record { before = []; ahead = one_mbuf 5 ∷ []; off = 0; len = 5 }

abbrev chunks : List (List ℕ)
chunks = (1 ∷ 2 ∷ []) ∷ (3 ∷ []) ∷ []

abbrev blank : Packet
blank = record {
  m_data = 0;
  m_len = 0;
  m_next = none;
  m_ext = false;
  disposable = false;
  frees_dpdk = false;
  ext_arg1 = none;
  pkt_len = 0;
  rcvif = none;
  csum_flags = 0;
  csum_data = 0;
  ether_vtag = 0;
  vlantag = false;
}

abbrev segment : (a : ℕ) → Segment
segment a = record { address = a; pkt = 100 + a; bytes = 1000 + a; len = 60 }

abbrev more_segments : List Segment
more_segments = segment 2 ∷ segment 3 ∷ []

apart : (a b : ℕ) → a < b → a ≢ b
apart a b h e = omega arith

walk-received_example :
    walk 9 (received 15 180 true (segment 1) more_segments (λ a. blank)) (some 1)
    ≡ all_seen (segment 1 ∷ more_segments)
walk-received_example =
    walk-received 15 180 true (segment 1) more_segments (λ a. blank) 8 (omega arith)
      (
        (apart 1 2 (omega arith), (apart 1 3 (omega arith), tt)),
        ((apart 2 3 (omega arith), tt), (tt, tt)),
      )

-- A mask of 20 bits.
prefix_mask_20 : prefix_mask 20 ≡ 255 ∷ 255 ∷ 240 ∷ replicate 13 0
unfolding prefix_mask
prefix_mask_20 = refl

abbrev cfg : PortCfg
cfg = record {
  mac = 77;
  addr = 1;
  netmask = 2;
  broadcast = 3;
  gateway = 4;
  vip_addr_array = 9 ∷ 5 ∷ [];
  vip_ifname = none;
  addr6_str = some 6;
  gateway6_str = none;
  prefix_len = 0;
  vip_addr6_array = [];
  vip_prefix_len = 0;
  rx_csum = true;
  tx_csum_ip = true;
  tx_csum_l4 = false;
  tx_tso = false;
}

abbrev fresh_ifnet : Ifnet
fresh_ifnet = record {
  up = false;
  running = false;
  oactive = false;
  cap_rxcsum = false;
  cap_txcsum = false;
  cap_tso = false;
  enabled = (false, (false, false));
  assist_ip = false;
  assist_delay_data = false;
  assist_tso = false;
}

-- A kernel whose requests fail with the error number 22.
abbrev kernel : Option ℕ → Kernel
kernel ctx = record { ifioctl = λ c. pos 22; new_ifnet = fresh_ifnet; register = ctx }

-- Every string but 9 is an address.
abbrev pton : ℕ → Option ℕ
pton s = if s == 9 then none else some (s + 200)
