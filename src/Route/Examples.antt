-- ===== src/Route/Examples.antt =====
-- The theorems on routing messages of bsd/lib/lazybsd_route.c at work, and runs of the functions.
use lazybsd.Prelude.{
  ℕ, ◌+◌, ◌*◌, ◌/◌, ◌≤◌, ◌<◌, ◌≡◌, refl, ◌⊎◌, inl, inr, true, false, not, none, some, if◌then◌else◌,
  ltb, ◌==◌, arith, is_some,
}
use lazybsd.Sock.Address.{Memory}
use lazybsd.Route.{Kernel, IsKernel, Info}
use lazybsd.Route.Xaddrs.{rt_xaddrs}
use lazybsd.Route.Xaddrs.Placed.{Placed, rt_xaddrs-Placed}
use lazybsd.Route.Buffer.{Headers, Walkarg, header_size, rtsock_msg_buffer}
use lazybsd.Route.Buffer.Sizes.{Apart, rtsock_msg_buffer-measures}
use lazybsd.Route.Buffer.Reads.{AreSources, IsCopy}
use lazybsd.Route.Buffer.Trip.{rt_xaddrs-rtsock_msg_buffer}

abbrev kernel : Kernel
kernel = record {
  rtax_max = 8;
  with_inet6 = false;
  af_inet = 2;
  af_inet6 = 28;
  af_link = 18;
  sa_zero = 9000;
  sa_size = λ len. if len == 0 then 8 else (len + 7) / 8 * 8;
  align = λ n. (n + 7) / 8 * 8;
  embedscope = λ m p. m;
  recovered = λ m p. none;
}

kernel-IsKernel : IsKernel kernel
kernel-IsKernel = record {
  size = λ len. (ground arith, ground arith);
  aligned = λ n. omega arith;
  embeds = λ m p x lt. refl;
}

abbrev headers : Headers
headers = record {
  rtm_version = 5;
  rtm_deladdr = 13;
  rtm_newaddr = 12;
  rtm_ifinfo = 14;
  rtm_newmaddr = 15;
  net_rt_iflistl = 5;
  ifa_msghdrl_size = 176;
  ifa_msghdr_size = 20;
  if_msghdrl_size = 176;
  if_msghdr_size = 168;
  ifma_msghdr_size = 16;
  rt_msghdr_size = 152;
}

-- Two addresses of 16 bytes, at 100 and 200
abbrev memory : Memory
memory x =
    if x == 100
    then 16
    else if x == 101
    then 2
    else if x == 104
    then 10
    else if x == 200
    then 16
    else if x == 201
    then 2
    else 0

abbrev info : Info
info j = if j == 0 then some 100 else if j == 2 then some 200 else none

abbrev buffer : Walkarg
buffer = record { w_tmem = 1000; w_tmemsize = 184; w_op = 0 }

measured : (rtsock_msg_buffer kernel headers 4 info none memory).plen ≡ 184
unfolding rtsock_msg_buffer
measured = refl

too_small :
    (rtsock_msg_buffer kernel headers 4 info
      (some (record buffer { w_tmemsize = 183 }))
      memory).enobufs
    ≡ true
unfolding rtsock_msg_buffer
too_small = refl

written : (rtsock_msg_buffer kernel headers 4 info (some buffer) memory).enobufs ≡ false
unfolding rtsock_msg_buffer
written = refl

info_cases : (j p : ℕ) → info j ≡ some p → (p ≡ 100) ⊎ (p ≡ 200)
info_cases j p e = ground arith

info-Apart : Apart 1000 (1000 + 184) info
info-Apart j p e = elim (info_cases j p e) [
  | inl a ↦ inl (omega (arith, a))
  | inr b ↦ inl (omega (arith, b))
]

info-AreSources : AreSources kernel info 1000 (1000 + 184) memory
info-AreSources = record {
  length =
      λ j p e. elim (info_cases j p e) [ inl a ↦ rw a (omega arith) | inr b ↦ rw b (omega arith) ];
  family = λ j p e. elim (info_cases j p e) [
    | inl a ↦ rw a (λ f. absurd (omega (arith, f)))
    | inr b ↦ rw b (λ f. absurd (omega (arith, f)))
  ];
  apart = λ j p e. elim (info_cases j p e) [
    | inl a ↦ rw a (inl (omega arith))
    | inr b ↦ rw b (inl (omega arith))
  ];
}

rt_xaddrs-Placed_example :
    Placed kernel 0 100 116
      (λ j. j == 0)
      memory
      (λ j. none)
      (rt_xaddrs kernel 100 116 (λ j. j == 0) memory (λ j. none))
rt_xaddrs-Placed_example = rt_xaddrs-Placed kernel 100 116 (λ j. j == 0) memory kernel-IsKernel

rtsock_msg_buffer-measures_example :
    let a = rtsock_msg_buffer kernel headers 4 info none memory in
    let b = rtsock_msg_buffer kernel headers 4 info (some buffer) memory in
    (a.enobufs ≡ false)
    × (a.memory ≡ memory)
    × (b.plen ≡ a.plen)
    × (b.addrs ≡ a.addrs)
    × (b.enobufs ≡ ltb 184 a.plen)
    × (is_some b.header ≡ not b.enobufs)
    × ((x : ℕ) → (x < 1000) ⊎ (1000 + 184 ≤ x) → b.memory x ≡ memory x)
unfolding header_size
rtsock_msg_buffer-measures_example =
    rtsock_msg_buffer-measures kernel headers 4 info buffer memory kernel-IsKernel refl info-Apart

rt_xaddrs-rtsock_msg_buffer_example :
    let t = rtsock_msg_buffer kernel headers 4 info (some buffer) memory in
    let r =
      rt_xaddrs kernel
        (1000 + header_size headers 4 (some buffer))
        (1000 + t.plen)
        t.addrs
        t.memory
        (λ j. none) in
    (r.ok ≡ true)
    × (r.memory ≡ t.memory)
    × ((j : ℕ) → j < 8 → IsCopy kernel memory t.memory (info j) (r.info j))
rt_xaddrs-rtsock_msg_buffer_example =
    rt_xaddrs-rtsock_msg_buffer kernel headers 4 info buffer memory kernel-IsKernel info-AreSources
      written
