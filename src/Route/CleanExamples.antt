-- ===== src/Route/CleanExamples.antt =====
-- The theorems on `cleanup_xaddrs` of bsd/lib/lazybsd_route.c at work, and runs of it.
use lazybsd.Prelude.{
  ℕ, ◌≡◌, refl, ◌⊎◌, inl, inr, true, false, none, some, if◌then◌else◌, ◌==◌, arith,
}
use lazybsd.Sock.Address.{Memory}
use lazybsd.Route.{Kernel, Info}
use lazybsd.Route.Clean.{Places, AddrInfo, einval, cleanup_xaddrs}
use lazybsd.Route.Clean.Writes.{IsOutside, AreDisjoint}
use lazybsd.Route.Clean.Wrote.{AreDistinct}
use lazybsd.Route.Clean.Effects.{
  IsStandard, kept_mask, cleanup_xaddrs-same, cleanup_xaddrs-destination,
}

abbrev kernel : Kernel
kernel = record {
  rtax_max = 8;
  with_inet6 = true;
  af_inet = 2;
  af_inet6 = 28;
  af_link = 18;
  sa_zero = 9000;
  sa_size = λ len. if len == 0 then 8 else len;
  align = λ n. n;
  embedscope = λ m p. m;
  recovered = λ m p. none;
}

abbrev places : Places
places = record {
  rtax_dst = 0;
  rtax_gateway = 1;
  rtax_netmask = 2;
  rtf_host = 2;
  rtf_lldata = 10;
  dl_short_size = 8;
}

places-AreDistinct : AreDistinct places
places-AreDistinct = record {
  dst_gateway = λ e. ground arith;
  dst_netmask = λ e. ground arith;
  gateway_netmask = λ e. ground arith;
}

-- 10.1.2.3 at 100 with something behind the address, and the netmask 255.255.255.0 at 200
abbrev memory : Memory
memory x =
    if x == 100
    then 16
    else if x == 101
    then 2
    else if x == 104
    then 10
    else if x == 105
    then 1
    else if x == 106
    then 2
    else if x == 107
    then 3
    else if x == 110
    then 77
    else if x == 200
    then 16
    else if x == 201
    then 2
    else if x == 204
    then 255
    else if x == 205
    then 255
    else if x == 206
    then 255
    else 0

abbrev rti_info : Info
rti_info j = if j == 0 then some 100 else if j == 2 then some 200 else none

abbrev message : AddrInfo
message = record {
  memory = memory;
  rti_info = rti_info;
  rti_addrs = λ j. true;
  rti_flags = λ j. false;
}

-- The last byte of the address is masked, and what stood behind it is cleared.
masked_address : (cleanup_xaddrs kernel places message).1.memory 107 ≡ 0
unfolding cleanup_xaddrs
masked_address = refl

cleared_behind : (cleanup_xaddrs kernel places message).1.memory 110 ≡ 0
unfolding cleanup_xaddrs
cleared_behind = refl

accepted_message : (cleanup_xaddrs kernel places message).0 ≡ none
unfolding cleanup_xaddrs
accepted_message = refl

refused :
    (cleanup_xaddrs kernel places
      (record message { memory = λ x. if x == 100 then 8 else memory x })).0
    ≡ some einval
unfolding cleanup_xaddrs
refused = refl

info_cases : (j p : ℕ) → rti_info j ≡ some p → ((j ≡ 0) × (p ≡ 100)) ⊎ ((j ≡ 2) × (p ≡ 200))
info_cases j p e = ground arith

message-AreDisjoint : AreDisjoint memory rti_info
message-AreDisjoint j l q r ne e f = elim (info_cases j q e) [
  | inl a ↦ elim (info_cases l r f) [
    | inl b ↦ absurd (ne (omega (arith, a.0, b.0)))
    | inr b ↦ rw (a.1, b.1) (inl (omega arith))
  ]
  | inr a ↦ elim (info_cases l r f) [
    | inl b ↦ rw (a.1, b.1) (inr (omega arith))
    | inr b ↦ absurd (ne (omega (arith, a.0, b.0)))
  ]
]

message-IsOutside : IsOutside 150 memory rti_info
message-IsOutside j q e = elim (info_cases j q e) [
  | inl a ↦ rw a.1 (inr (omega arith))
  | inr b ↦ rw b.1 (inl (omega arith))
]

cleanup_xaddrs-same_example : (cleanup_xaddrs kernel places message).1.memory 150 ≡ memory 150
cleanup_xaddrs-same_example =
    cleanup_xaddrs-same kernel places places-AreDistinct 150 message message-IsOutside
      message-AreDisjoint (λ e. inr (omega arith))

cleanup_xaddrs-destination_example :
    IsStandard kernel memory 100
      (kept_mask places message)
      (cleanup_xaddrs kernel places message).1.memory
cleanup_xaddrs-destination_example =
    cleanup_xaddrs-destination kernel places places-AreDistinct 100 message message-AreDisjoint refl
      accepted_message
