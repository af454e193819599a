-- ===== src/Driver/Filter/Within.antt =====
-- The result of `protocol_filter_ip` of src/lazybsd_dpdk.cc does not depend on bytes outside the packet.
use lazybsd.Prelude.{
  ℕ, zero, suc, ◌+◌, ◌-◌, ◌*◌, ◌%◌, ◌≤◌, ◌<◌, ◌≡◌, inl, inr, refl, some, ltb, ◌==◌, arith,
  Bool-cases, Option-cases,
}
use lazybsd.Driver.Filter.{
  Settings, Memory, ext_hdr_len, get_ipv6_hdr_len, Round, done, inner, round, by_proto,
  behind_header, protocol_filter_ip, ipv4, protocol_filter_tcp, protocol_filter_udp,
  protocol_filter_icmp6,
}

-- Two memories with the same packet.
abbrev pub Agree : Memory → Memory → (d len : ℕ) → Type 0
Agree m n d len = (x : ℕ) → x < len → m (d + x) ≡ n (d + x)

Agree-part : (m n : Memory) (d len k : ℕ) → Agree m n d len → Agree m n (d + k) (len - k)
Agree-part m n d len k h x lt =
    let e : d + k + x ≡ d + (k + x) = omega arith in rw e (h (k + x) (omega arith))

-- A header of which there is a byte at most is not read.
get_ipv6_hdr_len_short :
    (fuel : ℕ) (m n : Memory) (p d len : ℕ)
    → len < 2
    → get_ipv6_hdr_len (suc fuel) m p d len ≡ get_ipv6_hdr_len (suc fuel) n p d len
unfolding get_ipv6_hdr_len
get_ipv6_hdr_len_short fuel m n p d len h = ground arith

get_ipv6_hdr_len-Agree :
    (fuel : ℕ) (m n : Memory) (p d len : ℕ)
    → Agree m n d len
    → get_ipv6_hdr_len fuel m p d len ≡ get_ipv6_hdr_len fuel n p d len
unfolding get_ipv6_hdr_len
get_ipv6_hdr_len-Agree zero m n p d len h = refl
get_ipv6_hdr_len-Agree (suc fuel) m n p d len h = elim (Bool-cases (ltb len 2)) [
  | inl short ↦ let less : len < 2 = ground arith in get_ipv6_hdr_len_short fuel m n p d len less
  | inr long ↦
      let two : 2 ≤ len = ground arith in
      let d0 : d + 0 ≡ d = omega arith in
      let first : m d ≡ n d = rw d0 at (h 0 (omega arith)) in
      let second : m (d + 1) ≡ n (d + 1) = h 1 (omega arith) in
      elim (Option-cases (ext_hdr_len n p d)) [
        | inl stop ↦ ground arith
        | inr (ext, e) ↦
            let ih =
              get_ipv6_hdr_len-Agree fuel m n (n d) (d + ext) (len - ext)
                (Agree-part m n d len ext h) in
            ground arith
      ]
]

-- The header fields that are read, each in a packet that is long enough.
by_proto-Agree :
    (s : Settings) (m n : Memory) (proto d len : ℕ)
    → Agree m n d len
    → by_proto s m proto d len ≡ by_proto s n proto d len
unfolding protocol_filter_tcp protocol_filter_udp protocol_filter_icmp6
by_proto-Agree s m n proto d len h = elim (Bool-cases (ltb len 8)) [
  | inl short ↦ let less : len < 8 = ground arith in ground arith
  | inr long ↦
      let eight : 8 ≤ len = ground arith in
      let d0 : d + 0 ≡ d = omega arith in
      let d3 : d + 2 + 1 ≡ d + 3 = omega arith in
      let first : m d ≡ n d = rw d0 at (h 0 (omega arith)) in
      let third : m (d + 2) ≡ n (d + 2) = h 2 (omega arith) in
      let fourth : m (d + 2 + 1) ≡ n (d + 2 + 1) = rw d3 (h 3 (omega arith)) in
      rw first (rw third (rw fourth refl))
]

behind_header-Agree :
    (s : Settings) (m n : Memory) (d len proto hdr_len : ℕ)
    → Agree m n d len
    → behind_header s m d len proto hdr_len ≡ behind_header s n d len proto hdr_len
behind_header-Agree s m n d len proto hdr_len h =
    rw (by_proto-Agree s m n proto (d + hdr_len) (len - hdr_len) (Agree-part m n d len hdr_len h))
      refl

round-Agree :
    (s : Settings) (m n : Memory) (d len type : ℕ)
    → Agree m n d len
    → round s m d len type ≡ round s n d len type
round-Agree s m n d len type h = elim (Bool-cases (ltb len 20)) [
  | inl short ↦ let less : len < 20 = ground arith in ground arith
  | inr long ↦
      let twenty : 20 ≤ len = ground arith in
      let d0 : d + 0 ≡ d = omega arith in
      let first : m d ≡ n d = rw d0 at (h 0 (omega arith)) in
      let seventh : m (d + 6) ≡ n (d + 6) = h 6 (omega arith) in
      let tenth : m (d + 9) ≡ n (d + 9) = h 9 (omega arith) in
      let ext =
        get_ipv6_hdr_len-Agree (suc len) m n (n (d + 6)) (d + 40) (len - 40)
          (Agree-part m n d len 40 h) in
      let v4 = behind_header-Agree s m n d len (n (d + 9)) (n d % 16 * 4) h in
      elim (Option-cases (get_ipv6_hdr_len (suc len) n (n (d + 6)) (d + 40) (len - 40))) [
        | inl out ↦ ground arith
        | inr ((q, e), found) ↦
            let v6 = behind_header-Agree s m n d len q (40 + e) h in ground arith
      ]
]

-- A packet in the packet starts behind a header.
behind_header-inner :
    (s : Settings) (m : Memory) (d len proto hdr_len d' len' type' : ℕ)
    → behind_header s m d len proto hdr_len ≡ inner d' len' type'
    → (d' ≡ d + hdr_len) × (len' ≡ len - hdr_len)
behind_header-inner s m d len proto hdr_len d' len' type' h = ground arith

round-inner :
    (s : Settings) (m : Memory) (d len type d' len' type' : ℕ)
    → round s m d len type ≡ some (inner d' len' type')
    → (k : ℕ) × (d' ≡ d + k) × (len' ≡ len - k)
round-inner s m d len type d' len' type' h = elim (Bool-cases (type == ipv4)) [
  | inl four ↦
      let e : behind_header s m d len (m (d + 9)) (m d % 16 * 4) ≡ inner d' len' type' =
        ground arith in
      let x = behind_header-inner s m d len (m (d + 9)) (m d % 16 * 4) d' len' type' e in
      (m d % 16 * 4, x.0, x.1)
  | inr other ↦ elim (Option-cases (get_ipv6_hdr_len (suc len) m (m (d + 6)) (d + 40) (len - 40))) [
    | inl out ↦ absurd (ground arith)
    | inr ((q, ext), found) ↦
        let e : behind_header s m d len q (40 + ext) ≡ inner d' len' type' = ground arith in
        let x = behind_header-inner s m d len q (40 + ext) d' len' type' e in (40 + ext, x.0, x.1)
  ]
]

round_then :
    (s : Settings) (m n : Memory) (fuel : ℕ) (d len type : ℕ) (r : Round)
    → round s n d len type ≡ some r
    → Agree m n d len
    → ((d' len' type' : ℕ)
        → Agree m n d' len'
        → protocol_filter_ip fuel s m d' len' type' ≡ protocol_filter_ip fuel s n d' len' type')
    → protocol_filter_ip (suc fuel) s m d len type ≡ protocol_filter_ip (suc fuel) s n d len type
unfolding protocol_filter_ip
round_then s m n fuel d len type (done r) e h ih =
    let same = round-Agree s m n d len type h in ground arith
round_then s m n fuel d len type (inner d' len' type') e h ih =
    let same = round-Agree s m n d len type h in
    let x = round-inner s n d len type d' len' type' e in
    let k = x.0 in
    let part : Agree m n d' len' = rw (x.1, x.2) (Agree-part m n d len k h) in
    let rec = ih d' len' type' part in ground arith

-- Two memories with the same packet give the same result: `protocol_filter_ip` does not depend on a
-- byte before or behind the packet, whatever lengths the headers in it claim.
pub protocol_filter_ip-Agree :
    (fuel : ℕ) (s : Settings) (m n : Memory) (d len type : ℕ)
    → Agree m n d len
    → protocol_filter_ip fuel s m d len type ≡ protocol_filter_ip fuel s n d len type
unfolding protocol_filter_ip
protocol_filter_ip-Agree zero s m n d len type h = refl
protocol_filter_ip-Agree (suc fuel) s m n d len type h =
    elim (Option-cases (round s n d len type)) [
      | inl out ↦ let same = round-Agree s m n d len type h in ground arith
      | inr (r, e) ↦ round_then s m n fuel d len type r e h (protocol_filter_ip-Agree fuel s m n)
    ]
