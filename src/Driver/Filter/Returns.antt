-- ===== src/Driver/Filter/Returns.antt =====
-- When `protocol_filter_ip` of src/lazybsd_dpdk.cc returns.
use lazybsd.Prelude.{
  ℕ, zero, suc, ◌+◌, ◌-◌, ◌*◌, ◌%◌, ◌≤◌, ◌<◌, ◌≡◌, ◌⊎◌, inl, inr, refl, Bool, false, ◌&&◌, none,
  some, ltb, leb, ◌==◌, arith, Bool-cases, if◌then◌else◌, Option-cases, ◌∙◌,
}
use mathlib.Core.Path.{subst}
use lazybsd.Driver.Filter.{
  Settings, Memory, ext_hdr_len, get_ipv6_hdr_len, Round, done, inner, round, behind_header,
  ipv4_round, protocol_filter_ip, ipv4, ipv6, FilterReturn,
}

-- An extension header has a byte at least.
ext_hdr_len-pos : (m : Memory) (p d : ℕ) {ext : ℕ} → ext_hdr_len m p d ≡ some ext → 1 ≤ ext
ext_hdr_len-pos m p d h = ground arith

-- `get_ipv6_hdr_len` returns when its fuel is above the length, with a length within the packet.
pub get_ipv6_hdr_len-le :
    (fuel : ℕ) (m : Memory) (p d len : ℕ)
    → len < fuel
    → (q : ℕ) × (ext : ℕ) × (get_ipv6_hdr_len fuel m p d len ≡ some (q, ext)) × (ext ≤ len)
unfolding get_ipv6_hdr_len
get_ipv6_hdr_len-le zero m p d len h = absurd (omega arith)
get_ipv6_hdr_len-le (suc fuel) m p d len h = elim (Option-cases (ext_hdr_len m p d)) [
  | inl stop ↦ (p, 0, ground arith, omega arith)
  | inr (ext, e) ↦ elim (Bool-cases (leb len ext)) [
    | inl long ↦ (p, len, ground arith, omega arith)
    | inr more ↦
        let pos = ext_hdr_len-pos m p d e in
        let less : ext < len = ground arith in
        let rest = get_ipv6_hdr_len-le fuel m (m d) (d + ext) (len - ext) (omega arith) in
        let eq = rest.2 in let le = rest.3 in (rest.0, ext + rest.1, ground arith, omega arith)
  ]
]

-- An IPv4 header of length zero whose protocol is IPIP.
abbrev pub empty_header : Memory → (data_at len : ℕ) → Bool
empty_header m d len = leb 20 len && (m d % 16 == 0 && m (d + 9) == 4)

abbrev measure : (len type : ℕ) → ℕ
measure len type = len * 2 + (if type == ipv4 then 1 else 0)

-- A packet in the packet lies in it, and there is less to do.
abbrev Progress : (d len type : ℕ) → Round → Type 0
Progress d len type (done r) = Unit {0}
Progress d len type (inner d' len' type') =
    (d ≤ d') × (d' + len' ≡ d + len) × (measure len' type' < measure len type)

behind_header-Progress :
    (s : Settings) (m : Memory) (d len type proto hdr_len : ℕ)
    → 1 ≤ hdr_len
    → Progress d len type (behind_header s m d len proto hdr_len)
behind_header-Progress s m d len type proto hdr_len h = ground arith

ipv4_round-Progress :
    (s : Settings) (m : Memory) (d len : ℕ)
    → empty_header m d len ≡ false
    → Progress d len ipv4 (ipv4_round s m d len)
ipv4_round-Progress s m d len h = ground arith

round-Progress :
    (s : Settings) (m : Memory) (d len type : ℕ)
    → (type == ipv4 && empty_header m d len) ≡ false
    → (r : Round) × (round s m d len type ≡ some r) × Progress d len type r
round-Progress s m d len type h = elim (Bool-cases (type == ipv4)) [
  | inl four ↦
      let e : type ≡ ipv4 = ground arith in
      let not_empty : empty_header m d len ≡ false = ground arith in
      rw e (ipv4_round s m d len, refl, ipv4_round-Progress s m d len not_empty)
  | inr other ↦ elim (Bool-cases (s.inet6 && type == ipv6)) [
    | inr none_of_them ↦ (done FilterReturn.unknown, ground arith, tt)
    | inl six ↦ elim (Bool-cases (ltb len 40)) [
      | inl short ↦ (done FilterReturn.unknown, ground arith, tt)
      | inr long ↦
          let x = get_ipv6_hdr_len-le (suc len) m (m (d + 6)) (d + 40) (len - 40) (omega arith) in
          let eq = x.2 in
          (
            behind_header s m d len x.0 (40 + x.1),
            ground arith,
            behind_header-Progress s m d len type x.0 (40 + x.1) (omega arith),
          )
    ]
  ]
]

-- From a packet `protocol_filter_ip` comes, call by call, to the IPv4 packet at `place` of `rest` bytes.
pub data ComesTo (s : Settings) (m : Memory) (place rest : ℕ) : (d len type : ℕ) → Type 0 where
  here : ComesTo s m place rest place rest ipv4
  further :
      {d len type d' len' type' : ℕ}
      → round s m d len type ≡ some (inner d' len' type')
      → ComesTo s m place rest d' len' type'
      → ComesTo s m place rest d len type

-- It comes to an IPv4 header of length zero whose protocol is IPIP, a packet in itself, in the bytes of the packet.
pub record MeetsEmptyHeader (s : Settings) (m : Memory) (d len type : ℕ) : Type 0 where
  pub place : ℕ
  pub rest : ℕ
  pub behind : d ≤ place
  pub inside : place + rest ≡ d + len
  pub comes : ComesTo s m place rest d len type
  pub room : 20 ≤ rest
  pub no_length : m place % 16 ≡ 0
  pub ipip : m (place + 9) ≡ 4

abbrev Outcome : ℕ → Settings → Memory → (d len type : ℕ) → Type 0
Outcome fuel s m d len type =
    ((r : FilterReturn) × (protocol_filter_ip fuel s m d len type ≡ some r))
    ⊎ MeetsEmptyHeader s m d len type

outcome_step :
    (fuel : ℕ) (s : Settings) (m : Memory) (d len type : ℕ) (r : Round)
    → round s m d len type ≡ some r
    → Progress d len type r
    → ((d' len' type' : ℕ) → measure len' type' < measure len type → Outcome fuel s m d' len' type')
    → Outcome (suc fuel) s m d len type
unfolding protocol_filter_ip
outcome_step fuel s m d len type (done r) e p ih = inl (r, ground arith)
outcome_step fuel s m d len type (inner d' len' type') e p ih = elim (ih d' len' type' p.2) [
  | inl x ↦ let eq = x.1 in inl (x.0, ground arith)
  | inr x ↦ inr record {
    place = x.place;
    rest = x.rest;
    behind = omega (arith, x.behind);
    inside = x.inside ∙ p.1;
    comes = further e x.comes;
    room = x.room;
    no_length = x.no_length;
    ipip = x.ipip;
  }
]

returns_in :
    (fuel : ℕ) (s : Settings) (m : Memory) (d len type : ℕ)
    → measure len type < fuel
    → Outcome fuel s m d len type
returns_in zero s m d len type h = absurd (omega arith)
returns_in (suc fuel) s m d len type h = elim (Bool-cases (type == ipv4 && empty_header m d len)) [
  | inl yes_empty ↦
      let four : ipv4 ≡ type = ground arith in
      inr (record {
        place = d;
        rest = len;
        behind = omega arith;
        inside = refl;
        comes = subst (ComesTo s m d len d len) four here;
        room = ground arith;
        no_length = ground arith;
        ipip = ground arith;
      })
  | inr ok ↦
      let x = round-Progress s m d len type ok in
      outcome_step fuel s m d len type x.0 x.1 x.2
        (λ d' len' type' less. returns_in fuel s m d' len' type' (omega arith))
]

-- With a header of length zero and the protocol IPIP at its start, an IPv4 packet is filtered again and again: `protocol_filter_ip`
-- returns after no number of calls.
pub protocol_filter_ip-hangs :
    (fuel : ℕ) (s : Settings) (m : Memory) (d len : ℕ)
    → 20 ≤ len
    → m d % 16 ≡ 0
    → m (d + 9) ≡ 4
    → protocol_filter_ip fuel s m d len ipv4 ≡ none
unfolding protocol_filter_ip
protocol_filter_ip-hangs zero s m d len h z p = refl
protocol_filter_ip-hangs (suc fuel) s m d len h z p =
    let d0 : d + 0 ≡ d = omega arith in
    let ih = protocol_filter_ip-hangs fuel s m d len h z p in ground arith

-- What comes to such a header does not return either.
comes-hangs :
    (s : Settings) (m : Memory) (place rest : ℕ) (fuel : ℕ) {d len type : ℕ}
    → ComesTo s m place rest d len type
    → 20 ≤ rest
    → m place % 16 ≡ 0
    → m (place + 9) ≡ 4
    → protocol_filter_ip fuel s m d len type ≡ none
unfolding protocol_filter_ip
comes-hangs s m place rest fuel here room z p =
    protocol_filter_ip-hangs fuel s m place rest room z p
comes-hangs s m place rest zero (further e c) room z p = refl
comes-hangs s m place rest (suc fuel) (further e c) room z p =
    let ih = comes-hangs s m place rest fuel c room z p in ground (arith, e, ih)

-- `protocol_filter_ip` returns for every packet, in at most twice as many calls as it has bytes and
-- two, but for those from which it comes to an IPv4 header of length zero with the protocol IPIP; for these, and
-- only then, it returns after no number of calls.
pub protocol_filter_ip-Returns :
    (s : Settings) (m : Memory) (d len type : ℕ)
    → ((r : FilterReturn) × (protocol_filter_ip (len * 2 + 2) s m d len type ≡ some r))
      ⊎ (MeetsEmptyHeader s m d len type
          × ((fuel : ℕ) → protocol_filter_ip fuel s m d len type ≡ none))
protocol_filter_ip-Returns s m d len type =
    elim (returns_in (len * 2 + 2) s m d len type (ground arith)) [
      | inl r ↦ inl r
      | inr x ↦
          inr (x, λ fuel. comes-hangs s m x.place x.rest fuel x.comes x.room x.no_length x.ipip)
    ]
