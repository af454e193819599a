-- ===== src/Route/Clean/Writes.antt =====
-- `cleanup_xaddrs` of bsd/lib/lazybsd_route.c writes only to the addresses of the message.
use lazybsd.Prelude.{
  ℕ, ◌+◌, ◌≤◌, ◌<◌, ◌≡◌, ◌≢◌, refl, ap, sym, ◌∙◌, ◌⊎◌, inl, inr, Bool, true, false, ◌&&◌, Option,
  none, some, ltb, ◌==◌, arith, if_cases, Bool-cases,
}
use lazybsd.Sock.Address.{Memory}
use lazybsd.Route.{Kernel, Info}
use lazybsd.Route.Bytes.{write, write_off}
use lazybsd.Route.Clean.{
  Places, AddrInfo, Cleaned, sockaddr_in, sockaddr_in6, sockaddr_dl_short, fill_sockaddr_inet,
  fill_sockaddr_inet6, cleanup_xaddrs_lladdr, refilled, cleanup_xaddrs_gateway, remove_netmask,
  with_gateway, is_short, with_netmask,
}

-- A byte is in no address of the length that the address says.
abbrev pub IsOutside : (x : ℕ) → Memory → Info → Type 0
IsOutside x m info = (j q : ℕ) → info j ≡ some q → (x < q) ⊎ (q + m q ≤ x)

-- No address overlaps another one.
abbrev pub AreDisjoint : Memory → Info → Type 0
AreDisjoint m info =
    (j l q r : ℕ) → j ≢ l → info j ≡ some q → info l ≡ some r → (q + m q ≤ r) ⊎ (r + m r ≤ q)

-- The address in the destination of IPv6, which is masked before its length is tested
abbrev pub IsBeyond : Kernel → (x : ℕ) → Memory → Option ℕ → Type 0
IsBeyond k x m none = Unit {0}
IsBeyond k x m (some d) =
    (k.with_inet6 && m (d + 1) == k.af_inet6) ≡ true → (x < d + 8) ⊎ (d + 8 + 16 ≤ x)

-- A byte in front of another address, or behind it, is not written with it.
pub apart_byte :
    (m : Memory) (q d size : ℕ)
    → 1 ≤ size
    → size ≤ m d
    → (q + m q ≤ d) ⊎ (d + m d ≤ q)
    → (q < d) ⊎ (d + size ≤ q)
apart_byte m q d size one le (inr a) = inr (omega (arith, a, le))
apart_byte m q d size one le (inl a) = elim (Bool-cases (q == d)) [
  | inl here ↦
      let same : q ≡ d = ground arith in
      let len : m q ≡ m d = ap m same in absurd (omega (arith, a, len, one, le, same))
  | inr other ↦ let lt : q < d = ground arith in inl lt
]

pub outside_size : (x q n size : ℕ) → size ≤ n → (x < q) ⊎ (q + n ≤ x) → (x < q) ⊎ (q + size ≤ x)
outside_size x q n size le (inl a) = inl a
outside_size x q n size le (inr a) = inr (omega (arith, a, le))

pub is_short-some :
    (m : Memory) (size : ℕ) (o : Option ℕ) (q : ℕ)
    → is_short m size o ≡ false
    → o ≡ some q
    → size ≤ m q
is_short-some m size none q h e = cc
is_short-some m size (some r) q h e =
    let same : r ≡ q = ground arith in
    let le : size ≤ m r = ground arith in let len : m r ≡ m q = ap m same in omega (arith, le, len)

module _ (k : Kernel) (p : Places) (x : ℕ) where
  refilled-same :
      (gw size : ℕ) (f : ℕ → ℕ) (s : AddrInfo)
      → (x < gw) ⊎ (gw + s.memory gw ≤ x)
      → (refilled gw size (write s.memory gw size f) s).1.memory x ≡ s.memory x
  refilled-same gw size f s out = elim (Bool-cases (ltb (s.memory gw) size)) [
    | inl short ↦ rw short refl
    | inr long ↦ rw long (write_off s.memory gw size x f (behind out (ground arith)))
  ]
    where
      behind : (x < gw) ⊎ (gw + s.memory gw ≤ x) → size ≤ s.memory gw → (x < gw) ⊎ (gw + size ≤ x)
      behind (inl a) le = inl a
      behind (inr a) le = inr (omega (arith, a, le))

  gateway-same :
      (gw : ℕ) (s : AddrInfo)
      → (x < gw) ⊎ (gw + s.memory gw ≤ x)
      → (cleanup_xaddrs_gateway k p gw s).1.memory x ≡ s.memory x
  unfolding cleanup_xaddrs_gateway fill_sockaddr_inet fill_sockaddr_inet6 cleanup_xaddrs_lladdr
  gateway-same gw s out =
      let m = s.memory in
      let P = λ (r : Cleaned). r.1.memory x ≡ m x in
      if_cases P (s.rti_flags p.rtf_lldata) (λ e. refl)
        (λ e.
          if_cases P (m (gw + 1) == k.af_inet)
            (λ e. refilled-same gw 16 (sockaddr_in k (λ j. m (gw + 4 + j))) s out)
            (λ e.
              if_cases P (k.with_inet6 && m (gw + 1) == k.af_inet6)
                (λ e. refilled-same gw 28 (sockaddr_in6 k (λ j. m (gw + 8 + j))) s out)
                (λ e.
                  if_cases P (m (gw + 1) == k.af_link)
                    (λ e. refilled-same gw p.dl_short_size (sockaddr_dl_short k p m gw) s out)
                    (λ e. refl))))

  pub netmask-same :
      (ones : Bool) (mask : Option ℕ) (size : ℕ) (f : ℕ → ℕ) (s : AddrInfo) (y : ℕ)
      → ((q : ℕ) → mask ≡ some q → (y < q) ⊎ (q + size ≤ y))
      → (with_netmask p ones mask (λ n sa. write n sa size f) s).memory y ≡ s.memory y
  unfolding remove_netmask
  netmask-same true mask size f s y far = refl
  netmask-same false none size f s y far = refl
  netmask-same false (some q) size f s y far = write_off s.memory q size y f (far q refl)

  pub netmask-info :
      (ones : Bool) (mask : Option ℕ) (fill : Memory → ℕ → Memory) (s : AddrInfo) (j q : ℕ)
      → (with_netmask p ones mask fill s).rti_info j ≡ some q
      → (s.rti_info j ≡ some q) × ((ones ≡ true) → j ≢ p.rtax_netmask)
  unfolding remove_netmask
  netmask-info true mask fill s j q h = elim (Bool-cases (j == p.rtax_netmask)) [
    | inl here ↦ let e : none ≡ some q = sym (rw here refl) ∙ h in absurd (cc)
    | inr other ↦ (sym (rw other refl) ∙ h, λ e. ground arith)
  ]
  netmask-info false none fill s j q h = (h, λ e. cc)
  netmask-info false (some n) fill s j q h = (h, λ e. cc)

  pub finish-same :
      (m : Memory) (t : AddrInfo) (o : Option ℕ)
      → t.memory x ≡ m x
      → ((gw : ℕ) → o ≡ some gw → (x < gw) ⊎ (gw + t.memory gw ≤ x))
      → (with_gateway k p o t).1.memory x ≡ m x
  finish-same m t none same far = same
  finish-same m t (some gw) same far = gateway-same gw t (far gw refl) ∙ same
