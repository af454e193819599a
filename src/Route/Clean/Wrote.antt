-- ===== src/Route/Clean/Wrote.antt =====
-- `cleanup_xaddrs` of bsd/lib/lazybsd_route.c as a whole: the bytes that it leaves alone, and what it writes to the destination.
use lazybsd.Prelude.{
  ℕ, ◌+◌, ◌≤◌, ◌<◌, ◌≡◌, ◌≢◌, refl, sym, ◌∙◌, ◌⊎◌, inl, inr, Bool, true, false, ◌&&◌, ◌||◌, Option,
  some, ltb, arith, if_cases, Bool-cases, bit_and, leb, ◌-◌, is_some,
}
use lazybsd.Sock.Address.{Memory}
use lazybsd.Route.{Kernel}
use lazybsd.Route.Bytes.{write, write_off, write_in}
use lazybsd.Route.Clean.{
  Places, AddrInfo, Cleaned, sockaddr_in, sockaddr_in6, fill_sockaddr_inet, fill_sockaddr_inet6,
  with_gateway, mask_bytes, is_ones, is_short, with_netmask, cleanup_xaddrs_inet, masked6,
  cleanup_xaddrs_inet6,
}
use lazybsd.Route.Clean.Writes.{
  AreDisjoint, apart_byte, outside_size, netmask-same, netmask-info, finish-same, is_short-some,
}

-- The places of the three addresses differ.
pub record AreDistinct (p : Places) : Type 0 where
  pub dst_gateway : p.rtax_dst ≢ p.rtax_gateway
  pub dst_netmask : p.rtax_dst ≢ p.rtax_netmask
  pub gateway_netmask : p.rtax_gateway ≢ p.rtax_netmask

-- A byte is neither in the netmask nor in the gateway.
abbrev pub IsApartFrom : ℕ → AddrInfo → Places → Type 0
IsApartFrom x s p =
    ((j q : ℕ)
      → (j ≡ p.rtax_netmask) ⊎ (j ≡ p.rtax_gateway)
      → s.rti_info j ≡ some q
      → (x < q) ⊎ (q + s.memory q ≤ x))

-- The address of the destination, masked, where an address stands at `at`
abbrev pub masked : Memory → (mask : Option ℕ) → (at : ℕ) → (dst : ℕ) → ℕ → ℕ
masked m mask at dst j = bit_and (m (dst + at + j)) (mask_bytes m at mask j)

-- What becomes of the memory: after an error it is `failed`, else the destination is written and what is neither
-- in it nor in the netmask or the gateway stays.
abbrev pub Wrote : Places → AddrInfo → (failed : Memory) → (d size : ℕ) → (ℕ → ℕ) → Cleaned → Type 0
Wrote p s failed d size f r =
    ((is_some r.0 ≡ true) × ((x : ℕ) → r.1.memory x ≡ failed x))
    ⊎ ((size ≤ s.memory d)
        × ((x : ℕ) → IsApartFrom x s p → r.1.memory x ≡ write s.memory d size f x))

-- Behind an address of IPv6, or in front of it, is outside of the bytes that are masked.
inner : (d y : ℕ) → (y < d) ⊎ (d + 28 ≤ y) → (y < d + 8) ⊎ (d + 8 + 16 ≤ y)
inner d y (inl a) = inl (omega (arith, a))
inner d y (inr a) = inr (omega (arith, a))

module _ (k : Kernel) (p : Places) (distinct : AreDistinct p) where
  -- The end of both functions, once the destination is written to `m1`: it keeps a byte outside of the mask and
  -- of the gateway.
  rest-same :
      (x d size : ℕ) (m1 : Memory) (ones : Bool) (f : ℕ → ℕ) (s : AddrInfo)
      → IsApartFrom x s p
      → AreDisjoint s.memory s.rti_info
      → s.rti_info p.rtax_dst ≡ some d
      → 1 ≤ size
      → size ≤ s.memory d
      → ((q : ℕ) → s.rti_info p.rtax_netmask ≡ some q → size ≤ s.memory q)
      → ((y : ℕ) → (y < d) ⊎ (d + size ≤ y) → m1 y ≡ s.memory y)
      → (with_gateway k p
            ((with_netmask p ones
                (s.rti_info p.rtax_netmask)
                (λ n sa. write n sa size f)
                (record s { memory = m1 })).rti_info
              p.rtax_gateway)
            (with_netmask p ones
              (s.rti_info p.rtax_netmask)
              (λ n sa. write n sa size f)
              (record s { memory = m1 }))).1.memory
          x
        ≡ m1 x
  rest-same x d size m1 ones f s out apart at_dst one long long_mask off =
      let m = s.memory in
      let mask = s.rti_info p.rtax_netmask in
      let fill = λ (n : Memory) (sa : ℕ). write n sa size f in
      let filled : AddrInfo = record s { memory = m1 } in
      let t = with_netmask p ones mask fill filled in
      let here : t.memory x ≡ m1 x =
        netmask-same k p x ones mask size f filled x (λ q e.
          outside_size x q (m q) size (long_mask q e) (out p.rtax_netmask q (inl refl) e)) in
      finish-same k p x m1 t (t.rti_info p.rtax_gateway) here (λ gw e.
        let g : s.rti_info p.rtax_gateway ≡ some gw =
          (netmask-info k p x ones mask fill filled p.rtax_gateway gw e).0 in
        let byte : t.memory gw ≡ m gw =
          netmask-same k p x ones mask size f filled gw (λ q e.
            apart_byte m gw q size one (long_mask q e)
              (apart p.rtax_gateway p.rtax_netmask gw q distinct.gateway_netmask g e))
          ∙ off gw (
              apart_byte m gw d size one long (
                apart p.rtax_gateway p.rtax_dst gw d (λ e. distinct.dst_gateway (sym e)) g
                  at_dst)) in
        rw byte (out p.rtax_gateway gw (inr refl) g))

  pub inet-Wrote :
      (d : ℕ) (s : AddrInfo)
      → AreDisjoint s.memory s.rti_info
      → s.rti_info p.rtax_dst ≡ some d
      → Wrote p s s.memory d 16
          (sockaddr_in k (masked s.memory (s.rti_info p.rtax_netmask) 4 d))
          (cleanup_xaddrs_inet k p d s)
  unfolding cleanup_xaddrs_inet fill_sockaddr_inet
  inet-Wrote d s apart at_dst =
      let m = s.memory in
      let mask_sa = s.rti_info p.rtax_netmask in
      let mask = mask_bytes m 4 mask_sa in
      let f = sockaddr_in k (masked s.memory (s.rti_info p.rtax_netmask) 4 d) in
      if_cases (Wrote p s m d 16 f) (ltb (m d) 16 || is_short m 16 mask_sa)
        (λ e. inl (refl, λ x. refl))
        (λ e.
          let long : 16 ≤ m d = ground arith in
          let short : is_short m 16 mask_sa ≡ false = ground arith in
          inr (
            long,
            λ x out.
                rest-same x d 16 (write m d 16 f) (is_ones 4 mask) (sockaddr_in k mask) s out apart
                  at_dst (omega arith) long (λ q e. is_short-some m 16 mask_sa q short e)
                  (λ y far. write_off m d 16 y f far),
          ))

  -- The destination is written from the masked one.
  sockaddr_in6-masked :
      (m : Memory) (d : ℕ) (g : ℕ → ℕ) (j : ℕ)
      → sockaddr_in6 k (λ i. write m (d + 8) 16 g (d + 8 + i)) j ≡ sockaddr_in6 k g j
  sockaddr_in6-masked m d g j = elim (Bool-cases (leb 8 j && ltb j 24)) [
    | inl within ↦
        let lt : j - 8 < 16 = ground arith in
        let inner = write_in m (d + 8) 16 (j - 8) g lt in rw within (rw inner refl)
    | inr beyond ↦ rw beyond refl
  ]

  write-masked :
      (m : Memory) (d : ℕ) (g : ℕ → ℕ) (y : ℕ)
      → write (write m (d + 8) 16 g) d 28 (sockaddr_in6 k (λ i. write m (d + 8) 16 g (d + 8 + i))) y
        ≡ write m d 28 (sockaddr_in6 k g) y
  write-masked m d g y = elim (Bool-cases (leb d y && ltb y (d + 28))) [
    | inl within ↦ rw within (sockaddr_in6-masked m d g (y - d))
    | inr beyond ↦
        let far : (y < d + 8) ⊎ (d + 8 + 16 ≤ y) = ground arith in
        rw beyond (write_off m (d + 8) 16 y g far)
  ]

  pub inet6-Wrote :
      (d : ℕ) (s : AddrInfo)
      → AreDisjoint s.memory s.rti_info
      → s.rti_info p.rtax_dst ≡ some d
      → Wrote p s
          (masked6 s.memory d (mask_bytes s.memory 8 (s.rti_info p.rtax_netmask)))
          d
          28
          (sockaddr_in6 k (masked s.memory (s.rti_info p.rtax_netmask) 8 d))
          (cleanup_xaddrs_inet6 k p d s)
  unfolding cleanup_xaddrs_inet6 fill_sockaddr_inet6
  inet6-Wrote d s apart at_dst =
      let m = s.memory in
      let mask_sa = s.rti_info p.rtax_netmask in
      let mask = mask_bytes m 8 mask_sa in
      let g = masked m mask_sa 8 d in
      let m' = masked6 m d mask in
      let f = sockaddr_in6 k (λ j. m' (d + 8 + j)) in
      if_cases (Wrote p s m' d 28 (sockaddr_in6 k g)) (ltb (m' d) 28 || is_short m' 28 mask_sa)
        (λ e. inl (refl, λ x. refl))
        (λ e.
          let long' : 28 ≤ m' d = ground arith in
          let len : m' d ≡ m d = write_off m (d + 8) 16 d g (inl (omega arith)) in
          let long : 28 ≤ m d = omega (arith, len, long') in
          let short : is_short m' 28 mask_sa ≡ false = ground arith in
          let long_mask : (q : ℕ) → mask_sa ≡ some q → 28 ≤ m q = λ q e.
            let off =
              apart_byte m q d 28 (omega arith) long (
                apart p.rtax_netmask p.rtax_dst q d (λ e. distinct.dst_netmask (sym e)) e at_dst) in
            let byte : m' q ≡ m q = write_off m (d + 8) 16 q g (inner d q off) in
            let le : 28 ≤ m' q = is_short-some m' 28 mask_sa q short e in omega (arith, byte, le) in
          inr (
            long,
            λ x out.
                rest-same x d 28 (write m' d 28 f) (is_ones 16 mask) (sockaddr_in6 k mask) s out
                  apart at_dst (omega arith) long long_mask
                  (λ y far. write_off m' d 28 y f far ∙ write_off m (d + 8) 16 y g (inner d y far))
                ∙ write-masked m d g x,
          ))
