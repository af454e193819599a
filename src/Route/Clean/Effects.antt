-- ===== src/Route/Clean/Effects.antt =====
-- `cleanup_xaddrs` of bsd/lib/lazybsd_route.c: which bytes it leaves alone, and what it writes to the destination.
use lazybsd.Prelude.{
  ap, leb, ltb, ◌-◌, bit_and, ℕ, ◌+◌, ◌≤◌, ◌<◌, ◌≡◌, ◌≢◌, refl, sym, ◌∙◌, ◌⊎◌, inl, inr, true,
  false, ◌&&◌, Option, none, some, if◌then◌else◌, ◌==◌, arith, if_cases, Bool-cases,
}
use lazybsd.Sock.Address.{Memory}
use lazybsd.Route.{Kernel}
use lazybsd.Route.Bytes.{write_off, write_in}
use lazybsd.Route.Clean.{
  Places, AddrInfo, Cleaned, sockaddr_in, sockaddr_in6, remove_netmask, mask_bytes, by_family,
  with_dst, cleanup_xaddrs_inet, cleanup_xaddrs_inet6, masked6, cleanup_xaddrs,
}
use lazybsd.Route.Clean.Writes.{IsOutside, AreDisjoint, IsBeyond, outside_size}
use lazybsd.Route.Clean.Wrote.{AreDistinct, IsApartFrom, masked, Wrote, inet-Wrote, inet6-Wrote}

-- A socket address at `d` of `size` bytes in its standard form: the length, the family, the `n` bytes of the address
-- from `at` on, and zeros everywhere else.
pub record HasForm (size family at n : ℕ) (addr : ℕ → ℕ) (d : ℕ) (after : Memory) : Type 0 where
  pub sa_len : after d ≡ size
  pub sa_family : after (d + 1) ≡ family
  pub address : (j : ℕ) → j < n → after (d + (at + j)) ≡ addr j
  pub zeros : (j : ℕ) → 2 ≤ j → j < size → (j < at) ⊎ (at + n ≤ j) → after (d + j) ≡ 0

-- The bytes of a netmask, which is all ones where there is none
abbrev pub netmask_byte : Memory → (at : ℕ) → Option ℕ → ℕ → ℕ
netmask_byte m at none j = 255
netmask_byte m at (some q) j = m (q + at + j)

-- The destination in its standard form, by its family, with the address that the mask has been put on
abbrev pub IsStandard : Kernel → (m : Memory) → (d : ℕ) → (mask : Option ℕ) → Memory → Type 0
IsStandard k m d mask after =
    ((m (d + 1) ≡ k.af_inet)
      → (16 ≤ m d)
        × HasForm 16 k.af_inet 4 4 (λ j. bit_and (m (d + 4 + j)) (netmask_byte m 4 mask j)) d after)
    × ((m (d + 1) ≢ k.af_inet)
        → (k.with_inet6 ≡ true)
          × (m (d + 1) ≡ k.af_inet6)
          × (28 ≤ m d)
          × HasForm 28 k.af_inet6 8 16 (λ j. bit_and (m (d + 8 + j)) (netmask_byte m 8 mask j)) d
              after)

masked-netmask_byte :
    (m : Memory) (mask : Option ℕ) (at d j : ℕ)
    → masked m mask at d j ≡ bit_and (m (d + at + j)) (netmask_byte m at mask j)
masked-netmask_byte m none at d j = refl
masked-netmask_byte m (some q) at d j = refl

sockaddr_in-HasForm :
    (k : Kernel) (m : Memory) (mask : Option ℕ) (d : ℕ) (after : Memory)
    → ((j : ℕ) → j < 16 → after (d + j) ≡ sockaddr_in k (masked m mask 4 d) j)
    → HasForm 16 k.af_inet 4 4 (λ j. bit_and (m (d + 4 + j)) (netmask_byte m 4 mask j)) d after
sockaddr_in-HasForm k m mask d after h =
    let f = masked m mask 4 d in
    record {
      sa_len = ap after (omega arith) ∙ h 0 (omega arith);
      sa_family = h 1 (omega arith);
      address =
          λ j lt. h (4 + j) (omega (arith, lt)) ∙ byte f j lt ∙ masked-netmask_byte m mask 4 d j;
      zeros = λ j two lt out. h j lt ∙ zero_at f j two lt out;
    }
  where
    byte : (f : ℕ → ℕ) (j : ℕ) → j < 4 → sockaddr_in k f (4 + j) ≡ f j
    byte f j lt =
        let same : 4 + j - 4 ≡ j = omega arith in
        let first : (4 + j == 0) ≡ false = ground arith in
        let second : (4 + j == 1) ≡ false = ground arith in
        let within : (leb 4 (4 + j) && ltb (4 + j) 8) ≡ true = ground arith in
        rw (first, second, within) (ap f same)

    zero_at : (f : ℕ → ℕ) (j : ℕ) → 2 ≤ j → j < 16 → (j < 4) ⊎ (4 + 4 ≤ j) → sockaddr_in k f j ≡ 0
    zero_at f j two lt out =
        let first : (j == 0) ≡ false = ground arith in
        let second : (j == 1) ≡ false = ground arith in
        let outside : (leb 4 j && ltb j 8) ≡ false = ground arith in
        rw (first, second, outside) refl

sockaddr_in6-HasForm :
    (k : Kernel) (m : Memory) (mask : Option ℕ) (d : ℕ) (after : Memory)
    → ((j : ℕ) → j < 28 → after (d + j) ≡ sockaddr_in6 k (masked m mask 8 d) j)
    → HasForm 28 k.af_inet6 8 16 (λ j. bit_and (m (d + 8 + j)) (netmask_byte m 8 mask j)) d after
sockaddr_in6-HasForm k m mask d after h =
    let f = masked m mask 8 d in
    record {
      sa_len = ap after (omega arith) ∙ h 0 (omega arith);
      sa_family = h 1 (omega arith);
      address =
          λ j lt. h (8 + j) (omega (arith, lt)) ∙ byte f j lt ∙ masked-netmask_byte m mask 8 d j;
      zeros = λ j two lt out. h j lt ∙ zero_at f j two lt out;
    }
  where
    byte : (f : ℕ → ℕ) (j : ℕ) → j < 16 → sockaddr_in6 k f (8 + j) ≡ f j
    byte f j lt =
        let same : 8 + j - 8 ≡ j = omega arith in
        let first : (8 + j == 0) ≡ false = ground arith in
        let second : (8 + j == 1) ≡ false = ground arith in
        let within : (leb 8 (8 + j) && ltb (8 + j) 24) ≡ true = ground arith in
        rw (first, second, within) (ap f same)

    zero_at : (f : ℕ → ℕ) (j : ℕ) → 2 ≤ j → j < 28 → (j < 8) ⊎ (8 + 16 ≤ j) → sockaddr_in6 k f j ≡ 0
    zero_at f j two lt out =
        let first : (j == 0) ≡ false = ground arith in
        let second : (j == 1) ≡ false = ground arith in
        let outside : (leb 8 j && ltb j 24) ≡ false = ground arith in
        rw (first, second, outside) refl

-- The mask that is put on the destination
abbrev pub kept_mask : Places → AddrInfo → Option ℕ
kept_mask p s = if s.rti_flags p.rtf_lldata then none else s.rti_info p.rtax_netmask

module _ (k : Kernel) (p : Places) (distinct : AreDistinct p) where
  by_family-same :
      (x d : ℕ) (s : AddrInfo)
      → IsOutside x s.memory s.rti_info
      → AreDisjoint s.memory s.rti_info
      → s.rti_info p.rtax_dst ≡ some d
      → IsBeyond k x s.memory (some d)
      → (by_family k p d s).1.memory x ≡ s.memory x
  by_family-same x d s out apart at_dst beyond =
      let m = s.memory in
      let from : IsApartFrom x s p = λ j q at e. out j q e in
      let P = λ (r : Cleaned). r.1.memory x ≡ m x in
      let off = out p.rtax_dst d at_dst in
      if_cases P (m (d + 1) == k.af_inet)
        (λ e. elim (inet-Wrote k p distinct d s apart at_dst) [
          | inl w ↦ w.1 x
          | inr w ↦
              w.1 x from
              ∙ write_off m d 16 x (sockaddr_in k (masked m (s.rti_info p.rtax_netmask) 4 d))
                  (outside_size x d (m d) 16 w.0 off)
        ])
        (λ e.
          if_cases P (k.with_inet6 && m (d + 1) == k.af_inet6)
            (λ six. elim (inet6-Wrote k p distinct d s apart at_dst) [
              | inl w ↦
                  w.1 x
                  ∙ write_off m (d + 8) 16 x (masked m (s.rti_info p.rtax_netmask) 8 d) (beyond six)
              | inr w ↦
                  w.1 x from
                  ∙ write_off m d 28 x (sockaddr_in6 k (masked m (s.rti_info p.rtax_netmask) 8 d))
                      (outside_size x d (m d) 28 w.0 off)
            ])
            (λ e. refl))

  -- What `remove_netmask` leaves of the addresses
  kept : (s : AddrInfo) (j q : ℕ) → (remove_netmask p s).rti_info j ≡ some q → s.rti_info j ≡ some q
  unfolding remove_netmask
  kept s j q h = elim (Bool-cases (j == p.rtax_netmask)) [
    | inl here ↦ let e : none ≡ some q = sym (rw here refl) ∙ h in absurd (cc)
    | inr other ↦ sym (rw other refl) ∙ h
  ]

  removed_mask : (s : AddrInfo) → (remove_netmask p s).rti_info p.rtax_netmask ≡ none
  unfolding remove_netmask
  removed_mask s =
      let here : (p.rtax_netmask == p.rtax_netmask) ≡ true = ground arith in rw here refl

  kept_dst :
      (s : AddrInfo) (d : ℕ)
      → s.rti_info p.rtax_dst ≡ some d
      → (remove_netmask p s).rti_info p.rtax_dst ≡ some d
  unfolding remove_netmask
  kept_dst s d e =
      let other : (p.rtax_dst == p.rtax_netmask) ≡ false =
        let ne = distinct.dst_netmask in ground arith in
      rw other e

  dst-same :
      (x : ℕ) (s : AddrInfo) (o : Option ℕ)
      → IsOutside x s.memory s.rti_info
      → AreDisjoint s.memory s.rti_info
      → s.rti_info p.rtax_dst ≡ o
      → IsBeyond k x s.memory o
      → (with_dst k p o s).1.memory x ≡ s.memory x
  unfolding remove_netmask
  dst-same x s none out apart at_dst beyond = refl
  dst-same x s (some d) out apart at_dst beyond =
      if_cases (λ (t : AddrInfo). (by_family k p d t).1.memory x ≡ s.memory x)
        (s.rti_flags p.rtf_lldata)
        (λ e.
          by_family-same x d (remove_netmask p s) (λ j q h. out j q (kept s j q h))
            (λ j l q r ne h g. apart j l q r ne (kept s j q h) (kept s l r g)) (kept_dst s d at_dst)
            beyond)
        (λ e. by_family-same x d s out apart at_dst beyond)

  -- The bytes in no address of the message are not written, if the addresses do not overlap and the bytes are not
  -- those where the mask of IPv6 is put on a destination that is too short.
  pub cleanup_xaddrs-same :
      (x : ℕ) (s : AddrInfo)
      → IsOutside x s.memory s.rti_info
      → AreDisjoint s.memory s.rti_info
      → IsBeyond k x s.memory (s.rti_info p.rtax_dst)
      → (cleanup_xaddrs k p s).1.memory x ≡ s.memory x
  unfolding cleanup_xaddrs
  cleanup_xaddrs-same x s out apart beyond =
      dst-same x s (s.rti_info p.rtax_dst) out apart refl beyond

  -- A byte of the destination is neither in the netmask nor in the gateway.
  destination_apart :
      (d j n : ℕ) (s : AddrInfo)
      → AreDisjoint s.memory s.rti_info
      → s.rti_info p.rtax_dst ≡ some d
      → j < n
      → n ≤ s.memory d
      → IsApartFrom (d + j) s p
  destination_apart d j n s apart at_dst lt le l q at e =
      elim (apart p.rtax_dst l d q (differs at) at_dst e) [
        | inl a ↦ inl (omega arith)
        | inr a ↦ inr (omega arith)
      ]
    where
      differs : (l ≡ p.rtax_netmask) ⊎ (l ≡ p.rtax_gateway) → p.rtax_dst ≢ l
      differs (inl a) h = distinct.dst_netmask (h ∙ a)
      differs (inr a) h = distinct.dst_gateway (h ∙ a)

  destination_bytes :
      (d n : ℕ) (f : ℕ → ℕ) (failed : Memory) (s : AddrInfo) (r : Cleaned)
      → AreDisjoint s.memory s.rti_info
      → s.rti_info p.rtax_dst ≡ some d
      → r.0 ≡ none
      → Wrote p s failed d n f r
      → (n ≤ s.memory d) × ((j : ℕ) → j < n → r.1.memory (d + j) ≡ f j)
  destination_bytes d n f failed s r apart at_dst ok (inl w) = let bad = w.0 in absurd (cc)
  destination_bytes d n f failed s r apart at_dst ok (inr w) = (
    w.0,
    λ j lt.
        w.1 (d + j) (destination_apart d j n s apart at_dst lt w.0) ∙ write_in s.memory d n j f lt,
  )

  by_family-IsStandard :
      (d : ℕ) (s : AddrInfo)
      → AreDisjoint s.memory s.rti_info
      → s.rti_info p.rtax_dst ≡ some d
      → (by_family k p d s).0 ≡ none
      → IsStandard k s.memory d (s.rti_info p.rtax_netmask) (by_family k p d s).1.memory
  by_family-IsStandard d s apart at_dst =
      let m = s.memory in
      let mask = s.rti_info p.rtax_netmask in
      let P = λ (r : Cleaned). r.0 ≡ none → IsStandard k m d mask r.1.memory in
      if_cases P (m (d + 1) == k.af_inet)
        (λ e ok.
          let is : m (d + 1) ≡ k.af_inet = ground arith in
          (
            λ f.
                let bytes =
                  destination_bytes d 16 (sockaddr_in k (masked m mask 4 d)) m s
                    (cleanup_xaddrs_inet k p d s) apart at_dst ok
                    (inet-Wrote k p distinct d s apart at_dst) in
                (
                  bytes.0,
                  sockaddr_in-HasForm k m mask d (cleanup_xaddrs_inet k p d s).1.memory bytes.1,
                ),
            λ f. absurd (f is),
          ))
        (λ e.
          if_cases P (k.with_inet6 && m (d + 1) == k.af_inet6)
            (λ six ok.
              let not_inet : m (d + 1) ≢ k.af_inet = λ f. ground arith in
              let bytes =
                destination_bytes d 28 (sockaddr_in6 k (masked m mask 8 d))
                  (masked6 m d (mask_bytes m 8 mask)) s (cleanup_xaddrs_inet6 k p d s) apart at_dst
                  ok (inet6-Wrote k p distinct d s apart at_dst) in
              let is : m (d + 1) ≡ k.af_inet6 = ground arith in
              let on : k.with_inet6 ≡ true = ground arith in
              (
                λ f. absurd (not_inet f),
                λ f. (
                  on,
                  is,
                  bytes.0,
                  sockaddr_in6-HasForm k m mask d (cleanup_xaddrs_inet6 k p d s).1.memory bytes.1,
                ),
              ))
            (λ e ok. absurd (cc)))

  -- Where no addresses overlap and there is no error, the destination is of a known family, has been long enough,
  -- and holds its standard form with the netmask put on the address.
  pub cleanup_xaddrs-destination :
      (d : ℕ) (s : AddrInfo)
      → AreDisjoint s.memory s.rti_info
      → s.rti_info p.rtax_dst ≡ some d
      → (cleanup_xaddrs k p s).0 ≡ none
      → IsStandard k s.memory d (kept_mask p s) (cleanup_xaddrs k p s).1.memory
  unfolding cleanup_xaddrs remove_netmask
  cleanup_xaddrs-destination d s apart at_dst = rw at_dst (
      if_cases
        (λ (t : AddrInfo).
          (by_family k p d t).0 ≡ none
          → IsStandard k s.memory d (kept_mask p s) (by_family k p d t).1.memory)
        (s.rti_flags p.rtf_lldata)
        (λ e ok.
          let t = remove_netmask p s in
          let none_left : t.rti_info p.rtax_netmask ≡ kept_mask p s =
            removed_mask s ∙ sym (rw e refl) in
          let apart' : AreDisjoint t.memory t.rti_info =
            λ j l q r ne h g. apart j l q r ne (kept s j q h) (kept s l r g) in
          rw (sym none_left) (by_family-IsStandard d t apart' (kept_dst s d at_dst) ok))
        (λ e. rw e (by_family-IsStandard d s apart at_dst)))
