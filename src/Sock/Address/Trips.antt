-- ===== src/Sock/Address/Trips.antt =====
-- An address converted by bsd/lib/lazybsd_socket.c for the kernel and back is the address.
use lazybsd.Prelude.{
  ℕ, ◌+◌, ◌%◌, ◌^◌, ◌≤◌, ◌<◌, ◌≡◌, ◌≢◌, sym, zero, suc, some, if◌then◌else◌, ◌==◌, arith, ==_refl,
  ◌∙◌, ap, ◌⊎◌,
}
use lazybsd.Sock.Address.{
  Memory, bsd_inet6, load16, store16, bcopy, data_size, bsd_family, linux_family, store_header,
  linux2freebsd_sockaddr, freebsd2linux_sockaddr,
}

-- The family of an address that both systems can write: a byte, and not the kernel's own AF_INET6.
pub record IsFamily (f : ℕ) : Type 0 where
  pub byte : f < 256
  pub shared : f ≢ bsd_inet6

-- Two regions of `n` bytes have no byte in common.
abbrev pub Apart : (a b n : ℕ) → Type 0
Apart a b n = (a + n ≤ b) ⊎ (b + n ≤ a)

family_back : (f : ℕ) → IsFamily f → linux_family (bsd_family f % 256) ≡ f
family_back f h = ground (arith, h.byte, h.shared)

header_family : (m : Memory) (a g len : ℕ) → store_header m a g len (a + 1) ≡ g % 256
header_family m a g len = ground arith

-- The family written back over the header of the kernel.
header_back :
    (m : Memory) (a f g len : ℕ)
    → m a ≡ f
    → m (a + 1) ≡ 0
    → f < 256
    → (x : ℕ) → store16 (store_header m a g len) a f x ≡ m x
header_back m a f g len h k l x = ground arith

module _ (m : Memory) (bytes : (x : ℕ) → m x < 256) where
  -- Converting an address in place for the kernel, and then back, restores every byte of memory,
  -- for a family that is a byte and not the kernel's own AF_INET6.
  pub in_place_round_trip :
      (a addrlen : ℕ)
      → IsFamily (load16 m a)
      → (x : ℕ)
      → freebsd2linux_sockaddr
          (linux2freebsd_sockaddr m (some a) addrlen (some a))
          (some a)
          (some a)
          x
        ≡ m x
  unfolding linux2freebsd_sockaddr freebsd2linux_sockaddr
  in_place_round_trip a addrlen f x =
      let family = load16 m a in
      let high : m (a + 1) ≡ 0 = omega (arith, f.byte, bytes a) in
      let low : m a ≡ family = omega (arith, high) in
      let t = store_header m a (bsd_family family) addrlen in
      let back : linux_family (t (a + 1)) ≡ family =
        ap linux_family (header_family m a (bsd_family family) addrlen) ∙ family_back family f in
      rw (==_refl (a + 2)) (
        ap (λ v. store16 t a v x) back
        ∙ header_back m a family (bsd_family family) addrlen low high f.byte x)

  -- Converting an address of at least 2 bytes for the kernel changes no byte of memory outside
  -- the bytes of the target that its length counts.
  pub linux2freebsd_sockaddr_frame :
      (l b addrlen : ℕ)
      → 2 ≤ addrlen
      → addrlen < 2 ^ 64
      → (x : ℕ) → (x < b) ⊎ (b + addrlen ≤ x)
      → linux2freebsd_sockaddr m (some l) addrlen (some b) x ≡ m x
  unfolding linux2freebsd_sockaddr
  linux2freebsd_sockaddr_frame l b addrlen h k x o = ground arith

-- What `linux2freebsd_sockaddr` writes at another place.
pub record Written (m t : Memory) (l b addrlen : ℕ) : Type 0 where
  pub len : t b ≡ addrlen
  pub family : t (b + 1) ≡ bsd_family (load16 m l) % 256
  pub rest : (i : ℕ) → 2 ≤ i → i < addrlen → t (b + i) ≡ m (l + i)

family_at : (m : Memory) (a f : ℕ) → f < 256 → (store16 m a f a ≡ f) × (store16 m a f (a + 1) ≡ 0)
family_at m a f h = (ground arith, ground arith)

-- The first byte, the second, and the others.
by_index : (P : ℕ → Type 0) (i : ℕ) → P 0 → P 1 → (2 ≤ i → P i) → P i
by_index P zero a b c = a
by_index P (suc zero) a b c = b
by_index P (suc (suc i)) a b c = c (omega arith)

module _ (m : Memory) where
  pub linux2freebsd_sockaddr-Written :
      (l b addrlen : ℕ)
      → 2 ≤ addrlen
      → addrlen < 256
      → Apart l b addrlen
      → Written m (linux2freebsd_sockaddr m (some l) addrlen (some b)) l b addrlen
  unfolding linux2freebsd_sockaddr
  linux2freebsd_sockaddr-Written l b addrlen h k o = record {
    len = ground arith;
    family = ground arith;
    rest = λ i p q. ground arith;
  }

  read_rest :
      (b r n i : ℕ)
      → m b ≡ n
      → n < 256
      → Apart b r n
      → 2 ≤ i
      → i < n
      → freebsd2linux_sockaddr m (some r) (some b) (r + i) ≡ m (b + i)
  unfolding freebsd2linux_sockaddr
  read_rest b r n i e h o p q = ground arith

  read_family :
      (b r n f : ℕ)
      → m b ≡ n
      → 2 ≤ n
      → n < 256
      → Apart b r n
      → linux_family (m (b + 1)) ≡ f
      → f < 256
      → (freebsd2linux_sockaddr m (some r) (some b) r ≡ f)
        × (freebsd2linux_sockaddr m (some r) (some b) (r + 1) ≡ 0)
  unfolding freebsd2linux_sockaddr
  read_family b r n f e h k o g l =
      let t = if r + 2 == b + 2 then m else bcopy m (b + 2) (r + 2) (data_size (m b)) in
      let kept : t (b + 1) ≡ m (b + 1) = ground arith in
      let same : linux_family (t (b + 1)) ≡ f = ap linux_family kept ∙ g in
      let heads = family_at t r f l in
      (ap (λ v. store16 t r v r) same ∙ heads.0, ap (λ v. store16 t r v (r + 1)) same ∙ heads.1)

module _ (m : Memory) (bytes : (x : ℕ) → m x < 256) where
  -- Reading back what stands for an address, wherever it was put.
  pub freebsd2linux_sockaddr-Written :
      (t : Memory) (l b r addrlen : ℕ)
      → IsFamily (load16 m l)
      → 2 ≤ addrlen
      → addrlen < 256
      → Written m t l b addrlen
      → Apart b r addrlen
      → (i : ℕ) → i < addrlen
      → freebsd2linux_sockaddr t (some r) (some b) (r + i) ≡ m (l + i)
  freebsd2linux_sockaddr-Written t l b r addrlen f h k w p i q =
      let family = load16 m l in
      let back : linux_family (t (b + 1)) ≡ family =
        ap linux_family w.family ∙ family_back family f in
      let heads = read_family t b r addrlen family w.len h k p back f.byte in
      let high : m (l + 1) ≡ 0 = omega (arith, f.byte, bytes l) in
      let low : m l ≡ family = omega (arith, high) in
      let out = freebsd2linux_sockaddr t (some r) (some b) in
      let first : r + 0 ≡ r = omega arith in
      let first' : l ≡ l + 0 = omega arith in
      by_index (λ j. j < addrlen → out (r + j) ≡ m (l + j)) i
        (λ j. ap out first ∙ heads.0 ∙ sym low ∙ ap m first') (λ j. heads.1 ∙ sym high)
        (λ two j. read_rest t b r addrlen i w.len k p two j ∙ w.rest i two j) q

  -- Converting an address of 2 to 255 bytes for the kernel into a place apart from it, and from
  -- there into a place apart from that, gives the same bytes, for a family that is a byte and not
  -- the kernel's own AF_INET6.
  pub round_trip :
      (l b r addrlen : ℕ)
      → IsFamily (load16 m l)
      → 2 ≤ addrlen
      → addrlen < 256
      → Apart l b addrlen
      → Apart b r addrlen
      → (i : ℕ) → i < addrlen
      → freebsd2linux_sockaddr
          (linux2freebsd_sockaddr m (some l) addrlen (some b))
          (some r)
          (some b)
          (r + i)
        ≡ m (l + i)
  round_trip l b r addrlen f h k o p i q =
      let t = linux2freebsd_sockaddr m (some l) addrlen (some b) in
      let w = linux2freebsd_sockaddr-Written m l b addrlen h k o in
      freebsd2linux_sockaddr-Written t l b r addrlen f h k w p i q
