-- ===== src/Sock/Protocol.antt =====
-- What the calls of bsd/lib/lazybsd_socket.c have in common: what is freed, what is refused, and that an
-- address comes back as it was given.
use lazybsd.Prelude.{
  ℕ, ◌+◌, ◌%◌, ◌≤◌, ◌≡◌, refl, ap, Bool, true, false, Option, none, some, List, [], ◌∷◌, ◌++◌,
  if◌then◌else◌, ltb, ◌==◌, ℤ, pos, negsuc, if_intro, arith,
}
use lazybsd.Subr.Uio.{Iovec}
use lazybsd.Sock.Process.{
  KernelCall, kern_accept, kern_getpeername, kern_getsockname, kern_readv, kern_writev, Reply,
  Process, Kernel, after, kern_fail, ask, retval,
}
use lazybsd.Sock.Calls.{
  einval, int_max, int_mod, free_sockaddr, give_sockaddr, lazybsd_read, lazybsd_readv,
  lazybsd_write, lazybsd_writev,
}
use lazybsd.Sock.Names.{
  accepted, accept_result, lazybsd_accept, get_name, lazybsd_getpeername, lazybsd_getsockname,
}

abbrev pub given_back : Option ℕ → List ℕ
given_back none = []
given_back (some a) = a ∷ []

-- The list of what was freed, after a call that frees what its reply brought.
abbrev pub Frees : Option ℕ → Process → Process × ℤ → Type 0
Frees sockaddr p q = q.0.freed ≡ given_back sockaddr ++ p.freed

abbrev pub FreesOrFaults : Option ℕ → Process → Option (Process × ℤ) → Type 0
FreesOrFaults sockaddr p none = Unit
FreesOrFaults sockaddr p (some q) = Frees sockaddr p q

else_same {ℓ} :
    {A : Type ℓ} {y z : A} (b : Bool) (x : A)
    → (b ≡ false → y ≡ z)
    → (if b then x else y) ≡ (if b then x else z)
else_same true x h = refl
else_same false x h = h refl

-- The length of one segment is added up without overflow.
one_segment : (buf n : ℕ) → ltb int_max n ≡ false → n ≡ (0 + n) % int_mod
one_segment buf n h = let small : n ≤ int_max = ground arith in omega arith

module _ (k : Kernel) where
  free_sockaddr-Frees :
      (o : Option ℕ) (p q : Process) (n : ℤ) → q.freed ≡ p.freed → Frees o p (free_sockaddr o q, n)
  free_sockaddr-Frees none p q n h = h
  free_sockaddr-Frees (some a) p q n h = ap (λ l. a ∷ l) h

  failed-Frees :
      (rc : ℕ) (o : Option ℕ) (p q : Process)
      → q.freed ≡ p.freed
      → Frees o p (kern_fail k rc (free_sockaddr o q))
  unfolding kern_fail
  failed-Frees rc o p q h = free_sockaddr-Frees o p q (negsuc 0) h

  get_name-Frees :
      (c : KernelCall) (name : Option ℕ) (p : Process)
      → Frees (k.answer c p.memory).sockaddr p (get_name k c name p)
  unfolding get_name
  get_name-Frees c name p =
      let r = k.answer c p.memory in
      let t = after k c r p in
      if_intro (Frees r.sockaddr p) (r.error == 0)
        (free_sockaddr-Frees r.sockaddr p (give_sockaddr name r.sockaddr t) (pos 0) refl)
        (failed-Frees r.error r.sockaddr p t refl)

  accepted-Frees :
      (addrlen : Option ℕ) (r : Reply) (o : Option ℕ) (p t : Process)
      → t.freed ≡ p.freed
      → FreesOrFaults r.sockaddr p (accept_result k r (accepted k addrlen o t))
  accepted-Frees none r o p t h = free_sockaddr-Frees r.sockaddr p t (pos r.retval) h
  accepted-Frees (some l) r none p t h = tt
  accepted-Frees (some l) r (some pf) p t h = free_sockaddr-Frees r.sockaddr p _ (pos r.retval) h

  accept-Frees :
      (s : ℕ) (addr addrlen : Option ℕ) (p : Process)
      → FreesOrFaults
          (k.answer (kern_accept s) p.memory).sockaddr
          p
          (lazybsd_accept k s addr addrlen p)
  unfolding lazybsd_accept
  accept-Frees s addr addrlen p =
      let r = k.answer (kern_accept s) p.memory in
      let t = after k (kern_accept s) r p in
      if_intro (FreesOrFaults r.sockaddr p) (r.error == 0)
        (accepted-Frees addrlen r r.sockaddr p (give_sockaddr addr r.sockaddr t) refl)
        (failed-Frees r.error r.sockaddr p t refl)

  -- A socket address that the kernel allocated for `lazybsd_accept`, `lazybsd_getpeername` or
  -- `lazybsd_getsockname` is given back once, whether the call fails or not and whether the caller wants the address
  -- or not, unless `lazybsd_accept` uses a NULL pointer; nothing else is given back.
  pub sockaddr-Frees :
      (s namelen : ℕ) (name addrlen : Option ℕ) (p : Process)
      → FreesOrFaults
          (k.answer (kern_accept s) p.memory).sockaddr
          p
          (lazybsd_accept k s name addrlen p)
        × (Frees
              (k.answer (kern_getpeername s namelen) p.memory).sockaddr
              p
              (lazybsd_getpeername k s name namelen p)
            × Frees
                (k.answer (kern_getsockname s namelen) p.memory).sockaddr
                p
                (lazybsd_getsockname k s name namelen p))
  unfolding lazybsd_getpeername lazybsd_getsockname
  sockaddr-Frees s namelen name addrlen p = (
    accept-Frees s name addrlen p,
    (
      get_name-Frees (kern_getpeername s namelen) name p,
      get_name-Frees (kern_getsockname s namelen) name p,
    ),
  )

  -- `lazybsd_read` and `lazybsd_write` refuse more than INT_MAX bytes with EINVAL, without a call of the kernel; otherwise
  -- they do what `lazybsd_readv` and `lazybsd_writev` do with one segment.
  pub read-readv :
      (fd buf n : ℕ) (p : Process)
      → let iov : List Iovec = record { iov_base = buf; iov_len = n } ∷ [] in
        (lazybsd_read k fd buf n p
          ≡ (if ltb int_max n then kern_fail k einval p else lazybsd_readv k fd iov p))
        × (lazybsd_write k fd buf n p
            ≡ (if ltb int_max n then kern_fail k einval p else lazybsd_writev k fd iov p))
  unfolding lazybsd_read lazybsd_readv lazybsd_write lazybsd_writev
  read-readv fd buf n p =
      let iov : List Iovec = record { iov_base = buf; iov_len = n } ∷ [] in
      let one = λ (h : ltb int_max n ≡ false). one_segment buf n h in
      (
        else_same (ltb int_max n) (kern_fail k einval p)
            (λ h. ap (λ r. ask k (kern_readv fd iov r) retval p) (one h)),
        else_same (ltb int_max n) (kern_fail k einval p)
            (λ h. ap (λ r. ask k (kern_writev fd iov r) retval p) (one h)),
      )
