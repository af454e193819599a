-- ===== src/Sock/Peer.antt =====
-- `lazybsd_connect` of bsd/lib/lazybsd_socket.c followed by `lazybsd_getpeername`: both conversions of an
-- address, with the kernel between them.
use lazybsd.Prelude.{ℕ, ◌+◌, ◌≤◌, ◌<◌, ◌≡◌, ap, ◌∙◌, some, ◌==◌, ℤ, pos, if_true, arith}
use lazybsd.Sock.Address.{Memory, load16, linux2freebsd_sockaddr, freebsd2linux_sockaddr}
use lazybsd.Sock.Address.Trips.{
  IsFamily, Apart, Written, linux2freebsd_sockaddr-Written, freebsd2linux_sockaddr-Written,
}
use lazybsd.Sock.Process.{KernelCall, kern_getpeername, kern_connectat, Process, Kernel, after}
use lazybsd.Sock.Calls.{free_sockaddr, give_sockaddr, lazybsd_connect}
use lazybsd.Sock.Names.{get_name, lazybsd_getpeername}

-- A copy of what was written for an address stands for it as well.
Written-copied :
    (m t u : Memory) (l b c n : ℕ)
    → 2 ≤ n
    → ((i : ℕ) → i < n → u (c + i) ≡ t (b + i))
    → Written m t l b n
    → Written m u l c n
Written-copied m t u l b c n h copied w =
    let c0 : c ≡ c + 0 = omega arith in
    let b0 : b + 0 ≡ b = omega arith in
    record {
      len = ap u c0 ∙ copied 0 (omega arith) ∙ ap t b0 ∙ w.len;
      family = copied 1 (omega arith) ∙ w.family;
      rest = λ i p q. copied i q ∙ w.rest i p q;
    }

module _ (k : Kernel) (s b pf n namelen : ℕ) where
  -- The kernel connects to the `n` bytes of an address at `b`, in the memory `m`, and then answers with a copy of
  -- them at `pf` when it is asked for the peer's name.
  pub record RemembersPeer (m : Memory) : Type 0 where
    pub connected : (k.answer (kern_connectat s b) m).error ≡ 0
    pub named :
        (k.answer (kern_getpeername s namelen) (k.answer (kern_connectat s b) m).written).error ≡ 0
    pub allocated :
        (k.answer (kern_getpeername s namelen) (k.answer (kern_connectat s b) m).written).sockaddr
        ≡ some pf
    pub copied :
        (i : ℕ)
        → i < n
        → (k.answer (kern_getpeername s namelen) (k.answer (kern_connectat s b) m).written).written
            (pf + i)
          ≡ m (b + i)

  -- A name that the kernel gives is converted for the caller.
  get_name-written :
      (c : KernelCall) (r : ℕ) (p : Process)
      → (k.answer c p.memory).error ≡ 0
      → (k.answer c p.memory).sockaddr ≡ some pf
      → let q = get_name k c (some r) p in
        (q.1 ≡ pos 0)
        × (q.0.memory ≡ freebsd2linux_sockaddr (k.answer c p.memory).written (some r) (some pf))
  unfolding get_name
  get_name-written c r p h e =
      let a = k.answer c p.memory in
      let t = after k c a p in
      let branch = if_true {A = Process × ℤ} _ _ (ap (λ x. x == 0) h) in
      (
        ap (λ q. q.1) branch,
        ap (λ q. q.0.memory) branch
            ∙ ap (λ o. (free_sockaddr o (give_sockaddr (some r) o t)).memory) e,
      )

  module _ (l r : ℕ) (p : Process) where
    -- The memory in which the kernel is asked to connect.
    abbrev pub converted_name : Memory
    converted_name = linux2freebsd_sockaddr p.memory (some l) n (some b)

    connect_written :
        RemembersPeer converted_name
        → (lazybsd_connect k b s (some l) n p).0.memory
          ≡ (k.answer (kern_connectat s b) converted_name).written
    unfolding lazybsd_connect
    connect_written h =
        ap (λ (q : Process × ℤ). q.0.memory) (if_true _ _ (ap (λ x. x == 0) h.connected))

    -- After a call of `lazybsd_connect` that succeeds, `lazybsd_getpeername` gives the caller the bytes of the address that it
    -- connected to, when the kernel gives a copy of what it connected to: for an address of 2 to 128 bytes, as many as
    -- the place that `lazybsd_connect` converts it to has, whose
    -- family is a byte and not the kernel's own AF_INET6, and places in memory that are apart.
    pub getpeername-connect :
        ((x : ℕ) → p.memory x < 256)
        → IsFamily (load16 p.memory l)
        → 2 ≤ n
        → n ≤ 128
        → Apart l b n
        → Apart pf r n
        → RemembersPeer converted_name
        → let q = lazybsd_getpeername k s (some r) namelen (lazybsd_connect k b s (some l) n p).0 in
          (q.1 ≡ pos 0) × ((i : ℕ) → i < n → q.0.memory (r + i) ≡ p.memory (l + i))
    unfolding lazybsd_getpeername
    getpeername-connect bytes f two small o o' h =
        let short : n < 256 = omega (arith, small) in
        let c = kern_getpeername s namelen in
        let p' = (lazybsd_connect k b s (some l) n p).0 in
        let e = connect_written h in
        let t = (k.answer c (k.answer (kern_connectat s b) converted_name).written).written in
        let w =
          Written-copied p.memory converted_name t l b pf n two h.copied
            (linux2freebsd_sockaddr-Written p.memory l b n two short o) in
        let got =
          get_name-written c r p' (ap (λ m. (k.answer c m).error) e ∙ h.named)
            (ap (λ m. (k.answer c m).sockaddr) e ∙ h.allocated) in
        let back = ap (λ m. freebsd2linux_sockaddr (k.answer c m).written (some r) (some pf)) e in
        (
          got.0,
          λ i q.
              ap (λ m. m (r + i)) (got.1 ∙ back)
              ∙ freebsd2linux_sockaddr-Written p.memory bytes t l pf r n f two short w o' i q,
        )
