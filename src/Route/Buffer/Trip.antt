-- ===== src/Route/Buffer/Trip.antt =====
-- What `rtsock_msg_buffer` writes, `rt_xaddrs` reads back (bsd/lib/lazybsd_route.c).
use lazybsd.Prelude.{
  ℕ, ◌+◌, ◌≤◌, ◌<◌, ◌≡◌, refl, ◌⊎◌, inl, inr, Bool, true, false, not, none, some, arith, is_some,
}
use lazybsd.Sock.Address.{Memory}
use lazybsd.Route.{Kernel, IsKernel, Info}
use lazybsd.Route.Xaddrs.{rt_xaddrs}
use lazybsd.Route.Buffer.Sizes.{written_end}
use lazybsd.Route.Buffer.{
  Headers, Walkarg, header_size, addr_loop, start, padded, rtsock_msg_buffer,
}
use lazybsd.Route.Buffer.Reads.{AreSources, IsCopy, Now, loop-Reads}

is_some-not : (b : Bool) → not b ≡ false → b ≡ true
is_some-not true h = refl
is_some-not false h = cc

-- What `rtsock_msg_buffer` writes without an error, `rt_xaddrs` reads back: for each bit of an address it finds
-- one with the same bytes, and none for the others. Every address has a length of 2 or more,
-- is none of IPv6, and is outside the buffer.
pub rt_xaddrs-rtsock_msg_buffer :
    (k : Kernel) (h : Headers) (type : ℕ) (info : Info) (w : Walkarg) (m : Memory)
    → IsKernel k
    → AreSources k info w.w_tmem (w.w_tmem + w.w_tmemsize) m
    → (rtsock_msg_buffer k h type info (some w) m).enobufs ≡ false
    → let t = rtsock_msg_buffer k h type info (some w) m in
      let r =
        rt_xaddrs k
          (w.w_tmem + header_size h type (some w))
          (w.w_tmem + t.plen)
          t.addrs
          t.memory
          (λ j. none) in
      (r.ok ≡ true)
      × (r.memory ≡ t.memory)
      × ((j : ℕ) → j < k.rtax_max → IsCopy k m t.memory (info j) (r.info j))
unfolding rtsock_msg_buffer rt_xaddrs
rt_xaddrs-rtsock_msg_buffer k h type info w m law src good =
    let begin = start h type (some w) m in
    let f = addr_loop k.rtax_max 0 k info begin in
    let u = padded k f.cp f in
    let far = λ (j p : ℕ) (e : info j ≡ some p). before j p (src.apart j p e) in
    let x = written_end k h type info w m law far in
    let y = x.2 (is_some-not (is_some u.cp) good) in
    let now : Now k law info w.w_tmem (w.w_tmem + w.w_tmemsize) m src (w.w_tmem + u.len) y.0 y.2
        (omega (arith, y.2, y.3)) f y.1 k.rtax_max 0 (w.w_tmem + header_size h type (some w))
        begin =
      record {
        at = refl;
        from = omega arith;
        clean = λ j le. refl;
        kept = λ z out. refl;
        run = refl;
      } in
    let r =
      loop-Reads k law info w.w_tmem (w.w_tmem + w.w_tmemsize) m src (w.w_tmem + u.len) y.0 y.2
        (omega (arith, y.2, y.3)) f y.1 k.rtax_max 0 (w.w_tmem + header_size h type (some w)) begin
        (λ j. none) now (λ j le. refl) in
    rw (x.0, x.1) (r.ok, r.memory, λ j lt. r.copies j (omega arith) (omega (arith, lt)))
  where
    before :
        (j p : ℕ)
        → (p + k.sa_size (m p) ≤ w.w_tmem) ⊎ (w.w_tmem + w.w_tmemsize ≤ p)
        → (p < w.w_tmem) ⊎ (w.w_tmem + w.w_tmemsize ≤ p)
    before j p (inl a) = let size = (law.size (m p)).1 in inl (omega (arith, a, size))
    before j p (inr a) = inr a
