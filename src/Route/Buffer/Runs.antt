-- ===== src/Route/Buffer/Runs.antt =====
-- What stands between two places of the loop of `rtsock_msg_buffer`, bsd/lib/lazybsd_route.c.
use lazybsd.Prelude.{
  ℕ, zero, suc, ◌+◌, ◌≤◌, ◌<◌, ◌≡◌, ◌≢◌, refl, ap, sym, ◌∙◌, inl, inr, Bool, true, false, ◌&&◌,
  Option, none, some, ◌==◌, update, arith, if_false, Bool-cases, Option-cases, pos, ltb_ℤ,
}
use lazybsd.Sock.Address.{Memory}
use lazybsd.Route.{Kernel, IsKernel, Info}
use lazybsd.Route.Bytes.{write}
use lazybsd.Route.Buffer.{Writing, bytes_of, copied, put_addr, addr_loop}

some_inj : (a b : ℕ) → some a ≡ some b → a ≡ b
some_inj a b e = ground arith

module _ (k : Kernel) where
  -- An address that was put, where writing went on
  copied-some :
      (p d c c' : ℕ) (o : Option ℕ) (t : Writing)
      → o ≡ some c
      → t.cp ≡ o
      → (copied k p d o t).cp ≡ some c'
      → (c' ≡ c + d) × ((copied k p d o t).memory ≡ write t.memory c d (bytes_of k t.memory p))
  copied-some p d c c' none t e f g = cc
  copied-some p d c c' (some b) t e f g = by_room (ltb_ℤ t.buflen (pos d)) refl (some_inj b c e)
    where
      by_room :
          (r : Bool)
          → ltb_ℤ t.buflen (pos d) ≡ r
          → b ≡ c
          → (c' ≡ c + d)
            × ((copied k p d (some b) t).memory ≡ write t.memory c d (bytes_of k t.memory p))
      by_room true full same = let nothing : none ≡ some c' = sym (rw full refl) ∙ g in cc
      by_room false room same =
          let next : some (b + d) ≡ some c' = sym (rw room refl) ∙ g in
          (
            omega (arith, some_inj (b + d) c' next, same),
            rw room (ap (λ x. write t.memory x d (bytes_of k t.memory p)) same),
          )

  copied-none :
      (p d : ℕ) (o : Option ℕ) (t : Writing) → o ≡ none → t.cp ≡ o → (copied k p d o t).cp ≡ none
  copied-none p d none t e f = f
  copied-none p d (some c) t e f = cc

  put_addr-none : (i : ℕ) (o : Option ℕ) (t : Writing) → t.cp ≡ none → (put_addr k i o t).cp ≡ none
  unfolding put_addr
  put_addr-none i none t e = e
  put_addr-none i (some p) t e = copied-none p (k.sa_size (t.memory p)) t.cp t e refl

  addr_loop-none :
      (n i : ℕ) (info : Info) (t : Writing) → t.cp ≡ none → (addr_loop n i k info t).cp ≡ none
  unfolding addr_loop
  addr_loop-none zero i info t e = e
  addr_loop-none (suc n) i info t e =
      addr_loop-none n (i + 1) info (put_addr k i (info i) t) (put_addr-none i (info i) t e)

  -- Where something is written at the end, it was so before.
  pub addr_loop-some :
      (n i e : ℕ) (info : Info) (t : Writing)
      → (addr_loop n i k info t).cp ≡ some e
      → (c : ℕ) × (t.cp ≡ some c)
  addr_loop-some n i e info t h = elim (Option-cases t.cp) [
    | inl stopped ↦
        let never : none ≡ some e = sym (addr_loop-none n i info t stopped) ∙ h in absurd (cc)
    | inr going ↦ going
  ]

  pub put_addr-some :
      (i p c c' : ℕ) (t : Writing)
      → t.cp ≡ some c
      → (put_addr k i (some p) t).cp ≡ some c'
      → let d = k.sa_size (t.memory p) in
        (c' ≡ c + d)
        × ((put_addr k i (some p) t).memory ≡ write t.memory c d (bytes_of k t.memory p))
        × ((put_addr k i (some p) t).addrs ≡ update t.addrs i true)
  unfolding put_addr
  put_addr-some i p c c' t e g =
      let r = copied-some p (k.sa_size (t.memory p)) c c' t.cp t e refl g in (r.0, r.1, refl)

  write_low : (m : Memory) (c d x : ℕ) (f : ℕ → ℕ) → x < c → write m c d f x ≡ m x
  write_low m c d x f lt = ground arith

  pub plain_bytes :
      (m : Memory) (p : ℕ) → m (p + 1) ≢ k.af_inet6 → bytes_of k m p ≡ (λ j. m (p + j))
  plain_bytes m p other =
      let plain : (k.with_inet6 && m (p + 1) == k.af_inet6) ≡ false = ground arith in rw plain refl

  -- Between `c` and `e` the addresses from `i` on were written.
  pub record Ran (info : Info) (n i c e : ℕ) (t f : Writing) : Type 0 where
    pub le : c ≤ e
    pub more : (j p : ℕ) → i ≤ j → j < i + n → info j ≡ some p → c < e
    pub low : (x : ℕ) → x < c → f.memory x ≡ t.memory x
    pub bits : (j : ℕ) → j < i → f.addrs j ≡ t.addrs j

  Ran-put :
      (info : Info) (n i c c' e : ℕ) (t u f : Writing)
      → c ≤ c'
      → ((p : ℕ) → info i ≡ some p → c < c')
      → ((x : ℕ) → x < c → u.memory x ≡ t.memory x)
      → ((j : ℕ) → j < i → u.addrs j ≡ t.addrs j)
      → Ran info n (i + 1) c' e u f
      → Ran info (suc n) i c e t f
  Ran-put info n i c c' e t u f le lt low bits h = record {
    le = omega (arith, h.le);
    more = λ j p l r g. elim (Bool-cases (j == i)) [
      | inl here ↦
          let same : i ≡ j = ground arith in
          let first = lt p (ap info same ∙ g) in omega (arith, first, h.le)
      | inr above ↦
          let next = h.more j p (ground arith) (omega (arith, r)) g in omega (arith, le, next)
    ];
    low = λ x l. h.low x (omega (arith, l)) ∙ low x l;
    bits = λ j l. h.bits j (omega (arith, l)) ∙ bits j l;
  }

  pub addr_loop-Ran :
      IsKernel k
      → (n i c e : ℕ) (info : Info) (t : Writing) → t.cp ≡ some c
      → (addr_loop n i k info t).cp ≡ some e
      → Ran info n i c e t (addr_loop n i k info t)
  unfolding addr_loop put_addr
  addr_loop-Ran law zero i c e info t g h =
      let same = some_inj c e (sym g ∙ h) in
      record {
        le = omega (arith, same);
        more = λ j p l r f. absurd (omega (arith, l, r));
        low = λ x l. refl;
        bits = λ j l. refl;
      }
  addr_loop-Ran law (suc n) i c e info t g h =
      by_info (info i) refl h (λ c' u g' h'. addr_loop-Ran law n (i + 1) c' e info u g' h')
    where
      by_info :
          (o : Option ℕ)
          → info i ≡ o
          → (addr_loop n (i + 1) k info (put_addr k i o t)).cp ≡ some e
          → ((c' : ℕ) (u : Writing)
              → u.cp ≡ some c'
              → (addr_loop n (i + 1) k info u).cp ≡ some e
              → Ran info n (i + 1) c' e u (addr_loop n (i + 1) k info u))
          → Ran info (suc n) i c e t (addr_loop n (i + 1) k info (put_addr k i o t))
      by_info none is end ih =
          Ran-put info n i c c e t t (addr_loop n (i + 1) k info t) (omega arith)
            (λ p f. absurd (never p f)) (λ x l. refl) (λ j l. refl) (ih c t g end)
        where
          never : (p : ℕ) → info i ≡ some p → ⊥
          never p f = let e : none ≡ some p = sym is ∙ f in cc
      by_info (some p) is end ih =
          let u = put_addr k i (some p) t in
          let s = addr_loop-some n (i + 1) e info u end in
          let r = put_addr-some i p c s.0 t g s.1 in
          let size = (law.size (t.memory p)).1 in
          Ran-put info n i c s.0 e t u (addr_loop n (i + 1) k info u) (omega (arith, r.0))
            (λ p' f. omega (arith, r.0, size))
            (λ x l.
              ap (λ (m : Memory). m x) r.1
              ∙ write_low t.memory c (k.sa_size (t.memory p)) x (bytes_of k t.memory p) l)
            (λ j l. if_false true (t.addrs j) (ground arith)) (ih s.0 u s.1 end)
