-- ===== src/Route/Buffer/Sizes.antt =====
-- The two passes of `rtsock_msg_buffer` of bsd/lib/lazybsd_route.c agree: what is measured is what is needed.
use lazybsd.Prelude.{
  ℕ, zero, suc, ◌+◌, ◌-◌, ◌≤◌, ◌<◌, ◌≡◌, refl, ap, sym, ◌∙◌, ◌⊎◌, inl, inr, Bool, true, false, not,
  ◌&&◌, Option, none, some, ltb, leb, update, arith, if_false, Bool-cases, ℤ, pos, pos_part,
  neg_part, ltb_ℤ, -ℤ_parts, is_some,
}
use mathlib.Core.Path.{subst}
use lazybsd.Sock.Address.{Memory}
use lazybsd.Route.{Kernel, IsKernel, Info}
use lazybsd.Route.Buffer.{
  Headers, Walkarg, header_size, Writing, bytes_of, copied, put_addr, addr_loop, start, padded,
  header_for, rtsock_msg_buffer,
}

-- What `cp` and `buflen` say with `len` bytes counted: where the next byte goes and how many are left; or that
-- the buffer is too small.
abbrev Counts : Walkarg → Option ℕ → (len : ℕ) → (buflen : ℤ) → Type 0
Counts w none len b = w.w_tmemsize < len
Counts w (some cp) len b = (cp ≡ w.w_tmem + len) × (pos_part b + len ≡ w.w_tmemsize + neg_part b)

-- No address begins in the part of the buffer that is written.
abbrev pub Apart : (lo hi : ℕ) → Info → Type 0
Apart lo hi info = (j p : ℕ) → info j ≡ some p → (p < lo) ⊎ (hi ≤ p)

module _ (k : Kernel) (w : Walkarg) (lo : ℕ) (m : Memory) where
  -- The state of the pass that measures, and of the one that writes
  record Tracks (s t : Writing) : Type 0 where
    measures : s.cp ≡ none
    untouched : s.memory ≡ m
    len : t.len ≡ s.len
    addrs : t.addrs ≡ s.addrs
    behind : lo ≤ w.w_tmem + t.len
    counts : Counts w t.cp t.len t.buflen
    outside : (x : ℕ) → (x < lo) ⊎ (w.w_tmem + w.w_tmemsize ≤ x) → t.memory x ≡ m x

  copied-Counts :
      (sa dlen : ℕ) (c : Option ℕ) (t : Writing)
      → t.cp ≡ c
      → lo ≤ w.w_tmem + t.len
      → Counts w c t.len t.buflen
      → let u = copied k sa dlen c t in
        Counts w u.cp (t.len + dlen) u.buflen
        × ((x : ℕ) → (x < lo) ⊎ (w.w_tmem + w.w_tmemsize ≤ x) → u.memory x ≡ t.memory x)
  copied-Counts sa dlen none t e le h = (rw e (omega (arith, h)), λ x out. refl)
  copied-Counts sa dlen (some cp) t e le h = elim (Bool-cases (ltb_ℤ t.buflen (pos dlen))) [
    | inl small ↦
        let lt : pos_part t.buflen + 0 < dlen + neg_part t.buflen = ground arith in
        rw small (omega (arith, h.1, lt), λ x out. refl)
    | inr large ↦
        let ge : dlen + neg_part t.buflen ≤ pos_part t.buflen + 0 = ground arith in
        let parts = -ℤ_parts t.buflen (pos dlen) in
        rw large (
          (omega (arith, h.0), omega (arith, h.1, parts)),
          λ x out.
              if_false (bytes_of k t.memory sa (x - cp)) (t.memory x)
                (apart x out (omega (arith, h.0, h.1, ge, le))),
        )
  ]
    where
      apart :
          (x : ℕ)
          → (x < lo) ⊎ (w.w_tmem + w.w_tmemsize ≤ x)
          → (lo ≤ cp) × (cp + dlen ≤ w.w_tmem + w.w_tmemsize)
          → (leb cp x && ltb x (cp + dlen)) ≡ false
      apart x out b = ground arith

  put_addr-Tracks :
      (i : ℕ) (o : Option ℕ) (s t : Writing)
      → ((p : ℕ) → o ≡ some p → (p < lo) ⊎ (w.w_tmem + w.w_tmemsize ≤ p))
      → Tracks s t
      → Tracks (put_addr k i o s) (put_addr k i o t)
  unfolding put_addr
  put_addr-Tracks i none s t far h = h
  put_addr-Tracks i (some sa) s t far h =
      let same : t.memory sa ≡ s.memory sa =
        h.outside sa (far sa refl) ∙ ap (λ (x : Memory). x sa) (sym h.untouched) in
      let size : k.sa_size (t.memory sa) ≡ k.sa_size (s.memory sa) = ap k.sa_size same in
      let c = copied-Counts sa (k.sa_size (t.memory sa)) t.cp t refl h.behind h.counts in
      record {
        measures = rw h.measures refl;
        untouched = rw h.measures h.untouched;
        len = omega (arith, h.len, size);
        addrs = ap (λ f. update f i true) h.addrs;
        behind = omega (arith, h.behind);
        counts = c.0;
        outside = λ x out. c.1 x out ∙ h.outside x out;
      }

  addr_loop-Tracks :
      (rounds i : ℕ) (info : Info) (s t : Writing)
      → Apart lo (w.w_tmem + w.w_tmemsize) info
      → Tracks s t
      → Tracks (addr_loop rounds i k info s) (addr_loop rounds i k info t)
  unfolding addr_loop
  addr_loop-Tracks zero i info s t far h = h
  addr_loop-Tracks (suc rounds) i info s t far h =
      addr_loop-Tracks rounds (i + 1) info (put_addr k i (info i) s) (put_addr k i (info i) t) far
        (put_addr-Tracks i (info i) s t (far i) h)

  padded-Counts :
      IsKernel k
      → (c : Option ℕ) (t : Writing) → t.cp ≡ c
      → Counts w c t.len t.buflen
      → let u = padded k c t in
        (u.len ≡ k.align t.len)
        × (u.memory ≡ t.memory)
        × (u.addrs ≡ t.addrs)
        × (not (is_some u.cp) ≡ ltb w.w_tmemsize (k.align t.len))
  padded-Counts law none t e h =
      let ge = law.aligned t.len in (refl, refl, refl, rw e (ground arith))
  padded-Counts law (some cp) t e h =
      elim (Bool-cases (ltb_ℤ t.buflen (pos (k.align t.len - t.len)))) [
        | inl small ↦
            let lt : pos_part t.buflen + 0 < (k.align t.len - t.len) + neg_part t.buflen =
              ground arith in
            let ge = law.aligned t.len in
            let no : w.w_tmemsize < k.align t.len = omega (arith, h.1, lt, ge) in
            rw small (refl, refl, refl, ground arith)
        | inr large ↦
            let le : (k.align t.len - t.len) + neg_part t.buflen ≤ pos_part t.buflen + 0 =
              ground arith in
            let ge = law.aligned t.len in
            let enough : k.align t.len ≤ w.w_tmemsize = omega (arith, h.1, le, ge) in
            rw large (refl, refl, refl, rw e (ground arith))
      ]

header_for-some :
    (h : Headers) (type len : ℕ) (c : Option ℕ) → is_some (header_for h type len c) ≡ is_some c
header_for-some h type len none = refl
header_for-some h type len (some cp) = refl

not-not : (b : Bool) → b ≡ not (not b)
not-not true = refl
not-not false = refl

padded-none :
    (k : Kernel) (c : Option ℕ) (s : Writing)
    → c ≡ none
    → let u = padded k c s in (u.len ≡ k.align s.len) × (u.memory ≡ s.memory) × (u.addrs ≡ s.addrs)
padded-none k none s e = (refl, refl, refl)
padded-none k (some cp) s e = cc

padded-some :
    (k : Kernel) (o : Option ℕ) (t : Writing)
    → t.cp ≡ o
    → is_some (padded k o t).cp ≡ true
    → (e : ℕ) × (o ≡ some e)
padded-some k none t e h =
    let no : is_some {A = ℕ} none ≡ true = ap is_some (sym e) ∙ h in absurd (cc)
padded-some k (some c) t e h = (c, refl)

-- Where a buffer was large enough, writing ended in it.
pub written_end :
    (k : Kernel) (h : Headers) (type : ℕ) (info : Info) (w : Walkarg) (m : Memory)
    → IsKernel k
    → Apart w.w_tmem (w.w_tmem + w.w_tmemsize) info
    → let t = addr_loop k.rtax_max 0 k info (start h type (some w) m) in
      let u = padded k t.cp t in
      (u.memory ≡ t.memory)
      × (u.addrs ≡ t.addrs)
      × (is_some u.cp ≡ true
          → (e : ℕ) × (t.cp ≡ some e) × (e ≤ w.w_tmem + u.len) × (u.len ≤ w.w_tmemsize))
written_end k h type info w m law far =
    let t = start h type (some w) m in
    let parts = -ℤ_parts (pos w.w_tmemsize) (pos (header_size h type (some w))) in
    let begin : Tracks k w w.w_tmem m (record t { cp = none }) t = record {
      measures = refl;
      untouched = refl;
      len = refl;
      addrs = refl;
      behind = omega arith;
      counts = (refl, omega (arith, parts));
      outside = λ x out. refl;
    } in
    let r =
      addr_loop-Tracks k w w.w_tmem m k.rtax_max 0 info (record t { cp = none }) t far begin in
    let t' = addr_loop k.rtax_max 0 k info t in
    let p = padded-Counts k w w.w_tmem m law t'.cp t' refl r.counts in
    (
      p.1,
      p.2,
      λ is.
          let s = padded-some k t'.cp t' refl is in
          let at : Counts w (some s.0) t'.len t'.buflen =
            subst (λ o. Counts w o t'.len t'.buflen) s.1 r.counts in
          let enough : ltb w.w_tmemsize (k.align t'.len) ≡ false = sym p.3 ∙ ap not is in
          let ge = law.aligned t'.len in
          let le : k.align t'.len ≤ w.w_tmemsize = ground arith in
          (s.0, s.1, omega (arith, at.0, p.0, ge), omega (arith, p.0, le)),
    )

-- The pass without a buffer measures what the other one needs: that one comes to the same length and bits, it
-- fails if and only if the buffer is smaller than this length, it writes the header only where it does not fail, and
-- nothing outside the buffer. No address begins in the buffer, and the header has the same size in both.
pub rtsock_msg_buffer-measures :
    (k : Kernel) (h : Headers) (type : ℕ) (info : Info) (w : Walkarg) (m : Memory)
    → IsKernel k
    → header_size h type (some w) ≡ header_size h type none
    → Apart w.w_tmem (w.w_tmem + w.w_tmemsize) info
    → let measured = rtsock_msg_buffer k h type info none m in
      let written = rtsock_msg_buffer k h type info (some w) m in
      (measured.enobufs ≡ false)
      × (measured.memory ≡ m)
      × (written.plen ≡ measured.plen)
      × (written.addrs ≡ measured.addrs)
      × (written.enobufs ≡ ltb w.w_tmemsize measured.plen)
      × (is_some written.header ≡ not written.enobufs)
      × ((x : ℕ) → (x < w.w_tmem) ⊎ (w.w_tmem + w.w_tmemsize ≤ x) → written.memory x ≡ m x)
unfolding rtsock_msg_buffer
rtsock_msg_buffer-measures k h type info w m law same far =
    let s = start h type none m in
    let t = start h type (some w) m in
    let parts = -ℤ_parts (pos w.w_tmemsize) (pos (header_size h type (some w))) in
    let begin : Tracks k w w.w_tmem m s t = record {
      measures = refl;
      untouched = refl;
      len = same;
      addrs = refl;
      behind = omega arith;
      counts = (refl, omega (arith, parts));
      outside = λ x out. refl;
    } in
    let r = addr_loop-Tracks k w w.w_tmem m k.rtax_max 0 info s t far begin in
    let s' = addr_loop k.rtax_max 0 k info s in
    let t' = addr_loop k.rtax_max 0 k info t in
    let p = padded-Counts k w w.w_tmem m law t'.cp t' refl r.counts in
    let q = padded-none k s'.cp s' r.measures in
    (
      refl,
      q.1 ∙ r.untouched,
      p.0 ∙ ap k.align r.len ∙ sym q.0,
      p.2 ∙ r.addrs ∙ sym q.2,
      p.3 ∙ ap (ltb w.w_tmemsize) (ap k.align r.len ∙ sym q.0),
      header_for-some h type (padded k t'.cp t').len (padded k t'.cp t').cp
          ∙ not-not (is_some (padded k t'.cp t').cp),
      λ x out. ap (λ (f : Memory). f x) p.1 ∙ r.outside x out,
    )
