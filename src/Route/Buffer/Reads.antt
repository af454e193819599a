-- ===== src/Route/Buffer/Reads.antt =====
-- The loop of `rt_xaddrs` on what the loop of `rtsock_msg_buffer` wrote, bsd/lib/lazybsd_route.c.
use lazybsd.Prelude.{
  ℕ, zero, suc, ◌+◌, ◌≤◌, ◌<◌, ◌≡◌, ◌≢◌, refl, ap, sym, ◌∙◌, ◌⊎◌, inl, inr, true, false, not, ◌&&◌,
  Option, none, some, ltb, ◌==◌, update, arith, if_true, if_false, if_cases, Bool-cases,
  Option-cases, ==_refl,
}
use mathlib.Core.Path.{subst}
use lazybsd.Sock.Address.{Memory}
use lazybsd.Route.{Kernel, IsKernel, Info}
use lazybsd.Route.Bytes.{write, write_off, write_in}
use lazybsd.Route.Xaddrs.{Parsed, xaddrs_loop}
use lazybsd.Route.Buffer.{Writing, bytes_of, put_addr, addr_loop}
use lazybsd.Route.Buffer.Runs.{addr_loop-some, put_addr-some, plain_bytes, Ran, addr_loop-Ran}

-- The addresses that are written: they have a length and a family, which is not that of IPv6, whose scope is
-- changed on the way, and lie outside the bytes from `lo` to `hi`.
pub record AreSources (k : Kernel) (info : Info) (lo hi : ℕ) (m : Memory) : Type 0 where
  pub length : (j p : ℕ) → info j ≡ some p → 2 ≤ m p
  pub family : (j p : ℕ) → info j ≡ some p → m (p + 1) ≢ k.af_inet6
  pub apart : (j p : ℕ) → info j ≡ some p → (p + k.sa_size (m p) ≤ lo) ⊎ (hi ≤ p)

-- What is read for a bit: an address with the same bytes, if there was one.
abbrev pub IsCopy : Kernel → (m n : Memory) → Option ℕ → Option ℕ → Type 0
IsCopy k m n none q = q ≡ none
IsCopy k m n (some p) q =
    (a : ℕ) × (q ≡ some a) × ((x : ℕ) → x < k.sa_size (m p) → n (a + x) ≡ m (p + x))

module _ (k : Kernel) (law : IsKernel k) (info : Info) (lo hi : ℕ) (m : Memory)
    (src : AreSources k info lo hi m) (cplim e : ℕ) (inside : e ≤ cplim) (below : e ≤ hi)
    (f : Writing) (ended : f.cp ≡ some e) where
  pub record Reads (n i : ℕ) (old : Info) (r : Parsed) : Type 0 where
    pub ok : r.ok ≡ true
    pub memory : r.memory ≡ f.memory
    pub before : (j : ℕ) → j < i → r.info j ≡ old j
    pub copies : (j : ℕ) → i ≤ j → j < i + n → IsCopy k m f.memory (info j) (r.info j)

  -- What is known of the state before the bit `i`
  pub record Now (n i c : ℕ) (t : Writing) : Type 0 where
    pub at : t.cp ≡ some c
    pub from : lo ≤ c
    pub clean : (j : ℕ) → i ≤ j → t.addrs j ≡ false
    pub kept : (x : ℕ) → (x < lo) ⊎ (hi ≤ x) → t.memory x ≡ m x
    pub run : addr_loop n i k info t ≡ f

  Now-Ran : (n i c : ℕ) (t : Writing) → Now n i c t → Ran k info n i c e t f
  Now-Ran n i c t h =
      subst (λ x. Ran k info n i c e t x) h.run
        (addr_loop-Ran k law n i c e info t h.at (ap (λ (x : Writing). x.cp) h.run ∙ ended))

  IsCopy-none : (o : Option ℕ) → (q : Option ℕ) → o ≡ none → q ≡ none → IsCopy k m f.memory o q
  IsCopy-none none q a b = b
  IsCopy-none (some p) q a b = cc

  -- Nothing is read where nothing more was written.
  rest-Reads :
      (n i : ℕ) (old : Info)
      → ((j p : ℕ) → i ≤ j → j < i + n → info j ≡ some p → ⊥)
      → ((j : ℕ) → i ≤ j → old j ≡ none)
      → Reads n i old (record { ok = true; memory = f.memory; info = old })
  rest-Reads n i old nothing fresh = record {
    ok = refl;
    memory = refl;
    before = λ j l. refl;
    copies = λ j l r. elim (Option-cases (info j)) [
      | inl none_here ↦ IsCopy-none (info j) (old j) none_here (fresh j l)
      | inr there ↦ absurd (nothing j there.0 l r there.1)
    ];
  }

  skip-Reads :
      (n i : ℕ) (old : Info) (r : Parsed)
      → info i ≡ none
      → old i ≡ none
      → Reads n (i + 1) old r
      → Reads (suc n) i old r
  skip-Reads n i old r is fresh h = record {
    ok = h.ok;
    memory = h.memory;
    before = λ j l. h.before j (omega (arith, l));
    copies = λ j l b. elim (Bool-cases (j == i)) [
      | inl here ↦
          let same : j ≡ i = ground arith in
          IsCopy-none (info j) (r.info j) (ap info same ∙ is)
            (ap r.info same ∙ h.before i (omega arith) ∙ fresh)
      | inr above ↦ h.copies j (ground arith) (omega (arith, b))
    ];
  }

  copy-Reads :
      (n i p c : ℕ) (old : Info) (r : Parsed)
      → info i ≡ some p
      → ((x : ℕ) → x < k.sa_size (m p) → f.memory (c + x) ≡ m (p + x))
      → Reads n (i + 1) (update old i (some c)) r
      → Reads (suc n) i old r
  copy-Reads n i p c old r is bytes h = record {
    ok = h.ok;
    memory = h.memory;
    before = λ j l. h.before j (omega (arith, l)) ∙ if_false (some c) (old j) (ground arith);
    copies = λ j l b. elim (Bool-cases (j == i)) [
      | inl here ↦
          let same : i ≡ j = ground arith in
          let found : r.info i ≡ some c =
            h.before i (omega arith) ∙ if_true (some c) (old i) (==_refl i) in
          subst (λ j. IsCopy k m f.memory (info j) (r.info j)) same (rw is (c, found, bytes))
      | inr above ↦ h.copies j (ground arith) (omega (arith, b))
    ];
  }

  -- The state behind an address that was written, and its bytes at the end
  put-Now :
      (n i p c : ℕ) (t : Writing)
      → info i ≡ some p
      → Now (suc n) i c t
      → addr_loop n (i + 1) k info (put_addr k i (some p) t) ≡ f
      → let c' = c + k.sa_size (m p) in
        Now n (i + 1) c' (put_addr k i (some p) t)
        × (c' ≤ e)
        × (f.addrs i ≡ true)
        × ((x : ℕ) → x < k.sa_size (m p) → f.memory (c + x) ≡ m (p + x))
  unfolding put_addr
  put-Now n i p c t is h run =
      let u = put_addr k i (some p) t in
      let s = addr_loop-some k n (i + 1) e info u (ap (λ (x : Writing). x.cp) run ∙ ended) in
      let r = put_addr-some k i p c s.0 t h.at s.1 in
      let start = src.apart i p is in
      let long = src.length i p is in
      let size = (law.size (m p)).0 in
      let p_kept : t.memory p ≡ m p = h.kept p (outside p start (omega (arith, long, size))) in
      let same_size : k.sa_size (t.memory p) ≡ k.sa_size (m p) = ap k.sa_size p_kept in
      let ran =
        subst (λ x. Ran k info n (i + 1) s.0 e u x) run
          (addr_loop-Ran k law n (i + 1) s.0 e info u s.1
            (ap (λ (x : Writing). x.cp) run ∙ ended)) in
      let d = k.sa_size (m p) in
      let to : s.0 ≡ c + d = r.0 ∙ ap (λ x. c + x) same_size in
      let family : t.memory (p + 1) ≡ m (p + 1) =
        h.kept (p + 1) (outside (p + 1) start (omega (arith, long, size))) in
      let bytes = bytes_of k t.memory p in
      let plain : (x : ℕ) → bytes x ≡ t.memory (p + x) = λ x.
        ap (λ (g : ℕ → ℕ). g x)
          (plain_bytes k t.memory p (λ same. src.family i p is (sym family ∙ same))) in
      let written : u.memory ≡ write t.memory c d bytes =
        r.1 ∙ ap (λ n. write t.memory c n bytes) same_size in
      let within : c + d ≤ e = omega (arith, ran.le, to) in
      (
        record {
          at = s.1 ∙ ap some to;
          from = omega (arith, h.from);
          clean = λ j le. if_false true (t.addrs j) (ground arith) ∙ h.clean j (omega (arith, le));
          kept = λ x out.
              ap (λ (y : Memory). y x) written
              ∙ write_off t.memory c d x bytes
                  (off x out (omega (arith, h.from), omega (arith, within, below)))
              ∙ h.kept x out;
          run = run;
        },
        within,
        ran.bits i (omega arith) ∙ if_true true (t.addrs i) (==_refl i),
        λ x lt.
            ran.low (c + x) (omega (arith, lt, to))
            ∙ ap (λ (y : Memory). y (c + x)) written
            ∙ write_in t.memory c d x bytes lt
            ∙ plain x
            ∙ h.kept (p + x) (outside (p + x) start (omega (arith, lt))),
      )
    where
      off :
          (x : ℕ)
          → (x < lo) ⊎ (hi ≤ x)
          → (lo ≤ c) × (c + k.sa_size (m p) ≤ hi)
          → (x < c) ⊎ (c + k.sa_size (m p) ≤ x)
      off x (inl a) b = inl (omega (arith, a, b))
      off x (inr a) b = inr (omega (arith, a, b))

      outside :
          (x : ℕ)
          → (p + k.sa_size (m p) ≤ lo) ⊎ (hi ≤ p)
          → (p ≤ x) × (x < p + k.sa_size (m p))
          → (x < lo) ⊎ (hi ≤ x)
      outside x (inl a) b = inl (omega (arith, a, b))
      outside x (inr a) b = inr (omega (arith, a, b))

  skip-Now :
      (n i c : ℕ) (t : Writing)
      → info i ≡ none
      → Now (suc n) i c t
      → addr_loop n (i + 1) k info t ≡ f
      → Now n (i + 1) c t
  skip-Now n i c t is h run = record {
    at = h.at;
    from = h.from;
    clean = λ j le. h.clean j (omega (arith, le));
    kept = h.kept;
    run = run;
  }

  pub loop-Reads :
      (n i c : ℕ) (t : Writing) (old : Info)
      → Now n i c t
      → ((j : ℕ) → i ≤ j → old j ≡ none)
      → Reads n i old (xaddrs_loop n i c cplim k f.addrs f.memory old)
  unfolding xaddrs_loop addr_loop put_addr
  loop-Reads zero i c t old h fresh =
      rest-Reads 0 i old (λ j p l r g. absurd (omega (arith, l, r))) fresh
  loop-Reads (suc n) i c t old h fresh =
      by_info (info i) refl h.run (λ c' u old' now clean. loop-Reads n (i + 1) c' u old' now clean)
    where
      P : Parsed → Type 0
      P r = Reads (suc n) i old r

      later : (j : ℕ) → i + 1 ≤ j → old j ≡ none
      later j le = fresh j (omega (arith, le))

      by_info :
          (o : Option ℕ)
          → info i ≡ o
          → addr_loop n (i + 1) k info (put_addr k i o t) ≡ f
          → ((c' : ℕ) (u : Writing) (old' : Info)
              → Now n (i + 1) c' u
              → ((j : ℕ) → i + 1 ≤ j → old' j ≡ none)
              → Reads n (i + 1) old' (xaddrs_loop n (i + 1) c' cplim k f.addrs f.memory old'))
          → Reads (suc n) i old (xaddrs_loop (suc n) i c cplim k f.addrs f.memory old)
      by_info none is run ih =
          let now = skip-Now n i c t is h run in
          let whole = Now-Ran (suc n) i c t h in
          let ran = Now-Ran n (i + 1) c t now in
          let unset : f.addrs i ≡ false = ran.bits i (omega arith) ∙ h.clean i (omega arith) in
          let rest =
            skip-Reads n i old (xaddrs_loop n (i + 1) c cplim k f.addrs f.memory old) is
              (fresh i (omega arith)) (ih c t old now later) in
          if_cases (λ r. Reads (suc n) i old r) (not (ltb c cplim))
            (λ stop.
              rest-Reads (suc n) i old
                (λ j p l r g. let lt = whole.more j p l r g in absurd (ended_here stop lt)) fresh)
            (λ go. rw unset rest)
        where
          ended_here : not (ltb c cplim) ≡ true → c < e → ⊥
          ended_here stop lt =
              let ge : cplim ≤ c = ground arith in absurd (omega (arith, ge, lt, inside))
      by_info (some p) is run ih =
          let x = put-Now n i p c t is h run in
          let size = (law.size (m p)).0 in
          let long = src.length i p is in
          let first : f.memory c ≡ m p =
            ap f.memory (omega arith) ∙ x.3 0 (omega (arith, long, size)) ∙ ap m (omega arith) in
          let second : f.memory (c + 1) ≡ m (p + 1) = x.3 1 (omega (arith, long, size)) in
          let same : k.sa_size (f.memory c) ≡ k.sa_size (m p) = ap k.sa_size first in
          let not_inet6 = src.family i p is in
          let plain : (k.with_inet6 && f.memory (c + 1) == k.af_inet6) ≡ false =
            no_inet6 (f.memory (c + 1)) (λ g. not_inet6 (sym second ∙ g)) in
          let goes_on : not (ltb c cplim) ≡ false =
            before_end (omega (arith, x.1, inside, long, size)) in
          let fits : ltb cplim (c + f.memory c) ≡ false =
            within_end (omega (arith, x.1, inside, first, size)) in
          let has_length : (f.memory c == 0) ≡ false = positive (omega (arith, first, long)) in
          rw (goes_on, x.2, fits, has_length, plain, same)
            (copy-Reads n i p c old
              (xaddrs_loop n (i + 1) (c + k.sa_size (m p)) cplim k f.addrs f.memory
                (update old i (some c)))
              is x.3
              (ih (c + k.sa_size (m p)) (put_addr k i (some p) t) (update old i (some c)) x.0
                (λ j le. if_false (some c) (old j) (ground arith) ∙ later j le)))
        where
          no_inet6 : (v : ℕ) → v ≢ k.af_inet6 → (k.with_inet6 && v == k.af_inet6) ≡ false
          no_inet6 v other = ground arith

          before_end : c < cplim → not (ltb c cplim) ≡ false
          before_end lt = ground arith

          within_end : c + f.memory c ≤ cplim → ltb cplim (c + f.memory c) ≡ false
          within_end le = ground arith

          positive : 1 ≤ f.memory c → (f.memory c == 0) ≡ false
          positive le = ground arith
