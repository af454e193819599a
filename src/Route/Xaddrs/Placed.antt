-- ===== src/Route/Xaddrs/Placed.antt =====
-- `rt_xaddrs` of bsd/lib/lazybsd_route.c gives only addresses that lie in the message, one behind the other.
use lazybsd.Prelude.{
  ℕ, zero, suc, ◌+◌, ◌≤◌, ◌<◌, ◌≡◌, refl, ap, sym, ◌∙◌, ◌⊎◌, inl, inr, Bool, true, false, not, ◌&&◌,
  none, some, ltb, ◌==◌, update, arith, if_cases, if_true, if_false, ==_refl,
}
use lazybsd.Sock.Address.{Memory}
use lazybsd.Route.{Kernel, IsKernel, Bits, Info}
use lazybsd.Route.Xaddrs.{Parsed, embedded, xaddrs_loop, rt_xaddrs}

-- An address of the message from `cp` to `cplim`: a bit asks for it, and it lies there, or is `sa_zero`.
abbrev pub Lies : Kernel → (cp cplim : ℕ) → Bits → Memory → (j p : ℕ) → Type 0
Lies k cp cplim addrs m j p = (addrs j ≡ true) × ((p ≡ k.sa_zero) ⊎ ((cp ≤ p) × (p + m p ≤ cplim)))

-- Every address from `i` on lies in the message, and behind the addresses of lower bits.
pub record Placed (k : Kernel) (i cp cplim : ℕ) (addrs : Bits) (m : Memory) (info : Info)
    (r : Parsed) : Type 0 where
  pub before : (j : ℕ) → j < i → r.info j ≡ info j
  pub kept : (x : ℕ) → x < cp → r.memory x ≡ m x
  pub lies : (j p : ℕ) → i ≤ j → r.info j ≡ some p → Lies k cp cplim addrs r.memory j p
  pub order :
      (j l p q : ℕ)
      → i ≤ j
      → j < l
      → r.info j ≡ some p
      → r.info l ≡ some q
      → (q ≡ k.sa_zero) ⊎ (p + r.memory p ≤ q)

-- No address yet, from `i` on
abbrev Clean : ℕ → Info → Type 0
Clean i info = (j : ℕ) → i ≤ j → info j ≡ none

some-eq_none : {p : ℕ} → some p ≡ none → ⊥
some-eq_none h = cc

module _ (k : Kernel) (cplim : ℕ) (addrs : Bits) (i cp : ℕ) (m : Memory) (info : Info)
    (clean : Clean i info) where
  stop-Placed :
      (ok : Bool) → Placed k i cp cplim addrs m info (record { ok = ok; memory = m; info = info })
  stop-Placed ok = record {
    before = λ j lt. refl;
    kept = λ x lt. refl;
    lies = λ j p le e. absurd (some-eq_none (sym e ∙ clean j le));
    order = λ j l p q le lt e f. absurd (some-eq_none (sym e ∙ clean j le));
  }

  at_i : (p : ℕ) → update info i (some p) i ≡ some p
  at_i p = if_true (some p) (info i) (==_refl i)

  above_i : (p j : ℕ) → i < j → update info i (some p) j ≡ none
  above_i p j lt = if_false (some p) (info j) (ground arith) ∙ clean j (omega arith)

  below_i : (p j : ℕ) → j < i → update info i (some p) j ≡ info j
  below_i p j lt = if_false (some p) (info j) (ground arith)

  same_or_above : (j : ℕ) → i ≤ j → (j ≡ i) ⊎ (i < j)
  same_or_above j le = ground arith

  some_inj : (p q : ℕ) → some p ≡ some q → p ≡ q
  some_inj p q h = ground arith

  zero-Placed :
      addrs i ≡ true
      → Placed k i cp cplim addrs m info
          (record { ok = true; memory = m; info = update info i (some k.sa_zero) })
  zero-Placed asked = record {
    before = λ j lt. below_i k.sa_zero j lt;
    kept = λ x lt. refl;
    lies = λ j p le e. elim (same_or_above j le) [
      | inl same ↦ (
        ap addrs same ∙ asked,
        inl (
            sym (
              some_inj k.sa_zero p
                (sym (at_i k.sa_zero) ∙ ap (update info i (some k.sa_zero)) (sym same) ∙ e))),
      )
      | inr above ↦ absurd (some-eq_none (sym e ∙ above_i k.sa_zero j above))
    ];
    order = λ j l p q le lt e f.
        absurd (some-eq_none (sym f ∙ above_i k.sa_zero l (omega (arith, le, lt))));
  }

  skip-Placed :
      (r : Parsed) → Placed k (i + 1) cp cplim addrs m info r → Placed k i cp cplim addrs m info r
  skip-Placed r h = record {
    before = λ j lt. h.before j (omega (arith, lt));
    kept = h.kept;
    lies = λ j p le e. elim (same_or_above j le) [
      | inl same ↦ absurd (nothing j p same e)
      | inr above ↦ h.lies j p (omega (arith, above)) e
    ];
    order = λ j l p q le lt e f. elim (same_or_above j le) [
      | inl same ↦ absurd (nothing j p same e)
      | inr above ↦ h.order j l p q (omega (arith, above)) lt e f
    ];
  }
    where
      nothing : (j p : ℕ) → j ≡ i → r.info j ≡ some p → ⊥
      nothing j p same e =
          some-eq_none (sym e ∙ ap r.info same ∙ h.before i (omega arith) ∙ clean i (omega arith))

  embedded-kept : IsKernel k → (x : ℕ) → x < cp + 8 → embedded k m cp x ≡ m x
  embedded-kept law x lt =
      if_cases (λ (t : Memory). t x ≡ m x) (k.with_inet6 && m (cp + 1) == k.af_inet6)
        (λ e. law.embeds m cp x lt) (λ e. refl)

  next-Placed :
      IsKernel k
      → (r : Parsed) → addrs i ≡ true
      → cp + m cp ≤ cplim
      → Placed k
          (i + 1)
          (cp + k.sa_size (m cp))
          cplim
          addrs
          (embedded k m cp)
          (update info i (some cp))
          r
      → Placed k i cp cplim addrs m info r
  next-Placed law r asked fits h = record {
    before = λ j lt. h.before j (omega (arith, lt)) ∙ below_i cp j lt;
    kept = λ x lt. h.kept x (omega (arith, lt)) ∙ embedded-kept law x (omega (arith, lt));
    lies = λ j p le e. elim (same_or_above j le) [
      | inl same ↦
          let p_eq = place j p same e in
          (
            ap addrs same ∙ asked,
            inr (omega (arith, p_eq), omega (arith, p_eq, fits, length_at p p_eq)),
          )
      | inr above ↦
          let l = h.lies j p (omega (arith, above)) e in
          (l.0, elim l.1 [ inl z ↦ inl z | inr inside ↦ inr (omega (arith, inside.0), inside.1) ])
    ];
    order = λ j l p q le lt e f. elim (same_or_above j le) [
      | inl same ↦
          let p_eq = place j p same e in
          elim (h.lies l q (omega (arith, le, lt)) f).1 [
            | inl z ↦ inl z
            | inr inside ↦
                inr (omega (arith, inside.0, (law.size (m cp)).0, p_eq, length_at p p_eq))
          ]
      | inr above ↦ h.order j l p q (omega (arith, above)) lt e f
    ];
  }
    where
      size : 1 ≤ k.sa_size (m cp)
      size = (law.size (m cp)).1

      place : (j p : ℕ) → j ≡ i → r.info j ≡ some p → p ≡ cp
      place j p same e = some_inj p cp (sym e ∙ ap r.info same ∙ h.before i (omega arith) ∙ at_i cp)

      length_at : (p : ℕ) → p ≡ cp → r.memory p ≡ m cp
      length_at p e =
          ap r.memory e ∙ h.kept cp (omega (arith, size)) ∙ embedded-kept law cp (omega arith)

xaddrs_loop-Placed :
    (k : Kernel)
    → IsKernel k
    → (cplim : ℕ) (addrs : Bits) (rounds i cp : ℕ) (m : Memory) (info : Info) → Clean i info
    → Placed k i cp cplim addrs m info (xaddrs_loop rounds i cp cplim k addrs m info)
unfolding xaddrs_loop
xaddrs_loop-Placed k law cplim addrs zero i cp m info clean =
    stop-Placed k cplim addrs i cp m info clean true
xaddrs_loop-Placed k law cplim addrs (suc rounds) i cp m info clean =
    let P = λ (r : Parsed). Placed k i cp cplim addrs m info r in
    let stop = stop-Placed k cplim addrs i cp m info clean in
    let skip =
      skip-Placed k cplim addrs i cp m info clean
        (xaddrs_loop rounds (i + 1) cp cplim k addrs m info)
        (xaddrs_loop-Placed k law cplim addrs rounds (i + 1) cp m info
          (λ j le. clean j (omega (arith, le)))) in
    let m' = embedded k m cp in
    let info' = update info i (some cp) in
    let cp' = cp + k.sa_size (m cp) in
    let next =
      xaddrs_loop-Placed k law cplim addrs rounds (i + 1) cp' m' info'
        (λ j le. above_i k cplim addrs i cp m info clean cp j (omega (arith, le))) in
    if_cases P (not (ltb cp cplim)) (λ e. stop true)
      (λ e.
        if_cases P (not (addrs i)) (λ e. skip)
          (λ asked.
            if_cases P (ltb cplim (cp + m cp)) (λ e. stop false)
              (λ fits.
                if_cases P (m cp == 0)
                  (λ e. zero-Placed k cplim addrs i cp m info clean (ground arith))
                  (λ e.
                    next-Placed k cplim addrs i cp m info clean law
                      (xaddrs_loop rounds (i + 1) cp' cplim k addrs m' info') (ground arith)
                      (ground arith) next))))

-- What `rt_xaddrs` gives, also where it fails: each address belongs to a bit that is set, and lies with its
-- whole length in the message, or it is `sa_zero`; it lies behind the addresses of lower bits. Memory in front of
-- the message is not written. At the start there are no addresses.
pub rt_xaddrs-Placed :
    (k : Kernel) (cp cplim : ℕ) (addrs : Bits) (m : Memory)
    → IsKernel k
    → Placed k 0 cp cplim addrs m (λ j. none) (rt_xaddrs k cp cplim addrs m (λ j. none))
unfolding rt_xaddrs
rt_xaddrs-Placed k cp cplim addrs m law =
    xaddrs_loop-Placed k law cplim addrs k.rtax_max 0 cp m (λ j. none) (λ j le. refl)
