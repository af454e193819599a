-- ===== src/Driver/Lcores/Polls.antt =====
-- Each queue has one process that polls it (src/lazybsd_dpdk.cc).
use lazybsd.Prelude.{
  ℕ, zero, suc, ◌+◌, ◌-◌, ◌≤◌, ◌≡◌, refl, ap, sym, ◌∙◌, Bool, true, false, ◌||◌, ◌&&◌, not, Option,
  none, some, if◌then◌else◌, leb, ◌==◌, ◌⊎◌, List, [], ◌∷◌, ◌++◌, count, get_elem?, arith,
  Bool-cases, inl, inr, length,
}
use lazybsd.Driver.Lcores.{
  Setup, LcoreConf, queue_of, with_queue, port_loop, is_empty, init_lcore_conf,
}

abbrev pub is_polled : (port queue : ℕ) → List (ℕ × ℕ) → Bool
is_polled p q [] = false
is_polled p q ((p', q') ∷ l) = (p' == p && q' == q) || is_polled p q l

abbrev pub is_queue : ℕ → Option ℕ → Bool
is_queue q none = false
is_queue q (some q') = q' == q

abbrev pub is_listed : ℕ → List ℕ → Bool
is_listed p [] = false
is_listed p (x ∷ l) = x == p || is_listed p l

module _ (lcore : ℕ) where
  queue_of-absent :
      (i : ℕ) (l : List ℕ) (o : Option ℕ) → count lcore l ≡ 0 → queue_of lcore i l o ≡ o
  unfolding queue_of
  queue_of-absent i [] o h = refl
  queue_of-absent i (x ∷ l) o h =
      let other : (x == lcore) ≡ false = ground arith in
      let none_left : count lcore l ≡ 0 = omega (arith, h) in
      rw other (queue_of-absent (i + 1) l o none_left)

  -- What is found is a place of the lcore.
  queue_of_sound :
      (i k : ℕ) (l : List ℕ) (o : Option ℕ)
      → queue_of lcore i l o ≡ some k
      → (o ≡ some k) ⊎ ((i ≤ k) × (get_elem? l (k - i) ≡ some lcore))
  unfolding queue_of
  queue_of_sound i k [] o h = inl h
  queue_of_sound i k (x ∷ l) o h =
      by_first (x == lcore) refl (λ o' h'. queue_of_sound (i + 1) k l o' h') h
    where
      by_first :
          (b : Bool)
          → (x == lcore) ≡ b
          → ((o' : Option ℕ)
              → queue_of lcore (i + 1) l o' ≡ some k
              → (o' ≡ some k) ⊎ ((i + 1 ≤ k) × (get_elem? l (k - (i + 1)) ≡ some lcore)))
          → queue_of lcore (i + 1) l (if b then some i else o) ≡ some k
          → (o ≡ some k) ⊎ ((i ≤ k) × (get_elem? (x ∷ l) (k - i) ≡ some lcore))
      by_first true here ih h = elim (ih (some i) h) [
        | inl e ↦
            let same : i ≡ k = ground arith in
            let first : k - i ≡ 0 = omega (arith, same) in
            let found : x ≡ lcore = ground arith in
            inr (omega (arith, same), rw first (ap some found))
        | inr e ↦
            let later : k - i ≡ suc (k - (i + 1)) = omega (arith, e.0) in
            inr (omega (arith, e.0), rw later e.1)
      ]
      by_first false other ih h = elim (ih o h) [
        | inl e ↦ inl e
        | inr e ↦
            let later : k - i ≡ suc (k - (i + 1)) = omega (arith, e.0) in
            inr (omega (arith, e.0), rw later e.1)
      ]

  get_elem?-count : (l : List ℕ) (k : ℕ) → get_elem? l k ≡ some lcore → 1 ≤ count lcore l
  get_elem?-count [] k e = ground arith
  get_elem?-count (x ∷ l) zero e = ground arith
  get_elem?-count (x ∷ l) (suc k) e = let rest = get_elem?-count l k e in omega (arith, rest)

  -- The place of an lcore that is in the list once is found.
  queue_of_complete :
      (i k : ℕ) (l : List ℕ) (o : Option ℕ)
      → count lcore l ≤ 1
      → get_elem? l k ≡ some lcore
      → queue_of lcore i l o ≡ some (i + k)
  unfolding queue_of
  queue_of_complete i k [] o h e = ground arith
  queue_of_complete i zero (x ∷ l) o h e =
      let here : (x == lcore) ≡ true = ground arith in
      let none_left : count lcore l ≡ 0 = ground arith in
      rw here (queue_of-absent (i + 1) l (some i) none_left ∙ ap some (omega arith))
  queue_of_complete i (suc k) (x ∷ l) o h e =
      let once = get_elem?-count l k e in
      let other : (x == lcore) ≡ false = ground arith in
      rw other (queue_of_complete (i + 1) k l o (omega (arith, h)) e ∙ ap some (omega arith))

  -- What is polled at the end was polled before, or is the place of the lcore in the list of a port.
  module _ (lists : ℕ → List ℕ) (p q : ℕ) where
    is_polled-append :
        (l : List (ℕ × ℕ)) (p' q' : ℕ)
        → is_polled p q (l ++ (p', q') ∷ []) ≡ (is_polled p q l || (p' == p && q' == q))
    is_polled-append [] p' q' = ground arith
    is_polled-append ((a, b) ∷ l) p' q' = rw (is_polled-append l p' q') (ground arith)

    is_polled-with_queue :
        (port : ℕ) (o : Option ℕ) (c : LcoreConf)
        → is_polled p q (with_queue port (length (lists port)) o c).rx_queue_list
          ≡ (is_polled p q c.rx_queue_list || (port == p && is_queue q o))
    is_polled-with_queue port none c = ground arith
    is_polled-with_queue port (some q') c = is_polled-append c.rx_queue_list port q'

    is_polled-port_loop :
        (ports : List ℕ) (c : LcoreConf)
        → is_polled p q (port_loop lcore lists ports c).rx_queue_list ≡ (
            is_polled p q c.rx_queue_list
            || (is_listed p ports && is_queue q (queue_of lcore 0 (lists p) none)))
    unfolding port_loop
    is_polled-port_loop [] c = ground arith
    is_polled-port_loop (port ∷ ports) c =
        let d = with_queue port (length (lists port)) (queue_of lcore 0 (lists port) none) c in
        is_polled-port_loop ports d
        ∙ rw (is_polled-with_queue port (queue_of lcore 0 (lists port) none) c)
            (by_port (Bool-cases (port == p)))
      where
        by_port :
            ((port == p) ≡ true) ⊎ ((port == p) ≡ false)
            → (is_polled p q c.rx_queue_list
                || (port == p && is_queue q (queue_of lcore 0 (lists port) none))
                || (is_listed p ports && is_queue q (queue_of lcore 0 (lists p) none)))
              ≡ (is_polled p q c.rx_queue_list
                  || ((port == p || is_listed p ports)
                      && is_queue q (queue_of lcore 0 (lists p) none)))
        by_port (inr other) = rw other (ground arith)
        by_port (inl here) =
            let same : port ≡ p = ground arith in
            rw (here, ap (λ x. is_queue q (queue_of lcore 0 (lists x) none)) same) (ground arith)

-- No queue is polled before the configuration.
abbrev pub unconfigured : LcoreConf
unconfigured = record {
  rx_queue_list = [];
  tx_queue_id = λ p. 0;
  tx_port_id = [];
  nb_queue_list = λ p. 0;
}

is_polled-empty : (p q : ℕ) (l : List (ℕ × ℕ)) → is_polled p q l ≡ true → is_empty l ≡ false
is_polled-empty p q [] h = ground arith
is_polled-empty p q (x ∷ l) h = refl

-- What `init_lcore_conf` gives is what the loop over the ports makes.
passes-guards :
    (b b' : Bool) (d c : LcoreConf)
    → (if b then none else if b' then none else some d) ≡ some c
    → d ≡ c
passes-guards true b' d c h = ground arith
passes-guards false true d c h = ground arith
passes-guards false false d c h = ground arith

is_queue-some : (q : ℕ) (o : Option ℕ) → is_queue q o ≡ true → o ≡ some q
is_queue-some q none h = ground arith
is_queue-some q (some x) h = let same : x ≡ q = ground arith in ap some same

-- A process polls only queues that stand for its lcore in the list of a used port.
is_polled-listed :
    (s : Setup) (proc p q : ℕ) (c : LcoreConf)
    → init_lcore_conf s proc unconfigured ≡ some c
    → is_polled p q c.rx_queue_list ≡ true
    → (is_listed p s.portid_list ≡ true) × (get_elem? (s.lcore_list p) q ≡ some (s.proc_lcore proc))
unfolding init_lcore_conf
is_polled-listed s proc p q c init polled =
    let lcore = s.proc_lcore proc in
    let same : port_loop lcore s.lcore_list s.portid_list unconfigured ≡ c =
      passes-guards
        (s.nb_dev_ports == 0 || (leb s.nb_dev_ports s.max_portid || not (s.is_enabled lcore)))
        (is_empty (port_loop lcore s.lcore_list s.portid_list unconfigured).rx_queue_list)
        (port_loop lcore s.lcore_list s.portid_list unconfigured) c init in
    let e = is_polled-port_loop lcore s.lcore_list p q s.portid_list unconfigured in
    let both : (is_listed p s.portid_list && is_queue q (queue_of lcore 0 (s.lcore_list p) none))
        ≡ true =
      sym e ∙ ap (λ (x : LcoreConf). is_polled p q x.rx_queue_list) same ∙ polled in
    let listed : is_listed p s.portid_list ≡ true = ground arith in
    let place : is_queue q (queue_of lcore 0 (s.lcore_list p) none) ≡ true = ground arith in
    let found = is_queue-some q (queue_of lcore 0 (s.lcore_list p) none) place in
    (
      listed,
      elim (queue_of_sound lcore 0 q (s.lcore_list p) none found) [
        | inl nothing ↦ ground arith
        | inr there ↦ ap (get_elem? (s.lcore_list p)) (omega arith) ∙ there.1
      ],
    )

-- Two processes with different lcores never poll the same queue, and what a process polls is a queue that stands
-- for its lcore in the list of a used port.
pub init_lcore_conf-exclusive :
    (s : Setup) (proc other p q : ℕ) (c d : LcoreConf)
    → (s.proc_lcore proc ≡ s.proc_lcore other → proc ≡ other)
    → init_lcore_conf s proc unconfigured ≡ some c
    → init_lcore_conf s other unconfigured ≡ some d
    → is_polled p q c.rx_queue_list ≡ true
    → is_polled p q d.rx_queue_list ≡ true
    → (proc ≡ other)
      × (is_listed p s.portid_list ≡ true)
      × (get_elem? (s.lcore_list p) q ≡ some (s.proc_lcore proc))
init_lcore_conf-exclusive s proc other p q c d apart h k a b =
    let x = is_polled-listed s proc p q c h a in
    let y = is_polled-listed s other p q d k b in
    let same : some (s.proc_lcore proc) ≡ some (s.proc_lcore other) = sym x.1 ∙ y.1 in
    let lcores : s.proc_lcore proc ≡ s.proc_lcore other = ground arith in (apart lcores, x.0, x.1)
