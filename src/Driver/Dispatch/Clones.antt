-- ===== src/Driver/Dispatch/Clones.antt =====
-- The clones that `process_packets` of src/lazybsd_dpdk.cc makes: the packet that is cloned is not handed on before.
use lazybsd.Prelude.{
  ℕ, zero, suc, ◌+◌, ◌<◌, ◌≡◌, refl, Bool, true, false, ◌&&◌, Option, none, some, if◌then◌else◌,
  leb, ◌==◌, List, [], ◌∷◌, ◌++◌, ℤ, pos, negsuc, arith, Bool-cases, inl, inr,
}
use lazybsd.Driver.Filter.{FilterReturn, unknown, arp, kni, ndp}
use lazybsd.Driver.Dispatch.{
  Received, Action, transmit, free, enqueue, enqueue_kni, clone, input, Outside, KniAction,
  all_to_kni, all_to_ff, default, other_action, enqueue_or_free, kni_enqueue, cloned, clones,
  kni_cloned, neighbour_actions, by_action, other_actions, by_filter, after_filter, dispatched,
  by_dispatcher, process_packet, RxTraffic, count_rx, then_do, process_packets,
}
use lazybsd.Driver.Dispatch.Counts.{disposed, disposed-append}

-- What is cloned is handed on behind that, in the actions that follow or in the ones that `later` counts.
abbrev pub IsKept : (later : ℕ → ℕ) → List Action → Type 0
IsKept later [] = Unit {0}
IsKept later (clone source x ∷ l) = (0 < later source + disposed source l) × IsKept later l
IsKept later (_ ∷ l) = IsKept later l

append-IsKept :
    (k : ℕ → ℕ) (xs ys : List Action)
    → IsKept (λ s. k s + disposed s ys) xs
    → IsKept k ys
    → IsKept k (xs ++ ys)
append-IsKept k [] ys h g = g
append-IsKept k (transmit x len ∷ xs) ys h g = append-IsKept k xs ys h g
append-IsKept k (free x ∷ xs) ys h g = append-IsKept k xs ys h g
append-IsKept k (enqueue queue x ∷ xs) ys h g = append-IsKept k xs ys h g
append-IsKept k (enqueue_kni x ∷ xs) ys h g = append-IsKept k xs ys h g
append-IsKept k (clone source x ∷ xs) ys h g =
    (omega (arith, h.0, disposed-append source xs ys), append-IsKept k xs ys h.1 g)
append-IsKept k (input x ∷ xs) ys h g = append-IsKept k xs ys h g

if-IsKept :
    (k : ℕ → ℕ) (b : Bool) (xs ys : List Action)
    → IsKept k xs
    → IsKept k ys
    → IsKept k (if b then xs else ys)
if-IsKept k true xs ys h g = h
if-IsKept k false xs ys h g = g

module _ (k : ℕ → ℕ) (o : Outside) where
  enqueue_or_free-IsKept : (queue x : ℕ) → IsKept k (enqueue_or_free o queue x)
  enqueue_or_free-IsKept queue x = elim (Bool-cases (o.has_room x queue)) [
    | inl room ↦ rw room tt
    | inr full ↦ rw full tt
  ]

  kni_enqueue-IsKept : (x : ℕ) → IsKept k (kni_enqueue o x)
  kni_enqueue-IsKept x = elim (Bool-cases (o.kni_has_room x)) [
    | inl room ↦ rw room tt
    | inr full ↦ rw full tt
  ]

  cloned-IsKept : (j name : ℕ) (x : Option ℕ) → 0 < k name → IsKept k (cloned o j name x)
  cloned-IsKept j name none h = tt
  cloned-IsKept j name (some c) h = (omega (arith, h), enqueue_or_free-IsKept j c)

  kni_cloned-IsKept : (name : ℕ) (x : Option ℕ) → 0 < k name → IsKept k (kni_cloned o name x)
  kni_cloned-IsKept name none h = tt
  kni_cloned-IsKept name (some c) h = (omega (arith, h), kni_enqueue-IsKept c)

clones-IsKept :
    (k : ℕ → ℕ) (o : Outside) (rounds j queue_id name : ℕ)
    → 0 < k name
    → IsKept k (clones rounds j o queue_id name)
unfolding clones
clones-IsKept k o zero j queue_id name h = tt
clones-IsKept k o (suc rounds) j queue_id name h =
    let rest = clones-IsKept k o rounds (j + 1) queue_id name h in
    let on = clones rounds (j + 1) o queue_id name in
    elim (Bool-cases (j == queue_id)) [
      | inl own ↦ rw own rest
      | inr other ↦ rw other (
          append-IsKept k (cloned o j name (o.clone_for name j)) on
            (cloned-IsKept (λ s. k s + disposed s on) o j name (o.clone_for name j)
              (omega (arith, h)))
            rest)
    ]

handed_on : (name : ℕ) → 0 < disposed name (input name ∷ [])
handed_on name = ground arith

module _ (k : ℕ → ℕ) (o : Outside) (n q name : ℕ) where
  neighbour_actions-IsKept : (from_ring : Bool) → IsKept k (neighbour_actions o n q name from_ring)
  neighbour_actions-IsKept from_ring =
      let first = if from_ring then [] else clones n 0 o q name in
      let b = o.settings.with_kni && (o.settings.enable_kni && o.primary) in
      let second = if b then kni_cloned o name (o.clone_for_kni name) else [] in
      let last : ℕ → ℕ = λ s. k s + disposed s (input name ∷ []) in
      let more : ℕ → ℕ = λ s. last s + disposed s second in
      append-IsKept k (first ++ second) (input name ∷ [])
        (append-IsKept last first second
          (if-IsKept more from_ring [] (clones n 0 o q name) tt
            (clones-IsKept more o n 0 q name (omega (arith, handed_on name))))
          (if-IsKept last b (kni_cloned o name (o.clone_for_kni name)) []
            (kni_cloned-IsKept last o name (o.clone_for_kni name) (omega (arith, handed_on name)))
            tt))
        tt

  by_action-IsKept : (a : KniAction) (r : FilterReturn) → IsKept k (by_action a o r name)
  by_action-IsKept all_to_kni r = kni_enqueue-IsKept k o name
  by_action-IsKept all_to_ff r = tt
  by_action-IsKept default r =
      if-IsKept k _ (kni_enqueue o name) (input name ∷ []) (kni_enqueue-IsKept k o name) tt
  by_action-IsKept other_action r = tt

  other_actions-IsKept : (r : FilterReturn) → IsKept k (other_actions o r name)
  other_actions-IsKept r =
      if-IsKept k _ (by_action o.knictl_action o r name) (input name ∷ [])
        (by_action-IsKept o.knictl_action r) tt

  by_filter-IsKept :
      (r : FilterReturn) (from_ring : Bool) → IsKept k (by_filter o r n q name from_ring)
  by_filter-IsKept arp from_ring = neighbour_actions-IsKept from_ring
  by_filter-IsKept ndp from_ring =
      if-IsKept k o.settings.inet6 _ _ (neighbour_actions-IsKept from_ring)
        (other_actions-IsKept ndp)
  by_filter-IsKept kni from_ring = other_actions-IsKept kni
  by_filter-IsKept unknown from_ring = other_actions-IsKept unknown

-- The actions of one packet, if there are any.
abbrev AllKept : (later : ℕ → ℕ) → Option (List Action) → Type 0
AllKept k none = Unit {0}
AllKept k (some l) = IsKept k l

module _ (k : ℕ → ℕ) (o : Outside) (n q : ℕ) (p : Received) where
  after_filter-AllKept :
      (from_ring : Bool) (r : Option FilterReturn)
      → AllKept k (after_filter o n q p.name from_ring r)
  after_filter-AllKept from_ring none = tt
  after_filter-AllKept from_ring (some r) = by_filter-IsKept k o n q p.name r from_ring

  dispatched-AllKept : (ret : ℤ) (len : ℕ) → AllKept k (dispatched o n q p (ret, len))
  dispatched-AllKept (negsuc zero) len = tt
  dispatched-AllKept (negsuc (suc zero)) len = tt
  dispatched-AllKept (negsuc (suc (suc i))) len = tt
  dispatched-AllKept (pos ret) len = elim (Bool-cases (leb n ret)) [
    | inl out ↦ rw out tt
    | inr inside ↦ elim (Bool-cases (ret == q)) [
      | inl own ↦ rw (inside, own) (after_filter-AllKept false _)
      | inr other ↦ rw (inside, other) (enqueue_or_free-IsKept k o ret p.name)
    ]
  ]

  by_dispatcher-AllKept :
      (f : Option (Received → ℕ → ℕ → ℤ × ℕ)) → AllKept k (by_dispatcher o n q f p)
  by_dispatcher-AllKept none = after_filter-AllKept false _
  by_dispatcher-AllKept (some f) = dispatched-AllKept (f p q n).0 (f p q n).1

  process_packet-AllKept : (from_ring : Bool) → AllKept k (process_packet o n q from_ring p)
  unfolding process_packet
  process_packet-AllKept true = after_filter-AllKept true _
  process_packet-AllKept false = by_dispatcher-AllKept o.packet_dispatcher

then_do-IsKept :
    (k : ℕ → ℕ) (x : Option (List Action)) (y : Option (RxTraffic × List Action))
    → ((later : ℕ → ℕ) → AllKept later x)
    → ((t : RxTraffic) (l : List Action) → y ≡ some (t, l) → IsKept k l)
    → (t : RxTraffic) (l : List Action) → then_do x y ≡ some (t, l)
    → IsKept k l
then_do-IsKept k none y h g t l e = absurd (ground arith)
then_do-IsKept k (some xs) none h g t l e = absurd (ground arith)
then_do-IsKept k (some xs) (some (u, ys)) h g t l e =
    let same : xs ++ ys ≡ l = cc in
    rw (← same) (append-IsKept k xs ys (h (λ s. k s + disposed s ys)) (g u ys refl))

pub process_packets-IsKept :
    (k : ℕ → ℕ) (o : Outside) (n q : ℕ) (from_ring : Bool) (bufs : List Received) (t u : RxTraffic)
    (l : List Action)
    → process_packets o n q from_ring bufs t ≡ some (u, l)
    → IsKept k l
unfolding process_packets
process_packets-IsKept k o n q from_ring [] t u l h = let e : [] ≡ l = cc in rw (← e) tt
process_packets-IsKept k o n q from_ring (p ∷ ps) t u l h =
    then_do-IsKept k (process_packet o n q from_ring p)
      (process_packets o n q from_ring ps (count_rx from_ring p t))
      (λ later. process_packet-AllKept later o n q p from_ring)
      (process_packets-IsKept k o n q from_ring ps (count_rx from_ring p t)) u l h
