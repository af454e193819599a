-- ===== src/Driver/Dispatch/Queues.antt =====
-- Which queues see a packet of `process_packets` of src/lazybsd_dpdk.cc.
use lazybsd.Prelude.{
  ℕ, zero, suc, ◌+◌, ◌≡◌, refl, ap, ◌∙◌, Bool, true, false, not, ◌&&◌, Option, none, some,
  if◌then◌else◌, ltb, leb, ◌==◌, List, [], ◌∷◌, ◌++◌, arith, Bool-cases, Option-cases, inl, inr,
}
use lazybsd.Driver.Filter.{FilterReturn, unknown, arp, kni, ndp, protocol_filter}
use lazybsd.Driver.Dispatch.{
  Received, Action, transmit, free, enqueue, enqueue_kni, clone, input, Outside, KniAction,
  all_to_kni, all_to_ff, default, other_action, by_dispatcher, after_filter, enqueue_or_free,
  kni_enqueue, cloned, clones, kni_cloned, neighbour_actions, by_action, other_actions, by_filter,
  process_packet,
}
use lazybsd.Driver.Dispatch.Counts.{one_if}

-- How many packets are put in the ring of a queue.
abbrev pub put_in : (queue : ℕ) → List Action → ℕ
put_in j [] = 0
put_in j (enqueue queue x ∷ l) = one_if (j == queue) + put_in j l
put_in j (_ ∷ l) = put_in j l

-- How often a packet is given to the stack of this queue.
abbrev pub inputs : (name : ℕ) → List Action → ℕ
inputs a [] = 0
inputs a (input x ∷ l) = one_if (a == x) + inputs a l
inputs a (_ ∷ l) = inputs a l

put_in-append : (j : ℕ) (xs ys : List Action) → put_in j (xs ++ ys) ≡ put_in j xs + put_in j ys
put_in-append j [] ys = omega arith
put_in-append j (transmit x len ∷ xs) ys = put_in-append j xs ys
put_in-append j (free x ∷ xs) ys = put_in-append j xs ys
put_in-append j (enqueue queue x ∷ xs) ys = omega (arith, put_in-append j xs ys)
put_in-append j (enqueue_kni x ∷ xs) ys = put_in-append j xs ys
put_in-append j (clone source x ∷ xs) ys = put_in-append j xs ys
put_in-append j (input x ∷ xs) ys = put_in-append j xs ys

-- There is memory for a clone for each queue, and room in its ring.
pub record HasRoom (o : Outside) (name : ℕ) : Type 0 where
  pub clone_of : ℕ → ℕ
  pub memory : (j : ℕ) → o.clone_for name j ≡ some (clone_of j)
  pub room : (j : ℕ) → o.has_room (clone_of j) j ≡ true

abbrev in_range : (j from rounds queue_id : ℕ) → Bool
in_range j from rounds queue_id = leb from j && (ltb j (from + rounds) && not (j == queue_id))

put_in-clones :
    (j rounds from : ℕ) (o : Outside) (queue_id name : ℕ)
    → HasRoom o name
    → put_in j (clones rounds from o queue_id name) ≡ one_if (in_range j from rounds queue_id)
unfolding clones
put_in-clones j zero from o queue_id name h = ground arith
put_in-clones j (suc rounds) from o queue_id name h =
    let ih = put_in-clones j rounds (from + 1) o queue_id name h in
    elim (Bool-cases (from == queue_id)) [
      | inl own ↦ rw own (ih ∙ ground arith)
      | inr other ↦
          rw (other, h.memory from, h.room from)
            (ap (λ k. one_if (j == from) + k) ih ∙ ground arith)
    ]

put_in-kni : (j : ℕ) (o : Outside) (name : ℕ) (x : Option ℕ) → put_in j (kni_cloned o name x) ≡ 0
put_in-kni j o name none = refl
put_in-kni j o name (some c) = elim (Bool-cases (o.kni_has_room c)) [
  | inl room ↦ rw room refl
  | inr full ↦ rw full refl
]

if-put_in :
    (j : ℕ) (b : Bool) (xs : List Action) → put_in j xs ≡ 0 → put_in j (if b then xs else []) ≡ 0
if-put_in j true xs h = h
if-put_in j false xs h = refl

-- A neighbour's packet from the NIC comes to every other queue of the port, once, and to no queue else.
pub put_in-by_filter_arp :
    (j : ℕ) (o : Outside) (n queue_id name : ℕ)
    → HasRoom o name
    → put_in j (by_filter o arp n queue_id name false)
      ≡ (if ltb j n && not (j == queue_id) then 1 else 0)
put_in-by_filter_arp j o n queue_id name h =
    let first = clones n 0 o queue_id name in
    let second =
      if o.settings.with_kni && (o.settings.enable_kni && o.primary)
      then kni_cloned o name (o.clone_for_kni name)
      else [] in
    let quiet =
      if-put_in j (o.settings.with_kni && (o.settings.enable_kni && o.primary))
        (kni_cloned o name (o.clone_for_kni name)) (put_in-kni j o name (o.clone_for_kni name)) in
    let c = put_in-clones j n 0 o queue_id name h in
    let r : one_if (in_range j 0 n queue_id) ≡ one_if (ltb j n && not (j == queue_id)) =
      ground arith in
    omega (
      arith,
      put_in-append j (first ++ second) (input name ∷ []),
      put_in-append j first second,
      c ∙ r,
      quiet,
    )

kni_enqueue-put_in : (j : ℕ) (o : Outside) (x : ℕ) → put_in j (kni_enqueue o x) ≡ 0
kni_enqueue-put_in j o x = elim (Bool-cases (o.kni_has_room x)) [
  | inl room ↦ rw room refl
  | inr full ↦ rw full refl
]

if-quiet :
    (j : ℕ) (b : Bool) (xs ys : List Action)
    → put_in j xs ≡ 0
    → put_in j ys ≡ 0
    → put_in j (if b then xs else ys) ≡ 0
if-quiet j true xs ys h k = h
if-quiet j false xs ys h k = k

module _ (j : ℕ) (o : Outside) (n q name : ℕ) where
  by_action-put_in : (k : KniAction) (r : FilterReturn) → put_in j (by_action k o r name) ≡ 0
  by_action-put_in all_to_kni r = kni_enqueue-put_in j o name
  by_action-put_in all_to_ff r = refl
  by_action-put_in default r =
      if-quiet j _ (kni_enqueue o name) (input name ∷ []) (kni_enqueue-put_in j o name) refl
  by_action-put_in other_action r = refl

  other_actions-put_in : (r : FilterReturn) → put_in j (other_actions o r name) ≡ 0
  other_actions-put_in r =
      if-quiet j _ (by_action o.knictl_action o r name) (input name ∷ [])
        (by_action-put_in o.knictl_action r) refl

  neighbour_actions-put_in : put_in j (neighbour_actions o n q name true) ≡ 0
  neighbour_actions-put_in =
      let b = o.settings.with_kni && (o.settings.enable_kni && o.primary) in
      let second = if b then kni_cloned o name (o.clone_for_kni name) else [] in
      let quiet =
        if-put_in j b (kni_cloned o name (o.clone_for_kni name))
          (put_in-kni j o name (o.clone_for_kni name)) in
      omega (arith, put_in-append j second (input name ∷ []), quiet)

  by_filter-put_in : (r : FilterReturn) → put_in j (by_filter o r n q name true) ≡ 0
  by_filter-put_in arp = neighbour_actions-put_in
  by_filter-put_in ndp =
      if-quiet j o.settings.inet6 _ _ neighbour_actions-put_in (other_actions-put_in ndp)
  by_filter-put_in kni = other_actions-put_in kni
  by_filter-put_in unknown = other_actions-put_in unknown

-- A packet that came from the ring of a queue is never put in the ring of a queue again: no packet
-- wanders between the queues.
pub process_packet-put_in :
    (j : ℕ) (o : Outside) (n q : ℕ) (p : Received) (l : List Action)
    → process_packet o n q true p ≡ some l
    → put_in j l ≡ 0
unfolding process_packet
process_packet-put_in j o n q p l h =
    elim (Option-cases (protocol_filter o.fuel o.settings p.bytes p.data_at p.data_len)) [
      | inl out ↦ absurd (ground arith)
      | inr (r, e) ↦
          let same : by_filter o r n q p.name true ≡ l = ground arith in
          rw (← same) (by_filter-put_in j o n q p.name r)
    ]

-- What the stack of this queue is given, of the clones nothing
enqueue_or_free-inputs : (a : ℕ) (o : Outside) (j x : ℕ) → inputs a (enqueue_or_free o j x) ≡ 0
enqueue_or_free-inputs a o j x = elim (Bool-cases (o.has_room x j)) [
  | inl room ↦ rw room refl
  | inr full ↦ rw full refl
]

cloned-inputs : (a : ℕ) (o : Outside) (j name : ℕ) (x : Option ℕ) → inputs a (cloned o j name x) ≡ 0
cloned-inputs a o j name none = refl
cloned-inputs a o j name (some c) = enqueue_or_free-inputs a o j c

kni_cloned-inputs :
    (a : ℕ) (o : Outside) (name : ℕ) (b : Bool) (x : Option ℕ)
    → inputs a (if b then kni_cloned o name x else []) ≡ 0
kni_cloned-inputs a o name false x = refl
kni_cloned-inputs a o name true none = refl
kni_cloned-inputs a o name true (some c) = elim (Bool-cases (o.kni_has_room c)) [
  | inl room ↦ rw room refl
  | inr full ↦ rw full refl
]

inputs-append : (a : ℕ) (xs ys : List Action) → inputs a (xs ++ ys) ≡ inputs a xs + inputs a ys
inputs-append a [] ys = omega arith
inputs-append a (transmit x len ∷ xs) ys = inputs-append a xs ys
inputs-append a (free x ∷ xs) ys = inputs-append a xs ys
inputs-append a (enqueue queue x ∷ xs) ys = inputs-append a xs ys
inputs-append a (enqueue_kni x ∷ xs) ys = inputs-append a xs ys
inputs-append a (clone source x ∷ xs) ys = inputs-append a xs ys
inputs-append a (input x ∷ xs) ys = omega (arith, inputs-append a xs ys)

clones-inputs :
    (a rounds j : ℕ) (o : Outside) (q name : ℕ) → inputs a (clones rounds j o q name) ≡ 0
unfolding clones
clones-inputs a zero j o q name = refl
clones-inputs a (suc rounds) j o q name =
    let rest = clones-inputs a rounds (j + 1) o q name in
    let one = cloned-inputs a o j name (o.clone_for name j) in
    elim (Bool-cases (j == q)) [
      | inl own ↦ rw own rest
      | inr other ↦ rw other (
          inputs-append a (cloned o j name (o.clone_for name j)) (clones rounds (j + 1) o q name)
          ∙ omega (arith, one, rest))
    ]

-- Without a dispatcher, an ARP packet from the NIC is given to the stack of its queue once, and a copy
-- of it to the ring of every other queue of the port, once, if there is memory and room; no other
-- ring gets one.
pub process_packet-arp :
    (j : ℕ) (o : Outside) (n q : ℕ) (p : Received)
    → o.packet_dispatcher ≡ none
    → protocol_filter o.fuel o.settings p.bytes p.data_at p.data_len ≡ some arp
    → HasRoom o p.name
    → (l : List Action) × (process_packet o n q false p ≡ some l)
      × (inputs p.name l ≡ 1)
      × (put_in j l ≡ (if ltb j n && not (j == q) then 1 else 0))
unfolding process_packet
process_packet-arp j o n q p no_dispatcher is_arp h =
    let b = o.settings.with_kni && (o.settings.enable_kni && o.primary) in
    let first = clones n 0 o q p.name in
    let second = if b then kni_cloned o p.name (o.clone_for_kni p.name) else [] in
    let self : one_if (p.name == p.name) ≡ 1 = ground arith in
    (
      by_filter o arp n q p.name false,
      ap (λ f. by_dispatcher o n q f p) no_dispatcher ∙ ap (after_filter o n q p.name false) is_arp,
      omega (
        arith,
        inputs-append p.name (first ++ second) (input p.name ∷ []),
        inputs-append p.name first second,
        clones-inputs p.name n 0 o q p.name,
        kni_cloned-inputs p.name o p.name b (o.clone_for_kni p.name),
        self,
      ),
      put_in-by_filter_arp j o n q p.name h,
    )
