-- ===== src/Driver/Dispatch/Disposed.antt =====
-- What becomes of the packets of `process_packets` of src/lazybsd_dpdk.cc: each is handed on once.
use lazybsd.Prelude.{
  ℕ, zero, suc, ◌+◌, ◌≡◌, refl, Bool, true, false, ◌&&◌, Option, none, some, if◌then◌else◌, leb,
  ◌==◌, List, [], ◌∷◌, ◌++◌, count, ℤ, pos, negsuc, arith, Bool-cases, inl, inr,
}
use lazybsd.Driver.Dispatch.Clones.{IsKept, process_packets-IsKept}
use lazybsd.Driver.Dispatch.Counts.{
  one_if, disposed, made, names, disposed-append, made-append, Balanced, append-Balanced,
}
use lazybsd.Driver.Dispatch.Answered.{AreAnswered, process_packets-HasResult}
use lazybsd.Driver.Filter.{FilterReturn, unknown, arp, kni, ndp, protocol_filter}
use lazybsd.Driver.Dispatch.{
  Received, Action, input, Outside, KniAction, all_to_kni, all_to_ff, default, other_action,
  enqueue_or_free, kni_enqueue, cloned, clones, kni_cloned, neighbour_actions, by_action,
  other_actions, by_filter, after_filter, dispatched, by_dispatcher, process_packet, RxTraffic,
  count_rx, then_do, process_packets,
}

enqueue_or_free-Balanced :
    (a : ℕ) (o : Outside) (queue x : ℕ) → Balanced a (one_if (a == x)) (enqueue_or_free o queue x)
enqueue_or_free-Balanced a o queue x = elim (Bool-cases (o.has_room x queue)) [
  | inl room ↦ rw room (omega arith)
  | inr full ↦ rw full (omega arith)
]

kni_enqueue-Balanced :
    (a : ℕ) (o : Outside) (x : ℕ) → Balanced a (one_if (a == x)) (kni_enqueue o x)
kni_enqueue-Balanced a o x = elim (Bool-cases (o.kni_has_room x)) [
  | inl room ↦ rw room (omega arith)
  | inr full ↦ rw full (omega arith)
]

cloned-Balanced :
    (a : ℕ) (o : Outside) (j name : ℕ) (x : Option ℕ) → Balanced a 0 (cloned o j name x)
cloned-Balanced a o j name none = refl
cloned-Balanced a o j name (some c) = omega (arith, enqueue_or_free-Balanced a o j c)

kni_cloned-Balanced :
    (a : ℕ) (o : Outside) (name : ℕ) (x : Option ℕ) → Balanced a 0 (kni_cloned o name x)
kni_cloned-Balanced a o name none = refl
kni_cloned-Balanced a o name (some c) = omega (arith, kni_enqueue-Balanced a o c)

clones-Balanced :
    (a rounds j : ℕ) (o : Outside) (queue_id name : ℕ)
    → Balanced a 0 (clones rounds j o queue_id name)
unfolding clones
clones-Balanced a zero j o queue_id name = refl
clones-Balanced a (suc rounds) j o queue_id name =
    let rest = clones-Balanced a rounds (j + 1) o queue_id name in
    elim (Bool-cases (j == queue_id)) [
      | inl own ↦ rw own rest
      | inr other ↦ rw other (
          append-Balanced a 0 0 (cloned o j name (o.clone_for name j))
            (clones rounds (j + 1) o queue_id name)
            (cloned-Balanced a o j name (o.clone_for name j)) rest)
    ]

if-Balanced :
    (a n : ℕ) (b : Bool) (xs ys : List Action)
    → Balanced a n xs
    → Balanced a n ys
    → Balanced a n (if b then xs else ys)
if-Balanced a n true xs ys h k = h
if-Balanced a n false xs ys h k = k

input-Balanced : (a x : ℕ) → Balanced a (one_if (a == x)) (input x ∷ [])
input-Balanced a x = omega arith

module _ (a : ℕ) (o : Outside) (n q name : ℕ) where
  neighbour_actions-Balanced :
      (from_ring : Bool) → Balanced a (one_if (a == name)) (neighbour_actions o n q name from_ring)
  neighbour_actions-Balanced from_ring =
      let first = if from_ring then [] else clones n 0 o q name in
      let second =
        if o.settings.with_kni && (o.settings.enable_kni && o.primary)
        then kni_cloned o name (o.clone_for_kni name)
        else [] in
      let one =
        if-Balanced a 0 from_ring [] (clones n 0 o q name) refl (clones-Balanced a n 0 o q name) in
      let two =
        if-Balanced a 0 (o.settings.with_kni && (o.settings.enable_kni && o.primary))
          (kni_cloned o name (o.clone_for_kni name)) []
          (kni_cloned-Balanced a o name (o.clone_for_kni name)) refl in
      omega (
        arith,
        disposed-append a (first ++ second) (input name ∷ []),
        made-append a (first ++ second) (input name ∷ []),
        append-Balanced a 0 0 first second one two,
      )

  by_action-Balanced :
      (k : KniAction) (r : FilterReturn) → Balanced a (one_if (a == name)) (by_action k o r name)
  by_action-Balanced all_to_kni r = kni_enqueue-Balanced a o name
  by_action-Balanced all_to_ff r = input-Balanced a name
  by_action-Balanced default r =
      if-Balanced a (one_if (a == name)) _ (kni_enqueue o name) (input name ∷ [])
        (kni_enqueue-Balanced a o name) (input-Balanced a name)
  by_action-Balanced other_action r = input-Balanced a name

  other_actions-Balanced :
      (r : FilterReturn) → Balanced a (one_if (a == name)) (other_actions o r name)
  other_actions-Balanced r =
      if-Balanced a (one_if (a == name)) _ (by_action o.knictl_action o r name) (input name ∷ [])
        (by_action-Balanced o.knictl_action r) (input-Balanced a name)

  by_filter-Balanced :
      (r : FilterReturn) (from_ring : Bool)
      → Balanced a (one_if (a == name)) (by_filter o r n q name from_ring)
  by_filter-Balanced arp from_ring = neighbour_actions-Balanced from_ring
  by_filter-Balanced ndp from_ring =
      if-Balanced a (one_if (a == name)) o.settings.inet6 _ _ (neighbour_actions-Balanced from_ring)
        (other_actions-Balanced ndp)
  by_filter-Balanced kni from_ring = other_actions-Balanced kni
  by_filter-Balanced unknown from_ring = other_actions-Balanced unknown

-- The actions of one packet, if there are any.
abbrev AllBalanced : ℕ → (extra : ℕ) → Option (List Action) → Type 0
AllBalanced a extra none = Unit {0}
AllBalanced a extra (some l) = Balanced a extra l

module _ (a : ℕ) (o : Outside) (n q : ℕ) (p : Received) where
  filtered_result :
      (from_ring : Bool) (r : Option FilterReturn)
      → AllBalanced a (one_if (a == p.name)) (after_filter o n q p.name from_ring r)
  filtered_result from_ring none = tt
  filtered_result from_ring (some r) = by_filter-Balanced a o n q p.name r from_ring

  dispatched-AllBalanced :
      (ret : ℤ) (len : ℕ) → AllBalanced a (one_if (a == p.name)) (dispatched o n q p (ret, len))
  dispatched-AllBalanced (negsuc zero) len = omega arith
  dispatched-AllBalanced (negsuc (suc zero)) len = omega arith
  dispatched-AllBalanced (negsuc (suc (suc k))) len = tt
  dispatched-AllBalanced (pos ret) len = elim (Bool-cases (leb n ret)) [
    | inl out ↦ rw out (omega arith)
    | inr inside ↦ elim (Bool-cases (ret == q)) [
      | inl own ↦
          rw (inside, own)
            (filtered_result false (protocol_filter o.fuel o.settings p.bytes p.data_at len))
      | inr other ↦ rw (inside, other) (enqueue_or_free-Balanced a o ret p.name)
    ]
  ]

  by_dispatcher-AllBalanced :
      (f : Option (Received → ℕ → ℕ → ℤ × ℕ))
      → AllBalanced a (one_if (a == p.name)) (by_dispatcher o n q f p)
  by_dispatcher-AllBalanced none =
      filtered_result false (protocol_filter o.fuel o.settings p.bytes p.data_at p.data_len)
  by_dispatcher-AllBalanced (some f) = dispatched-AllBalanced (f p q n).0 (f p q n).1

  process_packet-AllBalanced :
      (from_ring : Bool) → AllBalanced a (one_if (a == p.name)) (process_packet o n q from_ring p)
  unfolding process_packet
  process_packet-AllBalanced true =
      filtered_result true (protocol_filter o.fuel o.settings p.bytes p.data_at p.data_len)
  process_packet-AllBalanced false = by_dispatcher-AllBalanced o.packet_dispatcher

then_do-Balanced :
    (a m n : ℕ) (x : Option (List Action)) (y : Option (RxTraffic × List Action))
    → AllBalanced a m x
    → ((t : RxTraffic) (l : List Action) → y ≡ some (t, l) → Balanced a n l)
    → (t : RxTraffic) (l : List Action) → then_do x y ≡ some (t, l)
    → Balanced a (m + n) l
then_do-Balanced a m n none y h k t l e = absurd (ground arith)
then_do-Balanced a m n (some xs) none h k t l e = absurd (ground arith)
then_do-Balanced a m n (some xs) (some (u, ys)) h k t l e =
    let same : xs ++ ys ≡ l = cc in rw (← same) (append-Balanced a m n xs ys h (k u ys refl))

process_packets_result :
    (a : ℕ) (o : Outside) (n q : ℕ) (from_ring : Bool) (bufs : List Received) (t u : RxTraffic)
    (l : List Action)
    → process_packets o n q from_ring bufs t ≡ some (u, l)
    → Balanced a (count a (names bufs)) l
unfolding process_packets
process_packets_result a o n q from_ring [] t u l h = let e : [] ≡ l = cc in rw (← e) refl
process_packets_result a o n q from_ring (p ∷ ps) t u l h =
    then_do-Balanced a (one_if (a == p.name)) (count a (names ps))
      (process_packet o n q from_ring p)
      (process_packets o n q from_ring ps (count_rx from_ring p t))
      (process_packet-AllBalanced a o n q p from_ring)
      (process_packets_result a o n q from_ring ps (count_rx from_ring p t)) u l h

-- The packets are handed on by `process_packets`: it has a result, each name is handed on in it as often as the
-- packets have it and clones are made with it, and what is cloned is handed on behind that.
pub record AreHandedOn (bufs : List Received) (result : Option (RxTraffic × List Action))
    : Type 0 where
  pub traffic : RxTraffic
  pub actions : List Action
  pub done : result ≡ some (traffic, actions)
  pub balanced : (a : ℕ) → disposed a actions ≡ made a actions + count a (names bufs)
  pub kept : IsKept (λ s. 0) actions

-- Where the dispatcher answers for each packet with a number of -2 or more, and the filter returns for it in the calls
-- that it is given, `process_packets` has a result, and in it every packet that it is given, and every clone that it
-- makes, is handed on exactly as often as it was given or made: sent, freed, put in the ring of a queue or of the
-- host, or given to the stack. So none is lost and none is handed on twice, whichever ring is full. And
-- behind each clone that is made, the packet that it is made from is still handed on.
pub process_packets-Balanced :
    (o : Outside) (n q : ℕ) (from_ring : Bool) (bufs : List Received) (t : RxTraffic)
    → AreAnswered o n q from_ring bufs
    → AreHandedOn bufs (process_packets o n q from_ring bufs t)
process_packets-Balanced o n q from_ring bufs t h =
    let r = process_packets-HasResult o n q from_ring bufs t h in
    record {
      traffic = r.0.0;
      actions = r.0.1;
      done = r.1;
      balanced = λ a. process_packets_result a o n q from_ring bufs t r.0.0 r.0.1 r.1;
      kept = process_packets-IsKept (λ s. 0) o n q from_ring bufs t r.0.0 r.0.1 r.1;
    }
