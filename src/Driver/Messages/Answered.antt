-- ===== src/Driver/Messages/Answered.antt =====
-- Calls of `process_msg_ring` of src/lazybsd_dpdk.cc one after another, as the main loop makes them, while other
-- programs put requests into the ring.
use lazybsd.Prelude.{
  ℕ, zero, suc, ◌+◌, ◌-◌, ◌*◌, ◌≤◌, ◌<◌, ◌≡◌, refl, ap, sym, ◌∙◌, true, false, Option, none, some,
  ltb, ◌==◌, update, List, [], ◌∷◌, ◌++◌, take, drop, length, arith, if_cases,
}
use lazybsd.Driver.Messages.Handled.{by_type-Handled}
use lazybsd.Driver.Messages.Kept.{named, held, AreKnown, in_rings-update, process_msg_ring-held}
use lazybsd.Driver.Messages.{
  Message, Services, Process, ring_of, msg_num, by_type, reply, handle_msg, handle_all,
  process_msg_ring,
}

-- The types are those of requests: the ring of answers is not the ring of requests.
abbrev pub AreRequests : List Message → Type 0
AreRequests [] = Unit {0}
AreRequests (m ∷ l) = (1 ≤ ring_of m.msg_type) × (ring_of m.msg_type < msg_num) × AreRequests l

-- The state behind other programs' requests, and behind a call for each batch of them
abbrev pub asked : List Message → Process → Process
asked new s = record s { ring = update s.ring 0 (s.ring 0 ++ new) }

abbrev pub calls :
    Services → (count : ℕ) → (batches : List (List Message)) → Process → Option Process
calls v count [] s = some s
calls v count (new ∷ later) s = elim (process_msg_ring v count (asked new s)) [
  | none ↦ none
  | some t ↦ calls v count later t
]

-- No batch has the message, and all have requests.
abbrev pub AreOthers : (name : ℕ) → List (List Message) → Type 0
AreOthers a [] = Unit {0}
AreOthers a (new ∷ later) = AreRequests new × (named a new ≡ 0) × AreOthers a later

requests_known : (l : List Message) → AreRequests l → AreKnown l
requests_known [] h = tt
requests_known (m ∷ l) h = (h.1, requests_known l h.2)

AreRequests-append : (l k : List Message) → AreRequests l → AreRequests k → AreRequests (l ++ k)
AreRequests-append [] k h g = g
AreRequests-append (m ∷ l) k h g = (h.0, h.1, AreRequests-append l k h.2 g)

AreRequests-take : (n : ℕ) (l : List Message) → AreRequests l → AreRequests (take n l)
AreRequests-take zero l h = tt
AreRequests-take (suc n) [] h = tt
AreRequests-take (suc n) (m ∷ l) h = (h.0, h.1, AreRequests-take n l h.2)

AreRequests-drop : (n : ℕ) (l : List Message) → AreRequests l → AreRequests (drop n l)
AreRequests-drop zero l h = h
AreRequests-drop (suc n) [] h = tt
AreRequests-drop (suc n) (m ∷ l) h = AreRequests-drop n l h.2

named-append-list : (a : ℕ) (l k : List Message) → named a (l ++ k) ≡ named a l + named a k
named-append-list a [] k = omega arith
named-append-list a (m ∷ l) k = omega (arith, named-append-list a l k)

named-drop : (a n : ℕ) (l : List Message) → named a (drop n l) ≤ named a l
named-drop a zero l = omega arith
named-drop a (suc n) [] = omega arith
named-drop a (suc n) (m ∷ l) = omega (arith, named-drop a n l)

-- What is left behind `k` messages, once more come and `c` are taken
named-drop-append :
    (a k : ℕ) (l b : List Message) → named a (drop k (l ++ b)) ≤ named a (drop k l) + named a b
named-drop-append a zero l b = omega (arith, named-append-list a l b)
named-drop-append a (suc k) [] b = omega (arith, named-drop a (suc k) b)
named-drop-append a (suc k) (m ∷ l) b = named-drop-append a k l b

named-drop-drop :
    (a k c : ℕ) (l : List Message) → named a (drop (k - c) (drop c l)) ≤ named a (drop k l)
named-drop-drop a k zero l = let same : k - 0 ≡ k = omega arith in rw same (omega arith)
named-drop-drop a zero (suc c) l =
    let less : 0 - suc c ≡ 0 = omega arith in rw less (named-drop a (suc c) l)
named-drop-drop a (suc k) (suc c) [] = named-drop a (suc k - suc c) []
named-drop-drop a (suc k) (suc c) (m ∷ l) =
    let one_less : suc k - suc c ≡ k - c = omega arith in rw one_less (named-drop-drop a k c l)

named-drop_length : (a k : ℕ) (l : List Message) → length l ≤ k → named a (drop k l) ≡ 0
named-drop_length a zero [] le = refl
named-drop_length a zero (m ∷ l) le = absurd (omega arith)
named-drop_length a (suc k) [] le = refl
named-drop_length a (suc k) (m ∷ l) le = named-drop_length a k l (omega (arith, le))

-- The answer to a request goes to another ring, or back to the pool.
reply-ring :
    (v : Services) (m : Message) (s : Process)
    → 1 ≤ ring_of m.msg_type
    → (reply v m s).ring 0 ≡ s.ring 0
reply-ring v m s le =
    let r = ring_of m.msg_type in
    let other : (0 == r) ≡ false = ground arith in
    if_cases (λ (t : Process). t.ring 0 ≡ s.ring 0) (v.has_room r (s.ring r)) (λ e. rw other refl)
      (λ e.
        if_cases (λ (t : Process). t.ring 0 ≡ s.ring 0) (m.original_buf == 0) (λ e. refl)
          (λ e. refl))

-- Every ring takes what is put into it.
abbrev pub HaveRoom : Services → Type 0
HaveRoom v = (r : ℕ) (l : List Message) → v.has_room r l ≡ true

reply-pool :
    (v : Services) (m : Message) (s : Process)
    → HaveRoom v
    → (reply v m s).message_pool ≡ s.message_pool
reply-pool v m s room = let r = ring_of m.msg_type in let has = room r (s.ring r) in rw has refl

handle_msg-ring :
    (v : Services) (m : Message) (s : Process)
    → AreRequests (m ∷ [])
    → (t : Process) × (handle_msg v m s ≡ some t)
      × (t.ring 0 ≡ s.ring 0)
      × (HaveRoom v → t.message_pool ≡ s.message_pool)
unfolding handle_msg
handle_msg-ring v m s h =
    let r = by_type v m.msg_type m s in
    let kept = by_type-Handled v m s m.msg_type in
    let lt = h.1 in
    let known : ltb (ring_of m.msg_type) msg_num ≡ true = ground arith in
    (
      reply v r.0 r.1,
      rw known refl,
      reply-ring v r.0 r.1 (rw kept.msg_type h.0) ∙ ap (λ (f : ℕ → List Message). f 0) kept.ring,
      λ room. reply-pool v r.0 r.1 room ∙ kept.pool,
    )

handle_all-ring :
    (v : Services) (l : List Message) (s : Process)
    → AreRequests l
    → (t : Process) × (handle_all v l s ≡ some t)
      × (t.ring 0 ≡ s.ring 0)
      × (HaveRoom v → t.message_pool ≡ s.message_pool)
unfolding handle_all
handle_all-ring v [] s h = (s, refl, refl, λ room. refl)
handle_all-ring v (m ∷ l) s h =
    let x = handle_msg-ring v m s (h.0, h.1, tt) in
    let y = handle_all-ring v l x.0 h.2 in
    (y.0, rw (handle_all, x.1) y.1, y.2 ∙ x.2, λ room. y.3 room ∙ x.3 room)

same_process : (s t u : Process) → some t ≡ some u → t ≡ u
same_process s t u e = ap (λ (o : Option Process). elim o [ none ↦ s | some x ↦ x ]) e

-- What a call leaves: the messages behind the ones that it took
process_msg_ring-rest :
    (v : Services) (count : ℕ) (s : Process)
    → AreRequests (s.ring 0)
    → s.opened ≡ s.closed
    → (t : Process) × (process_msg_ring v count s ≡ some t)
      × (t.ring 0 ≡ drop count (s.ring 0))
      × ((a : ℕ) → held a t ≡ held a s)
      × (t.opened ≡ t.closed)
      × (HaveRoom v → t.message_pool ≡ s.message_pool)
unfolding process_msg_ring
process_msg_ring-rest v count s h closed =
    let taken = record s { ring = update s.ring 0 (drop count (s.ring 0)) } in
    let x = handle_all-ring v (take count (s.ring 0)) taken (AreRequests-take count (s.ring 0) h) in
    let y = process_msg_ring-held v count s (requests_known (s.ring 0) h) closed in
    let same = same_process s x.0 y.0 (sym x.1 ∙ y.1) in
    (
      y.0,
      y.1,
      ap (λ (u : Process). u.ring 0) (sym same) ∙ x.2,
      y.2,
      y.3,
      λ room. ap (λ (u : Process). u.message_pool) (sym same) ∙ x.3 room,
    )

-- What other programs put into the ring
asked-held :
    (a : ℕ) (new : List Message) (s : Process) → named a new ≡ 0 → held a (asked new s) ≡ held a s
asked-held a new s e = omega (
  arith,
  e,
  in_rings-update msg_num a 0 (s.ring 0 ++ new) s.ring (omega arith),
  named-append-list a (s.ring 0) new,
)

calls_step :
    (v : Services) (count : ℕ) (new : List Message) (later : List (List Message)) (s t : Process)
    → process_msg_ring v count (asked new s) ≡ some t
    → calls v count (new ∷ later) s ≡ calls v count later t
calls_step v count new later s t e = rw (calls, e) refl

-- The calls take what stands in front of the requests that come later.
calls-behind :
    (v : Services) (count a k : ℕ) (batches : List (List Message)) (s : Process)
    → AreRequests (s.ring 0)
    → s.opened ≡ s.closed
    → AreOthers a batches
    → named a (drop k (s.ring 0)) ≡ 0
    → k ≤ length batches * count
    → (t : Process) × (calls v count batches s ≡ some t)
      × (named a (t.ring 0) ≡ 0)
      × (held a t ≡ held a s)
      × (HaveRoom v → t.message_pool ≡ s.message_pool)
calls-behind v count a zero [] s h closed others none_behind le =
    (s, refl, none_behind, refl, λ room. refl)
calls-behind v count a (suc k) [] s h closed others none_behind le = absurd (omega arith)
calls-behind v count a k (new ∷ later) s h closed others none_behind le =
    let ring = s.ring 0 ++ new in
    let x =
      process_msg_ring-rest v count (asked new s) (AreRequests-append (s.ring 0) new h others.0)
        closed in
    let t = x.0 in
    let rest : named a (drop (k - count) (t.ring 0)) ≡ 0 =
      ap (λ l. named a (drop (k - count) l)) x.2
      ∙ omega (
        arith,
        named-drop-drop a k count ring,
        named-drop-append a k (s.ring 0) new,
        none_behind,
        others.1,
      ) in
    let requests : AreRequests (t.ring 0) =
      rw x.2 (AreRequests-drop count ring (AreRequests-append (s.ring 0) new h others.0)) in
    let less : k - count ≤ length later * count = grind arith in
    let y = calls-behind v count a (k - count) later t requests x.4 others.2 rest less in
    (
      y.0,
      calls_step v count new later s t x.1 ∙ y.1,
      y.2,
      omega (arith, y.3, x.3 a, asked-held a new s others.1),
      λ room. y.4 room ∙ x.5 room,
    )

-- The requests in the ring are of types from the first to the last of the enumeration, and so are the messages, other
-- than the one looked at, that other programs put there before each call. After calls of `process_msg_ring` for as
-- many messages as the ring had at first, whatever the handlers answer, the message looked at is not in the ring of
-- requests any longer, and it is in a ring of answers or in the pool as often as it was held before. If the rings
-- always have room, the pool is as it was, so that it is in a ring of answers: it has been answered.
pub process_msg_ring-answers :
    (v : Services) (count a : ℕ) (batches : List (List Message)) (s : Process)
    → AreRequests (s.ring 0)
    → s.opened ≡ s.closed
    → AreOthers a batches
    → length (s.ring 0) ≤ length batches * count
    → (t : Process) × (calls v count batches s ≡ some t)
      × (named a (t.ring 0) ≡ 0)
      × (held a t ≡ held a s)
      × (HaveRoom v → t.message_pool ≡ s.message_pool)
process_msg_ring-answers v count a batches s h closed others le =
    calls-behind v count a (length (s.ring 0)) batches s h closed others
      (named-drop_length a (length (s.ring 0)) (s.ring 0) (omega arith)) le
