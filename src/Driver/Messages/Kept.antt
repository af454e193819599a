-- ===== src/Driver/Messages/Kept.antt =====
-- No message is lost by `process_msg_ring` of src/lazybsd_dpdk.cc, and no descriptor is left open.
use lazybsd.Prelude.{
  ℕ, zero, suc, ◌+◌, ◌≤◌, ◌<◌, ◌≡◌, refl, ap, ◌∙◌, Bool, true, false, some, if◌then◌else◌, ltb,
  ◌==◌, update, List, [], ◌∷◌, ◌++◌, take, drop, arith, Bool-cases, inl, inr,
}
use lazybsd.Driver.Messages.Handled.{Handled, by_type-Handled}
use lazybsd.Driver.Messages.{
  Message, Services, Process, ring_of, msg_num, by_type, put_back, reply, handle_msg, handle_all,
  process_msg_ring,
}

-- How often a message is in a list, in all rings, and there and in the pool together
abbrev pub named : (name : ℕ) → List Message → ℕ
named a [] = 0
named a (m ∷ l) = (if m.name == a then 1 else 0) + named a l

abbrev pub in_rings : (rings : ℕ) → (name : ℕ) → (ℕ → List Message) → ℕ
in_rings zero a f = 0
in_rings (suc n) a f = in_rings n a f + named a (f n)

abbrev pub held : (name : ℕ) → Process → ℕ
held a s = in_rings msg_num a s.ring + named a s.message_pool

named-append :
    (a : ℕ) (l : List Message) (m : Message)
    → named a (l ++ m ∷ []) ≡ named a l + (if m.name == a then 1 else 0)
named-append a [] m = omega arith
named-append a (x ∷ l) m = omega (arith, named-append a l m)

named-take : (a n : ℕ) (l : List Message) → named a (take n l) + named a (drop n l) ≡ named a l
named-take a zero l = omega arith
named-take a (suc n) [] = refl
named-take a (suc n) (x ∷ l) = omega (arith, named-take a n l)

in_rings-update_above :
    (n a r : ℕ) (l : List Message) (f : ℕ → List Message)
    → n ≤ r
    → in_rings n a (update f r l) ≡ in_rings n a f
in_rings-update_above zero a r l f h = refl
in_rings-update_above (suc n) a r l f h =
    let other : (n == r) ≡ false = ground arith in
    rw other (omega (arith, in_rings-update_above n a r l f (omega arith)))

pub in_rings-update :
    (n a r : ℕ) (l : List Message) (f : ℕ → List Message)
    → r < n
    → in_rings n a (update f r l) + named a (f r) ≡ in_rings n a f + named a l
in_rings-update zero a r l f h = absurd (omega arith)
in_rings-update (suc n) a r l f h = elim (Bool-cases (n == r)) [
  | inl last ↦
      let same : n ≡ r = ground arith in
      let here : named a (f n) ≡ named a (f r) = ap (λ x. named a (f x)) same in
      rw last (omega (arith, in_rings-update_above n a r l f (omega arith), here))
  | inr before ↦
      let lt : r < n = ground arith in rw before (omega (arith, in_rings-update n a r l f lt))
]

-- The messages that there are, and the descriptors that are open, behind a step that had `new` more to answer
record IsKept (new : List Message) (s t : Process) : Type 0 where
  held : (a : ℕ) → held a t ≡ held a s + named a new
  closed : s.opened ≡ s.closed → t.opened ≡ t.closed

put_back-IsKept : (m : Message) (s : Process) → IsKept (m ∷ []) s (put_back m s)
put_back-IsKept m s = by_buffer (m.original_buf == 0) refl
  where
    by_buffer : (b : Bool) → (m.original_buf == 0) ≡ b → IsKept (m ∷ []) s (put_back m s)
    by_buffer true e =
        rw e record { held = λ a. omega (arith, named-append a s.message_pool m); closed = λ h. h }
    by_buffer false e =
        let back : Message = record m {
          buf_addr = m.original_buf;
          buf_len = m.original_buf_len;
          original_buf = 0;
        } in
        rw e
          record { held = λ a. omega (arith, named-append a s.message_pool back); closed = λ h. h }

reply-IsKept :
    (v : Services) (m : Message) (s : Process)
    → ring_of m.msg_type < msg_num
    → IsKept (m ∷ []) s (reply v m s)
reply-IsKept v m s lt = by_room (v.has_room (ring_of m.msg_type) (s.ring (ring_of m.msg_type))) refl
  where
    by_room :
        (b : Bool)
        → v.has_room (ring_of m.msg_type) (s.ring (ring_of m.msg_type)) ≡ b
        → IsKept (m ∷ []) s (reply v m s)
    by_room false e = rw e (put_back-IsKept m s)
    by_room true e =
        let r = ring_of m.msg_type in
        rw e record {
          held = λ a. omega (
            arith,
            in_rings-update msg_num a r (s.ring r ++ m ∷ []) s.ring lt,
            named-append a (s.ring r) m,
          );
          closed = λ h. h;
        }

handle_msg-IsKept :
    (v : Services) (m : Message) (s : Process)
    → ring_of m.msg_type < msg_num
    → (t : Process) × (handle_msg v m s ≡ some t) × IsKept (m ∷ []) s t
unfolding handle_msg
handle_msg-IsKept v m s lt =
    let r = by_type v m.msg_type m s in
    let h = by_type-Handled v m s m.msg_type in
    let known : ltb (ring_of m.msg_type) msg_num ≡ true = ground arith in
    let k = reply-IsKept v r.0 r.1 (rw h.msg_type lt) in
    (
      reply v r.0 r.1,
      rw known refl,
      record { held = λ a. same_held a r.0 r.1 h (k.held a); closed = λ e. k.closed (h.closed e) },
    )
  where
    same_held :
        (a : ℕ) (m' : Message) (s' : Process)
        → Handled m s (m', s')
        → held a (reply v m' s') ≡ held a s' + named a (m' ∷ [])
        → held a (reply v m' s') ≡ held a s + named a (m ∷ [])
    same_held a m' s' h e =
        let rings : in_rings msg_num a s'.ring ≡ in_rings msg_num a s.ring =
          ap (in_rings msg_num a) h.ring in
        let pool : named a s'.message_pool ≡ named a s.message_pool = ap (named a) h.pool in
        let one : named a (m' ∷ []) ≡ named a (m ∷ []) =
          ap (λ x. (if x == a then 1 else 0) + 0) h.name in
        e ∙ omega (arith, rings, pool, one)

-- The types are those of the enumeration.
abbrev pub AreKnown : List Message → Type 0
AreKnown [] = Unit {0}
AreKnown (m ∷ l) = (ring_of m.msg_type < msg_num) × AreKnown l

handle_all-IsKept :
    (v : Services) (ms : List Message) (s : Process)
    → AreKnown ms
    → (t : Process) × (handle_all v ms s ≡ some t) × IsKept ms s t
unfolding handle_all
handle_all-IsKept v [] s k = (s, refl, record { held = λ a. omega arith; closed = λ h. h })
handle_all-IsKept v (m ∷ ms) s k =
    let x = handle_msg-IsKept v m s k.0 in
    let y = handle_all-IsKept v ms x.0 k.1 in
    (
      y.0,
      rw (handle_all, x.1) y.1,
      record {
        held = λ a. omega (arith, x.2.held a, y.2.held a);
        closed = λ h. y.2.closed (x.2.closed h);
      },
    )

AreKnown-take : (n : ℕ) (l : List Message) → AreKnown l → AreKnown (take n l)
AreKnown-take zero l h = tt
AreKnown-take (suc n) [] h = tt
AreKnown-take (suc n) (m ∷ l) h = (h.0, AreKnown-take n l h.1)

-- With messages of types of the enumeration in the ring of requests, `process_msg_ring` returns. Then each message
-- is in one of the rings or in the pool as often as before: none is lost, and none is there twice, whatever
-- the handlers answer and the rings take. Every descriptor that a handler opened is closed.
pub process_msg_ring-held :
    (v : Services) (count : ℕ) (s : Process)
    → AreKnown (s.ring 0)
    → s.opened ≡ s.closed
    → (t : Process) × (process_msg_ring v count s ≡ some t)
      × ((a : ℕ) → held a t ≡ held a s)
      × (t.opened ≡ t.closed)
unfolding process_msg_ring
process_msg_ring-held v count s known closed =
    let taken = record s { ring = update s.ring 0 (drop count (s.ring 0)) } in
    let x =
      handle_all-IsKept v (take count (s.ring 0)) taken (AreKnown-take count (s.ring 0) known) in
    (
      x.0,
      x.1,
      λ a. omega (
        arith,
        x.2.held a,
        in_rings-update msg_num a 0 (drop count (s.ring 0)) s.ring (omega arith),
        named-take a count (s.ring 0),
      ),
      x.2.closed closed,
    )
