-- ===== src/Callout/Invariant.antt =====
-- The well-formedness of the callouts of bsd/lib/lazybsd_kern_timeout.c, and the primitive steps
-- that keep it.
use lazybsd.Prelude.{
  ℕ, ◌<◌, ◌≡◌, refl, ap, ◌∙◌, ◌≢◌, Bool, true, false, Option, none, some, List, [], ◌∷◌, bit_and,
  update, erase, after, count, count-erase, if◌then◌else◌, ◌==◌, points, arith, u32_mod,
}
use lazybsd.Callout.Api.{take_off}
use lazybsd.Callout.State.{Callout, State, home, list_next, write, cc_add, unlink}

-- On a list of the wheel exactly the callouts stand that are pending and whose time hashes there,
-- each once.
abbrev pub slots : Callout → (mask bucket : ℕ) → ℕ
slots k mask b = if k.pending then (if bit_and k.time mask == b then 1 else 0) else 0

abbrev pub Linked : (ℕ → Callout) → (ℕ → List ℕ) → (mask : ℕ) → Type 0
Linked store wheel mask = (c b : ℕ) → count c (wheel b) ≡ slots (store c) mask b

-- The flags that no code of the file sets, and a time that is a 32-bit word.
pub record IsPlain (k : Callout) : Type 0 where
  pub processed : k.processed ≡ false
  pub shared : k.shared ≡ false
  pub dfr_migration : k.dfr_migration ≡ false
  pub word : k.time < u32_mod

-- A callout that the iteration goes on with is on the list that it walks.
abbrev pub OnBucket : State → Option ℕ → Type 0
OnBucket s none = Unit {0}
OnBucket s (some c) = ((s.store c).pending ≡ true) × (bit_and (s.store c).time s.mask ≡ s.bucket)

pub record IsValid (s : State) : Type 0 where
  pub linked : Linked s.store s.wheel s.mask
  pub plain : (c : ℕ) → IsPlain (s.store c)
  pub cursor : OnBucket s s.next
  pub idle : s.exec0.curr ≡ none

-- What stands behind a callout on a list is on the list.
pub count-after : (c d : ℕ) (l : List ℕ) → after c l ≡ some d → 0 < count d l
count-after c d [] h = cc
count-after c d (x ∷ []) h = cc
count-after c d (x ∷ y ∷ l) h = ground (arith, count-after c d (y ∷ l))

pub count-after_self : (c : ℕ) (l : List ℕ) → after c l ≡ some c → 1 < count c l
count-after_self c [] h = cc
count-after_self c (x ∷ []) h = cc
count-after_self c (x ∷ y ∷ l) h = ground (arith, count-after_self c (y ∷ l))

pub OnBucket-intro :
    (s : State) (o : Option ℕ)
    → ((c : ℕ)
        → o ≡ some c
        → ((s.store c).pending ≡ true) × (bit_and (s.store c).time s.mask ≡ s.bucket))
    → OnBucket s o
OnBucket-intro s none h = tt
OnBucket-intro s (some c) h = h c refl

pub OnBucket-elim :
    (s : State) (o : Option ℕ)
    → OnBucket s o
    → (c : ℕ) → o ≡ some c
    → ((s.store c).pending ≡ true) × (bit_and (s.store c).time s.mask ≡ s.bucket)
OnBucket-elim s none h c e = cc
OnBucket-elim s (some d) h c e = ground arith

-- A callout that leaves the wheel, with `k` written to it.
abbrev pub off : State → ℕ → Callout → State
off s c k = record s {
  store = update s.store c k;
  wheel = update s.wheel (home s c) (erase c (s.wheel (home s c)));
  next = if points s.next c then list_next s c else s.next;
}

module _ {s : State} (v : IsValid s) where
  Linked-cc_add :
      (c n f a : ℕ) (d : Bool)
      → (s.store c).pending ≡ false
      → Linked (cc_add s c n f a d).store (cc_add s c n f a d).wheel s.mask
  unfolding cc_add
  Linked-cc_add c n f a d h e b = ground (arith, v.linked e b)

  cursor-cc_add :
      (c n f a : ℕ) (d : Bool)
      → (s.store c).pending ≡ false
      → OnBucket (cc_add s c n f a d) (cc_add s c n f a d).next
  unfolding cc_add
  cursor-cc_add c n f a d h =
      OnBucket-intro (cc_add s c n f a d) _ λ e q. ground (arith, OnBucket-elim s s.next v.cursor e)

  -- A callout that is not pending may be put on the wheel.
  pub cc_add-IsValid :
      (c n f a : ℕ) (d : Bool) → (s.store c).pending ≡ false → IsValid (cc_add s c n f a d)
  unfolding cc_add
  cc_add-IsValid c n f a d h = record {
    linked = Linked-cc_add c n f a d h;
    plain = λ e. ground (arith, v.plain e);
    cursor = cursor-cc_add c n f a d h;
    idle = v.idle;
  }

  -- The successor of a pending callout is on its list.
  pub list_next_lem :
      (c d : ℕ) → list_next s c ≡ some d → ((s.store d).pending ≡ true) × (home s d ≡ home s c)
  list_next_lem c d h =
      ground (arith, count-after c d (s.wheel (home s c)) h, v.linked d (home s c))

  pub list_next_ne : (c d : ℕ) → list_next s c ≡ some d → d ≢ c
  list_next_ne c d h =
      let e = count-after_self c (s.wheel (home s c)) in
      λ q. ground (arith, v.linked c (home s c), e (h ∙ ap some q))

  -- Off the list, and no longer pending, whatever else is written to it.
  pub Linked-off :
      (c : ℕ) (k : Callout)
      → k.pending ≡ false
      → Linked
          (update s.store c k)
          (update s.wheel (home s c) (erase c (s.wheel (home s c))))
          s.mask
  Linked-off c k h e b = ground (arith, v.linked e b, count-erase c e (s.wheel b))

  -- Where the iteration goes on once a callout has left the wheel.
  pub cursor-off :
      (c d : ℕ)
      → (if points s.next c then list_next s c else s.next) ≡ some d
      → (d ≢ c) × ((s.store d).pending ≡ true) × (home s d ≡ s.bucket)
  cursor-off c d q = ground (
    arith,
    OnBucket-elim s s.next v.cursor d,
    OnBucket-elim s s.next v.cursor c,
    list_next_lem c d,
    list_next_ne c d,
  )

  pub off-IsValid : (c : ℕ) (k : Callout) → k.pending ≡ false → IsPlain k → IsValid (off s c k)
  off-IsValid c k h p = record {
    linked = Linked-off c k h;
    plain = λ e. ground (arith, v.plain e);
    cursor = OnBucket-intro (off s c k) _ λ d q. ground (arith, cursor-off c d);
    idle = v.idle;
  }

  -- A write that keeps the time and whether the callout is pending keeps the invariant.
  pub write-IsValid :
      (c : ℕ) (k : Callout)
      → k.pending ≡ (s.store c).pending
      → k.time ≡ (s.store c).time
      → IsPlain k
      → IsValid (write s c k)
  write-IsValid c k h t p = record {
    linked = λ e b. ground (arith, v.linked e b);
    plain = λ e. ground (arith, v.plain e);
    cursor =
        OnBucket-intro (write s c k) _ λ d q. ground (arith, OnBucket-elim s s.next v.cursor d);
    idle = v.idle;
  }

  pub unlink_lem :
      (c : ℕ)
      → unlink s c ≡ record s {
        wheel = update s.wheel (home s c) (erase c (s.wheel (home s c)));
        next = if points s.next c then list_next s c else s.next;
      }
  unfolding unlink
  unlink_lem c = rw (v.plain c).processed

  pub take_off-off :
      (c : ℕ) → take_off s c ≡ off s c (record (s.store c) { pending = false; active = false })
  unfolding take_off
  take_off-off c =
      ap (λ (t : State). write t c (record (t.store c) { pending = false; active = false }))
        (unlink_lem c)
