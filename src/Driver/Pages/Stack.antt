-- ===== src/Driver/Pages/Stack.antt =====
-- The pages of src/lazybsd_memory.cc as an abstract stack, and the physical addresses behind them.
use lazybsd.Prelude.{
  ℕ, zero, suc, ◌+◌, ◌-◌, ◌*◌, ◌/◌, ◌%◌, ◌^◌, ◌≤◌, ◌<◌, ◌≡◌, refl, ap, ◌∙◌, Option, none, some,
  if◌then◌else◌, ltb, leb, ◌==◌, update, List, [], ◌∷◌, length, arith, Bool-cases, inl, inr,
}
use lazybsd.Driver.Pages.{
  StackList, stklist_pop, stklist_push, push_pages, page_size, Pages, mmap_init, mem_get_page,
  mem_free_addr, mem_virt2phy,
}

-- The free pages, the next one first.
abbrev pub view_to : (ℕ → ℕ) → ℕ → List ℕ
view_to ele zero = []
view_to ele (suc n) = ele n ∷ view_to ele n

abbrev pub view : StackList → List ℕ
view p = view_to p.ele p.top

-- The operations, and what the caller sees of each.
pub data Call : Type 0 where
  get : Call
  free : ℕ → Call

abbrev pub spec_pop : List ℕ → List ℕ × Option ℕ
spec_pop [] = ([], none)
spec_pop (x ∷ xs) = (xs, some x)

abbrev pub spec_push : (size : ℕ) → ℕ → List ℕ → List ℕ
spec_push size a l = if ltb (length l) size then a ∷ l else l

-- A sequence of calls on the abstract stack, and on the pages: the results of the calls of `get`.
abbrev pub spec_run : (size : ℕ) → List Call → List ℕ → List (Option ℕ)
spec_run size [] l = []
spec_run size (get ∷ cs) l = (spec_pop l).1 ∷ spec_run size cs (spec_pop l).0
spec_run size (free a ∷ cs) l = spec_run size cs (spec_push size a l)

abbrev pub run : List Call → Pages → List (Option ℕ)
run [] g = []
run (get ∷ cs) g = let r = mem_get_page g in r.1 ∷ run cs r.0
run (free a ∷ cs) g = run cs (mem_free_addr g a)

length-view_to : (ele : ℕ → ℕ) (n : ℕ) → length (view_to ele n) ≡ n
length-view_to ele zero = refl
length-view_to ele (suc n) = ap suc (length-view_to ele n)

view_to-update : (ele : ℕ → ℕ) (n k a : ℕ) → n ≤ k → view_to (update ele k a) n ≡ view_to ele n
view_to-update ele zero k a h = refl
view_to-update ele (suc n) k a h =
    let other : (n == k) ≡ ltb 1 0 = ground arith in
    rw other (ap (λ l. ele n ∷ l) (view_to-update ele n k a (omega arith)))

view-push : (p : StackList) (a : ℕ) → view (stklist_push p a).0 ≡ spec_push p.size a (view p)
unfolding stklist_push
view-push p a =
    let same = view_to-update p.ele p.top p.top a (omega arith) in
    let len = length-view_to p.ele p.top in
    let self : (p.top == p.top) ≡ ltb 0 1 = ground arith in
    let one : p.top + 1 ≡ suc p.top = omega arith in
    elim (Bool-cases (ltb p.top p.size)) [
      | inl room ↦ rw (len, room, one, self) (ap (λ l. a ∷ l) same)
      | inr full ↦ rw (len, full) refl
    ]

pop_at :
    (ele : ℕ → ℕ) (size top : ℕ)
    → let r = stklist_pop (record { ele = ele; size = size; top = top }) in
      (view r.0 ≡ (spec_pop (view_to ele top)).0)
      × (r.1 ≡ (spec_pop (view_to ele top)).1)
      × (r.0.size ≡ size)
unfolding stklist_pop
pop_at ele size zero = (refl, refl, refl)
pop_at ele size (suc n) =
    let e : suc n - 1 ≡ n = omega arith in
    let t : ltb 0 (suc n) ≡ ltb 0 1 = ground arith in rw (t, e) (refl, refl, refl)

size-push : (p : StackList) (a : ℕ) → (stklist_push p a).0.size ≡ p.size
unfolding stklist_push
size-push p a = ground arith

-- The stack of pages answers every sequence of `lazybsd_mem_get_page` and `lazybsd_mem_free_addr` as a list
-- does of which the length is bounded: the page freed last comes first, NULL comes when there is
-- none, and a page beyond the size is dropped.
pub run-spec_run :
    (cs : List Call) (g : Pages) → run cs g ≡ spec_run g.mpage_ctl.size cs (view g.mpage_ctl)
unfolding mem_get_page mem_free_addr
run-spec_run [] g = refl
run-spec_run (get ∷ cs) g =
    let p = g.mpage_ctl in
    let r = pop_at p.ele p.size p.top in
    let rest = run-spec_run cs (mem_get_page g).0 in
    let same : spec_run (mem_get_page g).0.mpage_ctl.size cs (view (mem_get_page g).0.mpage_ctl)
        ≡ spec_run p.size cs (spec_pop (view p)).0 =
      rw (r.2, r.0) refl in
    rw r.1 (ap (λ l. (spec_pop (view p)).1 ∷ l) (rest ∙ same))
run-spec_run (free a ∷ cs) g =
    let p = g.mpage_ctl in
    let rest = run-spec_run cs (mem_free_addr g a) in rest ∙ rw (size-push p a, view-push p a) refl

-- The pages from the first on, as they are pushed.
abbrev pub pages_below : (start : ℕ) → (n : ℕ) → List ℕ
pages_below start zero = []
pages_below start (suc n) = (start + page_size * n) ∷ pages_below start n

view-push_pages :
    (rounds i start : ℕ) (p : StackList)
    → p.top ≡ i
    → i + rounds ≤ p.size
    → view p ≡ pages_below start i
    → (view (push_pages rounds i start p) ≡ pages_below start (i + rounds))
      × ((push_pages rounds i start p).size ≡ p.size)
unfolding push_pages
view-push_pages zero i start p top fits h = let e : i + 0 ≡ i = omega arith in rw e (h, refl)
view-push_pages (suc rounds) i start p top fits h =
    let q = (stklist_push p (start + page_size * i)).0 in
    let size : q.size ≡ p.size = size-push p (start + page_size * i) in
    let len : length (view p) ≡ i = length-view_to p.ele p.top ∙ top in
    let room : ltb (length (view p)) p.size ≡ ltb 0 1 = ground arith in
    let on_top : q.top ≡ i + 1 = unfold stklist_push in ground arith in
    let one : i + 1 ≡ suc i = omega arith in
    let now : view q ≡ pages_below start (i + 1) =
      view-push p (start + page_size * i)
      ∙ rw (room, one) (ap (λ l. (start + page_size * i) ∷ l) h) in
    let rest = view-push_pages rounds (i + 1) start q on_top (omega arith) now in
    let sum : i + suc rounds ≡ i + 1 + rounds = omega arith in rw sum (rest.0, rest.1 ∙ size)

-- After `lazybsd_mmap_init` the free pages are all pages of the memory, the last one first, and there is no
-- room for another.
pub mmap_init-pages_below :
    (mem_size start : ℕ) (virt2phy ele : ℕ → ℕ)
    → let g = mmap_init mem_size start virt2phy ele in
      (view g.mpage_ctl ≡ pages_below start (mem_size * 256)) × (g.mpage_ctl.size ≡ mem_size * 256)
unfolding mmap_init
mmap_init-pages_below mem_size start virt2phy ele =
    let n : mem_size * 2 ^ 20 / 2 ^ 12 ≡ mem_size * 256 = omega arith in
    let r =
      view-push_pages (mem_size * 256) 0 start
        (record { ele = ele; size = mem_size * 256; top = 0 }) refl (omega arith) refl in
    let zero_add : 0 + mem_size * 256 ≡ mem_size * 256 = omega arith in
    rw n (r.0 ∙ ap (pages_below start) zero_add, r.1)

-- An address in a page of the memory, which starts at a page, has the physical address of its page
-- and its offset there.
pub mem_virt2phy-mmap_init :
    (mem_size start : ℕ) (virt2phy ele : ℕ → ℕ) (k offset : ℕ)
    → k < mem_size * 256
    → offset < page_size
    → start % page_size ≡ 0
    → start + mem_size * 2 ^ 20 ≤ 2 ^ 44
    → mem_virt2phy (mmap_init mem_size start virt2phy ele) (start + page_size * k + offset)
      ≡ some ((virt2phy (start + page_size * k) + offset) % 2 ^ 64)
unfolding mem_virt2phy
mem_virt2phy-mmap_init mem_size start virt2phy ele k offset hk ho aligned bounded =
    let size = (mmap_init-pages_below mem_size start virt2phy ele).1 in
    let g = mmap_init mem_size start virt2phy ele in
    let from : g.page_start ≡ start = unfold mmap_init in refl in
    let phy : g.mpage_phy k ≡ virt2phy (start + page_size * k) = unfold mmap_init in refl in
    let page : (start + page_size * k + offset + 2 ^ 64 - start) % 2 ^ 64 / page_size % 2 ^ 32 ≡ k =
      omega arith in
    let low : (start + page_size * k + offset) % page_size ≡ offset = omega arith in
    let inside : leb (mem_size * 256) k ≡ ltb 1 0 = ground arith in
    rw (from, page, size, inside, phy, low) refl
