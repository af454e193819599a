-- ===== src/Driver/Pages.antt =====
-- src/lazybsd_memory.cc: the stack of free pages, `stklist_init`, `stklist_pop`, `stklist_push`,
-- `lazybsd_mmap_init`, `lazybsd_mem_get_page`, `lazybsd_mem_free_addr`, `lazybsd_chk_vma` and
-- `lazybsd_mem_virt2phy`.
pub mod Stack
use lazybsd.Prelude.{
  ℕ, zero, suc, ◌+◌, ◌-◌, ◌*◌, ◌/◌, ◌%◌, ◌^◌, Bool, ◌&&◌, Option, none, some, if◌then◌else◌, ltb,
  leb, update, List, [], ◌∷◌,
}

-- `StackList_t`
pub record StackList : Type 0 where
  pub ele : ℕ → ℕ
  pub size : ℕ
  pub top : ℕ

-- `stklist_init`, with `posix_memalign`; `none` is an error.
abbrev pub stklist_init : (memalign : Option (ℕ → ℕ)) → (size : ℕ) → Option StackList
stklist_init none size = none
stklist_init (some ele) size =
    if ltb 0 size then some record { ele = ele; size = size; top = 0 } else none

-- `stklist_pop`; `none` is NULL.
unfoldable pub stklist_pop : StackList → StackList × Option ℕ
stklist_pop p =
    if ltb 0 p.top then (record p { top = p.top - 1 }, some (p.ele (p.top - 1))) else (p, none)

-- `stklist_push`; the result is whether there was room.
unfoldable pub stklist_push : StackList → (val : ℕ) → StackList × Bool
stklist_push p val =
    if ltb p.top p.size
    then (record p { ele = update p.ele p.top val; top = p.top + 1 }, ltb 0 1)
    else (p, ltb 1 0)

-- `PAGE_SIZE`, and the pages behind the address that `mmap` has given.
abbrev pub page_size : ℕ
page_size = 4096

-- The loop of `lazybsd_mmap_init`, which pushes page after page from `i` on, for the rounds left.
unfoldable pub push_pages : (rounds i page_start : ℕ) → StackList → StackList
unfolding stklist_push
push_pages zero i start p = p
push_pages (suc rounds) i start p =
    push_pages rounds (i + 1) start (stklist_push p (start + page_size * i)).0

-- `lazybsd_mmap_init`: the number of pages is the size in MiB, times 2 ^ 20, over 2 ^ 12. Each page has
-- the physical address that `rte_mem_virt2phy` gives; a failure of the system ends the program.
pub record Pages : Type 0 where
  pub mpage_ctl : StackList
  pub page_start : ℕ
  pub page_end : ℕ
  pub mpage_phy : ℕ → ℕ

unfoldable pub mmap_init : (mem_size page_start : ℕ) → (virt2phy : ℕ → ℕ) → (ele : ℕ → ℕ) → Pages
unfolding push_pages
mmap_init mem_size start virt2phy ele =
    let bytes = mem_size * 2 ^ 20 in
    let pages = bytes / 2 ^ 12 in
    record {
      mpage_ctl = push_pages pages 0 start (record { ele = ele; size = pages; top = 0 });
      page_start = start;
      page_end = start + bytes;
      mpage_phy = λ i. virt2phy (start + page_size * i);
    }

-- `lazybsd_mem_get_page` and `lazybsd_mem_free_addr`
unfoldable pub mem_get_page : Pages → Pages × Option ℕ
unfolding stklist_pop
mem_get_page g = let r = stklist_pop g.mpage_ctl in (record g { mpage_ctl = r.0 }, r.1)

unfoldable pub mem_free_addr : Pages → (p : ℕ) → Pages
unfolding stklist_push
mem_free_addr g p = record g { mpage_ctl = (stklist_push g.mpage_ctl p).0 }

-- `lazybsd_chk_vma`
unfoldable pub chk_vma : Pages → (virtaddr : ℕ) → Bool
chk_vma g virtaddr = ltb g.page_start virtaddr && ltb virtaddr g.page_end

-- `lazybsd_mem_virt2phy`: the page is a 32-bit number, the offset is `virtaddr` in its page; `none` is the
-- panic. An address below `page_start` wraps round.
unfoldable pub mem_virt2phy : Pages → (virtaddr : ℕ) → Option ℕ
mem_virt2phy g virtaddr =
    let pages = (virtaddr + 2 ^ 64 - g.page_start) % 2 ^ 64 / page_size % 2 ^ 32 in
    if leb g.mpage_ctl.size pages
    then none
    else some ((g.mpage_phy pages + virtaddr % page_size) % 2 ^ 64)
