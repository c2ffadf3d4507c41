-- ===== src/Lru/Scan.antt =====
-- src/policies/lru.c: the scan that sorts pages by the accessed and dirty bits of the page table, and
-- the calls of src/hemem.c that read and clear the bits. A dequeued page is used without a test in
-- `shrink_caches`; a read through NULL is `none`.
use hemem.Prelude.{
  ℕ, zero, suc, ◌-◌, ◌%◌, Bool, true, false, Option, none, some, List, [], ◌∷◌, ◌++◌, length, Ptr,
  ltb, leb, ◌==◌, if◌then◌else◌, assert, ◌>>=◌, ◌>>◌, add64,
}
use hemem.Memory.Page.{hugepage_size, page_size}
use hemem.Memory.Kernel.{uffd_get_flag, uffd_clear_flag, uffd_tlbflush, Env}
use hemem.Memory.State.{State, set_page}
use hemem.Hemem.Migrate.{must}
use hemem.Hemem.Fault.Message.{bit_and}
use hemem.Pebs.Lists.{enqueue, dequeue}
use hemem.Lru.Lists.{
  active_list, inactive_list, written_list, nvm_active_list, nvm_inactive_list, nvm_written_list,
}

-- `MAX_VAS`
abbrev pub max_vas : ℕ
max_vas = 1000000

-- `(bits & HEMEM_ACCESSED_FLAG) == HEMEM_ACCESSED_FLAG`
unfoldable pub accessed : ℕ → Bool
unfolding bit_and
accessed bits = bit_and 64 bits 0x20 == 0x20

unfoldable pub dirty : ℕ → Bool
unfolding bit_and
dirty bits = bit_and 64 bits 0x40 == 0x40

module _ {Table : Type 0} where
  abbrev pub set_written : ℕ → Bool → State Table → State Table
  set_written p b s = set_page s p (record (s.page p) { written = b })

  abbrev pub set_naccesses : ℕ → ℕ → State Table → State Table
  set_naccesses p n s = set_page s p (record (s.page p) { naccesses = n })

  -- `assert(vanum < MAX_VAS); vas[vanum++] = page->va;`
  unfoldable pub note : ℕ → State Table → Option (State Table)
  note p s = do
    assert (ltb (length s.lru.vas) max_vas)
    some (record s { lru = record (s.lru) { vas = s.lru.vas ++ (s.page p).va ∷ [] } })

  -- One page that came off a list; `missing` is what is done for NULL.
  abbrev pub at_page :
      (ℕ → State Table → Option (State Table))
      → (State Table → Option (State Table))
      → Option (State Table)
      → Ptr
      → State Table
      → Option (State Table)
  at_page sort more missing none s = missing
  at_page sort more missing (some p) s = do s ← sort p s; more s

module _ (e : Env) where
  abbrev S : Type 0
  S = State e.table.Table

  unfoldable pub hemem_get_bits : ℕ → S → Option (ℕ × S)
  hemem_get_bits va s = do assert (va % hugepage_size == 0); must e (uffd_get_flag va) s

  unfoldable pub hemem_clear_bits : ℕ → S → Option S
  hemem_clear_bits va s = do
    assert (va % hugepage_size == 0)
    (_, s) ← must e (uffd_clear_flag va) s
    some s

  unfoldable pub hemem_tlb_shootdown : ℕ → S → Option S
  hemem_tlb_shootdown va s = do
    (_, s) ← must e (uffd_tlbflush (va - va % page_size) page_size) s
    some s

  -- The body of the loop of `shrink_caches`.
  unfoldable pub shrink_page : ℕ → ℕ → ℕ → ℕ → S → Option S
  shrink_page active inactive written p s = do
    (bits, s) ← hemem_get_bits (s.page p).va s
    if accessed bits
        then (if dirty bits
            then (do s ← note p (set_written p true s); enqueue written p s)
            else (do s ← note p (set_written p false s); enqueue active p s))
        else enqueue inactive p (set_naccesses p 0 s)

  -- `while (nr_pages > 0 && list->numentries > 0) { page = dequeue_fifo(list); ...`
  abbrev pub while_pages : ℕ → (ℕ → S → Option S) → ℕ → S → Option S
  while_pages list sort zero s = some s
  while_pages list sort (suc nr_pages) s =
      let more = while_pages list sort nr_pages in
      if ltb 0 (s.store.fifo list).numentries
      then (do (o, s) ← dequeue list s; at_page sort more none o s)
      else some s

  unfoldable pub shrink_caches : ℕ → ℕ → ℕ → S → Option S
  shrink_caches active inactive written s =
      while_pages active (shrink_page active inactive written) (s.store.fifo active).numentries s

  -- The bodies of the loops of `expand_caches` and `check_writes`.
  unfoldable pub expand_page : ℕ → ℕ → ℕ → ℕ → S → Option S
  expand_page active inactive written p s = do
    (bits, s) ← hemem_get_bits (s.page p).va s
    if accessed bits
        then (if dirty bits
            then enqueue written p (set_written p true s)
            else (let s = set_written p false s in
                if leb 4 (s.page p).naccesses then enqueue active p (set_naccesses p 0 s) else (do
                  s ← note p (set_naccesses p (add64 (s.page p).naccesses 1) s)
                  enqueue inactive p s)))
        else enqueue inactive p (set_naccesses p 0 s)

  unfoldable pub check_page : ℕ → ℕ → ℕ → ℕ → S → Option S
  check_page active inactive written p s = do
    (bits, s) ← hemem_get_bits (s.page p).va s
    if accessed bits
        then (if dirty bits
            then (do s ← note p (set_written p true s); enqueue written p s)
            else enqueue active p (set_written p false s))
        else enqueue inactive p s

  -- `for (i = 0; i < nr_pages; i++) { page = dequeue_fifo(list); if (page == NULL) break; ...`
  abbrev pub for_pages : ℕ → (ℕ → S → Option S) → ℕ → S → Option S
  for_pages list sort zero s = some s
  for_pages list sort (suc nr_pages) s = do
    (o, s) ← dequeue list s
    at_page sort (for_pages list sort nr_pages) (some s) o s

  unfoldable pub expand_caches : ℕ → ℕ → ℕ → S → Option S
  expand_caches active inactive written s =
      for_pages inactive (expand_page active inactive written) (s.store.fifo inactive).numentries s

  unfoldable pub check_writes : ℕ → ℕ → ℕ → S → Option S
  check_writes active inactive written s =
      for_pages written (check_page active inactive written) (s.store.fifo written).numentries s

  unfoldable pub clear_all : List ℕ → S → Option S
  clear_all [] s = some s
  clear_all (va ∷ vas) s = do s ← hemem_clear_bits va s; clear_all vas s

  -- The body of the loop of `lru_kscand`.
  unfoldable pub kscand_iteration : S → Option S
  kscand_iteration s = do
    let s = record s { lru = record (s.lru) { in_kscand = true; vas = [] } }
    s ← check_writes active_list inactive_list written_list s
    s ← check_writes nvm_active_list nvm_inactive_list nvm_written_list s
    s ← shrink_caches active_list inactive_list written_list s
    s ← shrink_caches nvm_active_list nvm_inactive_list nvm_written_list s
    s ← expand_caches active_list inactive_list written_list s
    s ← expand_caches nvm_active_list nvm_inactive_list nvm_written_list s
    s ← clear_all s.lru.vas s
    s ← hemem_tlb_shootdown 0 s
    some (record s { lru = record (s.lru) { in_kscand = false } })
