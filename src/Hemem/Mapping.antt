-- ===== src/Hemem/Mapping.antt =====
-- src/hemem.c: `hemem_mmap` with `hemem_mmap_populate`, and `hemem_munmap`. The two loops take
-- fuel: one round more than the region has base pages, and each round advances by a page.
pub mod Populate
pub mod Unmapped
pub mod Unmap
pub mod Map
pub mod Round
use hemem.Prelude.{
  ℕ, zero, suc, ◌+◌, ◌*◌, ◌-◌, ◌/◌, ◌%◌, Bool, true, false, not, Option, none, some, Ptr, ltb, ◌==◌,
  if◌then◌else◌, assert, ◌>>=◌, ◌>>◌, add64, sub64,
}
use hemem.Memory.Page.{pt_to_pagesize, basepage_size, hugepage_size}
use hemem.Memory.Kernel.{mmap_region, munmap, uffd_register, uffd_cr3, Reply, Env}
use hemem.Memory.State.{State, set_internal, log}
use hemem.Hemem.Pages.{add_page, remove_page, find_page}
use hemem.Hemem.Policy.{Policy}
use hemem.Hemem.Migrate.{must}
use hemem.Hemem.Fault.{map_frame}

-- `PAGE_ROUND_UP(x)`
unfoldable pub page_round_up : ℕ → ℕ
page_round_up x = let y = add64 x (hugepage_size - 1) in y - y % hugepage_size

abbrev pub rounds : ℕ → ℕ
rounds length = suc (length / basepage_size)

-- A flag of the value `bit`, a power of 2.
abbrev pub has_flag : ℕ → ℕ → Bool
has_flag bit flags = flags / bit % 2 == 1

abbrev pub clear_flag : ℕ → ℕ → ℕ
clear_flag bit flags = if has_flag bit flags then flags - bit else flags

abbrev pub set_flag : ℕ → ℕ → ℕ
set_flag bit flags = if has_flag bit flags then flags else flags + bit

abbrev pub map_shared : ℕ
map_shared = 1

abbrev pub map_private : ℕ
map_private = 2

abbrev pub map_anonymous : ℕ
map_anonymous = 0x20

abbrev pub map_hugetlb : ℕ
map_hugetlb = 0x40000

-- The flags that go to the kernel.
unfoldable pub shared_flags : ℕ → ℕ
shared_flags flags =
    let shared =
      if has_flag map_private flags
      then set_flag map_shared (clear_flag map_private flags)
      else flags in
    clear_flag map_hugetlb (clear_flag map_anonymous shared)

module _ (e : Env) where
  abbrev S : Type 0
  S = State e.table.Table

  module _ (policy : Policy e) where
    -- One page of `hemem_mmap_populate`.
    unfoldable pub populate_page : ℕ → S → Option (ℕ × S)
    unfolding pt_to_pagesize
    populate_page boundary s = do
      (p, s) ← policy.pagefault s
      let pagesize = pt_to_pagesize (s.page p).pt
      s ← map_frame e false boundary p s
      let s = record s {
        stats = record (s.stats) {
          mem_allocated = add64 s.stats.mem_allocated pagesize;
          pages_allocated = add64 s.stats.pages_allocated 1;
        };
      }
      s ← add_page e p s
      some (add64 boundary pagesize, s)

    unfoldable pub populate_loop : ℕ → ℕ → ℕ → S → Option S
    populate_loop zero end boundary s = if ltb boundary end then none else some s
    populate_loop (suc fuel) end boundary s = elim (ltb boundary end) [
      | true ↦ do (boundary, s) ← populate_page boundary s; populate_loop fuel end boundary s
      | false ↦ some s
    ]

    unfoldable pub hemem_mmap_populate : ℕ → ℕ → S → Option S
    hemem_mmap_populate addr length s = do
      assert (not (addr == 0))
      assert (not (length == 0))
      populate_loop (rounds length) (add64 addr length) addr s

    -- The kernel is asked once for the root of the page table.
    unfoldable pub set_cr3 : S → Option S
    set_cr3 s =
        if s.cr3_set
        then some s
        else do (root, s) ← must e uffd_cr3 s; some (record s { cr3 = root; cr3_set = true })

    unfoldable pub hemem_mmap : ℕ → ℕ → ℕ → ℕ → ℕ → S → Option (ℕ × S)
    hemem_mmap addr length prot flags offset s = do
      let s = set_internal s true
      assert s.is_init
      assert (not (length == 0))
      let flags = shared_flags flags
      let length = page_round_up length
      (p, s) ← must e (mmap_region addr length prot flags e.dramfd (add64 offset e.dramoffset)) s
      assert (not (p == 0))
      (_, s) ← must e (uffd_register p length) s
      s ← set_cr3 s
      s ← hemem_mmap_populate p length s
      let s = record s { stats = record (s.stats) { mem_mmaped = length } }
      some (p, set_internal s false)

    -- The page at a boundary is given back; without one the loop goes on by a base page.
    unfoldable pub unmap_page : Ptr → ℕ → S → Option (ℕ × S)
    unfolding pt_to_pagesize
    unmap_page none boundary s = some (add64 boundary basepage_size, s)
    unmap_page (some p) boundary s = do
      s ← policy.remove_page p (remove_page e p s)
      let size = pt_to_pagesize (s.page p).pt
      let s = record s {
        stats = record (s.stats) {
          mem_allocated = sub64 s.stats.mem_allocated size;
          mem_mmaped = sub64 s.stats.mem_mmaped size;
          pages_freed = add64 s.stats.pages_freed 1;
        };
      }
      some (add64 boundary size, s)

    unfoldable pub unmap_loop : ℕ → ℕ → ℕ → S → Option S
    unmap_loop zero end boundary s = if ltb boundary end then none else some s
    unmap_loop (suc fuel) end boundary s = elim (ltb boundary end) [
      | true ↦ do
        (boundary, s) ← unmap_page (find_page e boundary s) boundary s
        unmap_loop fuel end boundary s
      | false ↦ some s
    ]

    unfoldable pub hemem_munmap : ℕ → ℕ → S → Option (Reply × S)
    hemem_munmap addr length s = do
      s ← unmap_loop (rounds length) (add64 addr length) addr (set_internal s true)
      let c = munmap addr length
      some (e.os s.calls c, set_internal (log s c) false)
