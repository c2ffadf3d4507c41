-- ===== src/Pebs/Sample.antt =====
-- A small machine and a state of it: the data of the tests.
use hemem.Prelude.{
  ℕ, refl, true, false, none, some, [], ◌∷◌, List, Ptr, arith, ◌==◌, if◌then◌else◌, same_ptr, pos,
  negsuc,
}
use hemem.Ring.{RingBuf}
use hemem.Fifo.{FifoList, Store}
use hemem.Fifo.Seg.{mk, unlinked}
use hemem.Fifo.Rep.{Rep}
use hemem.Memory.Page.{Page, zero_page, no_counts, hugepage_size, pt_to_pagesize}
use hemem.Memory.Kernel.{
  mmap_fixed, mmap_region, munmap, uffd_register, uffd_writeprotect, uffd_dma_copy, uffd_wake,
  uffd_cr3, uffd_get_flag, uffd_clear_flag, uffd_tlbflush, ok, result, Os, Serves, PageTable, Env,
}
use hemem.Memory.State.{State, Pebs}
use hemem.Pebs.Invariant.{Inv}
use hemem.Pebs.Invariant.Raising.{Movable}

abbrev pub serving : Os
serving before c = ok (result 8388608 c)

-- The table as a function.
abbrev pub table : PageTable
table = record {
  Table = ℕ → Ptr;
  empty = λ _. none;
  find = λ t k. t k;
  add = λ t k page q. if q == k then some page else t q;
  del = λ t page q. if same_ptr (t q) (some page) then none else t q;
  find-empty = λ k. refl;
  find-add = λ t k page q h. refl;
  find-del = λ t page q. refl;
}

-- Two huge pages of DRAM and three of NVM.
abbrev pub machine : Env
machine = record {
  dramsize = 4194304;
  nvmsize = 6291456;
  dramoffset = 0;
  nvmoffset = 0;
  dramfd = 10;
  nvmfd = 11;
  dram_devdax_mmap = 0x10000000;
  nvm_devdax_mmap = 0x20000000;
  os = serving;
  table = table;
}

abbrev pub one : ℕ → FifoList
one p = record { first = some p; last = some p; numentries = 1 }

-- Page 1 is allocated in DRAM and cold, page 2 is free in DRAM, page 3 is allocated in NVM and hot,
-- pages 4 and 5 are free in NVM; 5 came in last.
abbrev pub store : Store
store = record {
  link = λ q.
      if q == 1
      then mk none none (some 1)
      else if q == 2
      then mk none none (some 2)
      else if q == 3
      then mk none none (some 3)
      else if q == 4
      then mk none (some 5) (some 5)
      else if q == 5
      then mk (some 4) none (some 5)
      else unlinked;
  fifo = λ l.
      if l == 1
      then one 1
      else if l == 2
      then one 2
      else if l == 3
      then one 3
      else if l == 5
      then record { first = some 5; last = some 4; numentries = 2 }
      else record { first = none; last = none; numentries = 0 };
}

abbrev pub seqs : ℕ → List ℕ
seqs l =
    if l == 1
    then 1 ∷ []
    else if l == 2
    then 2 ∷ []
    else if l == 3
    then 3 ∷ []
    else if l == 5
    then 5 ∷ 4 ∷ []
    else []

abbrev pub pages : ℕ → Page
pages q =
    if q == 1
    then record zero_page { in_dram = true; present = true; va = hugepage_size; devdax_offset = 0 }
    else if q == 2
    then record zero_page { in_dram = true; devdax_offset = 2097152 }
    else if q == 3
    then record zero_page {
      present = true;
      hot = true;
      va = 4194304;
      devdax_offset = 0;
      accesses = record { dram = 0; nvm = 9 };
    }
    else if q == 4
    then record zero_page { devdax_offset = 2097152 }
    else record zero_page { devdax_offset = 4194304 }

abbrev pub ring : RingBuf
ring = record { buffer = none ∷ none ∷ none ∷ none ∷ []; head = 0; tail = 0; capacity = 4 }

abbrev pub pebs : Pebs
pebs = record {
  hot_ring = ring;
  cold_ring = ring;
  free_page_ring = ring;
  global_clock = 0;
  need_cool_dram = false;
  need_cool_nvm = false;
  start_dram_page = none;
  start_nvm_page = none;
  cur_cool_in_dram = none;
  cur_cool_in_nvm = none;
  hemem_pages_cnt = 0;
  other_pages_cnt = 0;
  total_pages_cnt = 0;
  zero_pages_cnt = 0;
  throttle_cnt = 0;
  unthrottle_cnt = 0;
  cools = 0;
  accesses_cnt = no_counts;
  core_accesses_cnt = λ _. 0;
}

abbrev pub state : State (ℕ → Ptr)
state = record {
  store = store;
  page = pages;
  pages = λ va. if va == 2097152 then some 1 else if va == 4194304 then some 3 else none;
  pebs = pebs;
  lru = record { vas = []; in_kscand = false; lru_runs = 0 };
  simple = record { fastmem = 0; slowmem = 0 };
  hint = record { tier = negsuc 0; persistence = pos 0; priority = pos 0 };
  stats = record {
    mem_mmaped = 0;
    mem_allocated = 0;
    pages_allocated = 0;
    pages_freed = 0;
    missing_faults_handled = 0;
    migrations_up = 0;
    migrations_down = 0;
    bytes_migrated = 0;
    memsets = 0;
    migration_waits = 0;
  };
  internal_call = false;
  is_init = true;
  cr3_set = false;
  cr3 = 0;
  calls = [];
}

pub serving-Serves : Serves machine.os
serving-Serves before (mmap_fixed a b c d) = refl
serving-Serves before (mmap_region a b c d f g) = refl
serving-Serves before (munmap a b) = refl
serving-Serves before (uffd_register a b) = refl
serving-Serves before (uffd_writeprotect a b w) = refl
serving-Serves before (uffd_dma_copy a b c) = refl
serving-Serves before (uffd_wake a b) = refl
serving-Serves before (uffd_cr3) = refl
serving-Serves before (uffd_get_flag a) = refl
serving-Serves before (uffd_clear_flag a) = refl
serving-Serves before (uffd_tlbflush a b) = refl

pub store-Rep : Rep store seqs
store-Rep = record {
  shape = λ l. ground arith;
  owned = λ q l h. ground arith;
  loose = λ q h. ground arith;
}

pub state-Inv : Inv machine 5 state
unfolding pt_to_pagesize
state-Inv = record {
  well = record { seqs = seqs; rep = store-Rep };
  count = refl;
  small = omega arith;
  fits = λ q. ground arith;
  apart = λ q r a b d o. ground arith;
}

pub state-Movable : Movable state
state-Movable = record {
  hot_mapped = λ q h. ground arith;
  hot_aligned = λ q h. ground arith;
  cold_mapped = λ q h. ground arith;
  cold_aligned = λ q h. ground arith;
  unenforced = λ q h. ground arith;
}
