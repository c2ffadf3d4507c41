-- ===== src/Lru/Tests.antt =====
-- The policy of src/policies/lru.c on a small state.
use hemem.Prelude.{
  ℕ, refl, true, none, some, List, [], ◌∷◌, Ptr, arith, ◌==◌, if◌then◌else◌, Returns,
}
use hemem.Fifo.{Store}
use hemem.Fifo.Seg.{mk, unlinked}
use hemem.Fifo.Rep.{Rep}
use hemem.Memory.Page.{Page, zero_page, hugepage_size, pt_to_pagesize}
use hemem.Memory.Kernel.{ok, result, Os, Env, uffd_get_flag}
use hemem.Memory.State.{State}
use hemem.Pebs.Sample
use hemem.Lru.Scan.{kscand_iteration, shrink_caches}
use hemem.Lru.Route.{shrink_route}
use hemem.Lru.Sorted.{Sorts, shrink_caches_lem}
use hemem.Lru.Policy.{lru_allocate_page, lru_remove_page}
use hemem.Lru.Invariant.{LruInv}
use hemem.Lru.Give.{LruAllocated, LruRemoved, lru_allocate_page_lem, lru_remove_page_lem}
use hemem.Lru.Kscand.{Obeys, Fleet, Swept, kscand_iteration_lem}

-- The first huge page was written, the second one read, the others left alone.
abbrev bits : ℕ → ℕ
bits va = if va == hugepage_size then 0x60 else if va == 4194304 then 0x20 else 0

abbrev showing : Os
showing before (uffd_get_flag va) = ok (bits va)
showing before c = ok (result 8388608 c)

abbrev machine : Env
machine = record (Sample.machine) { os = showing; dramsize = 6291456 }

-- Pages 1 and 2 are active in DRAM, 1 came in last; page 3 is inactive in NVM; page 4 is free in
-- DRAM and page 5 in NVM.
abbrev store : Store
store = record {
  link = λ q.
      if q == 1
      then mk (some 2) none (some 0)
      else if q == 2
      then mk none (some 1) (some 0)
      else if q == 3
      then mk none none (some 5)
      else if q == 4
      then mk none none (some 3)
      else if q == 5
      then mk none none (some 7)
      else unlinked;
  fifo = λ l.
      if l == 0
      then record { first = some 1; last = some 2; numentries = 2 }
      else if l == 5
      then Sample.one 3
      else if l == 3
      then Sample.one 4
      else if l == 7
      then Sample.one 5
      else record { first = none; last = none; numentries = 0 };
}

abbrev seqs : ℕ → List ℕ
seqs l =
    if l == 0
    then 1 ∷ 2 ∷ []
    else if l == 5
    then 3 ∷ []
    else if l == 3
    then 4 ∷ []
    else if l == 7
    then 5 ∷ []
    else []

abbrev pages : ℕ → Page
pages q =
    if q == 1
    then record zero_page { in_dram = true; present = true; va = hugepage_size }
    else if q == 2
    then record zero_page { in_dram = true; present = true; va = 6291456; devdax_offset = 2097152 }
    else if q == 3
    then record zero_page { present = true; va = 4194304; naccesses = 4 }
    else if q == 4
    then record zero_page { in_dram = true; devdax_offset = 4194304 }
    else record zero_page { devdax_offset = 2097152 }

abbrev state : State (ℕ → Ptr)
state = record (Sample.state) { store = store; page = pages }

store-Rep : Rep store seqs
store-Rep = record {
  shape = λ l. ground arith;
  owned = λ q l h. ground arith;
  loose = λ q h. ground arith;
}

state-LruInv : LruInv machine 5 state
unfolding pt_to_pagesize
state-LruInv = record {
  well = record { seqs = seqs; rep = store-Rep };
  count = refl;
  small = omega arith;
  fits = λ q. ground arith;
  apart = λ q r a b d o. ground arith;
}

state-Fleet : Fleet 2 1 state
state-Fleet = record {
  well = record { seqs = seqs; rep = store-Rep };
  lined = λ q h. ground arith;
  fast = refl;
  slow = refl;
  few = omega arith;
  others = λ k a b. ground arith;
}

showing-Obeys : Obeys machine.os bits
showing-Obeys = record {
  shows = λ before va. refl;
  clears = λ before va. refl;
  flushes = λ before va len. refl;
}

kscand_iteration_lem_example : Returns (Swept bits state) (kscand_iteration machine state)
kscand_iteration_lem_example =
    kscand_iteration_lem machine bits showing-Obeys 2 1 state state-Fleet (omega arith)

shrink_caches_lem_example :
    Returns (Sorts (shrink_route bits 0 1 2) 0 seqs state) (shrink_caches machine 0 1 2 state)
shrink_caches_lem_example =
    shrink_caches_lem machine bits (λ before va. refl) 0 1 2 seqs state
      (record {
        rep = store-Rep;
        aligned = λ q h. ground arith;
        room = omega arith;
        small = λ k. ground arith;
      })

lru_allocate_page_lem_example :
    Returns (λ (p, s'). LruInv machine 5 s' × LruAllocated state p s') (lru_allocate_page state)
lru_allocate_page_lem_example = lru_allocate_page_lem state-LruInv (omega arith)

lru_remove_page_lem_example :
    Returns (λ s'. LruInv machine 5 s' × LruRemoved 3 state s') (lru_remove_page 3 state)
lru_remove_page_lem_example = lru_remove_page_lem state-LruInv 3 refl refl
