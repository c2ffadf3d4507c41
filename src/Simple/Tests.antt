-- ===== src/Simple/Tests.antt =====
-- The policy of src/policies/simple.c on a small state.
use hemem.Prelude.{
  ℕ, true, none, some, List, [], ◌∷◌, Ptr, arith, ◌==◌, if◌then◌else◌, Returns, refl,
}
use hemem.Fifo.{Store}
use hemem.Fifo.Seg.{mk, unlinked}
use hemem.Fifo.Rep.{Rep}
use hemem.Memory.Page.{Page, zero_page}
use hemem.Memory.State.{State}
use hemem.Pebs.Sample
use hemem.Pebs.Sample.{machine}
use hemem.Simple.{simple_pagefault, simple_remove_page}
use hemem.Simple.Invariant.{SimpleInv, Gave}
use hemem.Simple.Give.{simple_pagefault_lem}
use hemem.Simple.TakeBack.{TookBack, simple_remove_page_lem}

-- Page 1 is in use in DRAM, page 2 is free there and page 3 in NVM.
abbrev store : Store
store = record {
  link = λ q.
      if q == 2 then mk none none (some 0) else if q == 3 then mk none none (some 1) else unlinked;
  fifo = λ l.
      if l == 0
      then Sample.one 2
      else if l == 1
      then Sample.one 3
      else record { first = none; last = none; numentries = 0 };
}

abbrev seqs : ℕ → List ℕ
seqs l = if l == 0 then 2 ∷ [] else if l == 1 then 3 ∷ [] else []

abbrev pages : ℕ → Page
pages q =
    if q == 1
    then record zero_page { in_dram = true; present = true }
    else if q == 2
    then record zero_page { in_dram = true; devdax_offset = 2097152 }
    else zero_page

abbrev state : State (ℕ → Ptr)
state = record (Sample.state) {
  store = store;
  page = pages;
  simple = record { fastmem = 2097152; slowmem = 0 };
}

store-Rep : Rep store seqs
store-Rep = record {
  shape = λ l. ground arith;
  owned = λ q l h. ground arith;
  loose = λ q h. ground arith;
}

state-SimpleInv : SimpleInv machine state
state-SimpleInv = record {
  well = record { seqs = seqs; rep = store-Rep };
  used = λ d. if d then 1 ∷ [] else [];
  distinct = λ d. ground arith;
  in_use = λ d q. ground arith;
  busy = λ q h. ground arith;
  tier = λ q l h. ground arith;
  bytes = λ d. ground arith;
  fits = λ d. ground arith;
  small = λ d. ground arith;
}

simple_pagefault_lem_example :
    Returns
      (λ (p, s'). SimpleInv machine s' × Gave true p state s')
      (simple_pagefault machine state)
simple_pagefault_lem_example = simple_pagefault_lem state-SimpleInv (omega arith)

simple_remove_page_lem_example :
    Returns (λ s'. SimpleInv machine s' × TookBack true 1 state s') (simple_remove_page 1 state)
simple_remove_page_lem_example = simple_remove_page_lem 1 state-SimpleInv refl
