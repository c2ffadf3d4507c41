-- ===== src/Simple.antt =====
-- src/policies/simple.c, the policy of the build with ALLOC_SIMPLE: pages are given out from DRAM
-- while it has free ones, then from NVM, and never move.
pub mod Invariant
mod Give
mod TakeBack
mod Tests
use hemem.Prelude.{
  ℕ, Bool, true, false, not, Option, none, some, Ptr, ltb, if◌then◌else◌, assert, ◌+◌, ◌/◌, ◌>>=◌,
  ◌>>◌, add64, sub64,
}
use hemem.Memory.Page.{page_size}
use hemem.Memory.Kernel.{Env}
use hemem.Memory.State.{State, set_page}
use hemem.Pebs.Lists.{enqueue, dequeue}
use hemem.Pebs.Init.{add_frames}

abbrev pub simple_dram_free : ℕ
simple_dram_free = 0

abbrev pub simple_nvm_free : ℕ
simple_nvm_free = 1

module _ {Table : Type 0} where
  abbrev pub set_fastmem : ℕ → State Table → State Table
  set_fastmem n s = record s { simple = record (s.simple) { fastmem = n } }

  abbrev pub set_slowmem : ℕ → State Table → State Table
  set_slowmem n s = record s { simple = record (s.simple) { slowmem = n } }

  abbrev pub mark : ℕ → Bool → State Table → State Table
  mark p b s = set_page s p (record (s.page p) { present = b })

  unfoldable pub simple_remove_page : ℕ → State Table → Option (State Table)
  simple_remove_page p s =
      if (s.page p).in_dram
      then (do
        s ← enqueue simple_dram_free p (mark p false s)
        some (set_fastmem (sub64 s.simple.fastmem page_size) s))
      else (do
        s ← enqueue simple_nvm_free p (mark p false s)
        some (set_slowmem (sub64 s.simple.slowmem page_size) s))

  abbrev pub give_fast : ℕ → State Table → Option (ℕ × State Table)
  give_fast p s = do
    assert (not (s.page p).present)
    some (p, set_fastmem (add64 s.simple.fastmem page_size) (mark p true s))

  -- `none`, for `page == NULL`, is the failed assertion.
  abbrev pub give_slow : Ptr → State Table → Option (ℕ × State Table)
  give_slow none s = none
  give_slow (some p) s = do
    assert (not (s.page p).present)
    some (p, set_slowmem (add64 s.simple.slowmem page_size) (mark p true s))

module _ (e : Env) where
  abbrev pub simple_fallback : State e.table.Table → Option (ℕ × State e.table.Table)
  simple_fallback s = do
    assert (ltb s.simple.slowmem e.nvmsize)
    (o, s) ← dequeue simple_nvm_free s
    give_slow o s

  abbrev pub simple_choose : Ptr → State e.table.Table → Option (ℕ × State e.table.Table)
  simple_choose none s = simple_fallback s
  simple_choose (some p) s = give_fast p s

  unfoldable pub simple_pagefault : State e.table.Table → Option (ℕ × State e.table.Table)
  simple_pagefault s = do (o, s) ← dequeue simple_dram_free s; simple_choose o s

  unfoldable pub simple_init : State e.table.Table → Option (State e.table.Table)
  simple_init s = do
    let fast = e.dramsize / page_size
    let slow = e.nvmsize / page_size
    s ← add_frames true simple_dram_free e.dramoffset 0 fast 0 s
    add_frames false simple_nvm_free e.nvmoffset fast slow 0 s
