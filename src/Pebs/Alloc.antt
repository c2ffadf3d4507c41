-- ===== src/Pebs/Alloc.antt =====
-- src/pebs.c: giving a page to a fault, and taking one back.
use hemem.Prelude.{
  ℕ, zero, suc, true, false, not, Option, none, some, Ptr, if◌then◌else◌, assert, ◌>>=◌, ◌>>◌, pos,
  negsuc, ◌==ℤ◌,
}
use hemem.Ring
use hemem.Memory.Page.{no_counts}
use hemem.Memory.Kernel.{Env}
use hemem.Memory.State.{State, set_page}
use hemem.Pebs.Lists.{
  dram_hot_list, dram_cold_list, dram_free_list, nvm_cold_list, nvm_free_list, enqueue, dequeue,
}
use hemem.Pebs.Migrate.{exchange_down}

module _ {Table : Type 0} where
  abbrev pub set_present : ℕ → State Table → State Table
  set_present p s = set_page s p (record (s.page p) { present = true })

  -- The fallback to NVM; `none` for "Out of memory".
  abbrev pub allocate_nvm : Ptr → State Table → Option (ℕ × State Table)
  allocate_nvm none s = none
  allocate_nvm (some p) s = do
    assert (not (s.page p).in_dram)
    assert (not (s.page p).present)
    s ← enqueue nvm_cold_list p (set_present p s)
    some (p, s)

  abbrev pub allocate_dram : Ptr → State Table → Option (ℕ × State Table)
  allocate_dram none s = do (o, s) ← dequeue nvm_free_list s; allocate_nvm o s
  allocate_dram (some p) s = do
    assert (s.page p).in_dram
    assert (not (s.page p).present)
    s ← enqueue dram_cold_list p (set_present p s)
    some (p, s)

  unfoldable pub pebs_allocate_page : State Table → Option (ℕ × State Table)
  pebs_allocate_page s = do (o, s) ← dequeue dram_free_list s; allocate_dram o s

  -- What a hinted allocation does with a free DRAM page.
  abbrev pub place_hinted : ℕ → State Table → Option (ℕ × State Table)
  place_hinted p s = do
    assert (s.page p).in_dram
    assert (not (s.page p).present)
    let s =
        set_page s p (record (s.page p) { present = true; enforced = s.hint.persistence ==ℤ pos 1 })
    s ← enqueue (if s.hint.priority ==ℤ pos 1 then dram_hot_list else dram_cold_list) p s
    some (p, record s { hint = record (s.hint) { tier = negsuc 0; priority = negsuc 0 } })

  abbrev pub pass_enforced :
      (State Table → Option (Ptr × State Table)) → Ptr → State Table → Option (Ptr × State Table)
  pass_enforced more none s = some (none, s)
  pass_enforced more (some p) s = elim (s.page p).enforced [
    | true ↦ more s
    | false ↦ some (some p, s)
  ]

  -- `do cold_page = dequeue_fifo(&dram_cold_list); while (cold_page != NULL && …->enforced);`
  -- The fuel bounds the rounds; each takes a page off the list.
  unfoldable pub skip_enforced : ℕ → State Table → Option (Ptr × State Table)
  skip_enforced zero s = none
  skip_enforced (suc fuel) s = do
    (o, s) ← dequeue dram_cold_list s
    pass_enforced (skip_enforced fuel) o s

  abbrev pub cold_page : State Table → Option (Ptr × State Table)
  cold_page s = skip_enforced (suc (s.store.fifo dram_cold_list).numentries) s

module _ (e : Env) where
  -- The hinted allocation once DRAM is full; `none` for "Out of memory".
  abbrev pub make_room : Ptr → Ptr → State e.table.Table → Option (ℕ × State e.table.Table)
  make_room (some cold) (some free) s = do
    s ← exchange_down e cold free s
    s ← enqueue nvm_cold_list cold s
    s ← enqueue dram_free_list free s
    (o, s) ← dequeue dram_free_list s
    elim o [ none ↦ none | some p ↦ place_hinted p s ]
  make_room none _ s = none
  make_room (some _) none s = none

  abbrev pub hinted_page : Ptr → State e.table.Table → Option (ℕ × State e.table.Table)
  hinted_page none s = do
    (cold, s) ← cold_page s
    (free, s) ← dequeue nvm_free_list s
    make_room cold free s
  hinted_page (some p) s = place_hinted p s

  unfoldable pub user_hinted_dram_pebs_allocate_page :
      State e.table.Table → Option (ℕ × State e.table.Table)
  user_hinted_dram_pebs_allocate_page s = do (o, s) ← dequeue dram_free_list s; hinted_page o s

  unfoldable pub pebs_pagefault : State e.table.Table → Option (ℕ × State e.table.Table)
  unfolding pebs_allocate_page user_hinted_dram_pebs_allocate_page
  pebs_pagefault s =
      if s.hint.tier ==ℤ pos 0 then user_hinted_dram_pebs_allocate_page s else pebs_allocate_page s

module _ {Table : Type 0} where
  -- `pebs_remove_page`, in its two parts: other threads may run between them. The first waits
  -- while the ring is full, so it is a step only of a state whose ring has room.
  unfoldable pub remove_request : ℕ → State Table → State Table
  remove_request p s = record s {
    pebs = record (s.pebs) { free_page_ring = Ring.put s.pebs.free_page_ring (some p) };
  }

  unfoldable pub remove_clear : ℕ → State Table → State Table
  remove_clear p s = set_page s p (record (s.page p) {
    present = false;
    hot = false;
    accesses = no_counts;
    tot_accesses = no_counts;
  })

  unfoldable pub pebs_remove_page : ℕ → State Table → State Table
  unfolding remove_request remove_clear
  pebs_remove_page p s = remove_clear p (remove_request p s)
