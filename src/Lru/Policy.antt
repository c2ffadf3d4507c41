-- ===== src/Lru/Policy.antt =====
-- src/policies/lru.c: giving out pages and taking them back, and the thread that moves written and
-- active pages to DRAM (the build without LRU_SWAP).
use hemem.Prelude.{
  ℕ, zero, suc, Bool, true, false, not, Option, none, some, Ptr, ltb, if◌then◌else◌, assert, ◌>>=◌,
  ◌>>◌, add64,
}
use hemem.Memory.Page.{pt_to_pagesize}
use hemem.Memory.Kernel.{Env}
use hemem.Memory.State.{State, set_page}
use hemem.Hemem.Migrate.{hemem_wp_page, hemem_migrate_up, hemem_migrate_down}
use hemem.Pebs.Lists.{list_of, enqueue, dequeue, remove}
use hemem.Pebs.Migrate.{set_migrating}
use hemem.Pebs.Alloc.{set_present}
use hemem.Lru.Scan.{hemem_tlb_shootdown}
use hemem.Lru.Lists.{
  active_list, inactive_list, lru_dram_free_list, nvm_active_list, nvm_inactive_list,
  nvm_written_list, lru_nvm_free_list, lru_free_list_of,
}

-- KSWAPD_MIGRATE_RATE, 50 GiB
abbrev pub kswapd_migrate_rate : ℕ
kswapd_migrate_rate = 53687091200

module _ {Table : Type 0} where
  -- The fallback to NVM; `none` for "Out of memory".
  abbrev pub lru_allocate_nvm : Ptr → State Table → Option (ℕ × State Table)
  lru_allocate_nvm none s = none
  lru_allocate_nvm (some p) s = do
    assert (not (s.page p).in_dram)
    assert (not (s.page p).present)
    s ← enqueue nvm_active_list p (set_present p s)
    some (p, s)

  abbrev pub lru_allocate_dram : Ptr → State Table → Option (ℕ × State Table)
  lru_allocate_dram none s = do (o, s) ← dequeue lru_nvm_free_list s; lru_allocate_nvm o s
  lru_allocate_dram (some p) s = do
    assert (s.page p).in_dram
    assert (not (s.page p).present)
    s ← enqueue active_list p (set_present p s)
    some (p, s)

  unfoldable pub lru_allocate_page : State Table → Option (ℕ × State Table)
  lru_allocate_page s = do (o, s) ← dequeue lru_dram_free_list s; lru_allocate_dram o s

  abbrev pub clear_present : ℕ → State Table → State Table
  clear_present p s = set_page s p (record (s.page p) { present = false })

  -- `assert(list != NULL)` and what follows it.
  abbrev pub take_back : Ptr → ℕ → State Table → Option (State Table)
  take_back none p s = none
  take_back (some list) p s = do
    s ← remove list p s
    let s = clear_present p s
    enqueue (lru_free_list_of (s.page p).in_dram) p s

  -- The function waits while `in_kscand` is set, so it is a step only of a state where it is not.
  unfoldable pub lru_remove_page : ℕ → State Table → Option (State Table)
  lru_remove_page p s = do assert (not s.lru.in_kscand); take_back (list_of s p) p s

  -- The free page `np` takes over the frame that the migrated page left.
  abbrev pub lru_take_frame : ℕ → ℕ → Bool → State Table → State Table
  lru_take_frame np old_offset in_dram s =
      set_page s np
        (record (s.page np) { devdax_offset = old_offset; in_dram = in_dram; present = false })

-- How the tries for one page end: the page moved up, with its bytes, or `goto out`.
pub data Turn (Table : Type 0) : Type 0 where
  moved : ℕ → State Table → Turn Table
  full : State Table → Turn Table

module _ (e : Env) where
  abbrev S : Type 0
  S = State e.table.Table

  -- With ALLOC_LRU a migration of src/hemem.c ends with a flush of the page's translations.
  unfoldable pub lru_migrate_down : ℕ → ℕ → S → Option S
  lru_migrate_down p offset s = do
    s ← hemem_wp_page e p true (set_migrating p true s)
    s ← hemem_migrate_down e p offset s
    s ← hemem_tlb_shootdown e (s.page p).va s
    some (set_migrating p false s)

  unfoldable pub lru_migrate_up : ℕ → ℕ → S → Option S
  lru_migrate_up p offset s = do
    s ← hemem_wp_page e p true (set_migrating p true s)
    s ← hemem_migrate_up e p offset s
    s ← hemem_tlb_shootdown e (s.page p).va s
    some (set_migrating p false s)

  -- Page `p` goes up to the frame of the free page `np`.
  unfoldable pub swap_up : ℕ → ℕ → S → Option S
  unfolding lru_migrate_up
  swap_up p np s = do
    assert (not (s.page np).present)
    let old_offset = (s.page p).devdax_offset
    s ← lru_migrate_up p (s.page np).devdax_offset s
    let s = lru_take_frame np old_offset false s
    s ← enqueue active_list p s
    enqueue lru_nvm_free_list np s

  -- Page `cp` goes down to the frame of the free page `np`.
  unfoldable pub swap_down : ℕ → ℕ → S → Option S
  unfolding lru_migrate_down
  swap_down cp np s = do
    assert (not (s.page np).present)
    let old_offset = (s.page cp).devdax_offset
    s ← lru_migrate_down cp (s.page np).devdax_offset s
    let s = lru_take_frame np old_offset true s
    s ← enqueue nvm_inactive_list cp s
    enqueue lru_dram_free_list np s

  -- An inactive DRAM page goes down, then the next try follows; `assert(np != NULL)`.
  abbrev pub swap_out :
      (S → Option (Turn e.table.Table)) → ℕ → Ptr → S → Option (Turn e.table.Table)
  swap_out retry cp none s = none
  swap_out retry cp (some np) s = do s ← swap_down cp np s; retry s

  -- Without an inactive DRAM page, the page goes back to the list that it came from.
  abbrev pub find_room :
      (S → Option (Turn e.table.Table)) → ℕ → Bool → Ptr → S → Option (Turn e.table.Table)
  find_room retry p from_written_list none s = do
    s ← enqueue (if from_written_list then nvm_written_list else nvm_active_list) p s
    some (full s)
  find_room retry p from_written_list (some cp) s = do
    (np, s) ← dequeue lru_nvm_free_list s
    swap_out retry cp np s

  abbrev pub fill_frame :
      (S → Option (Turn e.table.Table)) → ℕ → Bool → Ptr → S → Option (Turn e.table.Table)
  fill_frame retry p from_written_list none s = do
    (cp, s) ← dequeue inactive_list s
    find_room retry p from_written_list cp s
  fill_frame retry p from_written_list (some np) s = do
    s ← swap_up p np s
    some (moved (pt_to_pagesize (s.page p).pt) s)

  -- `for (tries = 0; tries < 2; tries++)`: if the tries run out, nothing is added to the bytes.
  unfoldable pub swap_tries : ℕ → ℕ → Bool → S → Option (Turn e.table.Table)
  swap_tries zero p from_written_list s = some (moved 0 s)
  swap_tries (suc tries) p from_written_list s = do
    (np, s) ← dequeue lru_dram_free_list s
    fill_frame (swap_tries tries p from_written_list) p from_written_list np s

  -- The page of the next turn, and whether it is a written one.
  abbrev pub or_active : Ptr → S → Option (Ptr × Bool × S)
  or_active none s = do (p, s) ← dequeue nvm_active_list s; some (p, false, s)
  or_active (some p) s = some (some p, true, s)

  unfoldable pub next_written : S → Option (Ptr × Bool × S)
  next_written s = do (p, s) ← dequeue nvm_written_list s; or_active p s

  abbrev pub after_turn : (ℕ → S → Option S) → ℕ → Turn e.table.Table → Option S
  after_turn more bytes (moved n s) = more (add64 bytes n) s
  after_turn more bytes (full s) = some s

  abbrev pub kswapd_turn : (ℕ → S → Option S) → ℕ → Ptr → Bool → S → Option S
  kswapd_turn more bytes none from_written_list s = some s
  kswapd_turn more bytes (some p) from_written_list s = do
    r ← swap_tries 2 p from_written_list s
    after_turn more bytes r

  -- The loop on `migrated_bytes`, on fuel.
  unfoldable pub kswapd_loop : ℕ → ℕ → S → Option S
  unfolding swap_tries next_written
  kswapd_loop zero bytes s = if ltb bytes kswapd_migrate_rate then none else some s
  kswapd_loop (suc fuel) bytes s = elim (ltb bytes kswapd_migrate_rate) [
    | false ↦ some s
    | true ↦ do (p, w, s) ← next_written s; kswapd_turn (kswapd_loop fuel) bytes p w s
  ]

  -- The body of the loop of `lru_kswapd`.
  unfoldable pub kswapd_iteration : ℕ → S → Option S
  kswapd_iteration fuel s = do
    s ← kswapd_loop fuel 0 s
    some (record s { lru = record (s.lru) { lru_runs = add64 s.lru.lru_runs 1 } })
