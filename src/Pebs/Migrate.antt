-- ===== src/Pebs/Migrate.antt =====
-- src/pebs.c: the two migrations of the policy thread, and the exchange of frames with a free page
-- that follows each of them.
use hemem.Prelude.{ℕ, Bool, true, false, Option, some, if◌then◌else◌, ◌>>=◌}
use hemem.Memory.Page.{no_counts}
use hemem.Memory.Kernel.{Env}
use hemem.Memory.State.{State, set_page}
use hemem.Hemem.Migrate.{hemem_wp_page, hemem_migrate_up, hemem_migrate_down}

module _ {Table : Type 0} where
  abbrev pub set_migrating : ℕ → Bool → State Table → State Table
  set_migrating p b s = set_page s p (record (s.page p) { migrating = b })

  -- The free page `np` takes over the frame that the migrated page left, and is cleared.
  abbrev pub take_frame : ℕ → ℕ → Bool → State Table → State Table
  take_frame np old_offset in_dram s = set_page s np (record (s.page np) {
    devdax_offset = old_offset;
    in_dram = in_dram;
    present = false;
    hot = false;
    accesses = no_counts;
    tot_accesses = no_counts;
  })

module _ (e : Env) where
  unfoldable pub pebs_migrate_down : ℕ → ℕ → State e.table.Table → Option (State e.table.Table)
  pebs_migrate_down p offset s = if (s.page p).enforced then some s else do
    s ← hemem_wp_page e p true (set_migrating p true s)
    s ← hemem_migrate_down e p offset s
    some (set_migrating p false s)

  unfoldable pub pebs_migrate_up : ℕ → ℕ → State e.table.Table → Option (State e.table.Table)
  pebs_migrate_up p offset s = do
    s ← hemem_wp_page e p true (set_migrating p true s)
    s ← hemem_migrate_up e p offset s
    some (set_migrating p false s)

  -- Page `p` goes up into the frame of the free page `np`, which gets the frame of `p`.
  unfoldable pub exchange_up : ℕ → ℕ → State e.table.Table → Option (State e.table.Table)
  unfolding pebs_migrate_up
  exchange_up p np s = do
    let old_offset = (s.page p).devdax_offset
    s ← pebs_migrate_up p (s.page np).devdax_offset s
    some (take_frame np old_offset false s)

  unfoldable pub exchange_down : ℕ → ℕ → State e.table.Table → Option (State e.table.Table)
  unfolding pebs_migrate_down
  exchange_down p np s = do
    let old_offset = (s.page p).devdax_offset
    s ← pebs_migrate_down p (s.page np).devdax_offset s
    some (take_frame np old_offset true s)
