-- ===== src/Hemem/Fault.antt =====
-- src/hemem.c: `handle_missing_fault`, `handle_wp_fault` and the messages of `handle_fault`, in the
-- build with USE_DMA and without LLAMA, where a fault does not clear the frame that it maps.
pub mod Spec
pub mod Message
pub mod Events
use hemem.Prelude.{
  ℕ, ◌%◌, Bool, true, false, not, Option, none, some, Ptr, ◌==◌, if◌then◌else◌, assert, ◌>>=◌, ◌>>◌,
  add64,
}
use hemem.Memory.Page.{Page, pt_to_pagesize, hugepage_size}
use hemem.Memory.Kernel.{Call, mmap_fixed, uffd_register, answer, Env}
use hemem.Memory.State.{State, set_page, set_internal, log}
use hemem.Hemem.Migrate.{must}
use hemem.Hemem.Pages.{add_page, find_page}
use hemem.Hemem.Policy.{Policy}

-- Where a thread stands after `handle_wp_fault`: it is done, or still waits for the migration of a
-- page, looking at `migrating` again and again.
pub data Progress (A : Type 0) : Type 0 where
  done : A → Progress A
  waiting : ℕ → A → Progress A

module _ (e : Env) where
  abbrev S : Type 0
  S = State e.table.Table

  abbrev pub new_address : ℕ → Page → Page
  new_address va pg = record pg {
    va = va;
    migrating = false;
    migrations_up = 0;
    migrations_down = 0;
  }

  -- The part that a fault and the populating of a mapping share: map the frame of page `p` at the
  -- boundary, register it, and record the address. Only a fault insists that the kernel puts it
  -- there.
  unfoldable pub map_frame : Bool → ℕ → ℕ → S → Option S
  unfolding pt_to_pagesize
  map_frame insist boundary p s = do
    let pagesize = pt_to_pagesize (s.page p).pt
    let fd = if (s.page p).in_dram then e.dramfd else e.nvmfd
    let offset = (s.page p).devdax_offset
    let s = record s { stats = record (s.stats) { memsets = add64 s.stats.memsets 1 } }
    (newptr, s) ← must e (mmap_fixed boundary pagesize fd offset) s
    assert (if insist then newptr == boundary else true)
    (_, s) ← must e (uffd_register newptr pagesize) s
    let s = set_page s p (new_address newptr (s.page p))
    assert (not ((s.page p).va == 0))
    assert ((s.page p).va % hugepage_size == 0)
    some s

  -- One look at `page->migrating`.
  unfoldable pub wait_migration : ℕ → S → Progress S
  wait_migration p s = if (s.page p).migrating then waiting p s else done (set_internal s false)

  unfoldable pub handle_wp_fault : ℕ → S → Option (Progress S)
  unfolding find_page wait_migration
  handle_wp_fault boundary s = do
    let s = set_internal s true
    p ← find_page e boundary s
    some (
        wait_migration p (record s {
          stats = record (s.stats) { migration_waits = add64 s.stats.migration_waits 1 };
        }))

  module _ (policy : Policy e) where
    unfoldable pub handle_missing_fault : ℕ → S → Option S
    unfolding pt_to_pagesize
    handle_missing_fault boundary s = do
      let s = set_internal s true
      assert (not (boundary == 0))
      (p, s) ← policy.pagefault s
      s ← map_frame true boundary p s
      let size = pt_to_pagesize (s.page p).pt
      let s = record s {
        stats = record (s.stats) { mem_allocated = add64 s.stats.mem_allocated size };
      }
      s ← add_page e p s
      let s = record s {
        stats = record (s.stats) {
          missing_faults_handled = add64 s.stats.missing_faults_handled 1;
          pages_allocated = add64 s.stats.pages_allocated 1;
        };
      }
      some (set_internal s false)
