-- ===== src/Hemem/Migrate.antt =====
-- src/hemem.c: moving a page between DRAM and NVM, and stopping writes to it. A failed assertion
-- is `none`, also where the code asserts after a failed call. Timing and logging are left out.
pub mod Spec
use hemem.Prelude.{
  ℕ, ◌+◌, ◌%◌, Bool, true, false, not, Option, none, some, ltb, leb, ◌==◌, if◌then◌else◌, assert,
  ◌>>=◌, ◌>>◌, add64, sub64,
}
use hemem.Memory.Page.{Page, pt_to_pagesize, hugepage_size}
use hemem.Memory.Kernel.{
  Call, mmap_fixed, uffd_register, uffd_writeprotect, uffd_dma_copy, Errno, ebadf, enoent, Reply,
  ok, fail, answer, Env,
}
use hemem.Memory.State.{State, set_page, set_internal, log}

-- `errno == EBADF || errno == ENOENT` after a call that returned less than 0
abbrev pub tolerated : Reply → Bool
tolerated (ok _) = true
tolerated (fail ebadf) = true
tolerated (fail enoent) = true
tolerated (fail _) = false

-- The bounds that both migrations assert of an offset on a device of the given size and place.
abbrev pub inside : ℕ → ℕ → ℕ → ℕ → Option (Unit {0})
inside offset devoffset devsize pagesize = do
  assert (ltb (sub64 offset devoffset) devsize)
  assert (leb (add64 (sub64 offset devoffset) pagesize) devsize)

module _ (e : Env) where
  abbrev S : Type 0
  S = State e.table.Table

  -- A system call whose failure ends the program.
  abbrev pub must : Call → S → Option (ℕ × S)
  must c s = do v ← answer (e.os s.calls c); some (v, log s c)

  unfoldable pub hemem_wp_page : ℕ → Bool → S → Option S
  unfolding pt_to_pagesize
  hemem_wp_page p protect s = do
    let addr = (s.page p).va
    let s = set_internal s true
    assert (not (addr == 0))
    assert (addr % hugepage_size == 0)
    let c = uffd_writeprotect addr (pt_to_pagesize (s.page p).pt) protect
    assert (tolerated (e.os s.calls c))
    some (set_internal (log s c) false)

  -- The part that both directions share: copy the page, map its address to the new place, and
  -- register it again.
  abbrev remap : ℕ → ℕ → ℕ → ℕ → ℕ → ℕ → S → Option S
  remap va pagesize old_addr new_addr fd new_offset s = do
    (_, s) ← must (uffd_dma_copy old_addr new_addr pagesize) s
    (newptr, s) ← must (mmap_fixed va pagesize fd new_offset) s
    assert (va % hugepage_size == 0)
    (_, s) ← must (uffd_register newptr pagesize) s
    some s

  unfoldable pub hemem_migrate_up : ℕ → ℕ → S → Option S
  unfolding pt_to_pagesize
  hemem_migrate_up p dram_offset s = do
    let s = set_internal s true
    assert (not (s.page p).in_dram)
    let pagesize = pt_to_pagesize (s.page p).pt
    let old = (s.page p).devdax_offset
    inside old e.nvmoffset e.nvmsize pagesize
    inside dram_offset e.dramoffset e.dramsize pagesize
    s ←
        remap (s.page p).va pagesize (add64 e.nvm_devdax_mmap (sub64 old e.nvmoffset))
          (add64 e.dram_devdax_mmap (sub64 dram_offset e.dramoffset)) e.dramfd dram_offset s
    let s = set_page s p (record (s.page p) {
      migrations_up = add64 (s.page p).migrations_up 1;
      devdax_offset = dram_offset;
      in_dram = true;
    })
    let s = record s {
      stats = record (s.stats) {
        migrations_up = add64 s.stats.migrations_up 1;
        bytes_migrated = add64 s.stats.bytes_migrated pagesize;
      };
    }
    some (set_internal s false)

  unfoldable pub hemem_migrate_down : ℕ → ℕ → S → Option S
  unfolding pt_to_pagesize
  hemem_migrate_down p nvm_offset s = do
    let s = set_internal s true
    assert (s.page p).in_dram
    let pagesize = pt_to_pagesize (s.page p).pt
    let old = (s.page p).devdax_offset
    inside old e.dramoffset e.dramsize pagesize
    inside nvm_offset e.nvmoffset e.nvmsize pagesize
    s ←
        remap (s.page p).va pagesize (add64 e.dram_devdax_mmap (sub64 old e.dramoffset))
          (add64 e.nvm_devdax_mmap (sub64 nvm_offset e.nvmoffset)) e.nvmfd nvm_offset s
    let s = set_page s p (record (s.page p) {
      migrations_down = add64 (s.page p).migrations_down 1;
      devdax_offset = nvm_offset;
      in_dram = false;
    })
    let s = record s {
      stats = record (s.stats) {
        migrations_down = add64 s.stats.migrations_down 1;
        bytes_migrated = add64 s.stats.bytes_migrated pagesize;
      };
    }
    some (set_internal s false)
