-- ===== src/Hemem/Migrate/Spec.antt =====
-- What a migration does when the kernel serves its calls.
use hemem.Prelude.{
  ℕ, ◌+◌, ◌%◌, ◌≤◌, ◌<◌, ◌^◌, ◌≡◌, Bool, true, false, some, ◌-◌, ◌∷◌, arith, ltb, leb, ◌==◌, add64,
  sub64,
}
use hemem.Memory.Page.{pt_to_pagesize, hugepage_size, hugep, basep, PageType}
use hemem.Memory.Kernel.{mmap_fixed, uffd_register, uffd_writeprotect, uffd_dma_copy, Serves, Env}
use hemem.Memory.State.{State, set_page}
use hemem.Hemem.Migrate.{inside, hemem_wp_page, hemem_migrate_up, hemem_migrate_down}

-- The frame at `offset` lies on the device, and no address of the device wraps round.
pub record OnDevice (offset devoffset devsize pagesize : ℕ) : Type 0 where
  pub above : devoffset ≤ offset
  pub below : offset + pagesize ≤ devoffset + devsize
  pub small : devoffset + devsize < 2 ^ 64

pub pagesize_pos : (pt : PageType) → 0 < pt_to_pagesize pt
unfolding pt_to_pagesize
pagesize_pos hugep = omega arith
pagesize_pos basep = omega arith

inside_lem :
    (offset devoffset devsize pagesize : ℕ)
    → 0 < pagesize
    → OnDevice offset devoffset devsize pagesize
    → inside offset devoffset devsize pagesize ≡ some tt
inside_lem offset devoffset devsize pagesize pos on =
    let e : sub64 offset devoffset ≡ offset - devoffset = omega arith in
    let a : ltb (sub64 offset devoffset) devsize ≡ true = rw e (ground arith) in
    let b : leb (add64 (sub64 offset devoffset) pagesize) devsize ≡ true = rw e (ground arith) in
    rw (a, b)

module _ (e : Env) (serves : Serves e.os) where
  abbrev St : Type 0
  St = State e.table.Table

  pub hemem_wp_page_lem :
      (p : ℕ) (protect : Bool) (s : St)
      → ((s.page p).va == 0) ≡ false
      → ((s.page p).va % hugepage_size == 0) ≡ true
      → hemem_wp_page e p protect s
        ≡ some (record s {
          internal_call = false;
          calls = uffd_writeprotect (s.page p).va (pt_to_pagesize (s.page p).pt) protect ∷ s.calls;
        })
  unfolding hemem_wp_page
  hemem_wp_page_lem p protect s nonnull aligned = simp (nonnull, aligned, serves)

  abbrev pub after_migrate_up : ℕ → ℕ → St → St
  after_migrate_up p off s =
      let size = pt_to_pagesize (s.page p).pt in
      let va = (s.page p).va in
      let old = (s.page p).devdax_offset in
      record (set_page s p (record (s.page p) {
        migrations_up = add64 (s.page p).migrations_up 1;
        devdax_offset = off;
        in_dram = true;
      })) {
        stats = record (s.stats) {
          migrations_up = add64 s.stats.migrations_up 1;
          bytes_migrated = add64 s.stats.bytes_migrated size;
        };
        internal_call = false;
        calls =
            uffd_register va size
            ∷ mmap_fixed va size e.dramfd off
            ∷ uffd_dma_copy (add64 e.nvm_devdax_mmap (sub64 old e.nvmoffset))
                (add64 e.dram_devdax_mmap (sub64 off e.dramoffset)) size
            ∷ s.calls;
      }

  abbrev pub after_migrate_down : ℕ → ℕ → St → St
  after_migrate_down p off s =
      let size = pt_to_pagesize (s.page p).pt in
      let va = (s.page p).va in
      let old = (s.page p).devdax_offset in
      record (set_page s p (record (s.page p) {
        migrations_down = add64 (s.page p).migrations_down 1;
        devdax_offset = off;
        in_dram = false;
      })) {
        stats = record (s.stats) {
          migrations_down = add64 s.stats.migrations_down 1;
          bytes_migrated = add64 s.stats.bytes_migrated size;
        };
        internal_call = false;
        calls =
            uffd_register va size
            ∷ mmap_fixed va size e.nvmfd off
            ∷ uffd_dma_copy (add64 e.dram_devdax_mmap (sub64 old e.dramoffset))
                (add64 e.nvm_devdax_mmap (sub64 off e.nvmoffset)) size
            ∷ s.calls;
      }

  -- `hemem_migrate_up` on an NVM page whose frame is on the NVM device, to a frame of the DRAM
  -- device: no assertion fails; the data is copied to the new frame before the page's address is
  -- mapped there, and the address is registered after that; the page then lies in DRAM at the new
  -- offset, both counts of migrations grow by one, and nothing else of the state changes.
  pub hemem_migrate_up_lem :
      (p off : ℕ) (s : St)
      → (s.page p).in_dram ≡ false
      → ((s.page p).va % hugepage_size == 0) ≡ true
      → OnDevice (s.page p).devdax_offset e.nvmoffset e.nvmsize (pt_to_pagesize (s.page p).pt)
      → OnDevice off e.dramoffset e.dramsize (pt_to_pagesize (s.page p).pt)
      → hemem_migrate_up e p off s ≡ some (after_migrate_up p off s)
  unfolding hemem_migrate_up
  hemem_migrate_up_lem p off s slow aligned from to = simp (
    slow,
    aligned,
    serves,
    inside_lem _ _ _ _ (pagesize_pos (s.page p).pt) from,
    inside_lem _ _ _ _ (pagesize_pos (s.page p).pt) to,
  )

  -- `hemem_migrate_down` on a DRAM page whose frame is on the DRAM device, to a frame of the NVM
  -- device: the same, the other way.
  pub hemem_migrate_down_lem :
      (p off : ℕ) (s : St)
      → (s.page p).in_dram ≡ true
      → ((s.page p).va % hugepage_size == 0) ≡ true
      → OnDevice (s.page p).devdax_offset e.dramoffset e.dramsize (pt_to_pagesize (s.page p).pt)
      → OnDevice off e.nvmoffset e.nvmsize (pt_to_pagesize (s.page p).pt)
      → hemem_migrate_down e p off s ≡ some (after_migrate_down p off s)
  unfolding hemem_migrate_down
  hemem_migrate_down_lem p off s fast aligned from to = simp (
    fast,
    aligned,
    serves,
    inside_lem _ _ _ _ (pagesize_pos (s.page p).pt) from,
    inside_lem _ _ _ _ (pagesize_pos (s.page p).pt) to,
  )
