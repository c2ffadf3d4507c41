-- ===== src/Pebs/Init.antt =====
-- src/pebs.c: `pebs_init`, without the log file, the sample buffers of the kernel and the threads.
-- The pages that `calloc` gives are numbered in the order of the calls, and the buffers of the
-- rings are arguments.
pub mod Invariant
pub mod Whole
use hemem.Prelude.{
  ℕ, zero, suc, ◌+◌, ◌*◌, ◌/◌, Bool, true, false, Option, none, some, ltb, ◌^◌, if◌then◌else◌, List,
  Ptr, ◌>>=◌, add64,
}
use hemem.Ring
use hemem.Memory.Page.{Page, hugep, page_size, zero_page}
use hemem.Memory.Kernel.{Env}
use hemem.Memory.State.{State, set_page}
use hemem.Pebs.Lists.{dram_free_list, nvm_free_list, enqueue}
use hemem.Pebs.Scan.{set_pebs}

-- `CAPACITY` of src/pebs.h
abbrev pub ring_capacity : ℕ
ring_capacity = 134217728

-- The page for frame `i` of a device that starts at `base`.
abbrev pub frame_page : Bool → ℕ → ℕ → Page
frame_page dram base i = record zero_page {
  devdax_offset = add64 (i * page_size) base;
  in_dram = dram;
  pt = hugep;
}

-- `i++` of an `int`, which C leaves undefined at the largest one.
abbrev pub next_int : ℕ → Option ℕ
next_int i = if ltb (i + 1) (2 ^ 31) then some (i + 1) else none

module _ {Table : Type 0} where
  -- The loop over the frames of a device from frame `i`, `left` of them; frame `i` is given to
  -- page `first + i`.
  unfoldable pub add_frames : Bool → ℕ → ℕ → ℕ → ℕ → ℕ → State Table → Option (State Table)
  add_frames dram list base first zero i s = some s
  add_frames dram list base first (suc left) i s = do
    let p = first + i
    s ← enqueue list p (set_page s p (frame_page dram base i))
    i ← next_int i
    add_frames dram list base first left i s

  unfoldable pub init_rings : List Ptr → List Ptr → List Ptr → State Table → Option (State Table)
  init_rings b1 b2 b3 s = do
    h ← Ring.init b1 ring_capacity
    c ← Ring.init b2 ring_capacity
    f ← Ring.init b3 ring_capacity
    some (set_pebs s (record (s.pebs) { hot_ring = h; cold_ring = c; free_page_ring = f }))

module _ (e : Env) where
  unfoldable pub pebs_init :
      List Ptr → List Ptr → List Ptr → State e.table.Table → Option (State e.table.Table)
  pebs_init b1 b2 b3 s = do
    let fast = e.dramsize / page_size
    let slow = e.nvmsize / page_size
    s ← add_frames true dram_free_list e.dramoffset 0 fast 0 s
    s ← add_frames false nvm_free_list e.nvmoffset fast slow 0 s
    init_rings b1 b2 b3 s
