-- ===== src/Pebs/Invariant.antt =====
-- What holds of the six lists and their pages between the steps of the threads.
pub mod Steps
pub mod Move
pub mod Change
pub mod Alloc
pub mod Remove
pub mod Off
pub mod Cursor
pub mod Cooled
pub mod Cooling
pub mod Ahead
pub mod Rounds
pub mod Strolls
pub mod Visits
pub mod Tours
pub mod Walk
pub mod Freeing
pub mod Draining
pub mod Serving
pub mod Answered
pub mod Answering
pub mod Rings
pub mod Exchange
pub mod ExchangeRun
pub mod Onward
pub mod Passing
pub mod Leaving
pub mod Moving
pub mod Raising
pub mod Trying
pub mod Migration
pub mod Loop
pub mod Tidy
pub mod Iteration
pub mod NoFrame
pub mod Hinted
pub mod Sampling
pub mod Heard
pub mod Asking
pub mod HeardRun
pub mod Scanning
use hemem.Prelude.{ℕ, ◌+◌, ◌<◌, ◌^◌, ◌≡◌, Bool, true, false, some, Ptr, is_null, ltb, if◌then◌else◌}
use hemem.Fifo.{Store}
use hemem.Fifo.Moves.{IsWell, entries}
use hemem.Memory.Page.{Page, hugep, pt_to_pagesize}
use hemem.Memory.Kernel.{Env}
use hemem.Memory.State.{State}
use hemem.Hemem.Migrate.Spec.{OnDevice}
use hemem.Pebs.Lists.{
  dram_hot_list, dram_cold_list, dram_free_list, nvm_hot_list, nvm_cold_list, nvm_free_list,
  list_of, free_list_of, home, is_dram_list,
}

-- The number of pages on the six lists.
abbrev pub listed : Store → ℕ
listed m =
    entries m dram_hot_list
    + entries m dram_cold_list
    + entries m dram_free_list
    + entries m nvm_hot_list
    + entries m nvm_cold_list
    + entries m nvm_free_list

-- The frame of a page lies on the device of its tier.
abbrev pub Placed : Env → Page → Type 0
Placed e pg =
    OnDevice pg.devdax_offset (if pg.in_dram then e.dramoffset else e.nvmoffset)
      (if pg.in_dram then e.dramsize else e.nvmsize) (pt_to_pagesize pg.pt)

-- What the list that a page is on says of the page.
pub record Fits (e : Env) (list : Ptr) (pg : Page) : Type 0 where
  -- it is one of the six lists, and of the page's own tier
  pub known : (l : ℕ) → list ≡ some l → l < 6
  pub tier : (l : ℕ) → list ≡ some l → pg.in_dram ≡ is_dram_list l
  -- an allocated page is on the hot or the cold list, as its flag says
  pub live : pg.present ≡ true → list ≡ some (home pg.in_dram pg.hot)
  -- a hot page is allocated
  pub idle : pg.hot ≡ true → pg.present ≡ true
  -- a listed page has a frame of its tier
  pub placed : (l : ℕ) → list ≡ some l → Placed e pg
  pub huge : (l : ℕ) → list ≡ some l → pg.pt ≡ hugep

-- No two listed pages have the same frame.
abbrev pub Apart : {Table : Type 0} → State Table → Type 0
Apart s =
    (q r : ℕ)
    → is_null (list_of s q) ≡ false
    → is_null (list_of s r) ≡ false
    → (s.page q).in_dram ≡ (s.page r).in_dram
    → (s.page q).devdax_offset ≡ (s.page r).devdax_offset
    → q ≡ r

-- The six lists are well linked and hold `n` pages in all.
pub record Inv (e : Env) (n : ℕ) (s : State e.table.Table) : Type 0 where
  pub well : IsWell s.store
  pub count : listed s.store ≡ n
  pub small : n < 2 ^ 64
  pub fits : (q : ℕ) → Fits e (list_of s q) (s.page q)
  pub apart : Apart s
