-- ===== src/Memory/Page.antt =====
-- src/hemem.h and src/pebs.h: pages, page types and access counts.
use hemem.Prelude.{ℕ, ◌/◌, ◌^◌, Bool, false, Option, none, some, ltb, if◌then◌else◌, add64}

abbrev pub basepage_size : ℕ
basepage_size = 4096

abbrev pub hugepage_size : ℕ
hugepage_size = 2097152

abbrev pub page_size : ℕ
page_size = hugepage_size

-- `enum pagetypes`
pub data PageType : Type 0 where
  hugep basep : PageType

unfoldable pub pt_to_pagesize : PageType → ℕ
pt_to_pagesize hugep = hugepage_size
pt_to_pagesize basep = basepage_size

-- `enum pbuftype`, an index of the arrays of counts
pub data PbufType : Type 0 where
  dramread nvmread : PbufType

-- `uint64_t accesses[NPBUFTYPES]`
pub record Counts : Type 0 where
  pub dram : ℕ
  pub nvm : ℕ

abbrev pub no_counts : Counts
no_counts = record { dram = 0; nvm = 0 }

abbrev pub count_of : PbufType → Counts → ℕ
count_of dramread a = a.dram
count_of nvmread a = a.nvm

abbrev pub count_up : PbufType → Counts → Counts
count_up dramread a = record a { dram = add64 a.dram 1 }
count_up nvmread a = record a { nvm = add64 a.nvm 1 }

abbrev pub total : Counts → ℕ
total a = add64 a.dram a.nvm

-- `a >> k` on 64 bits; C leaves a shift by 64 or more undefined, which is a fault here.
unfoldable pub shift : ℕ → ℕ → Option ℕ
shift a k = if ltb k 64 then some (a / 2 ^ k) else none

-- `struct hemem_page`, without the list links (see `Fifo`), the lock and the hash handle
pub record Page : Type 0 where
  pub va : ℕ
  pub devdax_offset : ℕ
  pub in_dram : Bool
  pub pt : PageType
  pub migrating : Bool
  pub present : Bool
  pub written : Bool
  pub hot : Bool
  pub naccesses : ℕ
  pub migrations_up : ℕ
  pub migrations_down : ℕ
  pub local_clock : ℕ
  pub ring_present : Bool
  pub accesses : Counts
  pub tot_accesses : Counts
  pub enforced : Bool

-- What `calloc` returns.
abbrev pub zero_page : Page
zero_page = record {
  va = 0;
  devdax_offset = 0;
  in_dram = false;
  pt = hugep;
  migrating = false;
  present = false;
  written = false;
  hot = false;
  naccesses = 0;
  migrations_up = 0;
  migrations_down = 0;
  local_clock = 0;
  ring_present = false;
  accesses = no_counts;
  tot_accesses = no_counts;
  enforced = false;
}
