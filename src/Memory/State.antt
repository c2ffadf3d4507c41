-- ===== src/Memory/State.antt =====
-- The global variables of src/hemem.c, of the policies and of src/interpose.c, and the memory of
-- pages. Only one policy is compiled in; the variables of the others stay as they are.
use hemem.Prelude.{ℕ, Bool, List, Ptr, ℤ, update, ◌∷◌}
use hemem.Ring.{RingBuf}
use hemem.Fifo.{Store}
use hemem.Memory.Page.{Page, Counts}
use hemem.Memory.Kernel.{Call}

-- `user_hint_tier`, `user_hint_persistence`, `user_hint_priority`
pub record Hint : Type 0 where
  pub tier : ℤ
  pub persistence : ℤ
  pub priority : ℤ

-- The counters of src/hemem.c.
pub record Stats : Type 0 where
  pub mem_mmaped : ℕ
  pub mem_allocated : ℕ
  pub pages_allocated : ℕ
  pub pages_freed : ℕ
  pub missing_faults_handled : ℕ
  pub migrations_up : ℕ
  pub migrations_down : ℕ
  pub bytes_migrated : ℕ
  pub memsets : ℕ
  pub migration_waits : ℕ

-- The variables of src/pebs.c, with the two locals of `pebs_policy_thread` that outlive an
-- iteration of its loop.
pub record Pebs : Type 0 where
  pub hot_ring : RingBuf
  pub cold_ring : RingBuf
  pub free_page_ring : RingBuf
  pub global_clock : ℕ
  pub need_cool_dram : Bool
  pub need_cool_nvm : Bool
  pub start_dram_page : Ptr
  pub start_nvm_page : Ptr
  pub cur_cool_in_dram : Ptr
  pub cur_cool_in_nvm : Ptr
  pub hemem_pages_cnt : ℕ
  pub other_pages_cnt : ℕ
  pub total_pages_cnt : ℕ
  pub zero_pages_cnt : ℕ
  pub throttle_cnt : ℕ
  pub unthrottle_cnt : ℕ
  pub cools : ℕ
  pub accesses_cnt : Counts
  pub core_accesses_cnt : ℕ → ℕ

-- The variables of src/policies/lru.c beside the lists: the first `vanum` entries of `vas`.
pub record Lru : Type 0 where
  pub vas : List ℕ
  pub in_kscand : Bool
  pub lru_runs : ℕ

-- The counters of src/policies/simple.c.
pub record Simple : Type 0 where
  pub fastmem : ℕ
  pub slowmem : ℕ

pub record State (Table : Type 0) : Type 0 where
  pub store : Store
  pub page : ℕ → Page
  pub pages : Table
  pub pebs : Pebs
  pub lru : Lru
  pub simple : Simple
  pub hint : Hint
  pub stats : Stats
  -- a variable of each thread in the code: here that of the thread whose function runs
  pub internal_call : Bool
  pub is_init : Bool
  pub cr3_set : Bool
  pub cr3 : ℕ
  pub calls : List Call

module _ {Table : Type 0} where
  abbrev pub set_page : State Table → ℕ → Page → State Table
  set_page s p x = record s { page = update s.page p x }

  abbrev pub set_store : State Table → Store → State Table
  set_store s m = record s { store = m }

  abbrev pub set_internal : State Table → Bool → State Table
  set_internal s b = record s { internal_call = b }

  abbrev pub log : State Table → Call → State Table
  log s c = record s { calls = c ∷ s.calls }
