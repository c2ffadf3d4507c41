-- ===== src/Lru/Lists.antt =====
-- src/policies/lru.c: the eight lists, named by their addresses.
use hemem.Prelude.{ℕ, Bool, ltb, ◌==◌, ◌||◌, if◌then◌else◌}

abbrev pub active_list : ℕ
active_list = 0

abbrev pub inactive_list : ℕ
inactive_list = 1

abbrev pub written_list : ℕ
written_list = 2

abbrev pub lru_dram_free_list : ℕ
lru_dram_free_list = 3

abbrev pub nvm_active_list : ℕ
nvm_active_list = 4

abbrev pub nvm_inactive_list : ℕ
nvm_inactive_list = 5

abbrev pub nvm_written_list : ℕ
nvm_written_list = 6

abbrev pub lru_nvm_free_list : ℕ
lru_nvm_free_list = 7

-- The free list of a tier, and the list that a page goes on when it is given out.
abbrev pub lru_free_list_of : Bool → ℕ
lru_free_list_of in_dram = if in_dram then lru_dram_free_list else lru_nvm_free_list

abbrev pub first_list_of : Bool → ℕ
first_list_of in_dram = if in_dram then active_list else nvm_active_list

abbrev pub is_lru_dram : ℕ → Bool
is_lru_dram l = ltb l nvm_active_list

abbrev pub is_lru_free : ℕ → Bool
is_lru_free l = (l == lru_dram_free_list) || (l == lru_nvm_free_list)
